-- ===== src/Ring/Delivery.antt =====
-- Reading against the log: a consumer reads the log from its cursor on, in order and without gaps.
use mould_system_backend.Common.{
  ℕ, some, none, ◌%◌, ◌/◌, ◌^◌, ◌<◌, ◌≤◌, ◌≡◌, ◌∙◌, ap, arith, read_bytes,
}
use mould_system_backend.Ring.State.{Ring, RingSlotReservation, online}
use mould_system_backend.Ring.Slots.{slot_of, try_read_next_for_consumer}
use mould_system_backend.Ring.Invariant.{IsSafe}
use mould_system_backend.Ring.Log.{Log, Stores}

-- What an online consumer reads is the message of the log at its cursor, and it misses none: with
-- messages ahead of it, a read succeeds as soon as the slot of its cursor is committed.
pub read_delivers :
    (c : ℕ) (r : Ring) (log : Log)
    → IsSafe r
    → Stores r log
    → c < r.consumer_capacity
    → (r.consumers c).state ≡ online
    → (r.consumers c).read_sequence < r.next_sequence
    → ((r.slots (slot_of r (r.consumers c).read_sequence)).state_sequence % 2 ^ 32 ≡ 2)
    → (out : RingSlotReservation) × (try_read_next_for_consumer c r
        ≡ some (out, slot_of r (r.consumers c).read_sequence))
      × (out.sequence ≡ (r.consumers c).read_sequence)
      × (read_bytes r.payload_region out.payload_offset out.payload_size
          ≡ log (r.consumers c).read_sequence)
unfolding try_read_next_for_consumer
read_delivers c r log v st hc on ahead two =
    let q = (r.consumers c).read_sequence in
    let i = slot_of r q in
    let h = v.kept c q hc on (omega arith) ahead in
    let hi : i < r.slot_count = omega (arith, v.some_slots) in
    (
      record {
        sequence = (r.slots i).state_sequence / 2 ^ 32;
        payload_offset = (r.slots i).payload_offset;
        payload_size = (r.slots i).payload_size;
      },
      ground (arith, v.cursor c hc on, v.some_slots),
      h.0,
      st i hi two ∙ ap log h.0,
    )

-- A read that succeeds, whatever the state, returns the sequence of the consumer's cursor.
pub read_in_order :
    (c : ℕ) (r : Ring) {out : RingSlotReservation} {i : ℕ}
    → try_read_next_for_consumer c r ≡ some (out, i)
    → (out.sequence ≡ (r.consumers c).read_sequence)
      × ((r.consumers c).state ≡ online)
      × (i ≡ slot_of r (r.consumers c).read_sequence)
unfolding try_read_next_for_consumer
read_in_order c r h = ground arith

-- The control word keeps 32 bits of a sequence. So a consumer whose cursor has reached 2 ^ 32 never
-- reads again, whatever the slots hold.
pub read_stuck_past_32_bits :
    (c : ℕ) (r : Ring)
    → (r.slots (slot_of r (r.consumers c).read_sequence)).state_sequence < 2 ^ 64
    → 2 ^ 32 ≤ (r.consumers c).read_sequence
    → try_read_next_for_consumer c r ≡ none
unfolding try_read_next_for_consumer
read_stuck_past_32_bits c r word past = ground arith
