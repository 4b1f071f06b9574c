-- ===== src/Ring/Slots.antt =====
-- common/comm/src/shm_ring_buffer.cpp: what a producer and a reader do to one slot. Each function
-- is one call that no other thread interrupts; a compare-exchange is written out with the branch
-- in which it fails. A pointer argument that the call fills is part of the result.
use mould_system_backend.Common.{
  ℕ, Bool, true, false, Option, none, some, ◌+◌, ◌-◌, ◌*◌, ◌/◌, ◌%◌, ◌||◌, not, max, ◌==◌, ltb,
  if◌then◌else◌, add_u64,
}
use mould_system_backend.Ring.Control.{
  empty, reserved, committed, slot_state_code, pack_slot_control, unpack_slot_state,
  unpack_slot_sequence,
}
use mould_system_backend.Ring.State.{
  Ring, RingSlotReservation, is_online, with_header, store_slot, store_control, cas_control,
  cas_next_sequence, is_slot_index_valid,
}

-- `payload_capacity / max(slot_count, 1)`.
abbrev pub per_slot_capacity : Ring → ℕ
per_slot_capacity r = r.payload_region_bytes / max r.slot_count 1

-- The physical slot of a sequence, `(s - 1) mod slot_count`.
abbrev pub slot_of : Ring → ℕ → ℕ
slot_of r sequence = (sequence - 1) % r.slot_count

-- The end of a reservation: the slot's fields and the caller's copy of them.
fill_reservation : ℕ → ℕ → ℕ → ℕ → Ring → Option (RingSlotReservation × ℕ) × Ring
fill_reservation s i offset size r = (
  some (record { sequence = s; payload_offset = offset; payload_size = size }, i),
  store_slot r i (record (r.slots i) { payload_size = size; payload_offset = offset }),
)

-- The two compare-exchanges: the slot first, then the sequence; the slot is given back when the
-- sequence was lost.
claim_slot : ℕ → ℕ → ℕ → ℕ → Ring → Option (RingSlotReservation × ℕ) × Ring
unfolding fill_reservation
claim_slot s i offset size r =
    let control = (r.slots i).state_sequence in
    let (won, r1) = cas_control r i control (pack_slot_control reserved s) in
    let (moved, r2) = cas_next_sequence r1 s (add_u64 s 1) in
    if won
    then if moved
      then fill_reservation s i offset size r2
      else (none, store_control r2 i (pack_slot_control empty 0))
    else (none, r1)

unfoldable pub reserve_publish_slot_ring_ordered :
    ℕ → Ring → Option (RingSlotReservation × ℕ) × Ring
unfolding claim_slot
reserve_publish_slot_ring_ordered payload_size r =
    let s = r.next_sequence in
    let i = slot_of r s in
    let offset = i * per_slot_capacity r in
    if payload_size == 0
      || r.slot_count == 0
      || (per_slot_capacity r == 0 || ltb (per_slot_capacity r) payload_size)
      || s == 0
      || ltb r.payload_region_bytes (offset + payload_size)
      || not (unpack_slot_state (r.slots i).state_sequence == slot_state_code empty)
    then (none, r)
    else claim_slot s i offset payload_size r

unfoldable pub commit_slot : ℕ → Ring → Bool × Ring
unfolding is_slot_index_valid
commit_slot i r =
    let expected = (r.slots i).state_sequence in
    let desired = pack_slot_control committed (unpack_slot_sequence expected) in
    let (won, r1) = cas_control r i expected desired in
    if not (is_slot_index_valid i r) || not (unpack_slot_state expected == slot_state_code reserved)
    then (false, r)
    else if won
    then (
      true,
      with_header r1 (record r1.header { committed_slots = add_u64 r1.committed_slots 1 }),
    )
    else (false, r1)

-- Without interference the two loads of the control word agree, so the first attempt decides.
unfoldable pub try_read_committed : ℕ → Ring → Option RingSlotReservation
unfolding is_slot_index_valid
try_read_committed i r =
    let slot = r.slots i in
    if not (is_slot_index_valid i r)
      || not (unpack_slot_state slot.state_sequence == slot_state_code committed)
    then none
    else some (record {
      sequence = unpack_slot_sequence slot.state_sequence;
      payload_offset = slot.payload_offset;
      payload_size = slot.payload_size;
    })

-- The check that ends `TryReadNextForConsumer`: the slot must hold the expected sequence.
expect_sequence : ℕ → ℕ → Option RingSlotReservation → Option (RingSlotReservation × ℕ)
expect_sequence expected i none = none
expect_sequence expected i (some out) = if out.sequence == expected then some (out, i) else none

unfoldable pub try_read_next_for_consumer : ℕ → Ring → Option (RingSlotReservation × ℕ)
unfolding expect_sequence try_read_committed
try_read_next_for_consumer c r =
    let expected = (r.consumers c).read_sequence in
    let i = slot_of r expected in
    if not (ltb c r.consumer_capacity)
      || not (is_online (r.consumers c).state)
      || expected == 0
      || r.slot_count == 0
    then none
    else expect_sequence expected i (try_read_committed i r)

-- Compete mode: `claimed` goes from 0 to 1 for one caller.
unfoldable pub try_claim_slot : ℕ → Ring → Bool × Ring
unfolding is_slot_index_valid
try_claim_slot i r =
    if not (is_slot_index_valid i r)
    then (false, r)
    else if (r.slots i).claimed == 0
    then (true, store_slot r i (record (r.slots i) { claimed = 1 }))
    else (false, r)

unfoldable pub reset_slot : ℕ → Ring → Bool × Ring
unfolding is_slot_index_valid
reset_slot i r = if not (is_slot_index_valid i r) then (false, r) else (
  true,
  store_slot r i (record (r.slots i) {
    payload_size = 0;
    payload_offset = 0;
    state_sequence = pack_slot_control empty 0;
    claimed = 0;
  }),
)
