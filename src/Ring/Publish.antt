-- ===== src/Ring/Publish.antt =====
-- common/comm/src/shm_ring_buffer.cpp: `PublishCommittedPayload`. The producer waits until a slot is
-- free; what other processes do while it yields is an argument, and the number of rounds is fuel.
use Prim.Native.String.{String}
use mould_system_backend.Common.{
  ℕ, zero, suc, Option, none, some, List, ◌+◌, ◌%◌, ◌||◌, ◌==◌, ltb, if◌then◌else◌, length, u32_mod,
  write_bytes,
}
use mould_system_backend.Ring.State.{Ring, RingSlotReservation}
use mould_system_backend.Ring.Slots.{
  per_slot_capacity, reserve_publish_slot_ring_ordered, commit_slot,
}
use mould_system_backend.Ring.Reclaim.{reclaim_committed_slots}
use mould_system_backend.Ring.Metrics.{
  RingHealthMetrics, observe_health_metrics, record_producer_block_duration,
}

pub record MessageEnvelope : Type 0 where
  pub channel : String
  pub sequence : ℕ
  pub delivery_id : ℕ
  pub payload : List ℕ

pub data PublishError : Type 0 where
  no_slots bad_payload_size exceeds_slot commit_failed : PublishError

-- `waiting` stands for a producer that is still in its loop when the fuel ends.
pub data PublishResult : Type 0 where
  waiting : PublishResult
  failed : PublishError → PublishResult
  published : MessageEnvelope → RingHealthMetrics → RingHealthMetrics → PublishResult

-- The rounds of the waiting producer. `others k` is what happens in the k-th yield.
unfoldable pub reserve_loop :
    (ℕ → Ring → Ring) → ℕ → ℕ → ℕ → Ring → Option (RingSlotReservation × ℕ) × Ring
reserve_loop others size k zero r = (none, r)
reserve_loop others size k (suc fuel) r =
    let (got, r1) = reserve_publish_slot_ring_ordered size r in
    elim got [
      | some x ↦ (some x, r1)
      | none ↦ reserve_loop others size (k + 1) fuel (others k (reclaim_committed_slots r1).1)
    ]

-- The bytes are copied, then the slot is committed.
unfoldable pub write_and_commit :
    String → List ℕ → RingHealthMetrics → RingSlotReservation → ℕ → Ring → PublishResult × Ring
write_and_commit channel payload before reservation slot_index r =
    let written = record r {
      payload_region = write_bytes r.payload_region reservation.payload_offset payload;
    } in
    let (done, r1) = commit_slot slot_index written in
    if done
    then (
      published
          (record {
            channel = channel;
            sequence = reservation.sequence;
            delivery_id = reservation.sequence;
            payload = payload;
          })
          before (observe_health_metrics r1),
      r1,
    )
    else (failed commit_failed, r1)

unfoldable pub after_reserve :
    String
    → List ℕ
    → ℕ
    → RingHealthMetrics
    → Option (RingSlotReservation × ℕ) × Ring
    → PublishResult × Ring
after_reserve channel payload elapsed before (none, r) = (waiting, r)
after_reserve channel payload elapsed before (some (reservation, slot_index), r) =
    write_and_commit channel payload before reservation slot_index
      (if ltb 0 elapsed then record_producer_block_duration elapsed r else r)

unfoldable pub publish_committed_payload :
    (ℕ → Ring → Ring) → ℕ → ℕ → String → List ℕ → Ring → PublishResult × Ring
publish_committed_payload others elapsed fuel channel payload r =
    if r.slot_count == 0
    then (failed no_slots, r)
    else if length payload == 0 || ltb r.payload_region_bytes (length payload)
    then (failed bad_payload_size, r)
    else if per_slot_capacity r == 0 || ltb (per_slot_capacity r) (length payload)
    then (failed exceeds_slot, r)
    else after_reserve channel payload elapsed (observe_health_metrics r)
        (reserve_loop others (length payload % u32_mod) 0 fuel r)
