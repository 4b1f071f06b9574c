-- ===== src/Ring/Head.antt =====
-- The head only moves forward: no call on the ring takes a sequence back.
use mould_system_backend.Common.{ℕ, zero, suc, ◌+◌, ◌^◌, ◌≤◌, ◌<◌, ◌≡◌, inl, inr, refl, arith}
use mould_system_backend.Ring.State.{Ring, store_read_sequence}
use mould_system_backend.Ring.Slots.{reserve_publish_slot_ring_ordered, commit_slot, try_claim_slot}
use mould_system_backend.Ring.Consumers.{
  register_consumer, take_offline, unregister_consumer, add_consumer_online, acquire_pass,
  acquire_rounds, try_acquire_consumer_online_slot, advance_consumer_cursor, complete_consumer_slot,
  take_consumer_offline_if_owner,
}
use mould_system_backend.Ring.Metrics.{record_producer_block_duration}
use mould_system_backend.Ring.Safety.Reserve.{reserve_outcome}
use mould_system_backend.Ring.Safety.Consumers.{advance_outcome}
use mould_system_backend.Ring.Progress.{try_reclaim-Frame, reclaim-Frame, Frame-refl}

pub next_of_reserve :
    (size : ℕ) (r : Ring)
    → r.next_sequence < 2 ^ 32
    → r.next_sequence ≤ (reserve_publish_slot_ring_ordered size r).1.next_sequence
next_of_reserve size r small = ground (arith, reserve_outcome size r)

pub next_of_commit : (i : ℕ) (r : Ring) → (commit_slot i r).1.next_sequence ≡ r.next_sequence
unfolding commit_slot
next_of_commit i r = ground arith

pub next_of_claim : (i : ℕ) (r : Ring) → (try_claim_slot i r).1.next_sequence ≡ r.next_sequence
unfolding try_claim_slot
next_of_claim i r = ground arith

pub next_of_add :
    (pid c : ℕ) (r : Ring) → (add_consumer_online pid c r).1.next_sequence ≡ r.next_sequence
unfolding add_consumer_online register_consumer
next_of_add pid c r = ground arith

pub next_of_remove :
    (c : ℕ) (r : Ring) → (unregister_consumer c r).1.next_sequence ≡ r.next_sequence
unfolding unregister_consumer
next_of_remove c r = ground (arith, (reclaim-Frame (take_offline c r)).next)

pub next_of_take_offline :
    (c pid epoch : ℕ) (r : Ring)
    → (take_consumer_offline_if_owner c pid epoch r).1.next_sequence ≡ r.next_sequence
unfolding take_consumer_offline_if_owner
next_of_take_offline c pid epoch r = ground (arith, next_of_remove c r)

next_of_acquire_pass :
    (pid k i : ℕ) (r : Ring) → (acquire_pass pid k i r).1.next_sequence ≡ r.next_sequence
unfolding acquire_pass
next_of_acquire_pass pid zero i r = refl
next_of_acquire_pass pid (suc k) i r =
    ground (
      arith,
      next_of_add pid i r,
      next_of_acquire_pass pid k (i + 1) (add_consumer_online pid i r).1,
    )

next_of_acquire_rounds :
    (pid n : ℕ) (r : Ring) → (acquire_rounds pid n r).1.next_sequence ≡ r.next_sequence
unfolding acquire_rounds
next_of_acquire_rounds pid zero r = refl
next_of_acquire_rounds pid (suc n) r = ground (
  arith,
  next_of_acquire_pass pid r.consumer_capacity 0 r,
  next_of_acquire_rounds pid n (acquire_pass pid r.consumer_capacity 0 r).1,
)

pub next_of_acquire :
    (pid : ℕ) (r : Ring)
    → (try_acquire_consumer_online_slot pid r).1.next_sequence ≡ r.next_sequence
unfolding try_acquire_consumer_online_slot
next_of_acquire pid r = ground (arith, next_of_acquire_rounds pid 16 r)

pub next_of_blocked :
    (ns : ℕ) (r : Ring) → (record_producer_block_duration ns r).next_sequence ≡ r.next_sequence
unfolding record_producer_block_duration
next_of_blocked ns r = ground arith

pub next_of_advance :
    (advances c n : ℕ) (r : Ring)
    → (advance_consumer_cursor advances c n r).2.next_sequence ≡ r.next_sequence
next_of_advance advances c n r = elim (advance_outcome advances c n r) [
  | inl e ↦ rw e refl
  | inr (one, up, inl e) ↦ rw e refl
  | inr (one, up, inr e) ↦ rw e (reclaim-Frame (store_read_sequence r c n)).next
]

pub next_of_complete :
    (advances c i n : ℕ) (r : Ring)
    → (complete_consumer_slot advances c i n r).2.next_sequence ≡ r.next_sequence
unfolding complete_consumer_slot
next_of_complete advances c i n r =
    let q = (advance_consumer_cursor advances c n r).2 in
    ground (arith, next_of_advance advances c n r, (try_reclaim-Frame q i q (Frame-refl q)).next)
