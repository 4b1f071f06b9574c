-- ===== src/Ring/Safety/Consumers.antt =====
-- Joining, leaving and moving a cursor keep the ring's invariant.
use mould_system_backend.Common.{ℕ, zero, suc, ◌+◌, ◌≤◌, ◌<◌, ◌≡◌, ◌⊎◌, inl, inr, arith}
use mould_system_backend.Ring.State.{Ring, offline, store_read_sequence, store_consumer}
use mould_system_backend.Ring.Reclaim.{reclaim_committed_slots}
use mould_system_backend.Ring.Consumers.{
  register_consumer, take_offline, unregister_consumer, add_consumer_online, acquire_pass,
  acquire_rounds, try_acquire_consumer_online_slot, advance_consumer_cursor, complete_consumer_slot,
  take_consumer_offline_if_owner,
}
use mould_system_backend.Ring.Invariant.{IsSafe}
use mould_system_backend.Ring.Safety.Reclaim.{reclaim_committed_slots-IsSafe, try_reclaim-IsSafe}

-- A consumer that joins at the head keeps the invariant: it has nothing to read yet.
pub register_consumer-IsSafe :
    (pid c : ℕ) (r : Ring) → IsSafe r → IsSafe (register_consumer pid c r.next_sequence r).1
unfolding register_consumer
register_consumer-IsSafe pid c r v = record {
  some_slots = ground (arith, v.some_slots);
  head_pos = ground (arith, v.head_pos);
  head_small = ground (arith, v.head_small);
  own = λ i hi occ. ground (arith, v.own i);
  shard = λ i hi occ. ground (arith, v.shard i);
  cursor = λ d hd on. ground (arith, v.cursor d, v.head_pos);
  kept = λ d q hd on lo hi. ground (arith, v.kept d q);
}

pub add_consumer_online-IsSafe :
    (pid c : ℕ) (r : Ring) → IsSafe r → IsSafe (add_consumer_online pid c r).1
unfolding add_consumer_online
add_consumer_online-IsSafe pid c r v =
    ground (arith, register_consumer-IsSafe pid c r v, v.head_pos)

take_offline-IsSafe : (c : ℕ) (r : Ring) → IsSafe r → IsSafe (take_offline c r)
take_offline-IsSafe c r v = record {
  some_slots = v.some_slots;
  head_pos = v.head_pos;
  head_small = v.head_small;
  own = v.own;
  shard = v.shard;
  cursor = λ d hd on. ground (arith, v.cursor d hd);
  kept = λ d q hd on lo hi. ground (arith, v.kept d q hd);
}

mark_offline-IsSafe :
    (c : ℕ) (r : Ring)
    → IsSafe r
    → IsSafe (store_consumer r c (record (r.consumers c) { state = offline }))
mark_offline-IsSafe c r v = record {
  some_slots = v.some_slots;
  head_pos = v.head_pos;
  head_small = v.head_small;
  own = v.own;
  shard = v.shard;
  cursor = λ d hd on. ground (arith, v.cursor d hd);
  kept = λ d q hd on lo hi. ground (arith, v.kept d q hd);
}

pub unregister_consumer-IsSafe : (c : ℕ) (r : Ring) → IsSafe r → IsSafe (unregister_consumer c r).1
unfolding unregister_consumer
unregister_consumer-IsSafe c r v = ground (
  arith,
  reclaim_committed_slots-IsSafe (take_offline c r) (take_offline-IsSafe c r v),
  mark_offline-IsSafe c r v,
)

moved-IsSafe :
    (c next : ℕ) (r : Ring)
    → IsSafe r
    → (r.consumers c).read_sequence ≤ next
    → 1 ≤ next
    → next ≤ r.next_sequence
    → IsSafe (store_read_sequence r c next)
moved-IsSafe c next r v up lo hi = record {
  some_slots = v.some_slots;
  head_pos = v.head_pos;
  head_small = v.head_small;
  own = v.own;
  shard = v.shard;
  cursor = λ d hd on. ground (arith, v.cursor d hd);
  kept = λ d q hd on ge lt. ground (arith, v.kept d q hd);
}

-- An advance leaves the ring alone, or moves the cursor forward and perhaps reclaims.
pub advance_outcome :
    (advances c next : ℕ) (r : Ring)
    → ((advance_consumer_cursor advances c next r).2 ≡ r)
      ⊎ ((1 ≤ next)
          × ((r.consumers c).read_sequence < next)
          × (((advance_consumer_cursor advances c next r).2 ≡ store_read_sequence r c next)
              ⊎ ((advance_consumer_cursor advances c next r).2
                  ≡ (reclaim_committed_slots (store_read_sequence r c next)).1)))
unfolding advance_consumer_cursor
advance_outcome advances c next r = ground arith

-- A cursor that moves no further than the head keeps the invariant.
pub advance_consumer_cursor-IsSafe :
    (advances c next : ℕ) (r : Ring)
    → IsSafe r
    → next ≤ r.next_sequence
    → IsSafe (advance_consumer_cursor advances c next r).2
advance_consumer_cursor-IsSafe advances c next r v hi = elim (advance_outcome advances c next r) [
  | inl e ↦ rw e v
  | inr (one, up, inl e) ↦ rw e (moved-IsSafe c next r v (omega arith) one hi)
  | inr (one, up, inr e) ↦
      rw e (reclaim_committed_slots-IsSafe _ (moved-IsSafe c next r v (omega arith) one hi))
]

pub complete_consumer_slot-IsSafe :
    (advances c i next : ℕ) (r : Ring)
    → IsSafe r
    → next ≤ r.next_sequence
    → IsSafe (complete_consumer_slot advances c i next r).2
unfolding complete_consumer_slot
complete_consumer_slot-IsSafe advances c i next r v hi = ground (
  arith,
  advance_consumer_cursor-IsSafe advances c next r v hi,
  try_reclaim-IsSafe i (advance_consumer_cursor advances c next r).2,
)

pub take_consumer_offline_if_owner-IsSafe :
    (c pid epoch : ℕ) (r : Ring)
    → IsSafe r
    → IsSafe (take_consumer_offline_if_owner c pid epoch r).1
unfolding take_consumer_offline_if_owner
take_consumer_offline_if_owner-IsSafe c pid epoch r v =
    ground (arith, unregister_consumer-IsSafe c r v)

acquire_pass-IsSafe : (pid k i : ℕ) (r : Ring) → IsSafe r → IsSafe (acquire_pass pid k i r).1
unfolding acquire_pass
acquire_pass-IsSafe pid zero i r v = v
acquire_pass-IsSafe pid (suc k) i r v = ground (
  arith,
  add_consumer_online-IsSafe pid i r v,
  acquire_pass-IsSafe pid k (i + 1) (add_consumer_online pid i r).1
      (add_consumer_online-IsSafe pid i r v),
)

acquire_rounds-IsSafe : (pid n : ℕ) (r : Ring) → IsSafe r → IsSafe (acquire_rounds pid n r).1
unfolding acquire_rounds
acquire_rounds-IsSafe pid zero r v = v
acquire_rounds-IsSafe pid (suc n) r v =
    let w = acquire_pass-IsSafe pid r.consumer_capacity 0 r v in
    ground (arith, w, acquire_rounds-IsSafe pid n (acquire_pass pid r.consumer_capacity 0 r).1 w)

pub try_acquire-IsSafe :
    (pid : ℕ) (r : Ring) → IsSafe r → IsSafe (try_acquire_consumer_online_slot pid r).1
unfolding try_acquire_consumer_online_slot
try_acquire-IsSafe pid r v = ground (arith, acquire_rounds-IsSafe pid 16 r v)
