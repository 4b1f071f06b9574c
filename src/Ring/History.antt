-- ===== src/Ring/History.antt =====
-- Histories: the calls that the processes of the system make on one ring, in any order. Reserving
-- needs a sequence left in 32 bits. A consumer completes what it has read before, under the sequence
-- after the one it read, as `shm_bus_runtime.cpp` does; other calls may come in between.
-- Outside the tests `RegisterConsumer` is called through `AddConsumerOnline` only, and `ResetSlot` is
-- not called at all.
use native.Mathlib.Nat.{add-mod_right}
use mould_system_backend.Common.{
  ℕ, ℤ, some, ◌+◌, ◌-◌, ◌%◌, ◌^◌, ◌≤◌, ◌<◌, ◌≡◌, ◌∙◌, ap, arith, dec_lt, u64_mod,
}
use mould_system_backend.Ring.State.{Ring, RingSlotReservation, online}
use mould_system_backend.Ring.Slots.{
  slot_of, reserve_publish_slot_ring_ordered, commit_slot, try_claim_slot,
  try_read_next_for_consumer,
}
use mould_system_backend.Ring.Reclaim.{try_reclaim_slot_if_safe, reclaim_committed_slots}
use mould_system_backend.Ring.Consumers.{
  add_consumer_online, unregister_consumer, try_acquire_consumer_online_slot,
  advance_consumer_cursor, complete_consumer_slot, take_consumer_offline_if_owner,
}
use mould_system_backend.Ring.Metrics.{record_producer_block_duration}
use mould_system_backend.Ring.Layout.{initialize, compute_ring_layout_size_bytes}
use mould_system_backend.Ring.Head.{
  next_of_reserve, next_of_commit, next_of_claim, next_of_add, next_of_remove, next_of_acquire,
  next_of_take_offline, next_of_blocked, next_of_advance, next_of_complete,
}
use mould_system_backend.Ring.Invariant.{IsSafe}
use mould_system_backend.Ring.Safety.Reserve.{reserve-IsSafe, commit-IsSafe}
use mould_system_backend.Ring.Safety.Reclaim.{try_reclaim-IsSafe, reclaim_committed_slots-IsSafe}
use mould_system_backend.Ring.Safety.Consumers.{
  add_consumer_online-IsSafe, unregister_consumer-IsSafe, try_acquire-IsSafe,
  advance_consumer_cursor-IsSafe, complete_consumer_slot-IsSafe,
  take_consumer_offline_if_owner-IsSafe,
}
use mould_system_backend.Ring.Progress.{try_reclaim-Frame, reclaim-Frame, Frame-refl}
use mould_system_backend.Ring.Safety.Layout.{initialize-IsSafe}

-- One call that changes the ring.
pub data Step : Ring → Ring → Type 0 where
  reserve :
      (size : ℕ) (r : Ring)
      → r.next_sequence < 2 ^ 32
      → Step r (reserve_publish_slot_ring_ordered size r).1
  write : (region : ℕ → ℕ) (r : Ring) → Step r (record r { payload_region = region })
  commit : (i : ℕ) (r : Ring) → Step r (commit_slot i r).1
  claim : (i : ℕ) (r : Ring) → Step r (try_claim_slot i r).1
  reclaim : (i : ℕ) (r : Ring) → Step r (try_reclaim_slot_if_safe i r).1
  reclaim_all : (r : Ring) → Step r (reclaim_committed_slots r).1
  add : (pid c : ℕ) (r : Ring) → Step r (add_consumer_online pid c r).1
  remove : (c : ℕ) (r : Ring) → Step r (unregister_consumer c r).1
  acquire : (pid : ℕ) (r : Ring) → Step r (try_acquire_consumer_online_slot pid r).1
  take_offline :
      (c pid epoch : ℕ) (r : Ring) → Step r (take_consumer_offline_if_owner c pid epoch r).1
  blocked : (ns : ℕ) (r : Ring) → Step r (record_producer_block_duration ns r)

-- The rings that a history leads to. `complete` and `advance` come at any time after their read.
pub data Reach : Ring → Ring → Type 0 where
  here : (s : Ring) → Reach s s
  next : {s r t : Ring} → Reach s r → Step r t → Reach s t
  advance :
      {s q r : Ring} {out : RingSlotReservation} {i : ℕ} (advances c : ℕ)
      → Reach s q
      → try_read_next_for_consumer c q ≡ some (out, i)
      → Reach q r
      → Reach s (advance_consumer_cursor advances c (out.sequence + 1) r).2
  complete :
      {s q r : Ring} {out : RingSlotReservation} {i : ℕ} (advances c : ℕ)
      → Reach s q
      → try_read_next_for_consumer c q ≡ some (out, i)
      → Reach q r
      → Reach s (complete_consumer_slot advances c i (out.sequence + 1) r).2

-- A slot that a read returns holds a sequence before the head.
read-before_head :
    (c : ℕ) (r : Ring) {out : RingSlotReservation} {i : ℕ}
    → IsSafe r
    → try_read_next_for_consumer c r ≡ some (out, i)
    → out.sequence + 1 ≤ r.next_sequence
unfolding try_read_next_for_consumer
read-before_head c r {out} {i} v h =
    ground (arith, v.some_slots, v.own (slot_of r (r.consumers c).read_sequence))

claim-IsSafe : (i : ℕ) (r : Ring) → IsSafe r → IsSafe (try_claim_slot i r).1
unfolding try_claim_slot
claim-IsSafe i r v = record {
  some_slots = ground (arith, v.some_slots);
  head_pos = ground (arith, v.head_pos);
  head_small = ground (arith, v.head_small);
  own = λ j hj occ. ground (arith, v.own j);
  shard = λ j hj occ. ground (arith, v.shard j);
  cursor = λ c hc on. ground (arith, v.cursor c);
  kept = λ c q hc on lo hi. ground (arith, v.kept c q);
}

write-IsSafe : (m : ℕ → ℕ) (r : Ring) → IsSafe r → IsSafe (record r { payload_region = m })
write-IsSafe m r v = record {
  some_slots = v.some_slots;
  head_pos = v.head_pos;
  head_small = v.head_small;
  own = v.own;
  shard = v.shard;
  cursor = v.cursor;
  kept = v.kept;
}

blocked-IsSafe : (ns : ℕ) (r : Ring) → IsSafe r → IsSafe (record_producer_block_duration ns r)
unfolding record_producer_block_duration
blocked-IsSafe ns r v = record {
  some_slots = v.some_slots;
  head_pos = v.head_pos;
  head_small = v.head_small;
  own = v.own;
  shard = v.shard;
  cursor = v.cursor;
  kept = v.kept;
}

-- Every call keeps the invariant: no call frees or overwrites a slot that an online consumer has
-- still to read, and no cursor passes the head.
pub Step-IsSafe : {r t : Ring} → Step r t → IsSafe r → IsSafe t
Step-IsSafe (reserve size r small) v = reserve-IsSafe size r v small
Step-IsSafe (write region r) v = write-IsSafe region r v
Step-IsSafe (commit i r) v = commit-IsSafe i r v
Step-IsSafe (claim i r) v = claim-IsSafe i r v
Step-IsSafe (reclaim i r) v = try_reclaim-IsSafe i r v
Step-IsSafe (reclaim_all r) v = reclaim_committed_slots-IsSafe r v
Step-IsSafe (add pid c r) v = add_consumer_online-IsSafe pid c r v
Step-IsSafe (remove c r) v = unregister_consumer-IsSafe c r v
Step-IsSafe (acquire pid r) v = try_acquire-IsSafe pid r v
Step-IsSafe (take_offline c pid epoch r) v = take_consumer_offline_if_owner-IsSafe c pid epoch r v
Step-IsSafe (blocked ns r) v = blocked-IsSafe ns r v

-- No call takes a sequence back.
Step-next_le : {r t : Ring} → Step r t → r.next_sequence ≤ t.next_sequence
Step-next_le (reserve size r small) = next_of_reserve size r small
Step-next_le (write region r) = omega arith
Step-next_le (commit i r) = omega (arith, next_of_commit i r)
Step-next_le (claim i r) = omega (arith, next_of_claim i r)
Step-next_le (reclaim i r) = omega (arith, (try_reclaim-Frame r i r (Frame-refl r)).next)
Step-next_le (reclaim_all r) = omega (arith, (reclaim-Frame r).next)
Step-next_le (add pid c r) = omega (arith, next_of_add pid c r)
Step-next_le (remove c r) = omega (arith, next_of_remove c r)
Step-next_le (acquire pid r) = omega (arith, next_of_acquire pid r)
Step-next_le (take_offline c pid epoch r) = omega (arith, next_of_take_offline c pid epoch r)
Step-next_le (blocked ns r) = omega (arith, next_of_blocked ns r)

-- Histories keep the invariant and move the head forward only.
Reach-IsSafe : {s t : Ring} → IsSafe s → Reach s t → IsSafe t × (s.next_sequence ≤ t.next_sequence)
Reach-IsSafe v (here s) = (v, omega arith)
Reach-IsSafe v (next h st) =
    let (w, le) = Reach-IsSafe v h in (Step-IsSafe st w, omega (arith, Step-next_le st))
Reach-IsSafe v (advance {s} {q} {r} {out} {i} advances c h read after) =
    let (w, le) = Reach-IsSafe v h in
    let (u, le') = Reach-IsSafe w after in
    (
      advance_consumer_cursor-IsSafe advances c (out.sequence + 1) r u
          (omega (arith, read-before_head c q w read)),
      omega (arith, next_of_advance advances c (out.sequence + 1) r),
    )
Reach-IsSafe v (complete {s} {q} {r} {out} {i} advances c h read after) =
    let (w, le) = Reach-IsSafe v h in
    let (u, le') = Reach-IsSafe w after in
    (
      complete_consumer_slot-IsSafe advances c i (out.sequence + 1) r u
          (omega (arith, read-before_head c q w read)),
      omega (arith, next_of_complete advances c i (out.sequence + 1) r),
    )

-- From `Initialize` on, the invariant holds after any history of the calls that the processes make, in
-- any order, in which a sequence is reserved only while fewer than 2 ^ 32 have been handed out, and
-- a consumer completes or advances only past a message that it has read before. `Initialize` has
-- succeeded on a layout that fits into 64 bits.
pub history-IsSafe :
    (eventfd : ℕ → ℤ) (total n c b : ℕ) {r t : Ring}
    → initialize eventfd total n c b ≡ some r
    → compute_ring_layout_size_bytes n c + b < u64_mod
    → Reach r t
    → IsSafe t
history-IsSafe eventfd total n c b start fits h =
    (Reach-IsSafe (initialize-IsSafe eventfd total n c b start fits).0 h).0

lap_around : (c n : ℕ) → 1 ≤ c → (c + n - 1) % n ≡ (c - 1) % n
lap_around c n h = ap (λ (k : ℕ). k % n) (omega arith) ∙ add-mod_right (c - 1) n

IsSafe-lap :
    (c : ℕ) (r : Ring)
    → IsSafe r
    → c < r.consumer_capacity
    → (r.consumers c).state ≡ online
    → r.next_sequence ≤ (r.consumers c).read_sequence + r.slot_count
IsSafe-lap c r v hc on =
    let q = (r.consumers c).read_sequence in
    elim (dec_lt (q + r.slot_count) r.next_sequence) [
      | no ge ↦ omega arith
      | yes lt ↦
          let old = v.kept c q hc on (omega arith) (omega arith) in
          let new = v.kept c (q + r.slot_count) hc on (omega arith) lt in
          let same : (r.slots (slot_of r (q + r.slot_count))).state_sequence
              ≡ (r.slots (slot_of r q)).state_sequence =
            ap (λ (i : ℕ). (r.slots i).state_sequence)
              (lap_around q r.slot_count (v.cursor c hc on).0) in
          absurd (omega (arith, v.some_slots, old.0, rw same at (new.0)))
    ]

-- After any history of the calls that the processes make, from an `Initialize` on that has succeeded
-- on a layout that fits into 64 bits, no online consumer is more than one lap behind the head, so that
-- no producer overtakes it. A sequence is reserved only while fewer than 2 ^ 32 have been handed out,
-- and a message is completed only after it was read.
pub backlog-le_slots :
    (eventfd : ℕ → ℤ) (total n c b : ℕ) {r t : Ring}
    → initialize eventfd total n c b ≡ some r
    → compute_ring_layout_size_bytes n c + b < u64_mod
    → Reach r t
    → (k : ℕ) → k < t.consumer_capacity
    → (t.consumers k).state ≡ online
    → t.next_sequence ≤ (t.consumers k).read_sequence + t.slot_count
backlog-le_slots eventfd total n c b {r} {t} start fits h k hk on =
    IsSafe-lap k t (history-IsSafe eventfd total n c b start fits h) hk on
