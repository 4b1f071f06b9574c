-- ===== src/ControlPlane/Offline.antt =====
-- What taking a process offline leaves of the rings.
use mould_system_backend.Common.{
  ℕ, zero, suc, Bool, true, false, ◌&&◌, Option, none, some, List, [], ◌∷◌, ◌+◌, ◌<◌, ◌==◌, ltb,
  if◌then◌else◌, ◌≡◌, ◌≢◌, ◌⊎◌, inl, inr, refl, sym, ap, ◌∙◌, arith, Bool-cases, update_self,
  update_ne,
}
use mould_system_backend.Ring.State.{
  Ring, ConsumerCursor, ConsumerState, online, offline, registering, is_online,
}
use mould_system_backend.Ring.Invariant.{IsSafe}
use mould_system_backend.Ring.Reclaim.{try_reclaim_slot_if_safe, reclaim_committed_slots}
use mould_system_backend.Ring.Consumers.{
  take_consumer_offline_if_owner, consumer_owner_matches, unregister_consumer, take_offline,
  is_member,
}
use mould_system_backend.Ring.Safety.Reclaim.{
  reclaim_outcome, reclaim-keep, reclaim_committed_slots-IsSafe,
}
use mould_system_backend.Ring.Safety.Consumers.{take_consumer_offline_if_owner-IsSafe}
use mould_system_backend.ControlPlane.{
  is_owned, take_one, take_from, take_all_consumers_offline_for_process_pid,
}

-- Reclaiming touches no consumer.
abbrev SameTable : Ring → Ring → Type 0
SameTable r r1 =
    (r1.consumer_capacity ≡ r.consumer_capacity) × ((c : ℕ) → r1.consumers c ≡ r.consumers c)

try_reclaim-SameTable :
    (r : Ring) (i : ℕ) (r1 : Ring) → SameTable r r1 → SameTable r (try_reclaim_slot_if_safe i r1).1
try_reclaim-SameTable r i r1 h = elim (reclaim_outcome i r1) [
  | inl (e, why) ↦ rw e h
  | inr (e, hi, two, passed) ↦ rw e h
]

reclaim-SameTable : (r : Ring) → SameTable r (reclaim_committed_slots r).1
reclaim-SameTable r =
    reclaim-keep (SameTable r) (λ i r1 h. try_reclaim-SameTable r i r1 h) r (refl, λ c. refl)

is_online-is_member : (s : ConsumerState) → is_online s ≡ true → is_member s ≡ true
is_online-is_member offline h = cc
is_online-is_member online h = refl
is_online-is_member registering h = refl

unregister_consumer-member :
    (i : ℕ) (r : Ring)
    → i < r.consumer_capacity
    → is_member (r.consumers i).state ≡ true
    → unregister_consumer i r ≡ (true, (reclaim_committed_slots (take_offline i r)).1)
unfolding unregister_consumer
unregister_consumer-member i r hi member =
    let inside : ltb i r.consumer_capacity ≡ true = ground arith in rw (inside, member) refl

-- An owned consumer is taken offline.
take_consumer_offline-owned :
    (pid i : ℕ) (r : Ring)
    → i < r.consumer_capacity
    → is_owned pid i r ≡ true
    → take_consumer_offline_if_owner i pid (r.consumers i).owner_start_epoch r
      ≡ (true, (reclaim_committed_slots (take_offline i r)).1)
unfolding take_consumer_offline_if_owner consumer_owner_matches
take_consumer_offline-owned pid i r hi own =
    let inside : ltb i r.consumer_capacity ≡ true = ground arith in
    let on : is_online (r.consumers i).state ≡ true = ground arith in
    let mine : (r.consumers i).owner_pid == pid ≡ true = ground arith in
    let same_epoch : (r.consumers i).owner_start_epoch == (r.consumers i).owner_start_epoch ≡ true =
      ground arith in
    rw
      (
        inside,
        on,
        mine,
        same_epoch,
        unregister_consumer-member i r hi (is_online-is_member (r.consumers i).state on),
      )
      refl

take_one-owned :
    (pid i : ℕ) (r : Ring)
    → i < r.consumer_capacity
    → is_owned pid i r ≡ true
    → take_one pid i r
      ≡ (true, (reclaim_committed_slots (reclaim_committed_slots (take_offline i r)).1).1)
unfolding take_one
take_one-owned pid i r hi own = rw (take_consumer_offline-owned pid i r hi own, own) refl

take_one-other : (pid i : ℕ) (r : Ring) → is_owned pid i r ≡ false → take_one pid i r ≡ (false, r)
unfolding take_one
take_one-other pid i r other = rw other refl

take_one-IsSafe : (pid i : ℕ) (r : Ring) → IsSafe r → IsSafe (take_one pid i r).1
unfolding take_one
take_one-IsSafe pid i r v = ground (
  arith,
  take_consumer_offline_if_owner-IsSafe i pid (r.consumers i).owner_start_epoch r v,
  reclaim_committed_slots-IsSafe
      (take_consumer_offline_if_owner i pid (r.consumers i).owner_start_epoch r).1,
)

abbrev gone : ConsumerCursor
gone = record { read_sequence = 0; state = offline; owner_pid = 0; owner_start_epoch = 0 }

abbrev is_owned_cursor : ℕ → ConsumerCursor → Bool
is_owned_cursor pid k = is_online k.state && k.owner_pid == pid

-- What happens to the table at one consumer: an owned one is offline, and the others stay.
take_one-table :
    (pid i : ℕ) (r : Ring)
    → i < r.consumer_capacity
    → ((take_one pid i r).1.consumer_capacity ≡ r.consumer_capacity)
      × (is_owned pid i (take_one pid i r).1 ≡ false)
      × ((c : ℕ) → is_owned pid c r ≡ false → (take_one pid i r).1.consumers c ≡ r.consumers c)
      × ((c : ℕ) → c ≢ i → (take_one pid i r).1.consumers c ≡ r.consumers c)
take_one-table pid i r hi = elim (Bool-cases (is_owned pid i r)) [
  | inr e ↦ rw (take_one-other pid i r e) (refl, e, λ c h. refl, λ c h. refl)
  | inl e ↦
      let first = reclaim-SameTable (take_offline i r) in
      let second = reclaim-SameTable (reclaim_committed_slots (take_offline i r)).1 in
      rw (take_one-owned pid i r hi e) (
        second.0 ∙ first.0,
        ap (is_owned_cursor pid) (second.1 i ∙ first.1 i ∙ update_self r.consumers i gone),
        λ c h.
            second.1 c
            ∙ first.1 c
            ∙ update_ne r.consumers i c gone (λ same. cc (ap (λ j. is_owned pid j r) same, e, h)),
        λ c h. second.1 c ∙ first.1 c ∙ update_ne r.consumers i c gone (λ same. h (sym same)),
      )
]

-- The rest of the loop, when no consumer before `i` is owned.
take_from-table :
    (pid k i count : ℕ) (r : Ring)
    → i + k ≡ r.consumer_capacity
    → ((c : ℕ) → c < i → is_owned pid c r ≡ false)
    → ((c : ℕ) → c < r.consumer_capacity → is_owned pid c (take_from pid k i count r).1 ≡ false)
      × ((c : ℕ)
          → is_owned pid c r ≡ false
          → (take_from pid k i count r).1.consumers c ≡ r.consumers c)
unfolding take_from
take_from-table pid zero i count r e before = (λ c hc. before c (omega arith), λ c h. refl)
take_from-table pid (suc k) i count r e before =
    let r1 = (take_one pid i r).1 in
    let (size, freed, others, apart) = take_one-table pid i r (omega arith) in
    let (none_left, kept) =
      take_from-table pid k (i + 1) (if (take_one pid i r).0 then count + 1 else count) r1
        (omega (arith, size, e))
        (λ c hc. elim (below i c hc) [
          | inl less ↦ ap (is_owned_cursor pid) (apart c (omega arith)) ∙ before c less
          | inr same ↦ ap (λ j. is_owned pid j r1) same ∙ freed
        ]) in
    (
      λ c hc. none_left c (omega (arith, size)),
      λ c h. kept c (ap (is_owned_cursor pid) (others c h) ∙ h) ∙ others c h,
    )
  where
    below : (i c : ℕ) → c < i + 1 → (c < i) ⊎ (c ≡ i)
    below i c h = ground arith

take_from-IsSafe : (pid k i count : ℕ) (r : Ring) → IsSafe r → IsSafe (take_from pid k i count r).1
unfolding take_from
take_from-IsSafe pid zero i count r v = v
take_from-IsSafe pid (suc k) i count r v =
    take_from-IsSafe pid k (i + 1) _ (take_one pid i r).1 (take_one-IsSafe pid i r v)

-- A ring before and after: the invariant is kept, no consumer of the process is online, and the
-- consumers that were not its own are as before.
pub record IsTaken (pid : ℕ) (r r1 : Ring) : Type 0 where
  pub safe : IsSafe r → IsSafe r1
  pub none_left : (c : ℕ) → c < r.consumer_capacity → is_owned pid c r1 ≡ false
  pub others : (c : ℕ) → is_owned pid c r ≡ false → r1.consumers c ≡ r.consumers c

-- The same for each channel that has a ring.
abbrev pub AreTaken : ℕ → List (Option Ring) → List (Option Ring) → Type 0
AreTaken pid [] [] = Unit {0}
AreTaken pid (none ∷ rs) (none ∷ ss) = AreTaken pid rs ss
AreTaken pid (some r ∷ rs) (some s ∷ ss) = IsTaken pid r s × AreTaken pid rs ss
AreTaken pid _ _ = ⊥

take_from-IsTaken :
    (pid count : ℕ) (r : Ring) → IsTaken pid r (take_from pid r.consumer_capacity 0 count r).1
take_from-IsTaken pid count r =
    let table =
      take_from-table pid r.consumer_capacity 0 count r (omega arith)
        (λ c hc. absurd (omega arith)) in
    record {
      safe = take_from-IsSafe pid r.consumer_capacity 0 count r;
      none_left = table.0;
      others = table.1;
    }

-- After the consumers of a dead process were taken offline, no ring of the topology has an online
-- consumer of that process; every other consumer is as before, and the invariant of each ring is kept.
pub take_all_offline-AreTaken :
    (pid count : ℕ) (rings : List (Option Ring))
    → AreTaken pid rings (take_all_consumers_offline_for_process_pid pid count rings).1
unfolding take_all_consumers_offline_for_process_pid
take_all_offline-AreTaken pid count [] = tt
take_all_offline-AreTaken pid count (none ∷ rest) = take_all_offline-AreTaken pid count rest
take_all_offline-AreTaken pid count (some r ∷ rest) = (
  take_from-IsTaken pid count r,
  take_all_offline-AreTaken pid (take_from pid r.consumer_capacity 0 count r).0 rest,
)
