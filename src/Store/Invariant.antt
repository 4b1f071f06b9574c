-- ===== src/Store/Invariant.antt =====
-- What every slot of the message store satisfies between calls.
use mould_system_backend.Common.{
  ℕ, zero, suc, true, false, none, some, List, [], ◌∷◌, ◌+◌, ◌<◌, ◌≤◌, ◌^◌, ◌≡◌, ◌≢◌, inl, inr,
  arith, get_elem?, set, Option-cases,
}
use mathlib.Core.Path.{subst}
use mould_system_backend.Store.{
  Handle, SlotState, Store, init, at_slot, at_slot-none, at_slot-some, reserve_from, reserve,
  write_slot, write_payload, commit_slot, commit_visible, acquire_slot, acquire_visible,
  release_slot, release, sweep_expired,
}

-- A visible slot has a payload and at least one reference and is not reserved; a slot that is not
-- visible has no reference.
pub record IsSound (s : SlotState) : Type 0 where
  pub apart : s.visible ≡ true → s.reserved ≡ false
  pub counted : s.visible ≡ true → 1 ≤ s.ref_count
  pub filled : s.visible ≡ true → s.payload ≢ []
  pub unshared : s.visible ≡ false → s.ref_count ≡ 0
  pub word : s.ref_count < 2 ^ 32

abbrev pub AllSound : Store → Type 0
AllSound [] = Unit {0}
AllSound (s ∷ ss) = IsSound s × AllSound ss

pub AllSound-get :
    (store : Store) (i : ℕ) {s : SlotState}
    → AllSound store
    → get_elem? store i ≡ some s
    → IsSound s
AllSound-get [] i v e = cc
AllSound-get (x ∷ xs) zero {s} v e = let q : x ≡ s = cc in subst IsSound q v.0
AllSound-get (x ∷ xs) (suc i) v e = AllSound-get xs i v.1 e

AllSound-set :
    (store : Store) (i : ℕ) (s : SlotState) → AllSound store → IsSound s → AllSound (set store i s)
AllSound-set [] i s v w = tt
AllSound-set (x ∷ xs) zero s v w = (w, v.1)
AllSound-set (x ∷ xs) (suc i) s v w = (v.0, AllSound-set xs i s v.1 w)

-- What one slot keeps, a call at a handle keeps.
at_slot-AllSound :
    {R : Type 0} (i : ℕ) (refused : R) (f : SlotState → R × SlotState) (store : Store)
    → ((s : SlotState) → get_elem? store i ≡ some s → IsSound s → IsSound (f s).1)
    → AllSound store
    → AllSound (at_slot i refused f store).1
at_slot-AllSound i refused f store keep v = elim (Option-cases (get_elem? store i)) [
  | inl e ↦ rw (at_slot-none i refused f store e) v
  | inr (s, e) ↦
      rw (at_slot-some i refused f store s e)
        (AllSound-set store i (f s).1 v (keep s e (AllSound-get store i v e)))
]

pub init-AllSound : (now capacity : ℕ) → AllSound (init now capacity)
unfolding init
init-AllSound now zero = tt
init-AllSound now (suc n) = (ground arith, init-AllSound now n)

pub reserve_from-AllSound :
    (now i : ℕ) (store : Store) → AllSound store → AllSound (reserve_from now i store).1
unfolding reserve_from
reserve_from-AllSound now i [] v = tt
reserve_from-AllSound now i (s ∷ ss) v =
    ground (arith, v.0, reserve_from-AllSound now (i + 1) ss v.1)

pub reserve-AllSound : (now : ℕ) (store : Store) → AllSound store → AllSound (reserve now store).1
unfolding reserve
reserve-AllSound now store v = reserve_from-AllSound now 0 store v

pub write_payload-AllSound :
    (h : Handle) (payload : List ℕ) (store : Store)
    → AllSound store
    → AllSound (write_payload h payload store).1
unfolding write_payload write_slot
write_payload-AllSound h payload store v =
    at_slot-AllSound h.slot false (write_slot h payload) store (λ s e w. ground (arith, w)) v

commit_slot-IsSound :
    (h : Handle) (n : ℕ) (s : SlotState)
    → n ≢ 0
    → n < 2 ^ 32
    → IsSound s
    → IsSound (commit_slot h n s).1
unfolding commit_slot
commit_slot-IsSound h n s nz small w = ground (arith, w)

pub commit_visible-AllSound :
    (h : Handle) (n : ℕ) (store : Store)
    → n < 2 ^ 32
    → AllSound store
    → AllSound (commit_visible h n store).1
unfolding commit_visible
commit_visible-AllSound h n store small v = ground (
  arith,
  λ (nz : n ≢ 0).
      at_slot-AllSound h.slot false (commit_slot h n) store
        (λ s e w. commit_slot-IsSound h n s nz small w) v,
)

-- Acquiring needs a reference count that does not wrap.
abbrev pub NoWrap : Handle → Store → Type 0
NoWrap h store = (s : SlotState) → get_elem? store h.slot ≡ some s → s.ref_count + 1 < 2 ^ 32

pub acquire_visible-AllSound :
    (h : Handle) (store : Store)
    → NoWrap h store
    → AllSound store
    → AllSound (acquire_visible h store).1
unfolding acquire_visible acquire_slot
acquire_visible-AllSound h store room v =
    at_slot-AllSound h.slot none (acquire_slot h) store (λ s e w. ground (arith, w, room s e)) v

pub release-AllSound : (h : Handle) (store : Store) → AllSound store → AllSound (release h store).1
unfolding release release_slot
release-AllSound h store v =
    at_slot-AllSound h.slot false (release_slot h) store (λ s e w. ground (arith, w)) v

pub sweep_expired-AllSound :
    (now max_age : ℕ) (store : Store)
    → AllSound store
    → AllSound (sweep_expired now max_age store).1
unfolding sweep_expired
sweep_expired-AllSound now max_age [] v = tt
sweep_expired-AllSound now max_age (s ∷ ss) v =
    ground (arith, v.0, sweep_expired-AllSound now max_age ss v.1)

-- One call on the store by any thread.
pub data Step : Store → Store → Type 0 where
  reserves : (now : ℕ) (store : Store) → Step store (reserve now store).1
  writes :
      (h : Handle) (payload : List ℕ) (store : Store) → Step store (write_payload h payload store).1
  commits :
      (h : Handle) (n : ℕ) (store : Store) → n < 2 ^ 32 → Step store (commit_visible h n store).1
  acquires : (h : Handle) (store : Store) → NoWrap h store → Step store (acquire_visible h store).1
  releases : (h : Handle) (store : Store) → Step store (release h store).1
  sweeps : (now max_age : ℕ) (store : Store) → Step store (sweep_expired now max_age store).1

pub data Reach (s : Store) : Store → Type 0 where
  here : Reach s s
  next : {t u : Store} → Reach s t → Step t u → Reach s u

Step-AllSound : {s t : Store} → Step s t → AllSound s → AllSound t
Step-AllSound (reserves now store) v = reserve-AllSound now store v
Step-AllSound (writes h payload store) v = write_payload-AllSound h payload store v
Step-AllSound (commits h n store small) v = commit_visible-AllSound h n store small v
Step-AllSound (acquires h store room) v = acquire_visible-AllSound h store room v
Step-AllSound (releases h store) v = release-AllSound h store v
Step-AllSound (sweeps now max_age store) v = sweep_expired-AllSound now max_age store v

Reach-AllSound : {s t : Store} → AllSound s → Reach s t → AllSound t
Reach-AllSound v here = v
Reach-AllSound v (next r st) = Step-AllSound st (Reach-AllSound v r)

-- After any history of calls in which no acquire brings a reference count to 2 ^ 32, every visible slot has a
-- payload, is not reserved and has a reference, and a slot that is not visible has none.
pub history-AllSound : (now capacity : ℕ) {t : Store} → Reach (init now capacity) t → AllSound t
history-AllSound now capacity r = Reach-AllSound (init-AllSound now capacity) r
