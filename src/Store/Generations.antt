-- ===== src/Store/Generations.antt =====
-- How long a handle stays refused: a call moves the generation of a slot on by one at most.
use mould_system_backend.Common.{
  none, ℕ, zero, suc, some, [], ◌∷◌, ◌+◌, ◌%◌, ◌<◌, ◌≤◌, ◌^◌, ◌≡◌, ◌⊎◌, inl, inr, false, refl,
  arith, get_elem?, set, Option-cases, subst,
}
use mould_system_backend.Store.{
  SlotState, Store, at_slot, at_slot-none, at_slot-some, reserve_from, reserve, write_slot,
  write_payload, commit_slot, commit_visible, acquire_slot, acquire_visible, release_slot, release,
  sweep_expired, reset_slot_locked,
}
use mould_system_backend.Store.Invariant.{
  Step, reserves, writes, commits, acquires, releases, sweeps,
}

-- The generation of a slot stays, or is the next one.
abbrev MovesOn : SlotState → SlotState → Type 0
MovesOn s t = (t.generation ≡ s.generation) ⊎ (t.generation ≡ (s.generation + 1) % 2 ^ 32)

abbrev AllMoveOn : Store → Store → Type 0
AllMoveOn [] [] = Unit {0}
AllMoveOn [] (t ∷ ts) = ⊥
AllMoveOn (s ∷ ss) [] = ⊥
AllMoveOn (s ∷ ss) (t ∷ ts) = MovesOn s t × AllMoveOn ss ts

AllMoveOn-refl : (store : Store) → AllMoveOn store store
AllMoveOn-refl [] = tt
AllMoveOn-refl (s ∷ ss) = (inl refl, AllMoveOn-refl ss)

AllMoveOn-set :
    (store : Store) (i : ℕ) {s : SlotState} (t : SlotState)
    → get_elem? store i ≡ some s
    → MovesOn s t
    → AllMoveOn store (set store i t)
AllMoveOn-set [] i t e m = tt
AllMoveOn-set (x ∷ xs) zero {s} t e m =
    let q : s ≡ x = cc in (subst (λ (y : SlotState). MovesOn y t) q m, AllMoveOn-refl xs)
AllMoveOn-set (x ∷ xs) (suc i) t e m = (inl refl, AllMoveOn-set xs i t e m)

at_slot-AllMoveOn :
    {R : Type 0} (i : ℕ) (refused : R) (f : SlotState → R × SlotState) (store : Store)
    → ((s : SlotState) → MovesOn s (f s).1)
    → AllMoveOn store (at_slot i refused f store).1
at_slot-AllMoveOn i refused f store moves = elim (Option-cases (get_elem? store i)) [
  | inl e ↦ rw (at_slot-none i refused f store e) (AllMoveOn-refl store)
  | inr (s, e) ↦ rw (at_slot-some i refused f store s e) (AllMoveOn-set store i (f s).1 e (moves s))
]

reserve_from-AllMoveOn : (now i : ℕ) (store : Store) → AllMoveOn store (reserve_from now i store).1
unfolding reserve_from
reserve_from-AllMoveOn now i [] = tt
reserve_from-AllMoveOn now i (s ∷ ss) =
    ground (arith, reserve_from-AllMoveOn now (i + 1) ss, AllMoveOn-refl ss)

sweep_expired-AllMoveOn :
    (now max_age : ℕ) (store : Store) → AllMoveOn store (sweep_expired now max_age store).1
unfolding sweep_expired reset_slot_locked
sweep_expired-AllMoveOn now max_age [] = tt
sweep_expired-AllMoveOn now max_age (s ∷ ss) =
    ground (arith, sweep_expired-AllMoveOn now max_age ss)

Step-AllMoveOn : {s t : Store} → Step s t → AllMoveOn s t
unfolding reserve write_payload write_slot commit_visible commit_slot acquire_visible acquire_slot
    release release_slot reset_slot_locked
Step-AllMoveOn (reserves now store) = reserve_from-AllMoveOn now 0 store
Step-AllMoveOn (writes h payload store) =
    at_slot-AllMoveOn h.slot false (write_slot h payload) store (λ s. ground arith)
Step-AllMoveOn (commits h n store small) = ground (
  arith,
  AllMoveOn-refl store,
  at_slot-AllMoveOn h.slot false (commit_slot h n) store (λ s. ground arith),
)
Step-AllMoveOn (acquires h store room) =
    at_slot-AllMoveOn h.slot none (acquire_slot h) store (λ s. ground arith)
Step-AllMoveOn (releases h store) =
    at_slot-AllMoveOn h.slot false (release_slot h) store (λ s. ground arith)
Step-AllMoveOn (sweeps now max_age store) = sweep_expired-AllMoveOn now max_age store

AllMoveOn-get :
    (ss ts : Store) (i : ℕ) {s : SlotState}
    → AllMoveOn ss ts
    → get_elem? ss i ≡ some s
    → (t : SlotState) × (get_elem? ts i ≡ some t) × MovesOn s t
AllMoveOn-get [] ts i all e = absurd cc
AllMoveOn-get (x ∷ xs) [] i all e = absurd all
AllMoveOn-get (x ∷ xs) (y ∷ ys) zero {s} all e =
    let q : x ≡ s = cc in (y, refl, subst (λ (z : SlotState). MovesOn z y) q all.0)
AllMoveOn-get (x ∷ xs) (y ∷ ys) (suc i) all e = AllMoveOn-get xs ys i all.1 e

-- The stores that so many calls lead to.
pub data Calls : ℕ → Store → Store → Type 0 where
  no_call : (s : Store) → Calls 0 s s
  call : {n : ℕ} {s t u : Store} → Calls n s t → Step t u → Calls (suc n) s u

-- After `n` calls a slot's generation has moved on by at most `n`.
pub generation-Calls :
    {n : ℕ} {ss ts : Store} (i : ℕ) {s : SlotState}
    → Calls n ss ts
    → get_elem? ss i ≡ some s
    → s.generation < 2 ^ 32
    → (t : SlotState) × (k : ℕ) × (get_elem? ts i ≡ some t)
      × (k ≤ n)
      × (t.generation ≡ (s.generation + k) % 2 ^ 32)
generation-Calls i {s} (no_call ss) e small = (s, 0, e, omega arith, omega arith)
generation-Calls i {s} (call {n} {t = ts} {u = us} calls st) e small =
    let (t, k, et, le, g) = generation-Calls i calls e small in
    let (u, eu, m) = AllMoveOn-get ts us i (Step-AllMoveOn st) et in
    elim m [
      | inl same ↦ (u, k, eu, omega arith, omega (arith, same, g))
      | inr moved ↦ (u, k + 1, eu, omega arith, omega (arith, moved, g))
    ]
