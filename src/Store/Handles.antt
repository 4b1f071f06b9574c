-- ===== src/Store/Handles.antt =====
-- Handles: what `Reserve` hands out, and what a handle is worth after its slot has been reset.
use mould_system_backend.Common.{
  ℕ, zero, suc, Bool, subst, true, false, Option, none, some, List, [], ◌∷◌, ◌+◌, ◌<◌, ◌^◌, ◌≡◌,
  ◌≢◌, ◌⊎◌, inl, inr, refl, sym, ap, ◌∙◌, arith, get_elem?, set, length, Option-cases, Bool-cases,
  ◌||◌, get_elem?-set_self,
}
use mould_system_backend.Store.Generations.{Calls, generation-Calls}
use mould_system_backend.Store.{
  Handle, SlotState, Store, at_slot-some, reserve_from, reserve, write_slot, write_payload,
  commit_slot, commit_visible, acquire_slot, acquire_visible, release_slot, release,
  reset_slot_locked,
}

-- A slot that `Reserve` may take.
abbrev pub IsFree : SlotState → Type 0
IsFree s = (s.reserved ≡ false) × (s.visible ≡ false)

abbrev pub taken : ℕ → SlotState → SlotState
taken now s = record s { reserved = true; reserve_ts = now; ref_count = 0 }

-- What `Reserve` has done when it returns a handle, with the slots counted from `i`.
pub record Took (now i : ℕ) (store : Store) (h : Handle) (t : Store) : Type 0 where
  pub index : ℕ
  pub old : SlotState
  pub place : h.slot ≡ i + index
  pub found : get_elem? store index ≡ some old
  pub free : IsFree old
  pub generation : h.generation ≡ old.generation
  pub result : t ≡ set store index (taken now old)

abbrev pub AllInUse : Store → Type 0
AllInUse [] = Unit {0}
AllInUse (s ∷ ss) = ((s.reserved ≡ true) ⊎ (s.visible ≡ true)) × AllInUse ss

reserve_from-nil : (now i : ℕ) → reserve_from now i [] ≡ (none, [])
unfolding reserve_from
reserve_from-nil now i = refl

reserve_from-take :
    (now i : ℕ) (s : SlotState) (ss : Store)
    → (s.reserved || s.visible) ≡ false
    → reserve_from now i (s ∷ ss)
      ≡ (some (record { slot = i; generation = s.generation }), taken now s ∷ ss)
unfolding reserve_from
reserve_from-take now i s ss e = ground (arith, e)

reserve_from-skip :
    (now i : ℕ) (s : SlotState) (ss : Store)
    → (s.reserved || s.visible) ≡ true
    → reserve_from now i (s ∷ ss)
      ≡ ((reserve_from now (i + 1) ss).0, s ∷ (reserve_from now (i + 1) ss).1)
unfolding reserve_from
reserve_from-skip now i s ss e = ground (arith, e)

reserve_from-Took :
    (now i : ℕ) (store : Store) (h : Handle)
    → (reserve_from now i store).0 ≡ some h
    → Took now i store h (reserve_from now i store).1
reserve_from-Took now i [] h e = absurd (cc (reserve_from-nil now i))
reserve_from-Took now i (s ∷ ss) h e = elim (Bool-cases (s.reserved || s.visible)) [
  | inl busy ↦
      let k = reserve_from-skip now i s ss busy in
      let w =
        reserve_from-Took now (i + 1) ss h (sym (ap (λ (o : Option Handle × Store). o.0) k) ∙ e) in
      record {
        index = suc w.index;
        old = w.old;
        place = omega (arith, w.place);
        found = w.found;
        free = w.free;
        generation = w.generation;
        result = ap (λ (o : Option Handle × Store). o.1) k ∙ ap (◌∷◌ s) w.result;
      }
  | inr idle ↦
      let k = reserve_from-take now i s ss idle in
      record {
        index = 0;
        old = s;
        place = ground (arith, k, e);
        found = refl;
        free = ground arith;
        generation = ground (arith, k, e);
        result = ap (λ (o : Option Handle × Store). o.1) k;
      }
]

reserve_from-full :
    (now i : ℕ) (store : Store)
    → (reserve_from now i store).0 ≡ none
    → AllInUse store × ((reserve_from now i store).1 ≡ store)
reserve_from-full now i [] e =
    (tt, ap (λ (o : Option Handle × Store). o.1) (reserve_from-nil now i))
reserve_from-full now i (s ∷ ss) e = elim (Bool-cases (s.reserved || s.visible)) [
  | inl busy ↦
      let k = reserve_from-skip now i s ss busy in
      let w =
        reserve_from-full now (i + 1) ss (sym (ap (λ (o : Option Handle × Store). o.0) k) ∙ e) in
      ((ground arith, w.0), ap (λ (o : Option Handle × Store). o.1) k ∙ ap (◌∷◌ s) w.1)
  | inr idle ↦ absurd (ground (arith, reserve_from-take now i s ss idle, e))
]

-- `Reserve` takes a free slot, under its present generation, and touches no other slot; it gives up,
-- changing nothing, only when every slot is in use.
pub reserve_lem :
    (now : ℕ) (store : Store)
    → ((h : Handle) × ((reserve now store).0 ≡ some h) × Took now 0 store h (reserve now store).1)
      ⊎ ((reserve now store ≡ (none, store)) × AllInUse store)
unfolding reserve
reserve_lem now store = elim (Option-cases (reserve_from now 0 store).0) [
  | inl e ↦ let w = reserve_from-full now 0 store e in inr (ground (arith, e, w.1), w.0)
  | inr (h, e) ↦ inl (h, e, reserve_from-Took now 0 store h e)
]

-- A handle of another generation is refused by every call, and the store stays as it is.
pub record IsRefused (h : Handle) (store : Store) : Type 0 where
  pub write : (payload : List ℕ) → write_payload h payload store ≡ (false, store)
  pub commit : (n : ℕ) → commit_visible h n store ≡ (false, store)
  pub acquire : acquire_visible h store ≡ (none, store)
  pub release_call : release h store ≡ (false, store)

set_same :
    (store : Store) (i : ℕ) {s : SlotState} → get_elem? store i ≡ some s → set store i s ≡ store
set_same [] i e = refl
set_same (x ∷ xs) zero {s} e = let q : s ≡ x = cc in ap (λ (y : SlotState). y ∷ xs) q
set_same (x ∷ xs) (suc i) e = ap (◌∷◌ x) (set_same xs i e)

stale-IsRefused :
    (h : Handle) (store : Store) (s : SlotState)
    → get_elem? store h.slot ≡ some s
    → h.generation ≢ s.generation
    → IsRefused h store
unfolding write_payload write_slot commit_visible commit_slot acquire_visible acquire_slot release
    release_slot
stale-IsRefused h store s e old = record {
  write = λ payload.
      at_slot-some h.slot false (write_slot h payload) store s e
      ∙ ground (arith, set_same store h.slot e);
  commit = λ n.
      ground
        (arith, at_slot-some h.slot false (commit_slot h n) store s e, set_same store h.slot e);
  acquire =
      at_slot-some h.slot none (acquire_slot h) store s e ∙ ground (arith, set_same store h.slot e);
  release_call =
      at_slot-some h.slot false (release_slot h) store s e
      ∙ ground (arith, set_same store h.slot e);
}

pub lt-length_of_get :
    (store : Store) (i : ℕ) {s : SlotState} → get_elem? store i ≡ some s → i < length store
lt-length_of_get [] i e = cc
lt-length_of_get (x ∷ xs) zero e = omega arith
lt-length_of_get (x ∷ xs) (suc i) e = omega (arith, lt-length_of_get xs i e)

-- The release of the last reference frees the slot. After it, and after any further calls on the store
-- as long as they are fewer than 2 ^ 32 - 1 and none brings a reference count to 2 ^ 32, every call
-- with the handle is refused and changes nothing, whoever has the slot by then.
pub last_release :
    (h : Handle) (store : Store) (s : SlotState) (n : ℕ) {t : Store}
    → get_elem? store h.slot ≡ some s
    → h.generation ≡ s.generation
    → s.generation < 2 ^ 32
    → s.visible ≡ true
    → s.ref_count ≡ 1
    → n + 1 < 2 ^ 32
    → Calls n (release h store).1 t
    → (release h store ≡ (true, set store h.slot (reset_slot_locked (record s { ref_count = 0 }))))
      × IsFree (reset_slot_locked s)
      × IsRefused h t
unfolding release release_slot reset_slot_locked
last_release h store s n {t} e gen word vis one few later =
    let r = at_slot-some h.slot false (release_slot h) store s e in
    let z = reset_slot_locked (record s { ref_count = 0 }) in
    let done : release h store ≡ (true, set store h.slot z) = ground (arith, r) in
    let later' : Calls n (set store h.slot z) t =
      subst (λ (o : Bool × Store). Calls n o.1 t) done later in
    let (u, k, eu, le, g) =
      generation-Calls h.slot later'
        (get_elem?-set_self store h.slot z (lt-length_of_get store h.slot e)) (omega arith) in
    (done, (refl, refl), stale-IsRefused h t u eu (λ same. omega (arith, same, g, gen)))
