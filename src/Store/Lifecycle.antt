-- ===== src/Store/Lifecycle.antt =====
-- The life of a message: reserved, written, made visible with a count, read, and released until its
-- slot is free.
use mould_system_backend.Common.{
  ℕ, zero, suc, Bool, true, false, none, some, List, [], ◌∷◌, ◌+◌, ◌<◌, ◌^◌, ◌≡◌, ◌≢◌, refl, ap,
  subst, inl, inr, ◌%◌, ◌∙◌, arith, ◌&&◌, get_elem?, set, get_elem?-set_self,
}
use mould_system_backend.Store.{
  Handle, SlotState, Store, is_empty, at_slot-some, reserve, write_slot, write_payload, commit_slot,
  commit_visible, acquire_slot, acquire_visible, release_slot, release, reset_slot_locked,
}
use mould_system_backend.Store.Handles.{Took, reserve_lem, lt-length_of_get, taken}

set-set : (store : Store) (i : ℕ) (a b : SlotState) → set (set store i a) i b ≡ set store i b
set-set [] i a b = refl
set-set (x ∷ xs) zero a b = refl
set-set (x ∷ xs) (suc i) a b = ap (◌∷◌ x) (set-set xs i a b)

-- Releasing a handle several times; the answer is true if every call answered true.
unfoldable pub release_times : ℕ → Handle → Store → Bool × Store
release_times zero h store = (true, store)
release_times (suc k) h store =
    let (done, t) = release h store in let (rest, u) = release_times k h t in (done && rest, u)

release-more :
    (h : Handle) (store : Store) (s : SlotState) (n : ℕ)
    → get_elem? store h.slot ≡ some s
    → h.generation ≡ s.generation
    → s.visible ≡ true
    → s.ref_count ≡ suc (suc n)
    → suc (suc n) < 2 ^ 32
    → release h store ≡ (true, set store h.slot (record s { ref_count = suc n }))
unfolding release release_slot
release-more h store s n e gen vis two word =
    ground (arith, at_slot-some h.slot false (release_slot h) store s e)

release-last :
    (h : Handle) (store : Store) (s : SlotState)
    → get_elem? store h.slot ≡ some s
    → h.generation ≡ s.generation
    → s.visible ≡ true
    → s.ref_count ≡ 1
    → release h store ≡ (true, set store h.slot (reset_slot_locked s))
unfolding release release_slot reset_slot_locked
release-last h store s e gen vis one =
    ground (arith, at_slot-some h.slot false (release_slot h) store s e)

reset_any_count :
    (s : SlotState) (n : ℕ) → reset_slot_locked (record s { ref_count = n }) ≡ reset_slot_locked s
unfolding reset_slot_locked
reset_any_count s n = refl

-- A message with n references takes exactly n releases: each answers true, the last one frees the
-- slot under the next generation, and no other slot changes.
pub release_all :
    (n : ℕ) (h : Handle) (store : Store) (s : SlotState)
    → get_elem? store h.slot ≡ some s
    → h.generation ≡ s.generation
    → s.visible ≡ true
    → s.ref_count ≡ suc n
    → suc n < 2 ^ 32
    → release_times (suc n) h store ≡ (true, set store h.slot (reset_slot_locked s))
unfolding release_times
release_all zero h store s e gen vis one word = ground (arith, release-last h store s e gen vis one)
release_all (suc n) h store s e gen vis many word =
    let s' = record s { ref_count = suc n } in
    let more = release-more h store s n e gen vis many word in
    let rest =
      release_all n h (set store h.slot s') s'
        (get_elem?-set_self store h.slot s' (lt-length_of_get store h.slot e)) gen vis refl
        (omega arith) in
    ground
      (arith, more, rest, set-set store h.slot s' (reset_slot_locked s), reset_any_count s (suc n))

-- The handle that `Reserve` returned decides which case of its specification holds.
Took-of :
    (now : ℕ) (store : Store) (h : Handle)
    → (reserve now store).0 ≡ some h
    → Took now 0 store h (reserve now store).1
Took-of now store h e = elim (reserve_lem now store) [
  | inl (h', e', w) ↦
      let q : h' ≡ h = cc in subst (λ (g : Handle). Took now 0 store g (reserve now store).1) q w
  | inr (full, used) ↦ absurd (cc (full, e))
]

Took-get :
    (now : ℕ) (store : Store) (h : Handle) (t : Store) (w : Took now 0 store h t)
    → get_elem? t h.slot ≡ some (taken now w.old)
Took-get now store h t w =
    let at : h.slot ≡ w.index = omega (arith, w.place) in
    ap (λ (u : Store). get_elem? u h.slot) w.result
    ∙ ap (get_elem? (set store w.index (taken now w.old))) at
    ∙ get_elem?-set_self store w.index (taken now w.old) (lt-length_of_get store w.index w.found)

module _ (h : Handle) (store : Store) (s : SlotState) (e : get_elem? store h.slot ≡ some s)
    (gen : h.generation ≡ s.generation) where
  write_payload_lem :
      (payload : List ℕ)
      → s.reserved ≡ true
      → s.visible ≡ false
      → write_payload h payload store ≡ (true, set store h.slot (record s { payload = payload }))
  unfolding write_payload write_slot
  write_payload_lem payload res vis =
      ground (arith, at_slot-some h.slot false (write_slot h payload) store s e)

  commit_visible_lem :
      (n : ℕ)
      → n ≢ 0
      → s.reserved ≡ true
      → is_empty s.payload ≡ false
      → commit_visible h n store
        ≡ (true, set store h.slot (record s { ref_count = n; visible = true; reserved = false }))
  unfolding commit_visible commit_slot
  commit_visible_lem n nz res bytes =
      ground (arith, at_slot-some h.slot false (commit_slot h n) store s e)

  acquire_visible_lem :
      s.visible ≡ true
      → acquire_visible h store
        ≡ (some s.payload, set store h.slot (record s { ref_count = (s.ref_count + 1) % 2 ^ 32 }))
  unfolding acquire_visible acquire_slot
  acquire_visible_lem vis = ground (arith, at_slot-some h.slot none (acquire_slot h) store s e)

-- A slot that was reserved, and then written and committed with its own handle, hands the payload
-- back, when the payload is not empty and the count of consumers is positive: the write and the commit
-- succeed, and an acquire returns exactly the bytes written.
pub message_roundtrip :
    (now : ℕ) (store : Store) (h : Handle) (payload : List ℕ) (n : ℕ)
    → (reserve now store).0 ≡ some h
    → is_empty payload ≡ false
    → n ≢ 0
    → let t1 = (reserve now store).1 in
      let t2 = (write_payload h payload t1).1 in
      let t3 = (commit_visible h n t2).1 in
      ((write_payload h payload t1).0 ≡ true)
      × ((commit_visible h n t2).0 ≡ true)
      × ((acquire_visible h t3).0 ≡ some payload)
message_roundtrip now store h payload n e bytes nz =
    let w = Took-of now store h e in
    let t1 = (reserve now store).1 in
    let s1 = taken now w.old in
    let s2 = record s1 { payload = payload } in
    let s3 = record s2 { ref_count = n; visible = true; reserved = false } in
    let here : get_elem? t1 h.slot ≡ some s1 = Took-get now store h t1 w in
    let l1 = write_payload_lem h t1 s1 here w.generation payload refl w.free.1 in
    let here2 : get_elem? (set t1 h.slot s2) h.slot ≡ some s2 =
      get_elem?-set_self t1 h.slot s2 (lt-length_of_get t1 h.slot here) in
    let l2 = commit_visible_lem h (set t1 h.slot s2) s2 here2 w.generation n nz refl bytes in
    let t3' = set (set t1 h.slot s2) h.slot s3 in
    let here3 : get_elem? t3' h.slot ≡ some s3 =
      get_elem?-set_self (set t1 h.slot s2) h.slot s3
        (lt-length_of_get (set t1 h.slot s2) h.slot here2) in
    let l3 = acquire_visible_lem h t3' s3 here3 w.generation refl in
    (ap (λ (o : Bool × Store). o.0) l1, rw (l1, l2), rw (l1, l2, l3))
