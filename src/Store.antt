-- ===== src/Store.antt =====
-- common/comm/src/refcounted_message_store.cpp: message slots with generations and reference counts.
-- A member function locks one slot at a time and is one step here; the clock's reading in its
-- ticks, nanoseconds, is an argument.
pub mod Invariant
pub mod Generations
pub mod Handles
pub mod Lifecycle
mod Tests
use mould_system_backend.Common.{
  ℕ, ◌≡◌, Bool, true, false, Option, none, some, List, [], ◌∷◌, ◌+◌, ◌-◌, ◌*◌, ◌||◌, ◌&&◌, not,
  ◌==◌, ltb, if◌then◌else◌, add_u32, sub_u32, get_elem?, set, replicate,
}

pub record Handle : Type 0 where
  pub slot : ℕ
  pub generation : ℕ

pub record SlotState : Type 0 where
  pub generation : ℕ
  pub ref_count : ℕ
  pub visible : Bool
  pub reserved : Bool
  pub payload : List ℕ
  pub reserve_ts : ℕ

abbrev pub Store : Type 0
Store = List SlotState

abbrev initial_slot : ℕ → SlotState
initial_slot now = record {
  generation = 1;
  ref_count = 0;
  visible = false;
  reserved = false;
  payload = [];
  reserve_ts = now;
}

unfoldable pub init : ℕ → ℕ → Store
init now capacity = replicate capacity (initial_slot now)

abbrev pub is_empty : List ℕ → Bool
is_empty [] = true
is_empty (b ∷ bs) = false

unfoldable pub match_handle : Handle → SlotState → Bool
match_handle handle s = handle.generation == s.generation

unfoldable pub reset_slot_locked : SlotState → SlotState
reset_slot_locked s = record s {
  payload = [];
  ref_count = 0;
  visible = false;
  reserved = false;
  generation = add_u32 s.generation 1;
}

-- A call on the slot of a handle; out of range it answers at once.
unfoldable pub at_slot {ℓ} : {R : Type ℓ} → ℕ → R → (SlotState → R × SlotState) → Store → R × Store
at_slot i refused f store = elim (get_elem? store i) [
  | none ↦ (refused, store)
  | some s ↦ let (r, s') = f s in (r, set store i s')
]

pub at_slot-none {ℓ} :
    {R : Type ℓ} (i : ℕ) (refused : R) (f : SlotState → R × SlotState) (store : Store)
    → get_elem? store i ≡ none
    → at_slot i refused f store ≡ (refused, store)
unfolding at_slot
at_slot-none i refused f store e = rw (e, at_slot)

pub at_slot-some {ℓ} :
    {R : Type ℓ} (i : ℕ) (refused : R) (f : SlotState → R × SlotState) (store : Store)
    (s : SlotState)
    → get_elem? store i ≡ some s
    → at_slot i refused f store ≡ ((f s).0, set store i (f s).1)
unfolding at_slot
at_slot-some i refused f store s e = rw (e, at_slot)

-- The first slot that is neither reserved nor visible, from index `i` on.
unfoldable pub reserve_from : ℕ → ℕ → Store → Option Handle × Store
reserve_from now i [] = (none, [])
reserve_from now i (s ∷ ss) =
    let (found, rest) = reserve_from now (i + 1) ss in
    if s.reserved || s.visible then (found, s ∷ rest) else (
      some (record { slot = i; generation = s.generation }),
      record s { reserved = true; reserve_ts = now; ref_count = 0 } ∷ ss,
    )

unfoldable pub reserve : ℕ → Store → Option Handle × Store
reserve now store = reserve_from now 0 store

unfoldable pub write_slot : Handle → List ℕ → SlotState → Bool × SlotState
unfolding match_handle
write_slot handle payload s =
    if not (match_handle handle s) || not s.reserved || s.visible
    then (false, s)
    else (true, record s { payload = payload })

unfoldable pub write_payload : Handle → List ℕ → Store → Bool × Store
write_payload handle payload = at_slot handle.slot false (write_slot handle payload)

unfoldable pub commit_slot : Handle → ℕ → SlotState → Bool × SlotState
unfolding match_handle
commit_slot handle initial_ref_count s =
    if not (match_handle handle s) || not s.reserved || is_empty s.payload
    then (false, s)
    else (true, record s { ref_count = initial_ref_count; visible = true; reserved = false })

unfoldable pub commit_visible : Handle → ℕ → Store → Bool × Store
commit_visible handle initial_ref_count store =
    if initial_ref_count == 0
    then (false, store)
    else at_slot handle.slot false (commit_slot handle initial_ref_count) store

unfoldable pub acquire_slot : Handle → SlotState → Option (List ℕ) × SlotState
unfolding match_handle
acquire_slot handle s =
    if not (match_handle handle s) || not s.visible
    then (none, s)
    else (some s.payload, record s { ref_count = add_u32 s.ref_count 1 })

unfoldable pub acquire_visible : Handle → Store → Option (List ℕ) × Store
acquire_visible handle = at_slot handle.slot none (acquire_slot handle)

unfoldable pub release_slot : Handle → SlotState → Bool × SlotState
unfolding match_handle reset_slot_locked
release_slot handle s =
    let previous = s.ref_count in
    let s' = record s { ref_count = sub_u32 previous 1 } in
    if not (match_handle handle s) || not s.visible
    then (false, s)
    else if previous == 0
    then (false, record s' { ref_count = 0 })
    else (true, if previous == 1 then reset_slot_locked s' else s')

unfoldable pub release : Handle → Store → Bool × Store
release handle = at_slot handle.slot false (release_slot handle)

-- A slot has been reserved or unused for more than `max_age` milliseconds.
abbrev pub is_stale : ℕ → ℕ → SlotState → Bool
is_stale now max_age s =
    s.reserved && ltb (max_age * 1_000_000) (now - s.reserve_ts)
    || s.visible && s.ref_count == 0 && ltb (max_age * 1_000_000) (now - s.reserve_ts)

unfoldable pub sweep_expired : ℕ → ℕ → Store → ℕ × Store
unfolding reset_slot_locked
sweep_expired now max_age [] = (0, [])
sweep_expired now max_age (s ∷ ss) =
    let (reclaimed, rest) = sweep_expired now max_age ss in
    if is_stale now max_age s
    then (reclaimed + 1, reset_slot_locked s ∷ rest)
    else (reclaimed, s ∷ rest)
