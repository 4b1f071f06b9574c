-- ===== src/Store/Tests.antt =====
-- The message store's theorems at concrete stores.
use mould_system_backend.Common.{true, false, some, [], ◌∷◌, ◌≡◌, refl, arith, set}
use mould_system_backend.Store.{
  Handle, SlotState, Store, init, reserve, reserve_from, write_payload, commit_visible,
  acquire_visible, release, reset_slot_locked,
}
use mould_system_backend.Store.Invariant.{AllSound, reserves, writes, here, next, history-AllSound}
use mould_system_backend.Store.Generations.{no_call, call}
use mould_system_backend.Store.Handles.{IsFree, IsRefused, last_release}
use mould_system_backend.Store.Lifecycle.{release_times, release_all, message_roundtrip}

abbrev empty_store : Store
empty_store = init 100 2

abbrev handle : Handle
handle = record { slot = 0; generation = 1 }

history-AllSound_example :
    AllSound (write_payload handle (1 ∷ 2 ∷ []) (reserve 101 empty_store).1).1
history-AllSound_example = history-AllSound 100 2 (
    next (next here (reserves 101 empty_store))
      (writes handle (1 ∷ 2 ∷ []) (reserve 101 empty_store).1))

-- Slot 0 is visible with one reference, slot 1 with three.
abbrev one_left : SlotState
one_left = record {
  generation = 1;
  ref_count = 1;
  visible = true;
  reserved = false;
  payload = 9 ∷ [];
  reserve_ts = 100;
}

abbrev three_left : SlotState
three_left = record one_left { ref_count = 3 }

abbrev shared_store : Store
shared_store = one_left ∷ three_left ∷ []

-- The slot is freed, reserved again and written by another thread, under another handle.
abbrev reused_store : Store
reused_store =
    (write_payload (record { slot = 0; generation = 2 }) (1 ∷ [])
      (reserve 300 (release handle shared_store).1).1).1

last_release_example :
    (release handle shared_store
      ≡ (true, set shared_store 0 (reset_slot_locked (record one_left { ref_count = 0 }))))
    × IsFree (reset_slot_locked one_left)
    × IsRefused handle reused_store
last_release_example =
    last_release handle shared_store one_left 2 refl refl (omega arith) refl refl (omega arith)
      (call (call (no_call _) (reserves 300 _)) (writes _ _ _))

release_all_example :
    release_times 3 (record { slot = 1; generation = 1 }) shared_store
    ≡ (true, set shared_store 1 (reset_slot_locked three_left))
release_all_example =
    release_all 2 (record { slot = 1; generation = 1 }) shared_store three_left refl refl refl refl
      (omega arith)

message_roundtrip_example :
    let t1 = (reserve 101 empty_store).1 in
    let t2 = (write_payload handle (7 ∷ 8 ∷ []) t1).1 in
    let t3 = (commit_visible handle 2 t2).1 in
    ((write_payload handle (7 ∷ 8 ∷ []) t1).0 ≡ true)
    × ((commit_visible handle 2 t2).0 ≡ true)
    × ((acquire_visible handle t3).0 ≡ some (7 ∷ 8 ∷ []))
unfolding reserve reserve_from init
message_roundtrip_example =
    message_roundtrip 101 empty_store handle (7 ∷ 8 ∷ []) 2 refl refl (omega arith)
