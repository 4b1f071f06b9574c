-- ===== src/Common/Dicts.antt =====
-- `std::unordered_map<std::string, T>` with its iteration: a list of keys with values.
use mathlib.Core.Path.{◌≡◌, refl}
use mathlib.Core.Bool.{Bool, false, ◌||◌}
use mathlib.Core.Option.{Option, none, some}
use mathlib.Core.List.{List, [], ◌∷◌}
use native.Mathlib.Omega.{arith}
use mould_system_backend.Common.Tests.{if◌then◌else◌}
use mould_system_backend.Common.ByteStrings.{Bytes, bytes_eq, bytes_eq→eq, bytes_eq_refl}

abbrev pub Dict {ℓ} : Type ℓ → Type ℓ
Dict A = List (Bytes × A)

module _ {ℓ} {A : Type ℓ} where
  unfoldable pub find : Bytes → Dict A → Option A
  find key [] = none
  find key ((k, v) ∷ rest) = let found = find key rest in if bytes_eq k key then some v else found

  -- `emplace`: an entry that is there stays.
  unfoldable pub emplace : Bytes → A → Dict A → Dict A
  emplace key v [] = (key, v) ∷ []
  emplace key v ((k, w) ∷ rest) =
      let more = emplace key v rest in if bytes_eq k key then (k, w) ∷ rest else (k, w) ∷ more

  -- `m[key] = v`.
  unfoldable pub assign : Bytes → A → Dict A → Dict A
  assign key v [] = (key, v) ∷ []
  assign key v ((k, w) ∷ rest) =
      let more = assign key v rest in if bytes_eq k key then (k, v) ∷ rest else (k, w) ∷ more

abbrev pub mem_bytes : Bytes → List Bytes → Bool
mem_bytes x [] = false
mem_bytes x (y ∷ ys) = bytes_eq y x || mem_bytes x ys

pub bytes_eq-sym : (a b : Bytes) → bytes_eq a b ≡ bytes_eq b a
bytes_eq-sym [] [] = refl
bytes_eq-sym [] (y ∷ ys) = refl
bytes_eq-sym (x ∷ xs) [] = refl
bytes_eq-sym (x ∷ xs) (y ∷ ys) = ground (arith, bytes_eq-sym xs ys)

module _ {ℓ} {A : Type ℓ} where
  pub find-assign :
      (key : Bytes) (v : A) (d : Dict A) (k : Bytes)
      → find k (assign key v d) ≡ (if bytes_eq key k then some v else find k d)
  unfolding find assign
  find-assign key v [] k = refl
  find-assign key v ((j, w) ∷ rest) k =
      ground
        (arith, find-assign key v rest k, bytes_eq→eq j key, bytes_eq→eq key k, bytes_eq_refl k)

  abbrev pub or_new : Option A → A → Option A
  or_new none v = some v
  or_new (some w) v = some w

  pub find-emplace :
      (key : Bytes) (v : A) (d : Dict A) (k : Bytes)
      → find k (emplace key v d) ≡ (if bytes_eq key k then or_new (find k d) v else find k d)
  unfolding find emplace
  find-emplace key v [] k = refl
  find-emplace key v ((j, w) ∷ rest) k =
      ground
        (arith, find-emplace key v rest k, bytes_eq→eq j key, bytes_eq→eq key k, bytes_eq_refl k)
