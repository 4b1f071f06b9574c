-- ===== src/Common/Tables.antt =====
-- Arrays in memory as functions from an index to a cell: one cell written, and runs of bytes
-- written and read.
use Prim.Native.Nat.{ℕ, zero, suc, ◌+◌, ◌≤◌, ◌<◌}
use mathlib.Core.Path.{◌≡◌, refl, ap₂, ◌∙◌}
use mathlib.Core.Logic.{◌≢◌, ◌⊎◌, inl, inr}
use mathlib.Core.List.{List, [], ◌∷◌}
use native.Mathlib.Omega.{arith}
use mould_system_backend.Common.Tests.{◌==◌, if◌then◌else◌}
use mould_system_backend.Common.Lists.{length}

abbrev pub update {ℓ} : {A : Type ℓ} → (ℕ → A) → ℕ → A → ℕ → A
update f i v j = if i == j then v else f j

pub update_self {ℓ} : {A : Type ℓ} (f : ℕ → A) (i : ℕ) (v : A) → update f i v i ≡ v
update_self f i v = ground arith

pub update_ne {ℓ} : {A : Type ℓ} (f : ℕ → A) (i j : ℕ) (v : A) → i ≢ j → update f i v j ≡ f j
update_ne f i j v h = ground arith

-- `memcpy` into the bytes from an offset on.
unfoldable pub write_bytes : (ℕ → ℕ) → ℕ → List ℕ → ℕ → ℕ
write_bytes mem offset [] = mem
write_bytes mem offset (b ∷ bs) = update (write_bytes mem (offset + 1) bs) offset b

-- The bytes that a pointer and a size show.
unfoldable pub read_bytes : (ℕ → ℕ) → ℕ → ℕ → List ℕ
read_bytes mem offset zero = []
read_bytes mem offset (suc n) = mem offset ∷ read_bytes mem (offset + 1) n

-- Offsets outside the written run keep their byte.
write_bytes_outside :
    (mem : ℕ → ℕ) (offset : ℕ) (bs : List ℕ) (j : ℕ)
    → (j < offset) ⊎ (offset + length bs ≤ j)
    → write_bytes mem offset bs j ≡ mem j
unfolding write_bytes
write_bytes_outside mem offset [] j h = refl
write_bytes_outside mem offset (b ∷ bs) j h =
    ground (arith, write_bytes_outside mem (offset + 1) bs j)

read_bytes-ext :
    (f g : ℕ → ℕ) (offset n : ℕ)
    → ((j : ℕ) → offset ≤ j → j < offset + n → f j ≡ g j)
    → read_bytes f offset n ≡ read_bytes g offset n
unfolding read_bytes
read_bytes-ext f g offset zero h = refl
read_bytes-ext f g offset (suc n) h =
    ap₂ ◌∷◌ (h offset (omega arith) (omega arith))
      (read_bytes-ext f g (offset + 1) n (λ j lo hi. h j (omega arith) (omega arith)))

-- Bytes that are written are read back.
pub read_bytes-write_bytes_self :
    (mem : ℕ → ℕ) (offset : ℕ) (bs : List ℕ)
    → read_bytes (write_bytes mem offset bs) offset (length bs) ≡ bs
unfolding read_bytes write_bytes
read_bytes-write_bytes_self mem offset [] = refl
read_bytes-write_bytes_self mem offset (b ∷ bs) =
    ap₂ ◌∷◌ (update_self (write_bytes mem (offset + 1) bs) offset b) (
      read_bytes-ext _ (write_bytes mem (offset + 1) bs) (offset + 1) (length bs)
        (λ j lo hi. update_ne (write_bytes mem (offset + 1) bs) offset j b (omega arith))
      ∙ read_bytes-write_bytes_self mem (offset + 1) bs)

-- A run that does not meet the written one keeps its bytes.
pub read_bytes-write_bytes_disjoint :
    (mem : ℕ → ℕ) (offset : ℕ) (bs : List ℕ) (from n : ℕ)
    → (from + n ≤ offset) ⊎ (offset + length bs ≤ from)
    → read_bytes (write_bytes mem offset bs) from n ≡ read_bytes mem from n
read_bytes-write_bytes_disjoint mem offset bs from n h =
    read_bytes-ext _ mem from n (λ j lo hi. write_bytes_outside mem offset bs j (outside j lo hi h))
  where
    outside :
        (j : ℕ)
        → from ≤ j
        → j < from + n
        → (from + n ≤ offset) ⊎ (offset + length bs ≤ from)
        → (j < offset) ⊎ (offset + length bs ≤ j)
    outside j lo hi (inl a) = inl (omega arith)
    outside j lo hi (inr b) = inr (omega arith)
