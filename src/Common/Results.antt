-- ===== src/Common/Results.antt =====
-- A check that gives a value or refuses with an error.
use mathlib.Core.Path.{◌≡◌, refl}
use mathlib.Core.Bool.{Bool, true, false}

pub data Checked {ℓ κ} (E : Type ℓ) (A : Type κ) : Type (ℓ ⊔ κ) where
  done : A → Checked E A
  refused : E → Checked E A

module _ {ℓ κ μ} {E : Type ℓ} {A : Type κ} {B : Type μ} where
  infixl 5 ◌>>=◌
  abbrev pub ◌>>=◌ : Checked E A → (A → Checked E B) → Checked E B
  done a >>= f = f a
  refused e >>= f = refused e

  -- What a successful sequence consists of.
  pub >>=-done :
      (m : Checked E A) (f : A → Checked E B) {b : B}
      → m >>= f ≡ done b
      → (a : A) × (m ≡ done a) × (f a ≡ done b)
  >>=-done (done a) f h = (a, refl, h)
  >>=-done (refused e) f h = cc

abbrev pub require {ℓ} : {E : Type ℓ} → Bool → E → Checked E (Unit {0})
require true e = done tt
require false e = refused e

pub require-done {ℓ} : {E : Type ℓ} (b : Bool) (e : E) → require b e ≡ done tt → b ≡ true
require-done true e h = refl
require-done false e h = cc
