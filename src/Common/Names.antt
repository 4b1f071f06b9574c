-- ===== src/Common/Names.antt =====
-- Maps with names as keys, as functions: what `unordered_map<std::string, T>` shows to its users.
use text.Mathlib.Text.{◌==◌ as str_eq}
use text.Mathlib.TextEquality.{eq_iff}
use text.Mathlib.TextPositions.{eq_refl}
use Prim.Native.String.{String}
use mathlib.Core.Path.{◌≡◌}
use mathlib.Core.Logic.{◌≢◌}
use native.Mathlib.Omega.{arith}
use mould_system_backend.Common.Tests.{if◌then◌else◌}

abbrev pub NameMap {ℓ} : Type ℓ → Type ℓ
NameMap A = String → A

abbrev pub store_at {ℓ} : {A : Type ℓ} → NameMap A → String → A → NameMap A
store_at m k v j = if str_eq k j then v else m j

pub store_at_self {ℓ} : {A : Type ℓ} (m : NameMap A) (k : String) (v : A) → store_at m k v k ≡ v
store_at_self m k v = ground (arith, eq_refl k)

pub store_at_ne {ℓ} :
    {A : Type ℓ} (m : NameMap A) (k j : String) (v : A) → k ≢ j → store_at m k v j ≡ m j
store_at_ne m k j v h = ground (arith, eq_iff k j)
