-- ===== src/Config/Json/Within.antt =====
-- What the reader leaves of a text after its strings and words.
use mould_system_backend.Common.{
  ℕ, suc, Bool, true, false, Bytes, Option, none, some, List, [], ◌∷◌, ◌<◌, ◌≤◌, ◌==◌, ◌≡◌, refl,
  arith, if◌then◌else◌, length, drop, length-drop,
}
use mould_system_backend.Config.Decimal.{IsInt64}
use mould_system_backend.Config.Json.Tree.{
  JValue, JObject, JArray, integral, object, array, no_members, member, no_items, item, has_key,
  JsonError, Parsed, ok, failed, bind,
}
use mould_system_backend.Config.Json.Reader.{
  peek, bump, ws, expect, unescape, push, scan_string, parse_string, spelled, true_word, false_word,
  null_word, parse_bool, parse_null, parse_key,
}

-- No object has a key twice, and the integers are 64-bit.
abbrev mutual
  pub IsWellFormed : JValue → Type 0
  IsWellFormed (integral i) = IsInt64 i
  IsWellFormed (object o) = IsDistinct [] o
  IsWellFormed (array a) = AreWellFormed a
  IsWellFormed _ = Unit {0}

  pub IsDistinct : List Bytes → JObject → Type 0
  IsDistinct keys no_members = Unit {0}
  IsDistinct keys (member k v rest) =
      (has_key k keys ≡ false) × IsWellFormed v × IsDistinct (k ∷ keys) rest

  pub AreWellFormed : JArray → Type 0
  AreWellFormed no_items = Unit {0}
  AreWellFormed (item v rest) = IsWellFormed v × AreWellFormed rest

-- The reader did not run out of fuel; what it read satisfies `P`, and less than `n` characters are left.
pub data Within {ℓ} {A : Type ℓ} (n : ℕ) (P : A → Type 0) : Parsed A → Type ℓ where
  within : {a : A} {t : Bytes} → length t < n → P a → Within n P (ok a t)
  stopped : {e : JsonError} → Within n P (failed e)

abbrev pub Any {ℓ} : {A : Type ℓ} → A → Type 0
Any a = Unit {0}

module _ {ℓ} {A : Type ℓ} {P : A → Type 0} where
  pub Within-bind {κ} :
      {B : Type κ} {Q : B → Type 0} {n m : ℕ} {r : Parsed A} {f : A → Bytes → Parsed B}
      → Within n P r
      → ((a : A) (t : Bytes) → length t < n → P a → Within m Q (f a t))
      → Within m Q (bind r f)
  Within-bind (within {a} {t} lt h) k = k a t lt h
  Within-bind stopped k = stopped

  pub Within-le : {n m : ℕ} {r : Parsed A} → n ≤ m → Within n P r → Within m P r
  Within-le le (within lt h) = within (omega arith) h
  Within-le le stopped = stopped

  pub Within-if :
      {n : ℕ} (b : Bool) {x y : Parsed A}
      → (b ≡ true → Within n P x)
      → (b ≡ false → Within n P y)
      → Within n P (if b then x else y)
  Within-if true h k = h refl
  Within-if false h k = k refl

pub length-ws : (t : Bytes) → length (ws t) ≤ length t
unfolding ws
length-ws [] = omega arith
length-ws (c ∷ cs) = ground (arith, length-ws cs)

-- A character that is not the zero byte is there to be read.
pub length-bump : (t : Bytes) (c : ℕ) → peek t == suc c ≡ true → length (bump t) < length t
length-bump [] c h = ground arith
length-bump (b ∷ t) c h = omega arith

pub expect-Within : (c : ℕ) (t : Bytes) → Within (length t) Any (expect (suc c) t)
unfolding expect
expect-Within c t =
    Within-if (peek (ws t) == suc c)
      (λ h. within (omega (arith, length-ws t, length-bump (ws t) c h)) tt) (λ h. stopped)

push-Within :
    {n : ℕ} {r : Parsed Bytes} (c : Option ℕ) → Within n Any r → Within (suc n) Any (push c r)
push-Within none h = stopped
push-Within (some c) (within lt h) = within (omega arith) tt
push-Within (some c) stopped = stopped

pub scan_string-Within :
    (escaped : Bool) (t : Bytes) → Within (length t) Any (scan_string escaped t)
unfolding scan_string
scan_string-Within escaped [] = stopped
scan_string-Within true (c ∷ cs) = push-Within (unescape c) (scan_string-Within false cs)
scan_string-Within false (c ∷ cs) =
    let ih = scan_string-Within (c == b'\\') cs in
    Within-if (c == b'"') (λ h. within (omega arith) tt)
      (λ h. Within-if (c == b'\\') (λ e. Within-le (omega arith) ih) (λ e. push-Within (some c) ih))

pub parse_key-Within : (t : Bytes) → Within (length t) Any (parse_key t)
unfolding parse_key parse_string
parse_key-Within t =
    Within-if (peek (ws t) == b'"')
      (λ h.
        Within-le (omega (arith, length-ws t, length-bump (ws t) 33 h))
          (scan_string-Within false (bump (ws t))))
      (λ h. stopped)

spelled-length : (c : ℕ) (cs t : Bytes) → spelled (c ∷ cs) t ≡ true → 0 < length t
spelled-length c cs [] h = ground arith
spelled-length c cs (b ∷ t) h = omega arith

drop-shorter : (n : ℕ) (t : Bytes) → 0 < length t → length (drop (suc n) t) < length t
drop-shorter n t h = omega (arith, length-drop (suc n) t)

pub parse_bool-Within : (t : Bytes) → Within (length t) IsWellFormed (parse_bool t)
unfolding parse_bool
parse_bool-Within t =
    Within-if (spelled true_word t)
      (λ h. within (drop-shorter 3 t (spelled-length b't' (b'r' ∷ b'u' ∷ b'e' ∷ []) t h)) tt)
      (λ h.
        Within-if (spelled false_word t)
          (λ e.
            within (drop-shorter 4 t (spelled-length b'f' (b'a' ∷ b'l' ∷ b's' ∷ b'e' ∷ []) t e)) tt)
          (λ e. stopped))

pub parse_null-Within : (t : Bytes) → Within (length t) IsWellFormed (parse_null t)
unfolding parse_null
parse_null-Within t =
    Within-if (spelled null_word t)
      (λ h. within (drop-shorter 3 t (spelled-length b'n' (b'u' ∷ b'l' ∷ b'l' ∷ []) t h)) tt)
      (λ h. stopped)
