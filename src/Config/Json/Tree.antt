-- ===== src/Config/Json/Tree.antt =====
-- JSON values, and the outcome of reading one.
use mould_system_backend.Common.{
  ℕ, ℤ, Bool, false, Bytes, bytes_eq, Option, none, some, List, [], ◌∷◌, ◌||◌, if◌then◌else◌,
}

-- A number with a fraction or an exponent is its text. The members of an object keep their order.
mutual
  pub data JValue : Type 0 where
    null : JValue
    boolean : Bool → JValue
    integral : ℤ → JValue
    real : Bytes → JValue
    text : Bytes → JValue
    object : JObject → JValue
    array : JArray → JValue

  pub data JObject : Type 0 where
    no_members : JObject
    member : Bytes → JValue → JObject → JObject

  pub data JArray : Type 0 where
    no_items : JArray
    item : JValue → JArray → JArray

-- The first value of a key.
unfoldable pub find_object_key : Bytes → JObject → Option JValue
find_object_key key no_members = none
find_object_key key (member k v rest) =
    let found = find_object_key key rest in if bytes_eq k key then some v else found

abbrev pub keys_of : JObject → List Bytes
keys_of no_members = []
keys_of (member k v rest) = k ∷ keys_of rest

abbrev pub has_key : Bytes → List Bytes → Bool
has_key key [] = false
has_key key (k ∷ ks) = bytes_eq k key || has_key key ks

-- The texts of the errors. `uncaught` is an exception of the standard library that no handler of the
-- caller takes.
pub data JsonError : Type 0 where
  trailing_characters invalid_value key_not_string unterminated_escape unsupported_escape
        unterminated_string invalid_boolean invalid_null invalid_number uncaught :
      JsonError
  expected : ℕ → JsonError
  duplicate_key : Bytes → JsonError
  object_separator array_separator : JsonError

-- A value with the text behind it.
pub data Parsed {ℓ} (A : Type ℓ) : Type ℓ where
  ok : A → Bytes → Parsed A
  failed : JsonError → Parsed A
  out_of_fuel : Parsed A

abbrev pub bind {ℓ κ} : {A : Type ℓ} {B : Type κ} → Parsed A → (A → Bytes → Parsed B) → Parsed B
bind (ok a t) f = f a t
bind (failed e) f = failed e
bind out_of_fuel f = out_of_fuel
