-- ===== src/Config/Json/Printer.antt =====
-- JSON text for a value, without white space: an independent description of what the reader reads.
use mould_system_backend.Common.{true, false, ◌||◌, Bytes, [], ◌∷◌, ◌++◌, ◌==◌, if◌then◌else◌}
use mould_system_backend.Config.Decimal.{to_string}
use mould_system_backend.Config.Json.Tree.{
  JValue, JObject, JArray, null, boolean, integral, real, text, object, array, no_members, member,
  no_items, item,
}
use mould_system_backend.Config.Json.Reader.{true_word, false_word, null_word}

-- The characters of a string with the closing quote.
unfoldable pub quote : Bytes → Bytes
quote [] = b'"' ∷ []
quote (c ∷ cs) =
    let rest = quote cs in if c == b'"' || c == b'\\' then b'\\' ∷ c ∷ rest else c ∷ rest

unfoldable mutual
  unfolding quote

  pub print_value : JValue → Bytes
  print_value null = null_word
  print_value (boolean true) = true_word
  print_value (boolean false) = false_word
  print_value (integral i) = to_string i
  print_value (real token) = token
  print_value (text s) = b'"' ∷ quote s
  print_value (object o) = b'{' ∷ print_members o
  print_value (array a) = b'[' ∷ print_items a

  -- With the closing bracket.
  pub print_members : JObject → Bytes
  print_members no_members = b'}' ∷ []
  print_members (member k v no_members) = (b'"' ∷ quote k) ++ b':' ∷ (print_value v ++ b'}' ∷ [])
  print_members (member k v (member k' v' rest)) =
      (b'"' ∷ quote k) ++ b':' ∷ (print_value v ++ b',' ∷ print_members (member k' v' rest))

  pub print_items : JArray → Bytes
  print_items no_items = b']' ∷ []
  print_items (item v no_items) = print_value v ++ b']' ∷ []
  print_items (item v (item v' rest)) = print_value v ++ b',' ∷ print_items (item v' rest)

-- No number with a fraction or an exponent.
abbrev mutual
  pub HasNoReals : JValue → Type 0
  HasNoReals (real token) = ⊥
  HasNoReals (object o) = MembersHaveNoReals o
  HasNoReals (array a) = ItemsHaveNoReals a
  HasNoReals _ = Unit {0}

  pub MembersHaveNoReals : JObject → Type 0
  MembersHaveNoReals no_members = Unit {0}
  MembersHaveNoReals (member k v rest) = HasNoReals v × MembersHaveNoReals rest

  pub ItemsHaveNoReals : JArray → Type 0
  ItemsHaveNoReals no_items = Unit {0}
  ItemsHaveNoReals (item v rest) = HasNoReals v × ItemsHaveNoReals rest
