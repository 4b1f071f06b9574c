-- ===== src/Config/Json/Reader.antt =====
-- The reader.
use mould_system_backend.Common.{
  ℕ, zero, suc, ℤ, Bool, true, false, not, ◌&&◌, ◌||◌, Bytes, bytes_eq, Option, none, some, List,
  [], ◌∷◌, ◌++◌, ◌+◌, ◌*◌, ◌==◌, if◌then◌else◌, length, take, drop,
}
use mould_system_backend.Config.Decimal.{is_digit, span_digits, stoll}
use mould_system_backend.Config.Json.Tree.{
  JValue, JObject, JArray, null, boolean, integral, real, text, object, array, no_members, member,
  no_items, item, has_key, JsonError, trailing_characters, invalid_value, key_not_string,
  unterminated_escape, unsupported_escape, unterminated_string, invalid_boolean, invalid_null,
  expected, duplicate_key, object_separator, array_separator, Parsed, ok, failed, out_of_fuel, bind,
}

-- The first character, or the zero byte at the end.
abbrev pub peek : Bytes → ℕ
peek [] = 0
peek (c ∷ cs) = c

abbrev pub bump : Bytes → Bytes
bump [] = []
bump (c ∷ cs) = cs

unfoldable pub is_ws : ℕ → Bool
is_ws c = c == b' ' || c == b'\n' || c == b'\r' || c == b'\t'

unfoldable pub ws : Bytes → Bytes
unfolding is_ws
ws [] = []
ws (c ∷ cs) = let rest = ws cs in if is_ws c then rest else c ∷ cs

unfoldable pub expect : ℕ → Bytes → Parsed (Unit {0})
unfolding ws
expect c t = let u = ws t in if peek u == c then ok tt (bump u) else failed (expected c)

-- What an escape stands for.
unfoldable pub unescape : ℕ → Option ℕ
unescape e =
    if e == b'"'
    then some b'"'
    else if e == b'\\'
    then some b'\\'
    else if e == b'/'
    then some b'/'
    else if e == b'b'
    then some 8
    else if e == b'f'
    then some 12
    else if e == b'n'
    then some b'\n'
    else if e == b'r'
    then some b'\r'
    else if e == b't'
    then some b'\t'
    else none

abbrev pub push : Option ℕ → Parsed Bytes → Parsed Bytes
push none r = failed unsupported_escape
push (some c) r = bind r (λ out t. ok (c ∷ out) t)

-- The rest of a string; the flag says that the character before was a backslash.
unfoldable pub scan_string : Bool → Bytes → Parsed Bytes
unfolding unescape
scan_string escaped [] = failed (if escaped then unterminated_escape else unterminated_string)
scan_string escaped (c ∷ cs) =
    let rest = scan_string (not escaped && c == b'\\') cs in
    if escaped
    then push (unescape c) rest
    else if c == b'"'
    then ok [] cs
    else if c == b'\\'
    then rest
    else push (some c) rest

unfoldable pub parse_string : Bytes → Parsed Bytes
unfolding scan_string
parse_string t = scan_string false t

abbrev pub spelled : Bytes → Bytes → Bool
spelled word t = bytes_eq (take (length word) t) word

abbrev pub true_word : Bytes
true_word = b't' ∷ b'r' ∷ b'u' ∷ b'e' ∷ []

abbrev pub false_word : Bytes
false_word = b'f' ∷ b'a' ∷ b'l' ∷ b's' ∷ b'e' ∷ []

abbrev pub null_word : Bytes
null_word = b'n' ∷ b'u' ∷ b'l' ∷ b'l' ∷ []

unfoldable pub parse_bool : Bytes → Parsed JValue
parse_bool t =
    if spelled true_word t
    then ok (boolean true) (drop 4 t)
    else if spelled false_word t
    then ok (boolean false) (drop 5 t)
    else failed invalid_boolean

unfoldable pub parse_null : Bytes → Parsed JValue
parse_null t = if spelled null_word t then ok null (drop 4 t) else failed invalid_null

-- The pieces of a number's token, each with what follows it.
abbrev pub span_sign : Bytes → Bytes × Bytes
span_sign t = if peek t == b'-' then (b'-' ∷ [], bump t) else ([], t)

abbrev pub span_fraction : Bytes → Bytes × Bytes
span_fraction t =
    if peek t == b'.' then (let (ds, u) = span_digits (bump t) in (b'.' ∷ ds, u)) else ([], t)

abbrev pub exponent_sign : Bytes → Bytes × Bytes
exponent_sign t = if peek t == b'+' || peek t == b'-' then (peek t ∷ [], bump t) else ([], t)

abbrev pub span_exponent : Bytes → Bytes × Bytes
span_exponent t =
    let (sign, u) = exponent_sign (bump t) in
    let (ds, v) = span_digits u in
    if peek t == b'e' || peek t == b'E' then (peek t ∷ (sign ++ ds), v) else ([], t)

unfoldable pub number_token : Bytes → Bytes × Bytes
number_token t =
    let (sign, t1) = span_sign t in
    let (ds, t2) = span_digits t1 in
    let (fraction, t3) = span_fraction t2 in
    let (exponent, t4) = span_exponent t3 in (sign ++ ds ++ fraction ++ exponent, t4)

abbrev pub has_byte : ℕ → Bytes → Bool
has_byte b [] = false
has_byte b (c ∷ cs) = c == b || has_byte b cs

abbrev pub is_real_token : Bytes → Bool
is_real_token token = has_byte b'.' token || has_byte b'e' token || has_byte b'E' token

-- Which texts `std::stod` converts, and what an exception of a conversion becomes.
pub record Numbers : Type 0 where
  pub stod_converts : Bytes → Bool
  pub conversion_error : JsonError

abbrev pub integral_of : JsonError → Bytes → Option (ℤ × Bytes) → Parsed JValue
integral_of e t none = failed e
integral_of e t (some (i, unread)) = ok (integral i) t

unfoldable pub parse_number : Numbers → Bytes → Parsed JValue
unfolding number_token
parse_number numbers t =
    let (token, u) = number_token t in
    if is_real_token token
    then (if numbers.stod_converts token
        then ok (real token) u
        else failed numbers.conversion_error)
    else integral_of numbers.conversion_error u (stoll token)

-- What a value begins with.
pub data Start : Type 0 where
  object_start array_start string_start bool_start null_start number_start no_start : Start

unfoldable pub start_of : ℕ → Start
start_of c =
    if c == b'{'
    then object_start
    else if c == b'['
    then array_start
    else if c == b'"'
    then string_start
    else if c == b't' || c == b'f'
    then bool_start
    else if c == b'n'
    then null_start
    else if c == b'-' || is_digit c
    then number_start
    else no_start

unfoldable pub parse_key : Bytes → Parsed Bytes
unfolding parse_string ws
parse_key t =
    let u = ws t in if peek u == b'"' then parse_string (bump u) else failed key_not_string

-- How a list goes on behind an element.
pub data Next : Type 0 where
  closed more : Bytes → Next
  neither : Next

unfoldable pub next_of : ℕ → Bytes → Next
unfolding ws
next_of close t =
    let u = ws t in
    if peek u == close then closed (bump u) else if peek u == b',' then more (bump u) else neither

-- The same before the first element: the list may be empty.
abbrev pub is_closed : ℕ → Bytes → Bool
is_closed close t = peek t == close

-- Each call of these three costs a unit of fuel. An object's members are read with the keys before
-- them.
unfoldable mutual
  unfolding ws start_of parse_string parse_bool parse_null parse_key expect next_of

  pub parse_value : Numbers → ℕ → Bytes → Parsed JValue
  parse_value numbers zero t = out_of_fuel
  parse_value numbers (suc fuel) t =
      let u = ws t in
      elim (start_of (peek u)) [
        | object_start ↦ elim (is_closed b'}' (ws (bump u))) [
          | true ↦ ok (object no_members) (bump (ws (bump u)))
          | false ↦ bind (parse_members numbers fuel [] (bump u)) (λ o v. ok (object o) v)
        ]
        | array_start ↦ elim (is_closed b']' (ws (bump u))) [
          | true ↦ ok (array no_items) (bump (ws (bump u)))
          | false ↦ bind (parse_items numbers fuel (bump u)) (λ a v. ok (array a) v)
        ]
        | string_start ↦ bind (parse_string (bump u)) (λ s v. ok (text s) v)
        | bool_start ↦ parse_bool u
        | null_start ↦ parse_null u
        | number_start ↦ parse_number numbers u
        | no_start ↦ failed invalid_value
      ]

  pub parse_members : Numbers → ℕ → List Bytes → Bytes → Parsed JObject
  parse_members numbers zero keys t = out_of_fuel
  parse_members numbers (suc fuel) keys t = bind (parse_key t) (λ key t1.
      bind (expect b':' t1) (λ _ t2. bind (parse_value numbers fuel t2) (λ v t3.
        elim (has_key key keys) [
          | true ↦ failed (duplicate_key key)
          | false ↦ elim (next_of b'}' t3) [
            | closed t4 ↦ ok (member key v no_members) t4
            | more t4 ↦
                bind (parse_members numbers fuel (key ∷ keys) t4)
                  (λ rest t5. ok (member key v rest) t5)
            | neither ↦ failed object_separator
          ]
        ])))

  pub parse_items : Numbers → ℕ → Bytes → Parsed JArray
  parse_items numbers zero t = out_of_fuel
  parse_items numbers (suc fuel) t = bind (parse_value numbers fuel t) (λ v t1.
      elim (next_of b']' t1) [
        | closed t2 ↦ ok (item v no_items) t2
        | more t2 ↦ bind (parse_items numbers fuel t2) (λ rest t3. ok (item v rest) t3)
        | neither ↦ failed array_separator
      ])

abbrev pub at_end : JValue → Bytes → Parsed JValue
at_end v [] = ok v []
at_end v (c ∷ cs) = failed trailing_characters

unfoldable pub parse_document : Numbers → Bytes → Parsed JValue
unfolding ws
parse_document numbers t =
    bind (parse_value numbers (2 * length t + 1) (ws t)) (λ v u. at_end v (ws u))
