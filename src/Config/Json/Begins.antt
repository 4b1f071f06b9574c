-- ===== src/Config/Json/Begins.antt =====
-- How a printed value begins, and what the reader makes of the first character.
use mould_system_backend.Common.{
  ℕ, suc, ℤ, pos, negsuc, true, false, Bytes, [], ◌∷◌, ◌++◌, ◌+◌, ◌==◌, ◌≡◌, refl, ap, subst, arith,
}
use mould_system_backend.Config.Decimal.{to_string, digits_of, digits_of-cons}
use mould_system_backend.Config.Json.Tree.{
  JValue, null, boolean, integral, real, text, object, array, no_members, no_items, invalid_number,
  ok, bind,
}
use mould_system_backend.Config.Json.Reader.{
  peek, is_ws, ws, expect, parse_string, parse_bool, parse_null, Numbers, parse_number,
  number_start, start_of, parse_key, closed, more, next_of, parse_value, parse_members, parse_items,
}
use mould_system_backend.Config.Json.Printer.{quote, print_value, HasNoReals}
use mould_system_backend.Config.Json.Within.{IsWellFormed}
use mould_system_backend.Config.Json.Printed.{scan_string-quote, parse_number-to_string}

-- A printed value begins with a character that is neither white space nor a closing bracket.
abbrev pub Begins : JValue → Type 0
Begins v =
    (c : ℕ) × (cs : Bytes) × (print_value v ≡ c ∷ cs) × (is_ws c ≡ false) × (c == b']' ≡ false)

pub to_string-cons : (i : ℤ) → (c : ℕ) × (cs : Bytes) × (to_string i ≡ c ∷ cs)
unfolding to_string
to_string-cons (pos n) = digits_of-cons n n
to_string-cons (negsuc n) = (b'-', digits_of (suc (n + 1)) (suc n), refl)

pub print_value-Begins : (v : JValue) → IsWellFormed v → HasNoReals v → Begins v
unfolding print_value is_ws
print_value-Begins null w h = (_, _, refl, refl, refl)
print_value-Begins (boolean true) w h = (_, _, refl, refl, refl)
print_value-Begins (boolean false) w h = (_, _, refl, refl, refl)
print_value-Begins (integral i) w h =
    let (c, cs, e) = to_string-cons i in
    let read = parse_number-to_string any_numbers i w in
    (
      c,
      cs,
      e,
      subst (λ xs. is_ws (peek xs) ≡ false) e read.1,
      subst (λ xs. peek xs == b']' ≡ false) e read.2,
    )
  where
    any_numbers : Numbers
    any_numbers = record { stod_converts = λ t. true; conversion_error = invalid_number }
print_value-Begins (real token) w h = absurd h
print_value-Begins (text s) w h = (_, _, refl, refl, refl)
print_value-Begins (object o) w h = (_, _, refl, refl, refl)
print_value-Begins (array a) w h = (_, _, refl, refl, refl)

pub ws-Begins : (c : ℕ) (cs : Bytes) → is_ws c ≡ false → ws (c ∷ cs) ≡ c ∷ cs
unfolding ws
ws-Begins c cs h = rw h refl

pub parse_key-quote : (k rest : Bytes) → parse_key ((b'"' ∷ quote k) ++ rest) ≡ ok k rest
unfolding parse_key parse_string ws is_ws
parse_key-quote k rest = scan_string-quote k rest

expect_colon : (rest : Bytes) → expect b':' (b':' ∷ rest) ≡ ok tt rest
unfolding expect ws is_ws
expect_colon rest = refl

pub next_of-close : (c : ℕ) (rest : Bytes) → is_ws c ≡ false → next_of c (c ∷ rest) ≡ closed rest
unfolding next_of ws
next_of-close c rest h = rw h (ground arith)

pub next_of-comma : (c : ℕ) (rest : Bytes) → b',' == c ≡ false → next_of c (b',' ∷ rest) ≡ more rest
unfolding next_of ws is_ws
next_of-comma c rest h = rw h refl

pub value-number :
    (numbers : Numbers) (f c : ℕ) (cs : Bytes)
    → is_ws c ≡ false
    → start_of c ≡ number_start
    → parse_value numbers (suc f) (c ∷ cs) ≡ parse_number numbers (c ∷ cs)
unfolding parse_value ws
value-number numbers f c cs h s =
    rw (parse_value, h, s) (ap (parse_number numbers) (ws-Begins c cs h))

pub value-text :
    (numbers : Numbers) (f : ℕ) (s rest : Bytes)
    → parse_value numbers (suc f) ((b'"' ∷ quote s) ++ rest) ≡ ok (text s) rest
unfolding parse_value ws is_ws start_of parse_string
value-text numbers f s rest = ap (λ r. bind r (λ s v. ok (text s) v)) (scan_string-quote s rest)

pub value-object :
    (numbers : Numbers) (f : ℕ) (t : Bytes)
    → parse_value numbers (suc f) (b'{' ∷ b'"' ∷ t)
      ≡ bind (parse_members numbers f [] (b'"' ∷ t)) (λ o v. ok (object o) v)
unfolding parse_value ws is_ws start_of
value-object numbers f t = refl

pub value-array :
    (numbers : Numbers) (f c : ℕ) (cs : Bytes)
    → is_ws c ≡ false
    → c == b']' ≡ false
    → parse_value numbers (suc f) (b'[' ∷ c ∷ cs)
      ≡ bind (parse_items numbers f (c ∷ cs)) (λ a v. ok (array a) v)
unfolding parse_value ws is_ws start_of
value-array numbers f c cs h b = rw (parse_value, ws-Begins c cs h, b) refl

pub value-empty :
    (numbers : Numbers) (f : ℕ) (rest : Bytes)
    → (parse_value numbers (suc f) (b'{' ∷ b'}' ∷ rest) ≡ ok (object no_members) rest)
      × (parse_value numbers (suc f) (b'[' ∷ b']' ∷ rest) ≡ ok (array no_items) rest)
unfolding parse_value ws is_ws start_of
value-empty numbers f rest = (refl, refl)

pub value-words :
    (numbers : Numbers) (f : ℕ) (rest : Bytes)
    → (parse_value numbers (suc f) (print_value null ++ rest) ≡ ok null rest)
      × (parse_value numbers (suc f) (print_value (boolean true) ++ rest) ≡ ok (boolean true) rest)
      × (parse_value numbers (suc f) (print_value (boolean false) ++ rest)
          ≡ ok (boolean false) rest)
unfolding parse_value ws is_ws start_of print_value parse_null parse_bool
value-words numbers f rest = (refl, refl, refl)
