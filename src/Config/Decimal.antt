-- ===== src/Config/Decimal.antt =====
-- `std::to_string` and `std::stoll`, as common/config uses them.
use mould_system_backend.Common.{
  ℕ, zero, suc, ℤ, pos, negsuc, Bool, true, false, ◌&&◌, ◌||◌, Bytes, Option, none, some, [], ◌∷◌,
  ◌++◌, ◌+◌, ◌-◌, ◌*◌, ◌/◌, ◌%◌, ◌^◌, ◌≤◌, ◌<◌, ◌==◌, ltb, leb, ◌≡◌, inl, inr, refl, sym, ap, ◌∙◌,
  subst, arith, if◌then◌else◌, Bool-cases,
}

unfoldable pub is_digit : ℕ → Bool
is_digit c = leb b'0' c && leb c b'9'

-- The characters that `strtoll` skips in front.
unfoldable pub is_space : ℕ → Bool
is_space c = c == b' ' || leb 9 c && leb c 13

unfoldable pub skip_spaces : Bytes → Bytes
unfolding is_space
skip_spaces [] = []
skip_spaces (c ∷ cs) = let rest = skip_spaces cs in if is_space c then rest else c ∷ cs

-- The leading digits, and what follows them.
unfoldable pub span_digits : Bytes → Bytes × Bytes
unfolding is_digit
span_digits [] = ([], [])
span_digits (c ∷ cs) =
    let (ds, rest) = span_digits cs in if is_digit c then (c ∷ ds, rest) else ([], c ∷ cs)

-- Digits read after `acc`.
unfoldable pub digits_value : ℕ → Bytes → ℕ
digits_value acc [] = acc
digits_value acc (c ∷ cs) = digits_value (acc * 10 + (c - b'0')) cs

abbrev pub negate : ℕ → ℤ
negate zero = pos 0
negate (suc n) = negsuc n

abbrev pub in_int64 : Bool → ℕ → Bool
in_int64 negative n = if negative then leb n (2 ^ 63) else ltb n (2 ^ 63)

-- Without digits or out of range it throws; otherwise what follows the number is left.
abbrev pub signed_value : Bool → Bytes × Bytes → Option (ℤ × Bytes)
signed_value negative ([], rest) = none
signed_value negative (d ∷ ds, rest) =
    let n = digits_value 0 (d ∷ ds) in
    if in_int64 negative n then some (if negative then negate n else pos n, rest) else none

unfoldable pub stoll_signed : Bytes → Option (ℤ × Bytes)
unfolding span_digits
stoll_signed [] = none
stoll_signed (c ∷ cs) =
    if c == b'-'
    then signed_value true (span_digits cs)
    else if c == b'+'
    then signed_value false (span_digits cs)
    else signed_value false (span_digits (c ∷ cs))

unfoldable pub stoll : Bytes → Option (ℤ × Bytes)
unfolding stoll_signed skip_spaces
stoll s = stoll_signed (skip_spaces s)

-- The digits of a number; the fuel is above the number.
unfoldable pub digits_of : ℕ → ℕ → Bytes
digits_of zero n = []
digits_of (suc fuel) n =
    let rest = digits_of fuel (n / 10) in
    if ltb n 10 then (b'0' + n) ∷ [] else rest ++ (b'0' + n % 10) ∷ []

unfoldable pub to_string : ℤ → Bytes
unfolding digits_of
to_string (pos n) = digits_of (suc n) n
to_string (negsuc n) = b'-' ∷ digits_of (suc (n + 1)) (suc n)

abbrev pub IsInt64 : ℤ → Type 0
IsInt64 (pos n) = n < 2 ^ 63
IsInt64 (negsuc n) = n < 2 ^ 63

-- What may follow a number without becoming a part of it.
abbrev pub StopsDigits : Bytes → Type 0
StopsDigits [] = Unit {0}
StopsDigits (c ∷ cs) = is_digit c ≡ false

abbrev pub AllDecimal : Bytes → Type 0
AllDecimal [] = Unit {0}
AllDecimal (c ∷ cs) = (is_digit c ≡ true) × AllDecimal cs

AllDecimal-snoc :
    (ds : Bytes) (c : ℕ) → AllDecimal ds → is_digit c ≡ true → AllDecimal (ds ++ c ∷ [])
AllDecimal-snoc [] c h hc = (hc, tt)
AllDecimal-snoc (d ∷ ds) c h hc = (h.0, AllDecimal-snoc ds c h.1 hc)

digits_value-snoc :
    (acc : ℕ) (ds : Bytes) (c : ℕ)
    → digits_value acc (ds ++ c ∷ []) ≡ digits_value acc ds * 10 + (c - b'0')
unfolding digits_value
digits_value-snoc acc [] c = refl
digits_value-snoc acc (d ∷ ds) c = digits_value-snoc (acc * 10 + (d - b'0')) ds c

digit-is_digit : (n : ℕ) → n < 10 → is_digit (b'0' + n) ≡ true
unfolding is_digit
digit-is_digit n h = ground arith

pub digits_of-AllDecimal : (fuel n : ℕ) → AllDecimal (digits_of fuel n)
unfolding digits_of
digits_of-AllDecimal zero n = tt
digits_of-AllDecimal (suc fuel) n = elim (Bool-cases (ltb n 10)) [
  | inl h ↦ rw h (digit-is_digit n (ground arith), tt)
  | inr h ↦ rw h (
      AllDecimal-snoc (digits_of fuel (n / 10)) (b'0' + n % 10) (digits_of-AllDecimal fuel (n / 10))
        (digit-is_digit (n % 10) (omega arith)))
]

pub digits_value-digits_of : (fuel n : ℕ) → n < fuel → digits_value 0 (digits_of fuel n) ≡ n
unfolding digits_of digits_value
digits_value-digits_of zero n h = omega arith
digits_value-digits_of (suc fuel) n h = elim (Bool-cases (ltb n 10)) [
  | inl e ↦ rw e (omega arith)
  | inr e ↦
      let below : 10 ≤ n = ground arith in
      rw
        (
          e,
          digits_value-snoc 0 (digits_of fuel (n / 10)) (b'0' + n % 10),
          digits_value-digits_of fuel (n / 10) (omega arith),
        )
        (omega arith)
]

pub span_digits-append :
    (ds rest : Bytes) → AllDecimal ds → StopsDigits rest → span_digits (ds ++ rest) ≡ (ds, rest)
unfolding span_digits
span_digits-append [] [] h s = refl
span_digits-append [] (c ∷ cs) h s = rw s refl
span_digits-append (d ∷ ds) rest h s = rw (h.0, span_digits-append ds rest h.1 s) refl

-- A number has at least one digit.
pub digits_of-cons : (fuel n : ℕ) → (d : ℕ) × (ds : Bytes) × (digits_of (suc fuel) n ≡ d ∷ ds)
unfolding digits_of
digits_of-cons fuel n = elim (Bool-cases (ltb n 10)) [
  | inl e ↦ rw e (b'0' + n, [], refl)
  | inr e ↦ rw e (snoc_cons (digits_of fuel (n / 10)) (b'0' + n % 10))
]
  where
    snoc_cons : (xs : Bytes) (c : ℕ) → (d : ℕ) × (ds : Bytes) × (xs ++ c ∷ [] ≡ d ∷ ds)
    snoc_cons [] c = (c, [], refl)
    snoc_cons (x ∷ xs) c = (x, xs ++ c ∷ [], refl)

signed_value-read :
    (negative : Bool) (d : ℕ) (ds rest : Bytes)
    → in_int64 negative (digits_value 0 (d ∷ ds)) ≡ true
    → signed_value negative (d ∷ ds, rest)
      ≡ some (
        if negative then negate (digits_value 0 (d ∷ ds)) else pos (digits_value 0 (d ∷ ds)),
        rest,
      )
signed_value-read negative d ds rest h = rw h refl

skip_spaces-digit : (c : ℕ) (cs : Bytes) → is_digit c ≡ true → skip_spaces (c ∷ cs) ≡ c ∷ cs
unfolding skip_spaces is_space is_digit
skip_spaces-digit c cs h = ground arith

digit-no_sign : (c : ℕ) → is_digit c ≡ true → (c == b'-' ≡ false) × (c == b'+' ≡ false)
unfolding is_digit
digit-no_sign c h = ground arith

stoll_signed-digit :
    (c : ℕ) (cs : Bytes)
    → is_digit c ≡ true
    → stoll_signed (c ∷ cs) ≡ signed_value false (span_digits (c ∷ cs))
unfolding stoll_signed
stoll_signed-digit c cs h =
    let (minus, plus) = digit-no_sign c h in rw (stoll_signed, minus, plus) refl

stoll-digits :
    (c : ℕ) (cs rest : Bytes)
    → AllDecimal (c ∷ cs)
    → digits_value 0 (c ∷ cs) < 2 ^ 63
    → StopsDigits rest
    → stoll ((c ∷ cs) ++ rest) ≡ some (pos (digits_value 0 (c ∷ cs)), rest)
unfolding stoll
stoll-digits c cs rest all small stops =
    let fits : in_int64 false (digits_value 0 (c ∷ cs)) ≡ true = ground arith in
    ap stoll_signed (skip_spaces-digit c (cs ++ rest) (all.0))
    ∙ stoll_signed-digit c (cs ++ rest) (all.0)
    ∙ ap (signed_value false) (span_digits-append (c ∷ cs) rest all stops)
    ∙ signed_value-read false c cs rest fits

stoll-minus :
    (c : ℕ) (cs rest : Bytes)
    → AllDecimal (c ∷ cs)
    → digits_value 0 (c ∷ cs) ≤ 2 ^ 63
    → StopsDigits rest
    → stoll ((b'-' ∷ c ∷ cs) ++ rest) ≡ some (negate (digits_value 0 (c ∷ cs)), rest)
unfolding stoll stoll_signed skip_spaces is_space
stoll-minus c cs rest all small stops =
    let fits : in_int64 true (digits_value 0 (c ∷ cs)) ≡ true = ground arith in
    ap (signed_value true) (span_digits-append (c ∷ cs) rest all stops)
    ∙ signed_value-read true c cs rest fits

-- Printing a 64-bit integer and reading it back gives the integer, and leaves what follows it.
pub stoll-to_string :
    (i : ℤ) (rest : Bytes)
    → IsInt64 i
    → StopsDigits rest
    → stoll (to_string i ++ rest) ≡ some (i, rest)
unfolding to_string
stoll-to_string (pos n) rest small stops =
    let (d, ds, e) = digits_of-cons n n in
    let all = subst AllDecimal e (digits_of-AllDecimal (suc n) n) in
    let value : digits_value 0 (d ∷ ds) ≡ n =
      ap (digits_value 0) (sym e) ∙ digits_value-digits_of (suc n) n (omega arith) in
    rw (e, stoll-digits d ds rest all (omega (arith, value)) stops, value) refl
stoll-to_string (negsuc n) rest small stops =
    let (d, ds, e) = digits_of-cons (n + 1) (suc n) in
    let all = subst AllDecimal e (digits_of-AllDecimal (suc (n + 1)) (suc n)) in
    let value : digits_value 0 (d ∷ ds) ≡ suc n =
      ap (digits_value 0) (sym e) ∙ digits_value-digits_of (suc (n + 1)) (suc n) (omega arith) in
    rw (e, stoll-minus d ds rest all (omega (arith, value)) stops, value) refl
