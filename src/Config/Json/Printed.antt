-- ===== src/Config/Json/Printed.antt =====
-- The reader on printed strings and integers.
use mathlib.Core.List.{append-nil}
use mould_system_backend.Common.{
  ℕ, suc, ℤ, pos, negsuc, true, false, ◌||◌, Bytes, some, [], ◌∷◌, ◌++◌, ◌+◌, ◌==◌, ◌≡◌, refl, sym,
  ap, ◌∙◌, subst, arith, if◌then◌else◌,
}
use mould_system_backend.Config.Decimal.{
  is_digit, span_digits, span_digits-append, stoll, stoll-to_string, to_string, digits_of,
  digits_of-cons, digits_of-AllDecimal, AllDecimal, StopsDigits, IsInt64,
}
use mould_system_backend.Config.Json.Tree.{JValue, integral, real, Parsed, ok, failed}
use mould_system_backend.Config.Json.Reader.{
  peek, is_ws, unescape, scan_string, span_sign, span_fraction, span_exponent, number_token,
  is_real_token, Numbers, integral_of, parse_number, number_start, start_of,
}
use mould_system_backend.Config.Json.Printer.{quote}

pub scan_string-quote : (s rest : Bytes) → scan_string false (quote s ++ rest) ≡ ok s rest
unfolding scan_string quote unescape
scan_string-quote [] rest = refl
scan_string-quote (c ∷ cs) rest = ground (arith, scan_string-quote cs rest)

-- What may follow a number.
abbrev pub StopsNumber : Bytes → Type 0
StopsNumber [] = Unit {0}
StopsNumber (c ∷ cs) = is_digit c || c == b'.' || c == b'e' || c == b'E' ≡ false

stops-parts :
    (t : Bytes)
    → StopsNumber t
    → StopsDigits t × (span_fraction t ≡ ([], t)) × (span_exponent t ≡ ([], t))
stops-parts [] h = (tt, refl, refl)
stops-parts (c ∷ cs) h = (ground arith, ground arith, ground arith)

decimal-is_real : (ds : Bytes) → AllDecimal ds → is_real_token ds ≡ false
unfolding is_digit
decimal-is_real [] h = refl
decimal-is_real (c ∷ cs) h = ground (arith, decimal-is_real cs h.1)

abbrev after_sign : Bytes → Bytes → Bytes × Bytes
after_sign sign t1 =
    let (ds, t2) = span_digits t1 in
    let (fraction, t3) = span_fraction t2 in
    let (exponent, t4) = span_exponent t3 in (sign ++ ds ++ fraction ++ exponent, t4)

after_sign-digits :
    (sign ds rest : Bytes)
    → AllDecimal ds
    → StopsNumber rest
    → after_sign sign (ds ++ rest) ≡ (sign ++ ds, rest)
after_sign-digits sign ds rest all stops =
    let (s, f, e) = stops-parts rest stops in
    rw (span_digits-append ds rest all s, f, e, append-nil (sign ++ ds), append-nil (sign ++ ds))
      refl

digit-not_minus : (c : ℕ) → is_digit c ≡ true → c == b'-' ≡ false
unfolding is_digit
digit-not_minus c h = ground arith

number_token-digits :
    (c : ℕ) (cs rest : Bytes)
    → AllDecimal (c ∷ cs)
    → StopsNumber rest
    → number_token ((c ∷ cs) ++ rest) ≡ (c ∷ cs, rest)
unfolding number_token
number_token-digits c cs rest all stops =
    let sign : span_sign (c ∷ (cs ++ rest)) ≡ ([], c ∷ (cs ++ rest)) =
      rw (digit-not_minus c (all.0)) refl in
    ap (λ (p : Bytes × Bytes). after_sign p.0 p.1) sign
    ∙ after_sign-digits [] (c ∷ cs) rest all stops

number_token-minus :
    (ds rest : Bytes)
    → AllDecimal ds
    → StopsNumber rest
    → number_token ((b'-' ∷ ds) ++ rest) ≡ (b'-' ∷ ds, rest)
unfolding number_token
number_token-minus ds rest all stops = after_sign-digits (b'-' ∷ []) ds rest all stops

abbrev after_token : Numbers → Bytes × Bytes → Parsed JValue
after_token numbers (token, u) =
    if is_real_token token
    then (if numbers.stod_converts token
        then ok (real token) u
        else failed numbers.conversion_error)
    else integral_of numbers.conversion_error u (stoll token)

parse_number-token :
    (numbers : Numbers) (token rest : Bytes) (i : ℤ)
    → number_token (token ++ rest) ≡ (token, rest)
    → is_real_token token ≡ false
    → stoll token ≡ some (i, [])
    → parse_number numbers (token ++ rest) ≡ ok (integral i) rest
unfolding parse_number
parse_number-token numbers token rest i t r s = ap (after_token numbers) t ∙ rw (r, s) refl

-- A printed integer: how it starts, and that it is read.
abbrev IsRead : Numbers → ℤ → Bytes → Type 0
IsRead numbers i token =
    (start_of (peek token) ≡ number_start)
    × (is_ws (peek token) ≡ false)
    × (peek token == b']' ≡ false)
    × ((rest : Bytes)
        → StopsNumber rest
        → parse_number numbers (token ++ rest) ≡ ok (integral i) rest)

digit-starts :
    (c : ℕ)
    → is_digit c ≡ true
    → (start_of c ≡ number_start) × (is_ws c ≡ false) × (c == b']' ≡ false)
unfolding start_of is_ws is_digit
digit-starts c h = ground arith

pub parse_number-to_string :
    (numbers : Numbers) (i : ℤ) → IsInt64 i → IsRead numbers i (to_string i)
unfolding to_string
parse_number-to_string numbers (pos n) small =
    let (d, ds, e) = digits_of-cons n n in
    let all = subst AllDecimal e (digits_of-AllDecimal (suc n) n) in
    let back : stoll (digits_of (suc n) n) ≡ some (pos n, []) =
      ap stoll (sym (append-nil (digits_of (suc n) n))) ∙ stoll-to_string (pos n) [] small tt in
    let (start, space, bracket) = digit-starts d (all.0) in
    rw e (
      start,
      space,
      bracket,
      λ rest stops.
          parse_number-token numbers (d ∷ ds) rest (pos n) (number_token-digits d ds rest all stops)
            (decimal-is_real (d ∷ ds) all) (subst (λ xs. stoll xs ≡ some (pos n, [])) e back),
    )
parse_number-to_string numbers (negsuc n) small =
    let ds = digits_of (suc (n + 1)) (suc n) in
    let all = digits_of-AllDecimal (suc (n + 1)) (suc n) in
    let back : stoll (b'-' ∷ ds) ≡ some (negsuc n, []) =
      ap stoll (sym (append-nil (b'-' ∷ ds))) ∙ stoll-to_string (negsuc n) [] small tt in
    (
      minus_starts.0,
      minus_starts.1,
      refl,
      λ rest stops.
          parse_number-token numbers (b'-' ∷ ds) rest (negsuc n)
            (number_token-minus ds rest all stops) (decimal-is_real ds all) back,
    )
  where
    minus_starts : (start_of b'-' ≡ number_start) × (is_ws b'-' ≡ false)
    minus_starts = unfold start_of in unfold is_ws in (refl, refl)
