-- ===== src/Config/Json/Lengths.antt =====
-- What the reader leaves of a text after a number, and how a list goes on.
use mould_system_backend.Common.{
  ℕ, zero, suc, ℤ, Bool, true, false, ◌||◌, Bytes, none, some, [], ◌∷◌, ◌^◌, ◌<◌, ◌≤◌, ◌==◌, leb,
  ◌≡◌, ◌≢◌, inl, inr, refl, arith, if◌then◌else◌, length, Bool-cases, Option-cases,
}
use mould_system_backend.Config.Decimal.{
  is_digit, span_digits, stoll, stoll_signed, signed_value, skip_spaces, IsInt64, negate,
  digits_value,
}
use mould_system_backend.Config.Json.Tree.{JsonError, Parsed, failed}
use mould_system_backend.Config.Json.Reader.{
  peek, bump, ws, span_sign, span_fraction, span_exponent, exponent_sign, number_token,
  is_real_token, Numbers, parse_number, number_start, no_start, start_of, Next, closed, more,
  neither, next_of,
}
use mould_system_backend.Config.Json.Within.{
  IsWellFormed, within, stopped, Within-if, length-ws, length-bump, Within,
}

length-span_digits : (t : Bytes) → length (span_digits t).1 ≤ length t
unfolding span_digits
length-span_digits [] = omega arith
length-span_digits (c ∷ cs) = ground (arith, length-span_digits cs)

length-span_digits_cons :
    (c : ℕ) (cs : Bytes) → is_digit c ≡ true → length (span_digits (c ∷ cs)).1 ≤ length cs
unfolding span_digits
length-span_digits_cons c cs h = ground (arith, length-span_digits cs)

length-span_fraction : (t : Bytes) → length (span_fraction t).1 ≤ length t
length-span_fraction [] = omega arith
length-span_fraction (c ∷ cs) = ground (arith, length-span_digits cs)

length-exponent_sign : (t : Bytes) → length (exponent_sign t).1 ≤ length t
length-exponent_sign [] = omega arith
length-exponent_sign (c ∷ cs) = ground arith

length-span_exponent : (t : Bytes) → length (span_exponent t).1 ≤ length t
length-span_exponent [] = omega arith
length-span_exponent (c ∷ cs) =
    ground (arith, length-exponent_sign cs, length-span_digits (exponent_sign cs).1)

is_digit-zero : is_digit 0 ≡ false
unfolding is_digit
is_digit-zero = refl

-- A number starts with a sign or a digit, which is read.
length-start :
    (t : Bytes)
    → peek t == b'-' || is_digit (peek t) ≡ true
    → length (span_digits (span_sign t).1).1 < length t
length-start [] h = ground (arith, is_digit-zero)
length-start (c ∷ cs) h = elim (Bool-cases (c == b'-')) [
  | inl e ↦ rw e (omega (arith, length-span_digits cs))
  | inr e ↦ rw e (omega (arith, length-span_digits_cons c cs (ground (arith, e, h))))
]

length-number_token :
    (t : Bytes) → peek t == b'-' || is_digit (peek t) ≡ true → length (number_token t).1 < length t
unfolding number_token
length-number_token t h =
    let t2 = (span_digits (span_sign t).1).1 in
    let t3 = (span_fraction t2).1 in
    omega (arith, length-start t h, length-span_fraction t2, length-span_exponent t3)

signed_value-IsInt64 :
    (negative : Bool) (ds rest : Bytes) (i : ℤ) (u : Bytes)
    → signed_value negative (ds, rest) ≡ some (i, u)
    → IsInt64 i
signed_value-IsInt64 negative [] rest i u h = cc
signed_value-IsInt64 true (d ∷ ds) rest i u h = negative_fits (digits_value 0 (d ∷ ds)) rest i u h
  where
    negative_fits :
        (n : ℕ) (rest : Bytes) (i : ℤ) (u : Bytes)
        → (let read : ℤ × Bytes = (negate n, rest) in if leb n (2 ^ 63) then some read else none)
          ≡ some (i, u)
        → IsInt64 i
    negative_fits zero rest i u h = ground arith
    negative_fits (suc n) rest i u h = ground arith
signed_value-IsInt64 false (d ∷ ds) rest i u h = ground arith

stoll_signed-IsInt64 : (t : Bytes) (i : ℤ) (u : Bytes) → stoll_signed t ≡ some (i, u) → IsInt64 i
unfolding stoll_signed
stoll_signed-IsInt64 [] i u h = cc
stoll_signed-IsInt64 (c ∷ cs) i u h = ground (
  arith,
  signed_value-IsInt64 true (span_digits cs).0 (span_digits cs).1 i u,
  signed_value-IsInt64 false (span_digits cs).0 (span_digits cs).1 i u,
  signed_value-IsInt64 false (span_digits (c ∷ cs)).0 (span_digits (c ∷ cs)).1 i u,
  h,
)

pub stoll-IsInt64 : (s : Bytes) (i : ℤ) (u : Bytes) → stoll s ≡ some (i, u) → IsInt64 i
unfolding stoll
stoll-IsInt64 s i u h = stoll_signed-IsInt64 (skip_spaces s) i u h

pub parse_number-Within :
    (numbers : Numbers) (t : Bytes)
    → peek t == b'-' || is_digit (peek t) ≡ true
    → Within (length t) IsWellFormed (parse_number numbers t)
unfolding parse_number
parse_number-Within numbers t h =
    let token = (number_token t).0 in
    Within-if (is_real_token token)
      (λ r.
        Within-if (numbers.stod_converts token) (λ c. within (length-number_token t h) tt)
          (λ c. stopped))
      (λ r. elim (Option-cases (stoll token)) [
        | inl e ↦ rw e stopped
        | inr ((i, u), e) ↦ rw e (within (length-number_token t h) (stoll-IsInt64 token i u e))
      ])

pub start_of-number : (c : ℕ) → start_of c ≡ number_start → c == b'-' || is_digit c ≡ true
unfolding start_of
start_of-number c h = ground arith

-- Something starts where the text has a character.
pub start_of-positive : (t : Bytes) → start_of (peek t) ≢ no_start → length (bump t) < length t
unfolding start_of is_digit
start_of-positive [] h = absurd (h refl)
start_of-positive (c ∷ cs) h = omega arith

pub next-closed : (c : ℕ) (t u : Bytes) → next_of (suc c) t ≡ closed u → length u < length t
unfolding next_of
next-closed c t u h = ground (arith, length-ws t, length-bump (ws t) c)

pub next-more : (c : ℕ) (t u : Bytes) → next_of (suc c) t ≡ more u → length u < length t
unfolding next_of
next-more c t u h = ground (arith, length-ws t, length-bump (ws t) 43)

pub Within-next {ℓ} :
    {A : Type ℓ} {P : A → Type 0} {n : ℕ} (e : JsonError) (f g : Bytes → Parsed A) (x : Next)
    → ((u : Bytes) → x ≡ closed u → Within n P (f u))
    → ((u : Bytes) → x ≡ more u → Within n P (g u))
    → Within n P (elim x [ closed u ↦ f u | more u ↦ g u | neither ↦ failed e ])
Within-next e f g (closed u) h k = h u refl
Within-next e f g (more u) h k = k u refl
Within-next e f g neither h k = stopped

pub Within-choice {ℓ} :
    {A : Type ℓ} {P : A → Type 0} {n : ℕ} {x y : Parsed A} (b : Bool)
    → Within n P x
    → (b ≡ false → Within n P y)
    → Within n P (elim b [ true ↦ x | false ↦ y ])
Within-choice true h k = h
Within-choice false h k = k refl

pub empty-shorter :
    (t : Bytes) → length (bump t) < length t → length (bump (ws (bump t))) < length t
empty-shorter t h = omega (arith, length-ws (bump t), bump-le (ws (bump t)))
  where
    bump-le : (u : Bytes) → length (bump u) ≤ length u
    bump-le [] = omega arith
    bump-le (c ∷ cs) = omega arith
