-- ===== src/Gate/CaptureTime.antt =====
-- The times that the validator accepts, against a grammar.
use mould_system_backend.Common.{
  ℕ, suc, Bool, true, false, ◌&&◌, ◌||◌, Bytes, is_empty, List, [], ◌∷◌, ◌++◌, ◌≤◌, ◌==◌, ltb, leb,
  ◌≡◌, ◌⊎◌, ◌↔◌, inl, inr, refl, sym, ap, ◌∙◌, arith, if◌then◌else◌, length, length-append, take,
  drop, take-append-drop, drop-append, Bool-cases, subst,
}
use mould_system_backend.Gate.Validator.{
  char_at, check_digit, has_separators, has_digits, skip_digits, skip_fraction, valid_offset,
  valid_zone, validate_capture_time_format,
}

append_empty : (xs : Bytes) → xs ++ [] ≡ xs
append_empty [] = refl
append_empty (x ∷ xs) = ap (λ ys. x ∷ ys) (append_empty xs)

pub data Slot : Type 0 where
  digit sign : Slot
  exactly : ℕ → Slot

abbrev pub slot_ok : Slot → ℕ → Bool
slot_ok digit c = leb b'0' c && leb c b'9'
slot_ok sign c = c == b'+' || c == b'-'
slot_ok (exactly d) c = c == d

-- The string has a character for each slot, and no more.
abbrev pub Fits : List Slot → Bytes → Type 0
Fits [] [] = Unit {0}
Fits [] (c ∷ cs) = ⊥
Fits (s ∷ ss) [] = ⊥
Fits (s ∷ ss) (c ∷ cs) = (slot_ok s c ≡ true) × Fits ss cs

abbrev FitsFrom : ℕ → List Slot → Bytes → Type 0
FitsFrom i [] t = Unit {0}
FitsFrom i (s ∷ ss) t = (slot_ok s (char_at t i) ≡ true) × FitsFrom (suc i) ss t

FitsFrom-tail :
    (i : ℕ) (ss : List Slot) (c : ℕ) (t : Bytes) → FitsFrom (suc i) ss (c ∷ t) → FitsFrom i ss t
FitsFrom-tail i [] c t h = tt
FitsFrom-tail i (s ∷ ss) c t h = (h.0, FitsFrom-tail (suc i) ss c t h.1)

FitsFrom-cons :
    (i : ℕ) (ss : List Slot) (c : ℕ) (t : Bytes) → FitsFrom i ss t → FitsFrom (suc i) ss (c ∷ t)
FitsFrom-cons i [] c t h = tt
FitsFrom-cons i (s ∷ ss) c t h = (h.0, FitsFrom-cons (suc i) ss c t h.1)

abbrev slots : List Slot → ℕ
slots [] = 0
slots (s ∷ ss) = suc (slots ss)

take-Fits :
    (ss : List Slot) (t : Bytes)
    → slots ss ≤ length t
    → FitsFrom 0 ss t
    → Fits ss (take (slots ss) t)
take-Fits [] t le h = tt
take-Fits (s ∷ ss) [] le h = omega arith
take-Fits (s ∷ ss) (c ∷ t) le h = (h.0, take-Fits ss t (omega arith) (FitsFrom-tail 0 ss c t h.1))

append-FitsFrom : (ss : List Slot) (date rest : Bytes) → Fits ss date → FitsFrom 0 ss (date ++ rest)
append-FitsFrom [] date rest h = tt
append-FitsFrom (s ∷ ss) (c ∷ date) rest h =
    (h.0, FitsFrom-cons 0 ss c (date ++ rest) (append-FitsFrom ss date rest h.1))
append-FitsFrom (s ∷ ss) [] rest h = absurd h

length-Fits : (ss : List Slot) (t : Bytes) → Fits ss t → length t ≡ slots ss
length-Fits [] [] h = refl
length-Fits [] (c ∷ t) h = absurd h
length-Fits (s ∷ ss) [] h = absurd h
length-Fits (s ∷ ss) (c ∷ t) h = ap suc (length-Fits ss t h.1)

-- yyyy-MM-ddTHH:mm:ss
abbrev pub date_slots : List Slot
date_slots =
    digit
    ∷ digit
    ∷ digit
    ∷ digit
    ∷ exactly b'-'
    ∷ digit
    ∷ digit
    ∷ exactly b'-'
    ∷ digit
    ∷ digit
    ∷ exactly b'T'
    ∷ digit
    ∷ digit
    ∷ exactly b':'
    ∷ digit
    ∷ digit
    ∷ exactly b':'
    ∷ digit
    ∷ digit
    ∷ []

date_checks : (t : Bytes) → (has_separators t && has_digits t ≡ true) ↔ FitsFrom 0 date_slots t
unfolding has_separators has_digits check_digit
date_checks t = (λ h. ground arith, λ h. ground arith)

-- ±HH:mm
abbrev pub offset_slots : List Slot
offset_slots = sign ∷ digit ∷ digit ∷ exactly b':' ∷ digit ∷ digit ∷ []

abbrev pub AllDigits : Bytes → Type 0
AllDigits [] = Unit {0}
AllDigits (c ∷ cs) = (slot_ok digit c ≡ true) × AllDigits cs

-- No fraction, or a point and any number of digits.
abbrev pub IsFraction : Bytes → Type 0
IsFraction f = (f ≡ []) ⊎ ((digits : Bytes) × (f ≡ b'.' ∷ digits) × AllDigits digits)

abbrev pub IsZone : Bytes → Type 0
IsZone zone = (zone ≡ b'Z' ∷ []) ⊎ Fits offset_slots zone

abbrev StartsZone : Bytes → Type 0
StartsZone [] = ⊥
StartsZone (c ∷ cs) = (c ≡ b'Z') ⊎ ((c ≡ b'+') ⊎ (c ≡ b'-'))

zone-StartsZone : (zone : Bytes) → IsZone zone → StartsZone zone
zone-StartsZone [] (inl e) = ground arith
zone-StartsZone [] (inr h) = absurd h
zone-StartsZone (c ∷ cs) (inl e) = ground arith
zone-StartsZone (c ∷ cs) (inr h) = ground (arith, h.0)

skip_digits-split :
    (t : Bytes) → (digits : Bytes) × (t ≡ digits ++ skip_digits t) × AllDigits digits
unfolding skip_digits check_digit
skip_digits-split [] = ([], refl, tt)
skip_digits-split (c ∷ cs) =
    let (ds, e, all) = skip_digits-split cs in
    elim (Bool-cases (slot_ok digit c)) [
      | inl h ↦ rw h (c ∷ ds, ap (λ xs. c ∷ xs) e, (h, all))
      | inr h ↦ rw h ([], refl, tt)
    ]

skip_fraction-split :
    (t : Bytes) → (fraction : Bytes) × (t ≡ fraction ++ skip_fraction t) × IsFraction fraction
unfolding skip_fraction
skip_fraction-split [] = ([], refl, inl refl)
skip_fraction-split (c ∷ cs) =
    let (ds, e, all) = skip_digits-split cs in
    elim (Bool-cases (c == b'.')) [
      | inl h ↦
          let dot : c ≡ b'.' = ground arith in
          rw dot (b'.' ∷ ds, ap (λ xs. b'.' ∷ xs) e, inr (ds, refl, all))
      | inr h ↦ rw h ([], refl, inl refl)
    ]

skip_digits-append :
    (digits zone : Bytes) → AllDigits digits → StartsZone zone → skip_digits (digits ++ zone) ≡ zone
unfolding skip_digits check_digit
skip_digits-append [] [] all h = refl
skip_digits-append [] (c ∷ cs) all h = ground arith
skip_digits-append (d ∷ ds) zone all h = rw (all.0) (skip_digits-append ds zone all.1 h)

skip_fraction-append :
    (fraction zone : Bytes)
    → IsFraction fraction
    → StartsZone zone
    → skip_fraction (fraction ++ zone) ≡ zone
unfolding skip_fraction
skip_fraction-append fraction [] f h = absurd h
skip_fraction-append fraction (c ∷ cs) (inl e) h = rw e (ground arith)
skip_fraction-append fraction (c ∷ cs) (inr (ds, e, all)) h =
    rw e (skip_digits-append ds (c ∷ cs) all h)

is_empty-eq : (t : Bytes) → is_empty t ≡ true → t ≡ []
is_empty-eq [] h = refl
is_empty-eq (c ∷ cs) h = ground arith

offset_checks :
    (c : ℕ) (rest : Bytes)
    → slot_ok sign c ≡ true
    → valid_offset rest ≡ true
    → FitsFrom 0 offset_slots (c ∷ rest) × (5 ≤ length rest) × (is_empty (drop 5 rest) ≡ true)
unfolding valid_offset check_digit
offset_checks c rest s h = ground arith

offset-Fits :
    (c : ℕ) (rest : Bytes)
    → slot_ok sign c ≡ true
    → valid_offset rest ≡ true
    → Fits offset_slots (c ∷ rest)
offset-Fits c rest s h =
    let (checks, long, ends) = offset_checks c rest s h in
    let fits = take-Fits offset_slots (c ∷ rest) (omega (arith, long)) checks in
    let all : take 5 rest ≡ rest =
      sym (append_empty (take 5 rest))
      ∙ ap (λ xs. take 5 rest ++ xs) (sym (is_empty-eq (drop 5 rest) ends))
      ∙ take-append-drop 5 rest in
    subst (λ xs. Fits offset_slots (c ∷ xs)) all fits

valid_zone-cases :
    (c : ℕ) (rest : Bytes)
    → valid_zone (c ∷ rest) ≡ true
    → ((c ≡ b'Z') × (is_empty rest ≡ true)) ⊎ ((slot_ok sign c ≡ true) × (valid_offset rest ≡ true))
unfolding valid_zone
valid_zone-cases c rest h = ground arith

valid_zone→IsZone : (zone : Bytes) → valid_zone zone ≡ true → IsZone zone
unfolding valid_zone
valid_zone→IsZone [] h = ground arith
valid_zone→IsZone (c ∷ rest) h = elim (valid_zone-cases c rest h) [
  | inl (z, e) ↦ inl (rw (z, is_empty-eq rest e) refl)
  | inr (s, v) ↦ inr (offset-Fits c rest s v)
]

Fits→valid_offset : (c : ℕ) (rest : Bytes) → Fits offset_slots (c ∷ rest) → valid_offset rest ≡ true
unfolding valid_offset check_digit
Fits→valid_offset c (a ∷ b ∷ p ∷ d ∷ e ∷ []) h = ground arith
Fits→valid_offset c [] h = absurd h.1
Fits→valid_offset c (a ∷ []) h = absurd h.1.1
Fits→valid_offset c (a ∷ b ∷ []) h = absurd h.1.1.1
Fits→valid_offset c (a ∷ b ∷ p ∷ []) h = absurd h.1.1.1.1
Fits→valid_offset c (a ∷ b ∷ p ∷ d ∷ []) h = absurd h.1.1.1.1.1
Fits→valid_offset c (a ∷ b ∷ p ∷ d ∷ e ∷ f ∷ fs) h = ground arith

IsZone→valid_zone : (zone : Bytes) → IsZone zone → valid_zone zone ≡ true
unfolding valid_zone
IsZone→valid_zone zone (inl e) = rw e refl
IsZone→valid_zone [] (inr h) = absurd h
IsZone→valid_zone (c ∷ rest) (inr h) = ground (arith, Fits→valid_offset c rest h)

and_parts :
    (a b c d : Bool)
    → (if a then false else b && c && d) ≡ true
    → (a ≡ false) × (b && c ≡ true) × (d ≡ true)
and_parts true b c d h = ground arith
and_parts false true true d h = (refl, refl, h)
and_parts false true false d h = ground arith
and_parts false false c d h = ground arith

and_join :
    (a b c d : Bool)
    → a ≡ false
    → b && c ≡ true
    → d ≡ true
    → (if a then false else b && c && d) ≡ true
and_join a true true d h h' h'' = rw (h, h'') refl
and_join a true false d h h' h'' = ground arith
and_join a false c d h h' h'' = ground arith

long_enough : (n : ℕ) → ltb n 20 ≡ false → 20 ≤ n
long_enough n h = ground arith

accepted-parts :
    (t : Bytes)
    → validate_capture_time_format t ≡ true
    → (20 ≤ length t)
      × (has_separators t && has_digits t ≡ true)
      × (valid_zone (skip_fraction (drop 19 t)) ≡ true)
unfolding validate_capture_time_format
accepted-parts t h =
    let (short, d, z) =
      and_parts (ltb (length t) 20) (has_separators t) (has_digits t)
        (valid_zone (skip_fraction (drop 19 t))) h in
    (long_enough (length t) short, d, z)

accepted→form :
    (t : Bytes)
    → validate_capture_time_format t ≡ true
    → (date : Bytes) × (fraction : Bytes) × (zone : Bytes) × (t ≡ date ++ (fraction ++ zone))
      × Fits date_slots date
      × IsFraction fraction
      × IsZone zone
accepted→form t h =
    let (long, checks, z) = accepted-parts t h in
    let (fraction, e, f) = skip_fraction-split (drop 19 t) in
    let zone = skip_fraction (drop 19 t) in
    (
      take 19 t,
      fraction,
      zone,
      sym (take-append-drop 19 t) ∙ ap (λ xs. take 19 t ++ xs) e,
      take-Fits date_slots t (omega (arith, long)) ((date_checks t).0 checks),
      f,
      valid_zone→IsZone zone z,
    )

length-StartsZone : (zone : Bytes) → StartsZone zone → 1 ≤ length zone
length-StartsZone [] h = absurd h
length-StartsZone (c ∷ cs) h = omega arith

form→accepted :
    (date fraction zone : Bytes)
    → Fits date_slots date
    → IsFraction fraction
    → IsZone zone
    → validate_capture_time_format (date ++ (fraction ++ zone)) ≡ true
unfolding validate_capture_time_format
form→accepted date fraction zone d f z =
    let t = date ++ (fraction ++ zone) in
    let starts = zone-StartsZone zone z in
    let n : length date ≡ 19 = length-Fits date_slots date d in
    let long : ltb (length t) 20 ≡ false = ground (
      arith,
      n,
      length-append date (fraction ++ zone),
      length-append fraction zone,
      length-StartsZone zone starts,
    ) in
    let rest : drop 19 t ≡ fraction ++ zone =
      subst (λ k. drop k t ≡ fraction ++ zone) n (drop-append date (fraction ++ zone)) in
    let checks = (date_checks t).1 (append-FitsFrom date_slots date (fraction ++ zone) d) in
    let zone_ok : valid_zone (skip_fraction (drop 19 t)) ≡ true =
      rw (rest, skip_fraction-append fraction zone f starts) (IsZone→valid_zone zone z) in
    and_join (ltb (length t) 20) (has_separators t) (has_digits t)
      (valid_zone (skip_fraction (drop 19 t))) long checks zone_ok

-- A capture time is accepted exactly when it is digits and separators in the form
-- yyyy-MM-ddTHH:mm:ss, then possibly a point with any number of digits, none included, then `Z` or an
-- offset in the form +HH:mm or -HH:mm, with nothing behind it. Ranges are not checked.
pub validate_capture_time_format_iff :
    (t : Bytes)
    → (validate_capture_time_format t ≡ true) ↔ (
        (date : Bytes) × (fraction : Bytes) × (zone : Bytes) × (t ≡ date ++ (fraction ++ zone))
        × Fits date_slots date
        × IsFraction fraction
        × IsZone zone)
unfolding validate_capture_time_format
validate_capture_time_format_iff t = (
  accepted→form t,
  λ (date, fraction, zone, e, d, f, z). rw e (form→accepted date fraction zone d f z),
)
