-- ===== src/Config/LaunchPlan/CpuSet.antt =====
-- A set of processors: its check, and its normal form.
use mathlib.Core.List.{append-nil}
use mould_system_backend.Common.{
  ℕ, suc, ℤ, pos, negsuc, Bool, true, false, not, ◌||◌, Bytes, is_empty, some, List, [], ◌∷◌, leb,
  ◌==◌, map, Checked, done, refused, ◌>>=◌, >>=-done, require, require-done, ◌≡◌, refl, sym, ap,
  subst, ◌∙◌, arith,
}
use mould_system_backend.Config.Decimal.{
  is_digit, to_string, stoll, stoll-to_string, digits_of, digits_of-AllDecimal, digits_of-cons,
  AllDecimal,
}
use mould_system_backend.Config.Streams.{
  getline_all, getline_all-join_with, join_with, ArePieces, AreAbsent,
}
use mould_system_backend.Config.Topology.Resolve.{all_digits}
use mould_system_backend.Config.LaunchPlan.{
  text_scalar, Doubles, PlanError, empty_cpu_token, invalid_cpu_token, cpu_out_of_range,
  duplicate_cpu, no_cpu,
}
use mould_system_backend.Config.LaunchPlan.Scalars.{try_extract_int64}

abbrev pub is_cpu : ℤ → Bool
is_cpu (pos n) = leb n 4095
is_cpu (negsuc n) = false

abbrev pub same_int : ℤ → ℤ → Bool
same_int (pos m) (pos n) = m == n
same_int (negsuc m) (negsuc n) = m == n
same_int _ _ = false

abbrev pub mem_int : ℤ → List ℤ → Bool
mem_int i [] = false
mem_int i (j ∷ js) = same_int j i || mem_int i js

-- The processors of the tokens, none of them among those seen before.
unfoldable pub cpus_of_tokens : Doubles → List ℤ → List Bytes → Checked PlanError (List ℤ)
unfolding try_extract_int64
cpus_of_tokens doubles seen [] = done []
cpus_of_tokens doubles seen (token ∷ tokens) =
    require (not (is_empty token)) empty_cpu_token >>= λ _.
    require (all_digits token) (invalid_cpu_token token) >>= λ _.
    try_extract_int64 doubles (text_scalar token) >>= λ value.
    require (is_cpu value) cpu_out_of_range >>= λ _.
    require (not (mem_int value seen)) (duplicate_cpu value) >>= λ _.
    cpus_of_tokens doubles (value ∷ seen) tokens >>= λ values. done (value ∷ values)

abbrev pub some_cpu : List ℤ → Bool
some_cpu [] = false
some_cpu (c ∷ cs) = true

unfoldable pub validate_and_normalize_cpu_set : Doubles → Bytes → Checked PlanError Bytes
unfolding cpus_of_tokens getline_all to_string
validate_and_normalize_cpu_set doubles [] = done []
validate_and_normalize_cpu_set doubles (c ∷ cs) =
    cpus_of_tokens doubles [] (getline_all b',' (c ∷ cs)) >>= λ cpus.
    require (some_cpu cpus) no_cpu >>= λ _. done (join_with b',' (map to_string cpus))

-- Processors in range, none of them seen before or twice.
abbrev pub AreCpus : List ℤ → List ℤ → Type 0
AreCpus seen [] = Unit {0}
AreCpus seen (c ∷ cs) = (is_cpu c ≡ true) × (mem_int c seen ≡ false) × AreCpus (c ∷ seen) cs

abbrev text_or : Bytes → Checked PlanError Bytes → Bytes
text_or t (done u) = u
text_or t (refused e) = t

abbrev cpus_or : List ℤ → Checked PlanError (List ℤ) → List ℤ
cpus_or cs (done ds) = ds
cpus_or cs (refused e) = cs

pub cpus_of_tokens-AreCpus :
    (doubles : Doubles) (seen : List ℤ) (tokens : List Bytes) {cpus : List ℤ}
    → cpus_of_tokens doubles seen tokens ≡ done cpus
    → AreCpus seen cpus
unfolding cpus_of_tokens
cpus_of_tokens-AreCpus doubles seen [] h = subst (AreCpus seen) (ap (cpus_or []) h) tt
cpus_of_tokens-AreCpus doubles seen (token ∷ tokens) h =
    let (_, _, h1) = >>=-done (require (not (is_empty token)) empty_cpu_token) _ h in
    let (_, _, h2) = >>=-done (require (all_digits token) (invalid_cpu_token token)) _ h1 in
    let (value, _, h3) = >>=-done (try_extract_int64 doubles (text_scalar token)) _ h2 in
    let (_, in_range, h4) = >>=-done (require (is_cpu value) cpu_out_of_range) _ h3 in
    let (_, fresh, h5) = >>=-done (require (not (mem_int value seen)) (duplicate_cpu value)) _ h4 in
    let (values, rest, h6) = >>=-done (cpus_of_tokens doubles (value ∷ seen) tokens) _ h5 in
    let new = require-done (not (mem_int value seen)) (duplicate_cpu value) fresh in
    subst (AreCpus seen) (ap (cpus_or []) h6) (
      require-done (is_cpu value) cpu_out_of_range in_range,
      ground arith,
      cpus_of_tokens-AreCpus doubles (value ∷ seen) tokens rest,
    )

AllDecimal-all_digits : (ds : Bytes) → AllDecimal ds → all_digits ds ≡ true
AllDecimal-all_digits [] h = refl
AllDecimal-all_digits (d ∷ ds) h = rw (h.0, AllDecimal-all_digits ds h.1) refl

AllDecimal-AreAbsent : (ds : Bytes) → AllDecimal ds → AreAbsent b',' ds
unfolding is_digit
AllDecimal-AreAbsent [] h = tt
AllDecimal-AreAbsent (d ∷ ds) h = let first = h.0 in (ground arith, AllDecimal-AreAbsent ds h.1)

-- The text of a processor is digits, and reads as the processor.
cpu_text :
    (c : ℤ)
    → is_cpu c ≡ true
    → (d : ℕ) × (ds : Bytes) × (to_string c ≡ d ∷ ds)
      × AllDecimal (d ∷ ds)
      × (stoll (d ∷ ds) ≡ some (c, []))
unfolding to_string digits_of
cpu_text (pos n) h =
    let (d, ds, e) = digits_of-cons n n in
    (
      d,
      ds,
      e,
      subst AllDecimal e (digits_of-AllDecimal (suc n) n),
      ap stoll (sym e ∙ sym (append-nil (digits_of (suc n) n)))
          ∙ stoll-to_string (pos n) [] (ground arith) tt,
    )
cpu_text (negsuc n) h = cc

cpus_of_tokens-to_string :
    (doubles : Doubles) (seen cpus : List ℤ)
    → AreCpus seen cpus
    → cpus_of_tokens doubles seen (map to_string cpus) ≡ done cpus
unfolding cpus_of_tokens try_extract_int64
cpus_of_tokens-to_string doubles seen [] h = refl
cpus_of_tokens-to_string doubles seen (c ∷ cs) h =
    let (d, ds, e, all, read) = cpu_text c h.0 in
    rw
      (
        e,
        AllDecimal-all_digits ds all.1,
        all.0,
        read,
        h.0,
        h.1,
        cpus_of_tokens-to_string doubles (c ∷ seen) cs h.2,
      )
      refl

to_string-ArePieces : (seen cpus : List ℤ) → AreCpus seen cpus → ArePieces b',' (map to_string cpus)
to_string-ArePieces seen [] h = tt
to_string-ArePieces seen (c ∷ cs) h =
    let (d, ds, e, all, read) = cpu_text c h.0 in
    rw e (AllDecimal-AreAbsent (d ∷ ds) all, to_string-ArePieces (c ∷ seen) cs h.2)

-- A non-empty list of processors, joined, is in normal form.
join_with-normal :
    (doubles : Doubles) (cpus : List ℤ) (text : Bytes)
    → AreCpus [] cpus
    → some_cpu cpus ≡ true
    → join_with b',' (map to_string cpus) ≡ text
    → validate_and_normalize_cpu_set doubles text ≡ done text
unfolding validate_and_normalize_cpu_set
join_with-normal doubles cpus [] h nonempty e = refl
join_with-normal doubles cpus (c ∷ cs) h nonempty e =
    let tokens : getline_all b',' (c ∷ cs) ≡ map to_string cpus =
      ap (getline_all b',') (sym e)
      ∙ getline_all-join_with b',' (map to_string cpus) (to_string-ArePieces [] cpus h) in
    rw (tokens, cpus_of_tokens-to_string doubles [] cpus h, nonempty, e) refl

-- The normal form of a set that is accepted is accepted, and is its own normal form.
pub validate_and_normalize_cpu_set-idempotent :
    (doubles : Doubles) (text normal : Bytes)
    → validate_and_normalize_cpu_set doubles text ≡ done normal
    → validate_and_normalize_cpu_set doubles normal ≡ done normal
unfolding validate_and_normalize_cpu_set
validate_and_normalize_cpu_set-idempotent doubles [] normal h =
    subst (λ t. validate_and_normalize_cpu_set doubles t ≡ done t) (ap (text_or []) h) refl
validate_and_normalize_cpu_set-idempotent doubles (c ∷ cs) normal h =
    let (cpus, f, h1) = >>=-done (cpus_of_tokens doubles [] (getline_all b',' (c ∷ cs))) _ h in
    let (_, g, h2) = >>=-done (require (some_cpu cpus) no_cpu) _ h1 in
    join_with-normal doubles cpus normal
      (cpus_of_tokens-AreCpus doubles [] (getline_all b',' (c ∷ cs)) f)
      (require-done (some_cpu cpus) no_cpu g) (ap (text_or []) h2)
