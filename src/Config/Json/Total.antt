-- ===== src/Config/Json/Total.antt =====
-- The end of the reader's run, and the form of what it reads.
use mould_system_backend.Common.{
  ℕ, zero, suc, true, false, Bytes, List, [], ◌∷◌, ◌+◌, ◌*◌, ◌<◌, ◌≡◌, ◌≢◌, refl, arith, length,
  subst,
}
use mould_system_backend.Config.Json.Tree.{
  JValue, text, object, array, no_members, no_items, has_key, invalid_value, Parsed, ok, failed,
  out_of_fuel, bind,
}
use mould_system_backend.Config.Json.Reader.{
  peek, bump, ws, parse_string, parse_bool, parse_null, Numbers, parse_number, Start, object_start,
  array_start, string_start, bool_start, null_start, number_start, no_start, start_of, next_of,
  is_closed, parse_value, parse_members, parse_items, at_end, parse_document,
}
use mould_system_backend.Config.Json.Within.{
  IsWellFormed, IsDistinct, AreWellFormed, within, stopped, Within-bind, Within-le, length-ws,
  expect-Within, scan_string-Within, parse_key-Within, parse_bool-Within, parse_null-Within, Within,
}
use mould_system_backend.Config.Json.Lengths.{
  parse_number-Within, start_of-number, start_of-positive, next-closed, next-more, Within-next,
  Within-choice, empty-shorter,
}

-- What follows from the first character of a value.
start-Within :
    (numbers : Numbers) (fuel : ℕ) (u : Bytes) (s : Start)
    → start_of (peek u) ≡ s
    → (length (bump u) < length u
        → Within (length (bump u)) (IsDistinct []) (parse_members numbers fuel [] (bump u)))
    → (length (bump u) < length u
        → Within (length (bump u)) AreWellFormed (parse_items numbers fuel (bump u)))
    → Within (length u) IsWellFormed (elim s [
      | object_start ↦ elim (is_closed b'}' (ws (bump u))) [
        | true ↦ ok (object no_members) (bump (ws (bump u)))
        | false ↦ bind (parse_members numbers fuel [] (bump u)) (λ o v. ok (object o) v)
      ]
      | array_start ↦ elim (is_closed b']' (ws (bump u))) [
        | true ↦ ok (array no_items) (bump (ws (bump u)))
        | false ↦ bind (parse_items numbers fuel (bump u)) (λ a v. ok (array a) v)
      ]
      | string_start ↦ bind (parse_string (bump u)) (λ s v. ok (text s) v)
      | bool_start ↦ parse_bool u
      | null_start ↦ parse_null u
      | number_start ↦ parse_number numbers u
      | no_start ↦ failed invalid_value
    ])
unfolding parse_string
start-Within numbers fuel u object_start e members items =
    let shorter = start_of-positive u (λ z. cc) in
    Within-choice (is_closed b'}' (ws (bump u))) (within (empty-shorter u shorter) tt)
      (λ filled. Within-bind (members shorter) (λ o v lt w. within (omega (arith, lt, shorter)) w))
start-Within numbers fuel u array_start e members items =
    let shorter = start_of-positive u (λ z. cc) in
    Within-choice (is_closed b']' (ws (bump u))) (within (empty-shorter u shorter) tt)
      (λ filled. Within-bind (items shorter) (λ a v lt w. within (omega (arith, lt, shorter)) w))
start-Within numbers fuel u string_start e members items =
    let shorter = start_of-positive u (λ z. cc) in
    Within-bind (scan_string-Within false (bump u))
      (λ s v lt w. within (omega (arith, lt, shorter)) tt)
start-Within numbers fuel u bool_start e members items = parse_bool-Within u
start-Within numbers fuel u null_start e members items = parse_null-Within u
start-Within numbers fuel u number_start e members items =
    parse_number-Within numbers u (start_of-number (peek u) e)
start-Within numbers fuel u no_start e members items = stopped

-- One induction on the fuel.
mutual
  unfolding parse_value

  value-Within :
      (numbers : Numbers) (fuel : ℕ) (t : Bytes)
      → 2 * length t < fuel
      → Within (length t) IsWellFormed (parse_value numbers fuel t)
  value-Within numbers zero t h = absurd (omega arith)
  value-Within numbers (suc fuel) t h = Within-le (length-ws t) (
      start-Within numbers fuel (ws t) (start_of (peek (ws t))) refl
        (λ lt. members-Within numbers fuel [] (bump (ws t)) (omega (arith, lt, length-ws t)))
        (λ lt. items-Within numbers fuel (bump (ws t)) (omega (arith, lt, length-ws t))))

  members-Within :
      (numbers : Numbers) (fuel : ℕ) (keys : List Bytes) (t : Bytes)
      → 2 * length t + 1 < fuel
      → Within (length t) (IsDistinct keys) (parse_members numbers fuel keys t)
  members-Within numbers zero keys t h = absurd (omega arith)
  members-Within numbers (suc fuel) keys t h = Within-bind (parse_key-Within t) (λ key t1 lt1 _.
      Within-bind (expect-Within 57 t1) (λ _ t2 lt2 _.
        Within-bind (value-Within numbers fuel t2 (omega (arith, lt1, lt2))) (λ v t3 lt3 w.
          Within-choice (has_key key keys) stopped (λ fresh.
            Within-next _ _ _ (next_of b'}' t3)
              (λ t4 e.
                within (omega (arith, lt1, lt2, lt3, next-closed 124 t3 t4 e)) (fresh, w, tt))
              (λ t4 e.
                let lt4 = next-more 124 t3 t4 e in
                Within-bind
                  (members-Within numbers fuel (key ∷ keys) t4 (omega (arith, lt1, lt2, lt3, lt4)))
                  (λ rest t5 lt5 d.
                    within (omega (arith, lt1, lt2, lt3, lt4, lt5)) (fresh, w, d)))))))

  items-Within :
      (numbers : Numbers) (fuel : ℕ) (t : Bytes)
      → 2 * length t + 1 < fuel
      → Within (length t) AreWellFormed (parse_items numbers fuel t)
  items-Within numbers zero t h = absurd (omega arith)
  items-Within numbers (suc fuel) t h =
      Within-bind (value-Within numbers fuel t (omega arith)) (λ v t1 lt1 w.
        Within-next _ _ _ (next_of b']' t1)
          (λ t2 e. within (omega (arith, lt1, next-closed 92 t1 t2 e)) (w, tt))
          (λ t2 e.
            let lt2 = next-more 92 t1 t2 e in
            Within-bind (items-Within numbers fuel t2 (omega (arith, lt1, lt2)))
              (λ rest t3 lt3 d. within (omega (arith, lt1, lt2, lt3)) (w, d))))

at_end-Within :
    (v : JValue) (n : ℕ) (u : Bytes) → 0 < n → IsWellFormed v → Within n IsWellFormed (at_end v u)
at_end-Within v n [] h w = within (omega arith) w
at_end-Within v n (c ∷ cs) h w = stopped

document-Within :
    (numbers : Numbers) (t : Bytes)
    → Within (suc (length t)) IsWellFormed (parse_document numbers t)
unfolding parse_document
document-Within numbers t =
    Within-bind (value-Within numbers (2 * length t + 1) (ws t) (omega (arith, length-ws t)))
      (λ v u lt w. at_end-Within v (suc (length t)) (ws u) (omega arith) w)

-- Reading any text ends with a value or an error: the fuel that the reader starts with is enough.
pub parse_document-ends : (numbers : Numbers) (t : Bytes) → parse_document numbers t ≢ out_of_fuel
parse_document-ends numbers t = not_out_of_fuel (document-Within numbers t)
  where
    not_out_of_fuel : {r : Parsed JValue} → Within (suc (length t)) IsWellFormed r → r ≢ out_of_fuel
    not_out_of_fuel (within lt h) = cc
    not_out_of_fuel stopped = cc

-- Whatever text it accepts, the value that was read has no object with a key twice, and its integers
-- have 64 bits.
pub parse_document-IsWellFormed :
    (numbers : Numbers) (t : Bytes) (v : JValue) (u : Bytes)
    → parse_document numbers t ≡ ok v u
    → IsWellFormed v
parse_document-IsWellFormed numbers t v u e = well_formed (document-Within numbers t) e
  where
    well_formed :
        {r : Parsed JValue} → Within (suc (length t)) IsWellFormed r → r ≡ ok v u → IsWellFormed v
    well_formed (within {a} lt h) e = subst IsWellFormed (value_eq e) h
      where
        value_eq : {a : JValue} {s : Bytes} → Parsed.ok a s ≡ ok v u → a ≡ v
        value_eq e = cc
    well_formed stopped e = cc
