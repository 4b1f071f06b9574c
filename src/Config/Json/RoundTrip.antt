-- ===== src/Config/Json/RoundTrip.antt =====
-- The reader on printed text.
use mathlib.Core.List.{append-nil}
use mould_system_backend.Common.{
  ℕ, zero, suc, true, false, Bytes, List, [], ◌∷◌, ◌++◌, ◌+◌, ◌*◌, ◌<◌, ◌≡◌, refl, sym, ap, ◌∙◌,
  arith, length, length-append,
}
use mould_system_backend.Config.Decimal.{is_digit}
use mould_system_backend.Config.Json.Tree.{
  JValue, JObject, JArray, null, boolean, integral, real, text, object, array, no_members, member,
  no_items, item, ok, bind,
}
use mould_system_backend.Config.Json.Reader.{
  is_ws, ws, Numbers, parse_value, parse_members, parse_items, at_end, parse_document,
}
use mould_system_backend.Config.Json.Printer.{
  quote, print_value, print_members, print_items, HasNoReals, MembersHaveNoReals, ItemsHaveNoReals,
}
use mould_system_backend.Config.Json.Within.{IsWellFormed, IsDistinct, AreWellFormed}
use mould_system_backend.Config.Json.Begins.{
  print_value-Begins, ws-Begins, value-text, value-empty, value-words,
}
use mould_system_backend.Config.Json.Lists.{
  Reads, value-integral, length-member, members-cons, items-cons, object-read, array-read,
  last-member, more-members, last-item, more-items,
}

mutual
  unfolding print_value is_digit is_ws

  value-Reads : (numbers : Numbers) (v : JValue) → IsWellFormed v → HasNoReals v → Reads numbers v
  value-Reads numbers null w h zero rest lt stops = absurd (omega arith)
  value-Reads numbers (boolean b) w h zero rest lt stops = absurd (omega arith)
  value-Reads numbers (text s) w h zero rest lt stops = absurd (omega arith)
  value-Reads numbers (object o) w h zero rest lt stops = absurd (omega arith)
  value-Reads numbers (array a) w h zero rest lt stops = absurd (omega arith)
  value-Reads numbers null w h (suc f) rest lt stops = (value-words numbers f rest).0
  value-Reads numbers (boolean true) w h (suc f) rest lt stops = (value-words numbers f rest).1
  value-Reads numbers (boolean false) w h (suc f) rest lt stops = (value-words numbers f rest).2
  value-Reads numbers (integral i) w h f rest lt stops = value-integral numbers i w f rest lt stops
  value-Reads numbers (real token) w h f rest lt stops = absurd h
  value-Reads numbers (text s) w h (suc f) rest lt stops = value-text numbers f s rest
  value-Reads numbers (object no_members) w h (suc f) rest lt stops = (value-empty numbers f rest).0
  value-Reads numbers (object (member k v r)) w h (suc f) rest lt stops =
      let read = members-Read numbers k v r [] w h f rest (omega (arith, lt)) in
      let (t, e) = members-cons k v r in object-read numbers f t _ rest (member k v r) e read
  value-Reads numbers (array no_items) w h (suc f) rest lt stops = (value-empty numbers f rest).1
  value-Reads numbers (array (item v r)) w h (suc f) rest lt stops =
      let read = items-Read numbers v r w h f rest (omega (arith, lt)) in
      let (c, cs, e, space, bracket) = items-cons v r (print_value-Begins v (w.0) (h.0)) in
      array-read numbers f c cs _ rest (item v r) e space bracket read

  members-Read :
      (numbers : Numbers) (k : Bytes) (v : JValue) (r : JObject) (keys : List Bytes)
      → IsDistinct keys (member k v r)
      → MembersHaveNoReals (member k v r)
      → (f : ℕ) (rest : Bytes) → 2 * length (print_members (member k v r)) + 1 < f
      → parse_members numbers f keys (print_members (member k v r) ++ rest) ≡ ok (member k v r) rest
  members-Read numbers k v r keys w h zero rest lt = absurd (omega arith)
  members-Read numbers k v no_members keys w h (suc f) rest lt =
      last-member numbers f keys k (print_value v) rest v (w.0) (
        value-Reads numbers v (w.1) (h.0) f (b'}' ∷ rest)
          (omega (arith, lt, length-member (b'"' ∷ quote k) (print_value v) (b'}' ∷ []))) refl)
  members-Read numbers k v (member k' v' r) keys w h (suc f) rest lt =
      more-members numbers f keys k (print_value v) (print_members (member k' v' r)) rest v
        (member k' v' r) (w.0)
        (value-Reads numbers v (w.1) (h.0) f (b',' ∷ (print_members (member k' v' r) ++ rest))
          (omega (
            arith,
            lt,
            length-member (b'"' ∷ quote k) (print_value v) (b',' ∷ print_members (member k' v' r)),
          ))
          refl)
        (members-Read numbers k' v' r (k ∷ keys) (w.2) (h.1) f rest (
          omega (
            arith,
            lt,
            length-member (b'"' ∷ quote k) (print_value v) (b',' ∷ print_members (member k' v' r)),
          )))

  items-Read :
      (numbers : Numbers) (v : JValue) (r : JArray)
      → AreWellFormed (item v r)
      → ItemsHaveNoReals (item v r)
      → (f : ℕ) (rest : Bytes) → 2 * length (print_items (item v r)) + 1 < f
      → parse_items numbers f (print_items (item v r) ++ rest) ≡ ok (item v r) rest
  items-Read numbers v r w h zero rest lt = absurd (omega arith)
  items-Read numbers v no_items w h (suc f) rest lt = last-item numbers f (print_value v) rest v (
      value-Reads numbers v (w.0) (h.0) f (b']' ∷ rest)
        (omega (arith, lt, length-append (print_value v) (b']' ∷ []))) refl)
  items-Read numbers v (item v' r) w h (suc f) rest lt =
      more-items numbers f (print_value v) (print_items (item v' r)) rest v (item v' r)
        (value-Reads numbers v (w.0) (h.0) f (b',' ∷ (print_items (item v' r) ++ rest))
          (omega (arith, lt, length-append (print_value v) (b',' ∷ print_items (item v' r)))) refl)
        (items-Read numbers v' r (w.1) (h.1) f rest
          (omega (arith, lt, length-append (print_value v) (b',' ∷ print_items (item v' r)))))

document-Reads :
    (numbers : Numbers) (v : JValue) (c : ℕ) (cs : Bytes)
    → IsWellFormed v
    → HasNoReals v
    → print_value v ≡ c ∷ cs
    → is_ws c ≡ false
    → parse_document numbers (print_value v) ≡ ok v []
unfolding parse_document ws
document-Reads numbers v c cs w h e space =
    let t = print_value v in
    let plain : ws t ≡ t ++ [] = ap ws e ∙ ws-Begins c cs space ∙ sym e ∙ sym (append-nil t) in
    let read = value-Reads numbers v w h (2 * length t + 1) [] (omega arith) tt in
    ap (λ r. bind r (λ v u. at_end v (ws u)))
      (ap (parse_value numbers (2 * length t + 1)) plain ∙ read)

-- Every JSON value without fractional numbers, in which no object has a key twice and integers have
-- 64 bits, is read back from its text, whatever bytes its strings and keys have.
pub parse_document-print_value :
    (numbers : Numbers) (v : JValue)
    → IsWellFormed v
    → HasNoReals v
    → parse_document numbers (print_value v) ≡ ok v []
parse_document-print_value numbers v w h =
    let (c, cs, e, space, bracket) = print_value-Begins v w h in
    document-Reads numbers v c cs w h e space
