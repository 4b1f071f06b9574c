-- ===== src/Config/Json/Lists.antt =====
-- The reader on printed members and items.
use mathlib.Core.List.{append_assoc}
use mould_system_backend.Common.{
  ℕ, zero, suc, ℤ, false, Bytes, List, [], ◌∷◌, ◌++◌, ◌+◌, ◌*◌, ◌<◌, ◌==◌, ◌≡◌, refl, sym, ap, ◌∙◌,
  subst, arith, length, length-append,
}
use mould_system_backend.Config.Decimal.{IsInt64}
use mould_system_backend.Config.Json.Tree.{
  JValue, JObject, JArray, integral, object, array, no_members, member, no_items, item, has_key,
  object_separator, array_separator, ok, failed, bind,
}
use mould_system_backend.Config.Json.Reader.{
  peek, is_ws, Numbers, parse_number, number_start, start_of, closed, more, neither, next_of,
  parse_value, parse_members, parse_items,
}
use mould_system_backend.Config.Json.Printer.{quote, print_value, print_members, print_items}
use mould_system_backend.Config.Json.Printed.{StopsNumber, parse_number-to_string}
use mould_system_backend.Config.Json.Begins.{
  Begins, to_string-cons, parse_key-quote, next_of-close, next_of-comma, value-number, value-object,
  value-array,
}

-- A member whose value is read, up to what follows the value.
members-step :
    (numbers : Numbers) (f : ℕ) (keys : List Bytes) (k pv u : Bytes) (v : JValue)
    → has_key k keys ≡ false
    → parse_value numbers f (pv ++ u) ≡ ok v u
    → parse_members numbers (suc f) keys ((b'"' ∷ quote k) ++ b':' ∷ (pv ++ u))
      ≡ elim (next_of b'}' u) [
        | closed t4 ↦ ok (member k v no_members) t4
        | more t4 ↦
            bind (parse_members numbers f (k ∷ keys) t4) (λ rest t5. ok (member k v rest) t5)
        | neither ↦ failed object_separator
      ]
unfolding parse_members
members-step numbers f keys k pv u v fresh read =
    simp (parse_members, parse_key-quote k (b':' ∷ (pv ++ u)), read, fresh)

items-step :
    (numbers : Numbers) (f : ℕ) (pv u : Bytes) (v : JValue)
    → parse_value numbers f (pv ++ u) ≡ ok v u
    → parse_items numbers (suc f) (pv ++ u) ≡ elim (next_of b']' u) [
      | closed t2 ↦ ok (item v no_items) t2
      | more t2 ↦ bind (parse_items numbers f t2) (λ rest t3. ok (item v rest) t3)
      | neither ↦ failed array_separator
    ]
unfolding parse_items
items-step numbers f pv u v read = rw read refl

abbrev pub Reads : Numbers → JValue → Type 0
Reads numbers v =
    (f : ℕ) (rest : Bytes)
    → 2 * length (print_value v) < f
    → StopsNumber rest
    → parse_value numbers f (print_value v ++ rest) ≡ ok v rest

pub value-integral : (numbers : Numbers) (i : ℤ) → IsInt64 i → Reads numbers (integral i)
unfolding print_value
value-integral numbers i w zero rest lt stops = absurd (omega arith)
value-integral numbers i w (suc f) rest lt stops =
    let (c, cs, e) = to_string-cons i in
    let (start, space, bracket, read) = parse_number-to_string numbers i w in
    subst (λ xs. parse_value numbers (suc f) (xs ++ rest) ≡ ok (integral i) rest) (sym e)
      (value-number numbers f c (cs ++ rest) (subst (λ xs. is_ws (peek xs) ≡ false) e space)
          (subst (λ xs. start_of (peek xs) ≡ number_start) e start)
        ∙ subst (λ xs. parse_number numbers (xs ++ rest) ≡ ok (integral i) rest) e
            (read rest stops))

member-split :
    (q pv u rest : Bytes) → (q ++ b':' ∷ (pv ++ u)) ++ rest ≡ q ++ b':' ∷ (pv ++ (u ++ rest))
member-split q pv u rest = simp (append_assoc)

pub length-member :
    (q pv u : Bytes) → length (q ++ b':' ∷ (pv ++ u)) ≡ length q + (1 + (length pv + length u))
length-member q pv u = omega (arith, length-append q (b':' ∷ (pv ++ u)), length-append pv u)

pub members-cons :
    (k : Bytes) (v : JValue) (r : JObject) → (t : Bytes) × (print_members (member k v r) ≡ b'"' ∷ t)
unfolding print_value
members-cons k v no_members = (_, refl)
members-cons k v (member k' v' r) = (_, refl)

pub items-cons :
    (v : JValue) (r : JArray)
    → Begins v
    → (c : ℕ) × (cs : Bytes) × (print_items (item v r) ≡ c ∷ cs)
      × (is_ws c ≡ false)
      × (c == b']' ≡ false)
unfolding print_value
items-cons v no_items (c, cs, e, s, b) = (c, cs ++ b']' ∷ [], ap (λ xs. xs ++ b']' ∷ []) e, s, b)
items-cons v (item v' r) (c, cs, e, s, b) = (
  c,
  cs ++ b',' ∷ print_items (item v' r),
  ap (λ xs. xs ++ b',' ∷ print_items (item v' r)) e,
  s,
  b,
)

pub object-read :
    (numbers : Numbers) (f : ℕ) (t xs rest : Bytes) (o : JObject)
    → xs ≡ b'"' ∷ t
    → parse_members numbers f [] (xs ++ rest) ≡ ok o rest
    → parse_value numbers (suc f) (b'{' ∷ (xs ++ rest)) ≡ ok (object o) rest
object-read numbers f t xs rest o e read =
    ap (λ (ys : Bytes). parse_value numbers (suc f) (b'{' ∷ (ys ++ rest))) e
    ∙ value-object numbers f (t ++ rest)
    ∙ ap (λ r. bind r (λ o v. ok (object o) v))
        (ap (λ (ys : Bytes). parse_members numbers f [] (ys ++ rest)) (sym e) ∙ read)

pub array-read :
    (numbers : Numbers) (f c : ℕ) (cs xs rest : Bytes) (a : JArray)
    → xs ≡ c ∷ cs
    → is_ws c ≡ false
    → c == b']' ≡ false
    → parse_items numbers f (xs ++ rest) ≡ ok a rest
    → parse_value numbers (suc f) (b'[' ∷ (xs ++ rest)) ≡ ok (array a) rest
array-read numbers f c cs xs rest a e s b read =
    ap (λ (ys : Bytes). parse_value numbers (suc f) (b'[' ∷ (ys ++ rest))) e
    ∙ value-array numbers f c (cs ++ rest) s b
    ∙ ap (λ r. bind r (λ a v. ok (array a) v))
        (ap (λ (ys : Bytes). parse_items numbers f (ys ++ rest)) (sym e) ∙ read)

pub last-member :
    (numbers : Numbers) (f : ℕ) (keys : List Bytes) (k pv rest : Bytes) (v : JValue)
    → has_key k keys ≡ false
    → parse_value numbers f (pv ++ b'}' ∷ rest) ≡ ok v (b'}' ∷ rest)
    → parse_members numbers (suc f) keys (((b'"' ∷ quote k) ++ b':' ∷ (pv ++ b'}' ∷ [])) ++ rest)
      ≡ ok (member k v no_members) rest
unfolding is_ws
last-member numbers f keys k pv rest v fresh read =
    ap (parse_members numbers (suc f) keys) (member-split (b'"' ∷ quote k) pv (b'}' ∷ []) rest)
    ∙ members-step numbers f keys k pv (b'}' ∷ rest) v fresh read
    ∙ rw (next_of-close b'}' rest refl) refl

pub more-members :
    (numbers : Numbers) (f : ℕ) (keys : List Bytes) (k pv ps rest : Bytes) (v : JValue)
    (r : JObject)
    → has_key k keys ≡ false
    → parse_value numbers f (pv ++ (b',' ∷ (ps ++ rest))) ≡ ok v (b',' ∷ (ps ++ rest))
    → parse_members numbers f (k ∷ keys) (ps ++ rest) ≡ ok r rest
    → parse_members numbers (suc f) keys (((b'"' ∷ quote k) ++ b':' ∷ (pv ++ b',' ∷ ps)) ++ rest)
      ≡ ok (member k v r) rest
more-members numbers f keys k pv ps rest v r fresh read others =
    ap (parse_members numbers (suc f) keys) (member-split (b'"' ∷ quote k) pv (b',' ∷ ps) rest)
    ∙ members-step numbers f keys k pv (b',' ∷ (ps ++ rest)) v fresh read
    ∙ rw (next_of-comma b'}' (ps ++ rest) refl, others) refl

pub last-item :
    (numbers : Numbers) (f : ℕ) (pv rest : Bytes) (v : JValue)
    → parse_value numbers f (pv ++ b']' ∷ rest) ≡ ok v (b']' ∷ rest)
    → parse_items numbers (suc f) ((pv ++ b']' ∷ []) ++ rest) ≡ ok (item v no_items) rest
unfolding is_ws
last-item numbers f pv rest v read =
    ap (parse_items numbers (suc f)) (append_assoc pv (b']' ∷ []) rest)
    ∙ items-step numbers f pv (b']' ∷ rest) v read
    ∙ rw (next_of-close b']' rest refl) refl

pub more-items :
    (numbers : Numbers) (f : ℕ) (pv ps rest : Bytes) (v : JValue) (r : JArray)
    → parse_value numbers f (pv ++ (b',' ∷ (ps ++ rest))) ≡ ok v (b',' ∷ (ps ++ rest))
    → parse_items numbers f (ps ++ rest) ≡ ok r rest
    → parse_items numbers (suc f) ((pv ++ b',' ∷ ps) ++ rest) ≡ ok (item v r) rest
more-items numbers f pv ps rest v r read others =
    ap (parse_items numbers (suc f)) (append_assoc pv (b',' ∷ ps) rest)
    ∙ items-step numbers f pv (b',' ∷ (ps ++ rest)) v read
    ∙ rw (next_of-comma b']' (ps ++ rest) refl, others) refl
