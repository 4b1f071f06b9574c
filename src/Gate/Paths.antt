-- ===== src/Gate/Paths.antt =====
-- What the path patterns of the router match.
use mould_system_backend.Common.{
  ℕ, zero, suc, true, Bytes, bytes_eq, bytes_eq→eq, bytes_eq_refl, [], ◌∷◌, ◌++◌, ◌-◌, leb, ◌≡◌,
  ◌⊎◌, ◌↔◌, inl, inr, refl, sym, ap, ◌∙◌, arith, length, length-append, take, drop, get_or,
  take-append-drop, take-append, drop-append, Bool-cases, ◌&&◌,
}
use mould_system_backend.Gate.Router.{match_path, match_prefix, wildcard}

-- The path begins with the prefix, and ends there or goes on with a slash.
abbrev pub IsBelow : Bytes → Bytes → Type 0
IsBelow prefix path =
    (rest : Bytes) × (path ≡ prefix ++ rest)
    × ((rest ≡ []) ⊎ ((tail : Bytes) × (rest ≡ b'/' ∷ tail)))

get_or-length : (xs ys : Bytes) → get_or (xs ++ ys) (length xs) 0 ≡ get_or ys 0 0
get_or-length [] ys = refl
get_or-length (x ∷ xs) ys = get_or-length xs ys

drop-cons : (xs : Bytes) (n k : ℕ) → get_or xs n 0 ≡ suc k → drop n xs ≡ suc k ∷ drop (suc n) xs
drop-cons [] n k h = ground arith
drop-cons (x ∷ xs) zero k h = ground arith
drop-cons (x ∷ xs) (suc n) k h = drop-cons xs n k h

drop-all : (xs : Bytes) (n : ℕ) → length xs ≡ n → drop n xs ≡ []
drop-all [] zero h = refl
drop-all [] (suc n) h = refl
drop-all (x ∷ xs) zero h = ground arith
drop-all (x ∷ xs) (suc n) h = drop-all xs n (ground arith)

IsBelow-split :
    (prefix path : Bytes)
    → take (length prefix) path ≡ prefix
    → (length path ≡ length prefix) ⊎ (get_or path (length prefix) 0 ≡ b'/')
    → IsBelow prefix path
IsBelow-split prefix path e h = (
  drop (length prefix) path,
  sym (take-append-drop (length prefix) path) ∙ ap (λ xs. xs ++ drop (length prefix) path) e,
  elim h [
    | inl l ↦ inl (drop-all path (length prefix) l)
    | inr s ↦ inr (drop (suc (length prefix)) path, drop-cons path (length prefix) 46 s)
  ],
)

match_prefix-IsBelow :
    (c : ℕ) (cs path : Bytes) → match_prefix (c ∷ cs) path ≡ true → IsBelow (c ∷ cs) path
unfolding match_prefix
match_prefix-IsBelow c cs path h =
    IsBelow-split (c ∷ cs) path (bytes_eq→eq (take (length (c ∷ cs)) path) (c ∷ cs) (ground arith))
      (ground arith)

append→match_prefix :
    (prefix rest : Bytes)
    → (rest ≡ []) ⊎ ((tail : Bytes) × (rest ≡ b'/' ∷ tail))
    → match_prefix prefix (prefix ++ rest) ≡ true
unfolding match_prefix
append→match_prefix prefix rest (inl e) =
    rw (take-append prefix rest, bytes_eq_refl prefix)
      (ground (arith, e, length-append prefix rest))
append→match_prefix prefix rest (inr (tail, e)) =
    rw (take-append prefix rest, bytes_eq_refl prefix, get_or-length prefix rest)
      (ground (arith, e, length-append prefix rest))

-- `pattern` is a prefix with the wildcard behind it.
wildcard-split :
    (pattern : Bytes)
    → leb 2 (length pattern) && bytes_eq (drop (length pattern - 2) pattern) wildcard ≡ true
    → pattern ≡ take (length pattern - 2) pattern ++ wildcard
wildcard-split pattern h =
    sym (take-append-drop (length pattern - 2) pattern)
    ∙ ap (λ xs. take (length pattern - 2) pattern ++ xs)
        (bytes_eq→eq (drop (length pattern - 2) pattern) wildcard (ground arith))

match_path-wildcard :
    (prefix actual : Bytes)
    → match_prefix prefix actual ≡ true
    → match_path (prefix ++ wildcard) actual ≡ true
unfolding match_path
match_path-wildcard prefix actual h =
    let len : length (prefix ++ wildcard) - 2 ≡ length prefix =
      omega (arith, length-append prefix wildcard) in
    let long : leb 2 (length (prefix ++ wildcard)) ≡ true =
      ground (arith, length-append prefix wildcard) in
    elim (Bool-cases (bytes_eq (prefix ++ wildcard) actual)) [
      | inl e ↦ rw e refl
      | inr e ↦ rw (e, long, len, drop-append prefix wildcard, take-append prefix wildcard, h) refl
    ]

below→match_prefix :
    (prefix actual : Bytes)
    → (prefix ≡ []) ⊎ IsBelow prefix actual
    → match_prefix prefix actual ≡ true
unfolding match_prefix
below→match_prefix prefix actual (inl e) = rw e refl
below→match_prefix prefix actual (inr (rest, e, h)) = rw e (append→match_prefix prefix rest h)

match_prefix→covers :
    (prefix actual : Bytes)
    → match_prefix prefix actual ≡ true
    → (prefix ≡ []) ⊎ IsBelow prefix actual
match_prefix→covers [] actual h = inl refl
match_prefix→covers (c ∷ cs) actual h = inr (match_prefix-IsBelow c cs actual h)

match_path-cases :
    (pattern actual : Bytes)
    → match_path pattern actual ≡ true
    → (bytes_eq pattern actual ≡ true)
      ⊎ ((leb 2 (length pattern) && bytes_eq (drop (length pattern - 2) pattern) wildcard ≡ true)
          × (match_prefix (take (length pattern - 2) pattern) actual ≡ true))
unfolding match_path
match_path-cases pattern actual h = ground arith

-- A path matches a pattern exactly when it is the pattern, or the pattern is a prefix with the
-- wildcard `/*` behind it and the path is below that prefix, where everything is below the empty one.
pub match_path_iff :
    (pattern actual : Bytes)
    → (match_path pattern actual ≡ true) ↔ (
        (pattern ≡ actual)
        ⊎ ((prefix : Bytes) × (pattern ≡ prefix ++ wildcard)
            × ((prefix ≡ []) ⊎ IsBelow prefix actual)))
unfolding match_path
match_path_iff pattern actual = (
  λ h. elim (match_path-cases pattern actual h) [
    | inl e ↦ inl (bytes_eq→eq pattern actual e)
    | inr (w, m) ↦ inr (
      take (length pattern - 2) pattern,
      wildcard-split pattern w,
      match_prefix→covers (take (length pattern - 2) pattern) actual m,
    )
  ],
  λ h. elim h [
    | inl e ↦ rw (e, bytes_eq_refl actual) refl
    | inr (prefix, e, below) ↦
        rw e (match_path-wildcard prefix actual (below→match_prefix prefix actual below))
  ],
)
