-- ===== src/Config/Streams.antt =====
-- `std::getline` on a string stream, as common/config uses it.
use mould_system_backend.Common.{
  ℕ, false, Bytes, List, [], ◌∷◌, ◌++◌, ◌==◌, ◌≡◌, refl, ap, ◌∙◌, arith, if◌then◌else◌,
}

abbrev push_front : ℕ → List Bytes → List Bytes
push_front c [] = (c ∷ []) ∷ []
push_front c (piece ∷ pieces) = (c ∷ piece) ∷ pieces

-- The pieces that repeated `std::getline` gives: an empty piece behind the last separator is not one.
unfoldable pub getline_all : ℕ → Bytes → List Bytes
getline_all separator [] = []
getline_all separator (c ∷ cs) =
    let rest = getline_all separator cs in if c == separator then [] ∷ rest else push_front c rest

-- The pieces with the separator between them.
abbrev pub join_with : ℕ → List Bytes → Bytes
join_with separator [] = []
join_with separator (p ∷ []) = p
join_with separator (p ∷ q ∷ rest) = p ++ separator ∷ join_with separator (q ∷ rest)

abbrev pub AreAbsent : ℕ → Bytes → Type 0
AreAbsent separator [] = Unit {0}
AreAbsent separator (c ∷ cs) = ((c == separator) ≡ false) × AreAbsent separator cs

-- Pieces that are not empty and are free of the separator.
abbrev pub ArePieces : ℕ → List Bytes → Type 0
ArePieces separator [] = Unit {0}
ArePieces separator ([] ∷ rest) = ⊥
ArePieces separator ((c ∷ cs) ∷ rest) = AreAbsent separator (c ∷ cs) × ArePieces separator rest

getline_all-last :
    (separator c : ℕ) (cs : Bytes)
    → AreAbsent separator (c ∷ cs)
    → getline_all separator (c ∷ cs) ≡ (c ∷ cs) ∷ []
unfolding getline_all
getline_all-last separator c [] h = rw h.0 refl
getline_all-last separator c (d ∷ ds) h = rw (h.0, getline_all-last separator d ds h.1) refl

getline_all-front :
    (separator : ℕ) (piece text : Bytes)
    → AreAbsent separator piece
    → getline_all separator (piece ++ separator ∷ text) ≡ piece ∷ getline_all separator text
unfolding getline_all
getline_all-front separator [] text h = ground arith
getline_all-front separator (c ∷ cs) text h = rw (h.0, getline_all-front separator cs text h.1) refl

-- Joining pieces and reading them again gives the pieces.
pub getline_all-join_with :
    (separator : ℕ) (pieces : List Bytes)
    → ArePieces separator pieces
    → getline_all separator (join_with separator pieces) ≡ pieces
unfolding getline_all
getline_all-join_with separator [] h = refl
getline_all-join_with separator ([] ∷ rest) h = absurd h
getline_all-join_with separator ((c ∷ cs) ∷ []) h = getline_all-last separator c cs h.0
getline_all-join_with separator ((c ∷ cs) ∷ q ∷ rest) h =
    getline_all-front separator (c ∷ cs) (join_with separator (q ∷ rest)) h.0
    ∙ ap (λ ps. (c ∷ cs) ∷ ps) (getline_all-join_with separator (q ∷ rest) h.1)
