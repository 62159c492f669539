-- ===== src/Xml/Pieces.antt =====
-- The pieces of a text between tags.
use s3prism.Base.{
  ◌≡◌, refl, ap, true, false, List, [], ◌∷◌, ◌++◌, Text, starts_with, some, All, ◌==◌, arith,
}
use s3prism.Base.Search.{split_from, onto_first, before}

-- Without `<`.
abbrev pub IsClean : Text → Type 0
IsClean s = All (λ c. (60 == c) ≡ false) s

pub IsClean-append : (s t : Text) → IsClean s → IsClean t → IsClean (s ++ t)
IsClean-append [] t hs ht = ht
IsClean-append (c ∷ s) t (hc, hs) ht = (hc, IsClean-append s t hs ht)

-- A text goes before the first piece.
abbrev pub onto : Text → List Text → List Text
onto [] ps = ps
onto (c ∷ s) ps = onto_first c (onto s ps)

pub onto_cons : (s p : Text) (ps : List Text) → onto s (p ∷ ps) ≡ (s ++ p) ∷ ps
onto_cons [] p ps = refl
onto_cons (c ∷ s) p ps = ap (onto_first c) (onto_cons s p ps)

-- A pattern that begins with `<` is not found in a text without it.
pub split_from-clean :
    (pat s rest : Text)
    → IsClean s
    → split_from 0 (60 ∷ pat) (s ++ rest) ≡ onto s (split_from 0 (60 ∷ pat) rest)
unfolding starts_with
split_from-clean pat [] rest h = refl
split_from-clean pat (c ∷ s) rest (hc, h) =
    rw (split_from, hc) (ap (onto_first c) (split_from-clean pat s rest h))

starts_with-append : (pat rest : Text) → starts_with pat (pat ++ rest) ≡ true
unfolding starts_with
starts_with-append [] rest = refl
starts_with-append (c ∷ pat) rest = ground (arith, starts_with-append pat rest)

pub before-clean :
    (pat s rest : Text) → IsClean s → before (60 ∷ pat) (s ++ (60 ∷ (pat ++ rest))) ≡ some s
unfolding before starts_with
before-clean pat [] rest h = rw (starts_with-append pat rest) refl
before-clean pat (c ∷ s) rest (hc, h) = rw (hc, before-clean pat s rest h) refl
