-- ===== src/Base/Search.antt =====
-- Searching in texts: `replace` of a character, `split` and `find` of a pattern.
use Prim.Native.Nat.{ℕ, zero, suc, ◌-◌}
use mathlib.Core.Path.{◌≡◌, refl, ap, ◌∙◌, sym}
use mathlib.Core.Bool.{true, false}
use mathlib.Core.List.{List, [], ◌∷◌, ◌++◌, append_assoc}
use mathlib.Core.Option.{Option, none, some}
use s3prism.Base.Bytes.{Text, starts_with}
use s3prism.Base.Tests.{◌==◌, if◌then◌else◌}
use s3prism.Base.Lists.{length}

-- One text for each character, joined.
abbrev pub each : (ℕ → Text) → Text → Text
each f [] = []
each f (c ∷ s) = f c ++ each f s

-- `s.replace(c, w)` for a character `c`.
unfoldable pub replace : ℕ → Text → Text → Text
replace c w s = each (λ d. if d == c then w else d ∷ []) s

-- A character goes before the first piece.
abbrev pub onto_first : ℕ → List Text → List Text
onto_first c [] = (c ∷ []) ∷ []
onto_first c (p ∷ ps) = (c ∷ p) ∷ ps

-- The pieces of `s.split(pat)`, for a pattern that is not empty; the first argument counts the
-- characters of a match that are still to be passed over.
abbrev pub split_from : ℕ → Text → Text → List Text
split_from skip pat [] = [] ∷ []
split_from (suc skip) pat (c ∷ s) = split_from skip pat s
split_from zero pat (c ∷ s) = elim (starts_with pat (c ∷ s)) [
  | true ↦ [] ∷ split_from (length pat - 1) pat s
  | false ↦ onto_first c (split_from zero pat s)
]

unfoldable pub split : Text → Text → List Text
split pat s = split_from 0 pat s

-- `&s[..s.find(pat)?]`.
unfoldable pub before : Text → Text → Option Text
before pat [] = elim pat [ [] ↦ some [] | ◌∷◌ c p ↦ none ]
before pat (c ∷ s) =
    let later : Option Text = elim (before pat s) [ some w ↦ some (c ∷ w) | none ↦ none ] in
    if starts_with pat (c ∷ s) then some [] else later

pub each-append : (f : ℕ → Text) (s t : Text) → each f (s ++ t) ≡ each f s ++ each f t
each-append f [] t = refl
each-append f (c ∷ s) t =
    ap (λ r. f c ++ r) (each-append f s t) ∙ sym (append_assoc (f c) (each f s) (each f t))
