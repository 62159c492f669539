-- ===== src/Metadata/Listing/Pages.antt =====
-- The pages of a listing without a delimiter, over the rows of a bucket: keys with their values.
use s3prism.Base.{
  ℕ, zero, suc, ◌≡◌, refl, sym, subst, inl, inr, Bool, true, false, List, [], ◌∷◌, Text, Option,
  none, some, last, All, text_le, if◌then◌else◌, Result, ok, ◌>>=◌, >>=-eq-ok, ok_injective,
  some_injective, Bool-cases,
}
use s3prism.Fault.{Fault}
use s3prism.Metadata.Models.{ObjectMeta, ListEntry, list_entry}
use s3prism.Metadata.Rocks.{Serde}
use s3prism.Metadata.Listing.{is_skipped}
use s3prism.Metadata.Listing.Order.{text_le_trans, text_le_total}

abbrev pub Rows : Type 0
Rows = List (Text × Text)

-- The entries, and whether the listing goes on.
abbrev pub Piece : Type 0
Piece = List ListEntry × Bool

-- Every later key is greater.
abbrev pub IsRising : Rows → Type 0
IsRising [] = Unit
IsRising (row ∷ rows) = All (λ later. text_le later.0 row.0 ≡ false) rows × IsRising rows

-- A key that is not passed over has only such keys behind it.
not_skipped :
    (s : Option Text) (k k' : Text)
    → is_skipped s k ≡ false
    → text_le k' k ≡ false
    → is_skipped s k' ≡ false
unfolding is_skipped
not_skipped none k k' h later = refl
not_skipped (some start) k k' h later = elim (Bool-cases (text_le k' start)) [
  | inr other ↦ other
  | inl before ↦ cc (h, text_le_trans k k' start (text_le_total k' k later) before)
]

pub None-skipped :
    (s : Option Text) (k : Text) (rows : Rows)
    → is_skipped s k ≡ false
    → All (λ later. text_le later.0 k ≡ false) rows
    → All (λ row. is_skipped s row.0 ≡ false) rows
None-skipped s k [] h later = tt
None-skipped s k (row ∷ rows) h (here, later) =
    (not_skipped s k row.0 h here, None-skipped s k rows h later)

module _ (object : Serde ObjectMeta) where
  -- The key that an object's record holds is the one that it is stored under.
  abbrev pub AreKeyed : Rows → Type 0
  AreKeyed = All (λ row. (meta : ObjectMeta) → object.from_slice row.1 ≡ ok meta → meta.key ≡ row.0)

  -- At most `n` entries behind the start.
  unfoldable pub pick : Option Text → ℕ → Rows → Result Fault Piece
  pick s n [] = ok ([], false)
  pick s zero (row ∷ rows) =
      let later = pick s zero rows in if is_skipped s row.0 then later else ok ([], true)
  pick s (suc n) (row ∷ rows) =
      let later = pick s (suc n) rows in
      let taken : Result Fault Piece = (do
        meta ← object.from_slice row.1
        rest ← pick s n rows
        ok (list_entry meta ∷ rest.0, rest.1)) in
      if is_skipped s row.0 then later else taken

  pub pick-skip :
      (s : Option Text) (n : ℕ) (row : Text × Text) (rows : Rows)
      → is_skipped s row.0 ≡ true
      → pick s n (row ∷ rows) ≡ pick s n rows
  unfolding pick
  pick-skip s zero row rows h = rw h refl
  pick-skip s (suc n) row rows h = rw h refl

  -- A row that is taken.
  pub pick-take :
      (s : Option Text) (n : ℕ) (row : Text × Text) (rows : Rows) (meta : ObjectMeta) (rest : Piece)
      → is_skipped s row.0 ≡ false
      → object.from_slice row.1 ≡ ok meta
      → pick s n rows ≡ ok rest
      → pick s (suc n) (row ∷ rows) ≡ ok (list_entry meta ∷ rest.0, rest.1)
  unfolding pick
  pick-take s n row rows meta rest h decoded later = rw (h, decoded, later) refl

  pub pick-taken :
      (s : Option Text) (n : ℕ) (row : Text × Text) (rows : Rows) (piece : Piece)
      → is_skipped s row.0 ≡ false
      → pick s (suc n) (row ∷ rows) ≡ ok piece
      → (meta : ObjectMeta) × (object.from_slice row.1 ≡ ok meta)
        × ((rest : Piece) × (pick s n rows ≡ ok rest)
            × ((list_entry meta ∷ rest.0, rest.1) ≡ piece))
  unfolding pick
  pick-taken s n row rows piece h e =
      let e1 = rw h at e in
      let (meta, decoded, e2) = >>=-eq-ok (object.from_slice row.1) _ e1 in
      let (rest, later, e3) = >>=-eq-ok (pick s n rows) _ e2 in
      (meta, decoded, (rest, later, ok_injective e3))

  pub pick-full :
      (s : Option Text) (row : Text × Text) (rows : Rows)
      → is_skipped s row.0 ≡ false
      → pick s zero (row ∷ rows) ≡ ok ([], true)
  unfolding pick
  pick-full s row rows h = rw h refl

  -- The entries' keys are behind any key that all rows are behind.
  pub pick-behind :
      (k : Text) (s : Option Text) (n : ℕ) (rows : Rows) (es : List ListEntry) (t : Bool)
      → All (λ row. text_le row.0 k ≡ false) rows
      → AreKeyed rows
      → pick s n rows ≡ ok (es, t)
      → All (λ (e : ListEntry). text_le e.key k ≡ false) es
  unfolding pick list_entry
  pick-behind k s n [] es t behind keyed h =
      subst (λ (x : Piece). All (λ (e : ListEntry). text_le e.key k ≡ false) x.0) (ok_injective h)
        tt
  pick-behind k s zero (row ∷ rows) es t (here, behind) (named, keyed) h =
      elim (Bool-cases (is_skipped s row.0)) [
        | inl skip ↦ pick-behind k s zero rows es t behind keyed (rw skip at h)
        | inr stay ↦
            subst (λ (x : Piece). All (λ (e : ListEntry). text_le e.key k ≡ false) x.0)
              (ok_injective (rw stay at h)) tt
      ]
  pick-behind k s (suc n) (row ∷ rows) es t (here, behind) (named, keyed) h =
      elim (Bool-cases (is_skipped s row.0)) [
        | inl skip ↦ pick-behind k s (suc n) rows es t behind keyed (rw skip at h)
        | inr stay ↦
            let (meta, decoded, (rest, later, is)) = pick-taken s n row rows (es, t) stay h in
            subst (λ (x : Piece). All (λ (e : ListEntry). text_le e.key k ≡ false) x.0) is
              (
                subst (λ key. text_le key k ≡ false) (sym (named meta decoded)) here,
                pick-behind k s n rows rest.0 rest.1 behind keyed later,
              )
      ]

  -- The start does not matter where it passes over no row.
  pub pick-start :
      (s s' : Option Text) (n : ℕ) (rows : Rows)
      → All (λ row. is_skipped s row.0 ≡ false) rows
      → All (λ row. is_skipped s' row.0 ≡ false) rows
      → pick s n rows ≡ pick s' n rows
  unfolding pick
  pick-start s s' n [] h h' = refl
  pick-start s s' zero (row ∷ rows) (here, h) (here', h') = rw (here, here') refl
  pick-start s s' (suc n) (row ∷ rows) (here, h) (here', h') =
      rw (here, here', pick-start s s' n rows h h') refl

  -- Where no row is passed over, a full page without an entry has no room.
  pub pick-no_room :
      (s : Option Text) (n : ℕ) (rows : Rows)
      → All (λ row. is_skipped s row.0 ≡ false) rows
      → pick s n rows ≡ ok ([], true)
      → n ≡ 0
  unfolding pick
  pick-no_room s n [] h e = cc
  pick-no_room s zero (row ∷ rows) h e = refl
  pick-no_room s (suc n) (row ∷ rows) (here, h) e =
      let (meta, decoded, (rest, later, is)) = pick-taken s n row rows ([], true) here e in cc

pub last-All :
    (P : ListEntry → Type 0) (es : List ListEntry) (e : ListEntry)
    → All P es
    → last es ≡ some e
    → P e
last-All P [] e h is = cc
last-All P (x ∷ []) e (here, h) is = subst P (some_injective is) here
last-All P (x ∷ y ∷ es) e (here, h) is = last-All P (y ∷ es) e h is

-- A key behind which the start is, is passed over.
pub skipped_by : (k start : Text) → text_le start k ≡ false → is_skipped (some start) k ≡ true
unfolding is_skipped
skipped_by k start h = text_le_total start k h
