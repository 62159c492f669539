-- ===== src/Metadata/Listing/Joined.antt =====
-- Two pages of a listing, one after the other, over the rows of a bucket.
use s3prism.Base.{
  ℕ, zero, suc, ◌+◌, ◌≡◌, sym, ap, ◌∙◌, subst, inl, inr, true, false, List, [], ◌∷◌, ◌++◌, Text,
  Option, some, last, All, text_le, text_le_refl, ok, ok_injective, some_injective, Bool-cases,
  arith,
}
use s3prism.Metadata.Models.{ObjectMeta, ListEntry, list_entry}
use s3prism.Metadata.Rocks.{Serde}
use s3prism.Metadata.Listing.{is_skipped}
use s3prism.Metadata.Listing.Pages.{
  Rows, Piece, IsRising, None-skipped, AreKeyed, pick, pick-skip, pick-take, pick-taken, pick-full,
  pick-behind, pick-start, pick-no_room, last-All, skipped_by,
}

module _ (object : Serde ObjectMeta) where
  -- What the joined pages are: where the first goes on, the second starts behind its last entry.
  abbrev IsJoined : Option Text → ℕ → ℕ → Rows → List ListEntry → ListEntry → Piece → Type 0
  IsJoined s n m rows es e second =
      pick object s n rows ≡ ok (es, true)
      → last es ≡ some e
      → pick object (some e.key) m rows ≡ ok second
      → pick object s (n + m) rows ≡ ok (es ++ second.0, second.1)

  -- The first row is the last entry of the first page.
  joined-here :
      (s : Option Text) (n m : ℕ) (row : Text × Text) (rows : Rows) (meta : ObjectMeta)
      (second : Piece)
      → is_skipped s row.0 ≡ false
      → IsRising (row ∷ rows)
      → AreKeyed object (row ∷ rows)
      → object.from_slice row.1 ≡ ok meta
      → pick object s n rows ≡ ok ([], true)
      → pick object (some meta.key) m (row ∷ rows) ≡ ok second
      → pick object s (suc (n + m)) (row ∷ rows) ≡ ok (list_entry meta ∷ second.0, second.1)
  unfolding is_skipped
  joined-here s n m row rows meta second stay (behind, rising) (named, keyed) decoded full next =
      let key_is : meta.key ≡ row.0 = named meta decoded in
      let none_skipped = None-skipped s row.0 rows stay behind in
      let no_room : n ≡ 0 = pick-no_room object s n rows none_skipped full in
      let next1 : pick object (some row.0) m (row ∷ rows) ≡ ok second =
        subst (λ k. pick object (some k) m (row ∷ rows) ≡ ok second) key_is next in
      let next2 : pick object (some row.0) m rows ≡ ok second =
        sym (pick-skip object (some row.0) m row rows (text_le_refl row.0)) ∙ next1 in
      let rest : pick object s m rows ≡ ok second =
        pick-start object s (some row.0) m rows none_skipped behind ∙ next2 in
      pick-take object s (n + m) row rows meta second stay decoded
        (subst (λ j. pick object s j rows ≡ ok second) (omega (arith, no_room)) rest)

  -- The first row is passed over.
  IsJoined-skip :
      (s : Option Text) (n m : ℕ) (row : Text × Text) (rows : Rows) (es : List ListEntry)
      (e : ListEntry) (second : Piece)
      → is_skipped s row.0 ≡ true
      → All (λ later. text_le later.0 row.0 ≡ false) rows
      → AreKeyed object rows
      → IsJoined s n m rows es e second
      → IsJoined s n m (row ∷ rows) es e second
  IsJoined-skip s n m row rows es e second skip behind keyed ih h is next =
      let h1 = sym (pick-skip object s n row rows skip) ∙ h in
      let after : text_le e.key row.0 ≡ false =
        last-All (λ x. text_le x.key row.0 ≡ false) es e
          (pick-behind object row.0 s n rows es true behind keyed h1) is in
      let next1 =
        sym (pick-skip object (some e.key) m row rows (skipped_by row.0 e.key after)) ∙ next in
      pick-skip object s (n + m) row rows skip ∙ ih h1 is next1

  -- The first row is an entry of the first page, and `es` are the others.
  joined-take :
      (s : Option Text) (n m : ℕ) (row : Text × Text) (rows : Rows) (meta : ObjectMeta)
      (es : List ListEntry) (e : ListEntry) (second : Piece)
      → is_skipped s row.0 ≡ false
      → IsRising (row ∷ rows)
      → AreKeyed object (row ∷ rows)
      → object.from_slice row.1 ≡ ok meta
      → pick object s n rows ≡ ok (es, true)
      → last (list_entry meta ∷ es) ≡ some e
      → pick object (some e.key) m (row ∷ rows) ≡ ok second
      → IsJoined s n m rows es e second
      → pick object s (suc (n + m)) (row ∷ rows) ≡ ok (list_entry meta ∷ (es ++ second.0), second.1)
  unfolding list_entry
  joined-take s n m row rows meta [] e second stay rising keyed decoded full is next ih =
      let key_is : e.key ≡ meta.key = ap (λ (x : ListEntry). x.key) (sym (some_injective is)) in
      joined-here s n m row rows meta second stay rising keyed decoded full
        (subst (λ k. pick object (some k) m (row ∷ rows) ≡ ok second) key_is next)
  joined-take s n m row rows meta (y ∷ es) e second stay (behind, rising) (named, keyed) decoded
        full is next ih =
      let after : text_le e.key row.0 ≡ false =
        last-All (λ x. text_le x.key row.0 ≡ false) (y ∷ es) e
          (pick-behind object row.0 s n rows (y ∷ es) true behind keyed full) is in
      let next1 =
        sym (pick-skip object (some e.key) m row rows (skipped_by row.0 e.key after)) ∙ next in
      pick-take object s (n + m) row rows meta ((y ∷ es) ++ second.0, second.1) stay decoded
        (ih full is next1)

  pub pick-IsJoined :
      (s : Option Text) (n m : ℕ) (rows : Rows) (es : List ListEntry) (e : ListEntry)
      (second : Piece)
      → IsRising rows
      → AreKeyed object rows
      → IsJoined s n m rows es e second
  unfolding pick
  pick-IsJoined s n m [] es e second rising keyed h is next = cc
  pick-IsJoined s zero m (row ∷ rows) es e second (behind, rising) (named, keyed) h is next =
      elim (Bool-cases (is_skipped s row.0)) [
        | inl skip ↦
            IsJoined-skip s zero m row rows es e second skip behind keyed
              (pick-IsJoined s zero m rows es e second rising keyed) h is next
        | inr stay ↦
            let empty : [] ≡ es =
              ap (λ (x : Piece). x.0) (ok_injective (sym (pick-full object s row rows stay) ∙ h)) in
            cc (is, ap last empty)
      ]
  pick-IsJoined s (suc n) m (row ∷ rows) es e second (behind, rising) (named, keyed) h is next =
      elim (Bool-cases (is_skipped s row.0)) [
        | inl skip ↦
            IsJoined-skip s (suc n) m row rows es e second skip behind keyed
              (pick-IsJoined s (suc n) m rows es e second rising keyed) h is next
        | inr stay ↦
            let (meta, decoded, (rest, later, same)) =
              pick-taken object s n row rows (es, true) stay h in
            let es_is : list_entry meta ∷ rest.0 ≡ es = ap (λ (x : Piece). x.0) same in
            let goes_on : rest.1 ≡ true = ap (λ (x : Piece). x.1) same in
            let full : pick object s n rows ≡ ok (rest.0, true) =
              subst (λ t. pick object s n rows ≡ ok (rest.0, t)) goes_on later in
            let whole =
              joined-take s n m row rows meta rest.0 e second stay (behind, rising) (named, keyed)
                decoded full (ap last es_is ∙ is) next
                (pick-IsJoined s n m rows rest.0 e second rising keyed) in
            let sum : suc (n + m) ≡ suc n + m = omega arith in
            subst (λ (j : ℕ). pick object s j (row ∷ rows) ≡ ok (es ++ second.0, second.1)) sum
              (subst
                (λ xs. pick object s (suc (n + m)) (row ∷ rows) ≡ ok (xs ++ second.0, second.1))
                es_is whole)
      ]
