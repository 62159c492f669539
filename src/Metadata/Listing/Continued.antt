-- ===== src/Metadata/Listing/Continued.antt =====
-- `list_objects` of src/metadata/rocksdb_backend.rs, continued behind the last entry of a page.
mod Tests
use s3prism.Base.{
  ℕ, zero, suc, ◌+◌, ◌≡◌, refl, sym, ap, ap₂, ◌∙◌, subst, ◌⊎◌, inl, inr, Bool, true, false, not,
  List, [], ◌∷◌, ◌++◌, map, append-nil, append_assoc, Text, Option, none, some, last, length,
  length-append, leb, All, text_le, strip_prefix, strip_prefix-eq-some, starts_with, if◌then◌else◌,
  Result, ok, err, Option-cases, ◌>>=◌, >>=-eq-ok, ok_injective, Bool-cases, Result-cases, arith,
}
use s3prism.Fault.{Fault}
use s3prism.Metadata.Models.{ObjectMeta, ListEntry, list_entry}
use s3prism.Metadata.Rocks.{Rocks, Serde, objects, IsAscending}
use s3prism.Metadata.Listing.{
  Listing, ListObjectsResult, is_skipped, common_prefix_of, list_from, list_objects,
}
use s3prism.Metadata.Listing.Order.{text_le-append}
use s3prism.Metadata.Listing.Pages.{Rows, Piece, IsRising, AreKeyed, pick, pick-skip}
use s3prism.Metadata.Listing.Joined.{pick-IsJoined}

-- A listing without a delimiter.
abbrev pub page : Text → Text → Option Text → ℕ → Listing
page bucket prefix start max = record {
  bucket = bucket;
  prefix = prefix;
  delimiter = none;
  start_after = start;
  max_keys = max;
}

module _ (bucket prefix : Text) where
  -- The row of a key that has lost the bucket's prefix.
  abbrev row_of : Option Text → Text → Rows → Rows
  row_of none v rest = []
  row_of (some key) v rest = if starts_with prefix key then (key, v) ∷ rest else []

  -- The items up to the first one outside of the bucket and the prefix.
  unfoldable pub rows_of : List (Text × Text) → Rows
  rows_of [] = []
  rows_of ((db_key, v) ∷ items) = row_of (strip_prefix (bucket ++ 0 ∷ []) db_key) v (rows_of items)

  row_behind :
      (key : Text) (o : Option Text) (db_key v : Text) (rest : Rows)
      → strip_prefix (bucket ++ 0 ∷ []) db_key ≡ o
      → text_le db_key ((bucket ++ 0 ∷ []) ++ key) ≡ false
      → All (λ (row : Text × Text). text_le row.0 key ≡ false) rest
      → All (λ (row : Text × Text). text_le row.0 key ≡ false) (row_of o v rest)
  row_behind key none db_key v rest e h later = tt
  row_behind key (some k) db_key v rest e h later = elim (Bool-cases (starts_with prefix k)) [
    | inr outside ↦ rw outside tt
    | inl inside ↦
        let is = strip_prefix-eq-some (bucket ++ 0 ∷ []) db_key {rest = k} e in
        rw inside (
          sym (text_le-append (bucket ++ 0 ∷ []) k key)
              ∙ ap (λ t. text_le t ((bucket ++ 0 ∷ []) ++ key)) (sym is)
              ∙ h,
          later,
        )
  ]

  rows_behind :
      (key : Text) (items : List (Text × Text))
      → All (λ (kv : Text × Text). text_le kv.0 ((bucket ++ 0 ∷ []) ++ key) ≡ false) items
      → All (λ (row : Text × Text). text_le row.0 key ≡ false) (rows_of items)
  unfolding rows_of
  rows_behind key [] h = tt
  rows_behind key ((db_key, v) ∷ items) (here, h) =
      row_behind key (strip_prefix (bucket ++ 0 ∷ []) db_key) db_key v (rows_of items) refl here
        (rows_behind key items h)

  row-IsRising :
      (o : Option Text) (db_key v : Text) (items : List (Text × Text))
      → strip_prefix (bucket ++ 0 ∷ []) db_key ≡ o
      → All (λ (kv : Text × Text). text_le kv.0 db_key ≡ false) items
      → IsRising (rows_of items)
      → IsRising (row_of o v (rows_of items))
  row-IsRising none db_key v items e behind rising = tt
  row-IsRising (some k) db_key v items e behind rising = elim (Bool-cases (starts_with prefix k)) [
    | inr outside ↦ rw outside tt
    | inl inside ↦
        let is = strip_prefix-eq-some (bucket ++ 0 ∷ []) db_key {rest = k} e in
        rw inside (
          rows_behind k items
              (subst (λ t. All (λ (kv : Text × Text). text_le kv.0 t ≡ false) items) is behind),
          rising,
        )
  ]

  rows_of-IsRising : (items : List (Text × Text)) → IsAscending items → IsRising (rows_of items)
  unfolding rows_of
  rows_of-IsRising [] h = tt
  rows_of-IsRising ((db_key, v) ∷ items) (behind, h) =
      row-IsRising (strip_prefix (bucket ++ 0 ∷ []) db_key) db_key v items refl behind
        (rows_of-IsRising items h)

-- The state with a piece behind its entries.
abbrev grow : ListObjectsResult → Piece → ListObjectsResult
grow st piece = record st { entries = st.entries ++ piece.0; truncated = piece.1 }

grow-end : (st : ListObjectsResult) → st.truncated ≡ false → st ≡ grow st ([], false)
grow-end st h =
    ap₂ (λ es t. record st { entries = es; truncated = t }) (sym (append-nil st.entries)) h

grow-append :
    (st : ListObjectsResult) (e : ListEntry) (x : Result Fault Piece)
    → (x >>= λ piece. ok (grow (record st { entries = st.entries ++ e ∷ [] }) piece))
      ≡ ((x >>= λ rest. ok (e ∷ rest.0, rest.1)) >>= λ piece. ok (grow st piece))
grow-append st e (err fault) = refl
grow-append st e (ok piece) =
    ap (λ es. ok (record st { entries = es; truncated = piece.1 }))
      (append_assoc st.entries (e ∷ []) piece.0)

module _ (object : Serde ObjectMeta) (bucket prefix : Text) (start : Option Text) (max : ℕ) where
  abbrev l : Listing
  l = page bucket prefix start max

  abbrev Picks : ℕ → List (Text × Text) → ListObjectsResult → Type 0
  Picks n items st =
      list_from object l (map ok items) st
      ≡ (pick object start n (rows_of bucket prefix items) >>= λ piece. ok (grow st piece))

  -- A key in the bucket and under the prefix that is not passed over.
  kept-Picks :
      (key v : Text) (items : List (Text × Text)) (n : ℕ) (st : ListObjectsResult)
      → is_skipped start key ≡ false
      → length st.entries + n ≡ max
      → ((n' : ℕ) (st' : ListObjectsResult)
          → length st'.entries + n' ≡ max
          → st'.truncated ≡ false
          → Picks n' items st')
      → st.truncated ≡ false
      → (if leb max (length st.entries)
          then ok (record st { truncated = true })
          else object.from_slice v >>= λ meta.
              list_from object l
                (map ok items)
                (record st { entries = st.entries ++ list_entry meta ∷ [] }))
        ≡ (pick object start n ((key, v) ∷ rows_of bucket prefix items) >>= λ piece.
            ok (grow st piece))
  unfolding pick
  kept-Picks key v items zero st stay room ih open_end =
      let full : leb max (length st.entries) ≡ true = ground (arith, room) in
      rw (full, stay)
        (ap (λ es. ok (record st { entries = es; truncated = true })) (sym (append-nil st.entries)))
  kept-Picks key v items (suc n) st stay room ih open_end =
      let free : leb max (length st.entries) ≡ false = ground (arith, room) in
      elim (Result-cases (object.from_slice v)) [
        | inr (e, fails) ↦ rw (free, stay, fails) refl
        | inl (meta, decoded) ↦
            let more : length (st.entries ++ list_entry meta ∷ []) + n ≡ max =
              omega (arith, room, length-append st.entries (list_entry meta ∷ [])) in
            rw (free, stay, decoded)
              (ih n (record st { entries = st.entries ++ list_entry meta ∷ [] }) more open_end
                ∙ grow-append st (list_entry meta)
                    (pick object start n (rows_of bucket prefix items)))
      ]

  -- The loop picks from the rows.
  list_from-Picks :
      (items : List (Text × Text)) (n : ℕ) (st : ListObjectsResult)
      → length st.entries + n ≡ max
      → st.truncated ≡ false
      → Picks n items st
  unfolding list_from pick rows_of common_prefix_of strip_prefix
  list_from-Picks [] n st room open_end = ap ok (grow-end st open_end)
  list_from-Picks ((db_key, v) ∷ items) n st room open_end =
      elim (Option-cases (strip_prefix (bucket ++ 0 ∷ []) db_key)) [
        | inl outside ↦ rw outside (ap ok (grow-end st open_end))
        | inr (key, is) ↦ rw is (elim (Bool-cases (starts_with prefix key)) [
          | inr other ↦ rw other (ap ok (grow-end st open_end))
          | inl inside ↦ rw inside (elim (Bool-cases (is_skipped start key)) [
            | inl skip ↦
                rw (skip, pick-skip object start n (key, v) (rows_of bucket prefix items) skip)
                  (list_from-Picks items n st room open_end)
            | inr stay ↦
                rw stay (kept-Picks key v items n st stay room (list_from-Picks items) open_end)
          ])
        ])
      ]

abbrev nothing_listed : ListObjectsResult
nothing_listed = record { entries = []; common_prefixes = []; truncated = false }

module _ (object : Serde ObjectMeta) (r : Rocks) where
  open r use {Db}

  list_objects-pick :
      (bucket prefix : Text) (start : Option Text) (n : ℕ) (d : Db) (items : List (Text × Text))
      → r.iterator_cf objects (bucket ++ 0 ∷ prefix) d ≡ map ok items
      → list_objects object (page bucket prefix start n) r d ≡ (
          pick object start n (rows_of bucket prefix items) >>= λ piece.
          ok (grow nothing_listed piece))
  unfolding list_objects
  list_objects-pick bucket prefix start n d items walked =
      rw walked
        (list_from-Picks object bucket prefix start n items n nothing_listed (omega arith) refl)

  -- What a listing that succeeds has picked.
  list_objects-eq-ok :
      (bucket prefix : Text) (start : Option Text) (n : ℕ) (d : Db) (items : List (Text × Text))
      (found : ListObjectsResult)
      → r.iterator_cf objects (bucket ++ 0 ∷ prefix) d ≡ map ok items
      → list_objects object (page bucket prefix start n) r d ≡ ok found
      → pick object start n (rows_of bucket prefix items) ≡ ok (found.entries, found.truncated)
  list_objects-eq-ok bucket prefix start n d items found walked h =
      let (piece, picked, is) =
        >>=-eq-ok (pick object start n (rows_of bucket prefix items)) _
          (sym (list_objects-pick bucket prefix start n d items walked) ∙ h) in
      picked ∙ ap (λ (x : ListObjectsResult). ok (x.entries, x.truncated)) (ok_injective is)

  -- A listing without a delimiter that is truncated, continued behind its last entry, gives what one
  -- listing with the room of both gives: the same entries in the same order, none twice and none left
  -- out, and the same mark that there are more. The iterator meets no error, and each record holds the
  -- key that it is stored under.
  pub list_objects-continued :
      (bucket prefix : Text) (start : Option Text) (n m : ℕ) (d : Db) (items : List (Text × Text))
      (e : ListEntry) (first second : ListObjectsResult)
      → r.iterator_cf objects (bucket ++ 0 ∷ prefix) d ≡ map ok items
      → AreKeyed object (rows_of bucket prefix items)
      → list_objects object (page bucket prefix start n) r d ≡ ok first
      → first.truncated ≡ true
      → last first.entries ≡ some e
      → list_objects object (page bucket prefix (some e.key) m) r d ≡ ok second
      → list_objects object (page bucket prefix start (n + m)) r d
        ≡ ok (record {
          entries = first.entries ++ second.entries;
          common_prefixes = [];
          truncated = second.truncated;
        })
  list_objects-continued bucket prefix start n m d items e first second walked keyed h1 more is h2 =
      let rows = rows_of bucket prefix items in
      let rising : IsRising rows =
        rows_of-IsRising bucket prefix items
          (r.iterator_cf-items objects (bucket ++ 0 ∷ prefix) d items walked).0 in
      let picked1 : pick object start n rows ≡ ok (first.entries, true) =
        list_objects-eq-ok bucket prefix start n d items first walked h1
        ∙ ap (λ t. ok (first.entries, t)) more in
      let picked2 = list_objects-eq-ok bucket prefix (some e.key) m d items second walked h2 in
      let whole =
        pick-IsJoined object start n m rows first.entries e (second.entries, second.truncated)
          rising keyed picked1 is picked2 in
      list_objects-pick bucket prefix start (n + m) d items walked
      ∙ ap (λ x. x >>= λ piece. ok (grow nothing_listed piece)) whole
