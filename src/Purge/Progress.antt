-- ===== src/Purge/Progress.antt =====
-- What a round of the reaper gets done, src/metadata/purge_queue.rs:78.
use s3prism.Base.{
  ℕ, zero, suc, ◌≤◌, ◌≡◌, refl, ap, ◌∙◌, subst, ◌⊎◌, inl, inr, Bool, true, false, ◌||◌, List, [],
  ◌∷◌, map, Text, length, take, drop, length-map, any, text_eq, text_eq_refl, length-drop,
  take-append-drop, ok, Bool-cases, arith,
}
use s3prism.Metadata.Models.{PurgeEntry, PurgeChunk}
use s3prism.Purge.{
  Item, Group, Deleter, delete_in_chunks, deleted_keys, set_deleted, update_at, mark_items,
  mark_groups,
}

-- The chunk at a place is marked, or there is none.
abbrev pub chunk_done : List PurgeChunk → ℕ → Bool
chunk_done [] j = true
chunk_done (c ∷ cs) zero = c.deleted
chunk_done (c ∷ cs) (suc j) = chunk_done cs j

abbrev pub is_done : List PurgeEntry → ℕ → ℕ → Bool
is_done [] i j = true
is_done (e ∷ es) zero j = chunk_done e.chunks j
is_done (e ∷ es) (suc i) j = is_done es i j

abbrev mark_chunk : ℕ → PurgeEntry → PurgeEntry
mark_chunk j e = record e { chunks = update_at e.chunks j set_deleted }

chunk_done-update_at :
    (cs : List PurgeChunk) (j : ℕ) → chunk_done (update_at cs j set_deleted) j ≡ true
unfolding update_at
chunk_done-update_at [] j = refl
chunk_done-update_at (c ∷ cs) zero = refl
chunk_done-update_at (c ∷ cs) (suc j) = chunk_done-update_at cs j

chunk_done-keep :
    (cs : List PurgeChunk) (j j' : ℕ)
    → chunk_done cs j ≡ true
    → chunk_done (update_at cs j' set_deleted) j ≡ true
unfolding update_at
chunk_done-keep [] j j' h = refl
chunk_done-keep (c ∷ cs) zero zero h = refl
chunk_done-keep (c ∷ cs) zero (suc j') h = h
chunk_done-keep (c ∷ cs) (suc j) zero h = h
chunk_done-keep (c ∷ cs) (suc j) (suc j') h = chunk_done-keep cs j j' h

is_done-update_at :
    (es : List PurgeEntry) (i j : ℕ) → is_done (update_at es i (mark_chunk j)) i j ≡ true
unfolding update_at
is_done-update_at [] i j = refl
is_done-update_at (e ∷ es) zero j = chunk_done-update_at e.chunks j
is_done-update_at (e ∷ es) (suc i) j = is_done-update_at es i j

is_done-keep :
    (es : List PurgeEntry) (i j i' j' : ℕ)
    → is_done es i j ≡ true
    → is_done (update_at es i' (mark_chunk j')) i j ≡ true
unfolding update_at
is_done-keep [] i j i' j' h = refl
is_done-keep (e ∷ es) zero j zero j' h = chunk_done-keep e.chunks j j' h
is_done-keep (e ∷ es) zero j (suc i') j' h = h
is_done-keep (e ∷ es) (suc i) j zero j' h = h
is_done-keep (e ∷ es) (suc i) j (suc i') j' h = is_done-keep es i j i' j' h

abbrev pub InItems : Item → List Item → Type 0
InItems item [] = ⊥
InItems item (x ∷ xs) = (x ≡ item) ⊎ InItems item xs

-- One of the groups has this site and bucket, and the item.
abbrev pub InGroups : Text → Text → Item → List Group → Type 0
InGroups site bucket item [] = ⊥
InGroups site bucket item (g ∷ gs) =
    ((g.site ≡ site) × ((g.bucket ≡ bucket) × InItems item g.items)) ⊎ InGroups site bucket item gs

module _ (gone : List Text) where
  mark_items-keep :
      (items : List Item) (es : List PurgeEntry) (i j : ℕ)
      → is_done es i j ≡ true
      → is_done (mark_items gone items es) i j ≡ true
  unfolding mark_items
  mark_items-keep [] es i j h = h
  mark_items-keep (x ∷ items) es i j h = elim (Bool-cases (any (λ k. text_eq k x.key) gone)) [
    | inl there ↦ rw there (
        mark_items-keep items (update_at es x.entry_idx (mark_chunk x.chunk_idx)) i j
          (is_done-keep es i j x.entry_idx x.chunk_idx h))
    | inr other ↦ rw other (mark_items-keep items es i j h)
  ]

  mark_items-done :
      (items : List Item) (es : List PurgeEntry) (item : Item)
      → InItems item items
      → any (λ k. text_eq k item.key) gone ≡ true
      → is_done (mark_items gone items es) item.entry_idx item.chunk_idx ≡ true
  unfolding mark_items
  mark_items-done [] es item h there = absurd h
  mark_items-done (x ∷ items) es item (inl same) there =
      let here : any (λ k. text_eq k x.key) gone ≡ true =
        ap (λ (y : Item). any (λ k. text_eq k y.key) gone) same ∙ there in
      rw here (
        mark_items-keep items (update_at es x.entry_idx (mark_chunk x.chunk_idx)) item.entry_idx
          item.chunk_idx
          (subst
            (λ (y : Item).
              is_done (update_at es x.entry_idx (mark_chunk x.chunk_idx)) y.entry_idx y.chunk_idx
              ≡ true)
            same (is_done-update_at es x.entry_idx x.chunk_idx)))
  mark_items-done (x ∷ items) es item (inr later) there = mark_items-done items _ item later there

pub mark_groups-keep :
    (clients : List Text) (del : Deleter) (gs : List Group) (es : List PurgeEntry) (i j : ℕ)
    → is_done es i j ≡ true
    → is_done (mark_groups clients del gs es) i j ≡ true
unfolding mark_groups
mark_groups-keep clients del [] es i j h = h
mark_groups-keep clients del (g ∷ gs) es i j h =
    mark_groups-keep clients del gs _ i j
      (mark_items-keep (deleted_keys clients del g) g.items es i j h)

-- The site has a client and confirms whatever it is asked to delete in the bucket.
abbrev pub Confirms : List Text → Deleter → Text → Text → Type 0
Confirms clients del site bucket =
    (any (λ c. text_eq c site) clients ≡ true)
    × ((keys : List Text) → del site bucket keys ≡ ok keys)

module _ (clients : List Text) (del : Deleter) (site bucket : Text)
    (confirms : Confirms clients del site bucket) where
  delete_in_chunks-all :
      (fuel : ℕ) (keys : List Text)
      → length keys ≤ fuel
      → delete_in_chunks fuel (del site bucket) keys ≡ keys
  unfolding delete_in_chunks
  delete_in_chunks-all zero [] h = refl
  delete_in_chunks-all zero (k ∷ keys) h = absurd (omega (arith, h))
  delete_in_chunks-all (suc fuel) [] h = refl
  delete_in_chunks-all (suc fuel) (k ∷ keys) h =
      let fits : length (drop 1_000 (k ∷ keys)) ≤ fuel =
        omega (arith, h, length-drop 1_000 (k ∷ keys)) in
      rw
        (confirms.1 (take 1_000 (k ∷ keys)), delete_in_chunks-all fuel (drop 1_000 (k ∷ keys)) fits)
        (take-append-drop 1_000 (k ∷ keys))

  or_true : (b : Bool) → (b || true) ≡ true
  or_true true = refl
  or_true false = refl

  InItems-any :
      (item : Item) (items : List Item)
      → InItems item items
      → any (λ k. text_eq k item.key) (map (λ (i : Item). i.key) items) ≡ true
  InItems-any item [] h = absurd h
  InItems-any item (x ∷ items) (inl same) =
      rw (ap (λ (y : Item). y.key) same, text_eq_refl item.key) refl
  InItems-any item (x ∷ items) (inr later) =
      rw (InItems-any item items later) (or_true (text_eq x.key item.key))

  -- The task of the group gets the key of each of its items back.
  deleted_keys-any :
      (g : Group) (item : Item)
      → g.site ≡ site
      → g.bucket ≡ bucket
      → InItems item g.items
      → any (λ k. text_eq k item.key) (deleted_keys clients del g) ≡ true
  unfolding deleted_keys
  deleted_keys-any g item es eb h =
      let keys = map (λ (i : Item). i.key) g.items in
      let all : delete_in_chunks (length g.items) (del site bucket) keys ≡ keys =
        delete_in_chunks-all (length g.items) keys
          (omega (arith, length-map (λ (i : Item). i.key) g.items)) in
      rw (es, eb, confirms.0, all) (InItems-any item g.items h)

  pub mark_groups-done :
      (gs : List Group) (es : List PurgeEntry) (item : Item)
      → InGroups site bucket item gs
      → is_done (mark_groups clients del gs es) item.entry_idx item.chunk_idx ≡ true
  unfolding mark_groups
  mark_groups-done [] es item h = absurd h
  mark_groups-done (g ∷ gs) es item (inl (s, (b, h))) =
      mark_groups-keep clients del gs _ item.entry_idx item.chunk_idx (
        mark_items-done (deleted_keys clients del g) g.items es item h
          (deleted_keys-any g item s b h))
  mark_groups-done (g ∷ gs) es item (inr later) = mark_groups-done gs _ item later
