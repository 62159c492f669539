-- ===== src/Purge/Confirmed.antt =====
-- What a site has confirmed to the task of a group, src/metadata/purge_queue.rs:104.
use s3prism.Base.{
  ℕ, zero, suc, ◌≡◌, ◌≤◌, subst, true, Bool, List, [], ◌∷◌, ◌++◌, map, Text, some, All, All-take,
  take, drop, length, length-take, get_elem?, any, text_eq, ◌⊎◌, inl, inr, Bool-cases, Result, ok,
  Result-cases, arith,
}
use s3prism.Fault.{Fault}
use s3prism.Metadata.Models.{PurgeEntry, PurgeChunk}
use s3prism.Purge.{Item, Group, Deleter, delete_in_chunks, deleted_keys}

-- One of the entries has a chunk with this key at this site and bucket.
abbrev pub IsKeyOf : List PurgeEntry → Text → Text → Text → Type 0
IsKeyOf es site bucket key =
    (i j : ℕ) × (e : PurgeEntry) × (get_elem? es i ≡ some e)
    × (c : PurgeChunk) × (get_elem? e.chunks j ≡ some c)
    × (site ≡ c.site)
    × (bucket ≡ c.bucket)
    × (key ≡ c.s3_key)

-- A request to delete at most 1000 keys of the entries' chunks at the site and bucket was answered
-- with a success that has this key among the deleted ones.
abbrev pub IsDeletedBy : (Text → Type 0) → (List Text → Result Fault (List Text)) → Text → Type 0
IsDeletedBy P delete key =
    (request gone : List Text) × (length request ≤ 1000)
    × All P request
    × (delete request ≡ ok gone)
    × (any (λ k. text_eq k key) gone ≡ true)

-- The site has a client and has confirmed that the chunk is gone.
abbrev pub IsConfirmed : List Text → Deleter → List PurgeEntry → PurgeChunk → Type 0
IsConfirmed clients del es c =
    (any (λ s. text_eq s c.site) clients ≡ true)
    × IsDeletedBy (IsKeyOf es c.site c.bucket) (del c.site c.bucket) c.s3_key

-- The item stands for a chunk of the entries, at this site and bucket.
abbrev pub IsItemOf : List PurgeEntry → Text → Text → Item → Type 0
IsItemOf es site bucket item =
    (e : PurgeEntry) × (get_elem? es item.entry_idx ≡ some e)
    × (c : PurgeChunk) × (get_elem? e.chunks item.chunk_idx ≡ some c)
    × (site ≡ c.site)
    × (bucket ≡ c.bucket)
    × (item.key ≡ c.s3_key)

abbrev pub IsGroupOf : List PurgeEntry → Group → Type 0
IsGroupOf es g = All (IsItemOf es g.site g.bucket) g.items

any-append :
    (p : Text → Bool) (xs ys : List Text)
    → any p (xs ++ ys) ≡ true
    → (any p xs ≡ true) ⊎ (any p ys ≡ true)
any-append p [] ys h = inr h
any-append p (x ∷ xs) ys h = elim (Bool-cases (p x)) [
  | inl here ↦ inl (ground (arith, here))
  | inr other ↦ elim (any-append p xs ys (ground (arith, h, other))) [
    | inl left ↦ inl (ground (arith, left))
    | inr right ↦ inr right
  ]
]

All-drop : {A : Type 0} (P : A → Type 0) (n : ℕ) (xs : List A) → All P xs → All P (drop n xs)
All-drop P zero xs h = h
All-drop P (suc n) [] h = tt
All-drop P (suc n) (x ∷ xs) (hx, h) = All-drop P n xs h

-- A key that the task of a group got back was confirmed by one of its requests.
delete_in_chunks-IsDeletedBy :
    (P : Text → Type 0) (fuel : ℕ) (delete : List Text → Result Fault (List Text))
    (keys : List Text) (key : Text)
    → All P keys
    → any (λ k. text_eq k key) (delete_in_chunks fuel delete keys) ≡ true
    → IsDeletedBy P delete key
unfolding delete_in_chunks
delete_in_chunks-IsDeletedBy P zero delete keys key all h = cc
delete_in_chunks-IsDeletedBy P (suc fuel) delete [] key all h = cc
delete_in_chunks-IsDeletedBy P (suc fuel) delete (k ∷ keys) key all h =
    let request = take 1000 (k ∷ keys) in
    let rest = drop 1000 (k ∷ keys) in
    let next : any (λ x. text_eq x key) (delete_in_chunks fuel delete rest) ≡ true
        → IsDeletedBy P delete key =
      delete_in_chunks-IsDeletedBy P fuel delete rest key (All-drop P 1000 (k ∷ keys) all) in
    elim (Result-cases (delete request)) [
      | inr (fault, failed) ↦ next (rw failed at h)
      | inl (gone, deleted) ↦ elim (any-append (λ x. text_eq x key) gone _ (rw deleted at h)) [
        | inr later ↦ next later
        | inl there ↦
            let small : length request ≤ 1000 = omega (arith, length-take 1000 (k ∷ keys)) in
            (request, gone, small, All-take P 1000 (k ∷ keys) all, deleted, there)
      ]
    ]

module _ (es : List PurgeEntry) where
  IsItemOf-IsKeyOf :
      (site bucket : Text) (items : List Item)
      → All (IsItemOf es site bucket) items
      → All (IsKeyOf es site bucket) (map (λ (i : Item). i.key) items)
  IsItemOf-IsKeyOf site bucket [] h = tt
  IsItemOf-IsKeyOf site bucket (i ∷ items) ((e, he, c, hc, s, b, k), h) =
      ((i.entry_idx, i.chunk_idx, e, he, c, hc, s, b, k), IsItemOf-IsKeyOf site bucket items h)

  pub deleted_keys-IsConfirmed :
      (clients : List Text) (del : Deleter) (g : Group) (c : PurgeChunk)
      → IsGroupOf es g
      → g.site ≡ c.site
      → g.bucket ≡ c.bucket
      → any (λ k. text_eq k c.s3_key) (deleted_keys clients del g) ≡ true
      → IsConfirmed clients del es c
  unfolding deleted_keys
  deleted_keys-IsConfirmed clients del g c items s b found =
      elim (Bool-cases (any (λ x. text_eq x g.site) clients)) [
        | inr none_there ↦ absurd (cc (rw none_there at found))
        | inl there ↦
            subst
              (λ t.
                (any (λ x. text_eq x t) clients ≡ true)
                × IsDeletedBy (IsKeyOf es t c.bucket) (del t c.bucket) c.s3_key)
              s
              (
                there,
                subst (λ t. IsDeletedBy (IsKeyOf es g.site t) (del g.site t) c.s3_key) b
                    (delete_in_chunks-IsDeletedBy (IsKeyOf es g.site g.bucket) (length g.items)
                      (del g.site g.bucket) (map (λ (i : Item). i.key) g.items) c.s3_key
                      (IsItemOf-IsKeyOf g.site g.bucket g.items items) (rw there at found)),
              )
      ]
