-- ===== src/Handlers/Multipart/Order.antt =====
-- The order of the parts in src/api/handlers/multipart.rs.
use s3prism.Base.{
  ℕ, ◌+◌, ◌≡◌, ◌≤◌, refl, ap, ◌∙◌, inl, inr, List, [], ◌∷◌, Text, Option, none, some, All, concat,
  length, ◌==◌, leb, if◌then◌else◌, Result, ok, err, ok_or, ok_injective, Bool-cases, arith,
}
use s3prism.Fault.{Fault}
use s3prism.Metadata
use s3prism.Metadata.Models.{ObjectMeta, BucketMeta, PartMeta}
use s3prism.Metadata.Rocks.{Rocks, Codecs}
use s3prism.Metadata.Buckets.{get_bucket}
use s3prism.Metadata.Uploads.{get_multipart_upload, list_parts}
use s3prism.Handlers.{Services, stored, place}
use s3prism.Handlers.Multipart.Recorded.{IsRecorded}
use s3prism.Handlers.Multipart.{
  insert_sorted, sort_by_key, parse_complete_multipart_xml, find_part, Getter, Assembly,
}

-- The numbers do not go down.
abbrev pub IsSorted : List ℕ → Type 0
IsSorted [] = Unit
IsSorted (n ∷ ns) = All (λ m. n ≤ m) ns × IsSorted ns

-- How often a number occurs.
abbrev pub count : ℕ → List ℕ → ℕ
count n [] = 0
count n (m ∷ ms) = (if n == m then 1 else 0) + count n ms

All-le_trans : (n m : ℕ) (ns : List ℕ) → n ≤ m → All (λ k. m ≤ k) ns → All (λ k. n ≤ k) ns
All-le_trans n m [] h a = tt
All-le_trans n m (k ∷ ns) h (hk, a) = (omega arith, All-le_trans n m ns h a)

insert_sorted-All :
    (P : ℕ → Type 0) (n : ℕ) (ns : List ℕ) → P n → All P ns → All P (insert_sorted n ns)
unfolding insert_sorted
insert_sorted-All P n [] p a = (p, tt)
insert_sorted-All P n (m ∷ ms) p (pm, a) = elim (Bool-cases (leb n m)) [
  | inl before ↦ rw before (p, (pm, a))
  | inr after ↦ rw after (pm, insert_sorted-All P n ms p a)
]

insert_sorted-IsSorted : (n : ℕ) (ns : List ℕ) → IsSorted ns → IsSorted (insert_sorted n ns)
unfolding insert_sorted
insert_sorted-IsSorted n [] h = (tt, tt)
insert_sorted-IsSorted n (m ∷ ms) (hm, h) = elim (Bool-cases (leb n m)) [
  | inl before ↦
      let le : n ≤ m = ground (arith, before) in
      rw before ((le, All-le_trans n m ms le hm), (hm, h))
  | inr after ↦
      let le : m ≤ n = ground (arith, after) in
      rw after (insert_sorted-All (λ k. m ≤ k) n ms le hm, insert_sorted-IsSorted n ms h)
]

count-insert_sorted : (k n : ℕ) (ns : List ℕ) → count k (insert_sorted n ns) ≡ count k (n ∷ ns)
unfolding insert_sorted
count-insert_sorted k n [] = refl
count-insert_sorted k n (m ∷ ms) = elim (Bool-cases (leb n m)) [
  | inl before ↦ rw before refl
  | inr after ↦ rw after (omega (arith, count-insert_sorted k n ms))
]

pub sort_by_key-IsSorted : (ns : List ℕ) → IsSorted (sort_by_key ns)
unfolding sort_by_key
sort_by_key-IsSorted [] = tt
sort_by_key-IsSorted (n ∷ ns) = insert_sorted-IsSorted n (sort_by_key ns) (sort_by_key-IsSorted ns)

pub count-sort_by_key : (k : ℕ) (ns : List ℕ) → count k (sort_by_key ns) ≡ count k ns
unfolding sort_by_key
count-sort_by_key k [] = refl
count-sort_by_key k (n ∷ ns) =
    count-insert_sorted k n (sort_by_key ns)
    ∙ ap (λ c. (if k == n then 1 else 0) + c) (count-sort_by_key k ns)

pub ok_or-eq-ok :
    {A : Type 0} {E : Type 0} (e : E) (o : Option A) {a : A} → ok_or e o ≡ ok a → o ≡ some a
ok_or-eq-ok e none h = cc
ok_or-eq-ok e (some a) h = ap some (ok_injective h)

pub stored-eq-ok : {A : Type 0} (x : Result Fault A) {a : A} → stored x ≡ ok a → x ≡ ok a
stored-eq-ok (ok x) h = ap ok (ok_injective h)
stored-eq-ok (err e) h = cc

-- The contents that the sites return for the stored parts of these numbers.
abbrev pub IsServed : Getter → List PartMeta → List ℕ → List Text → Type 0
IsServed get parts [] [] = Unit
IsServed get parts [] (c ∷ cs) = ⊥
IsServed get parts (n ∷ ns) [] = ⊥
IsServed get parts (n ∷ ns) (c ∷ cs) =
    ((part : PartMeta) × (find_part n parts ≡ some part)
      × (get part.site part.backend_bucket part.backend_key ≡ ok (some c)))
    × IsServed get parts ns cs

module _ (s : Services) (r : Rocks) (codecs : Codecs) where
  open r use {Db}

  -- The content is placed on the sites of the bucket, and the object of this bucket and key that has
  -- the placed chunks and the content's length is recorded.
  abbrev pub IsStoredAs : Text → Text → Db → Db → Assembly → ObjectMeta → Type 0
  IsStoredAs bucket key d d' a meta =
      (bucket_meta : BucketMeta) × (get_bucket r codecs bucket d ≡ ok (some bucket_meta))
      × (place s bucket_meta a.upload.content_type a.content ≡ ok (meta.chunks, meta.storage_mode))
      × (meta.bucket ≡ bucket)
      × (meta.key ≡ key)
      × (meta.size ≡ length a.content)
      × IsRecorded r codecs meta bucket key d d'

  -- The contents joined are those of the stored parts, in ascending order of the requested numbers.
  abbrev pub IsAssembled : Getter → Text → Text → Db → Assembly → Type 0
  IsAssembled get id body d a =
      (get_multipart_upload r codecs id d ≡ ok (some a.upload))
      × (parse_complete_multipart_xml body ≡ ok a.requested)
      × IsSorted a.requested
      × (list_parts r codecs id d ≡ ok a.parts)
      × ((cs : List Text) × IsServed get a.parts a.requested cs × (a.content ≡ concat cs))
