-- ===== src/Handlers/Buckets/RoundTrip.antt =====
-- src/api/handlers/bucket.rs: `delete_bucket` after `create_bucket`.
use s3prism.Base.{
  ℕ, suc, ◌+◌, ◌≡◌, refl, sym, ap, ap₂, ◌∙◌, subst, inl, inr, Bool, true, false, ◌&&◌, List, [],
  ◌∷◌, ◌++◌, map, append-nil, Text, Option, none, some, text_eq, text_eq_iff, text_eq_refl,
  if◌then◌else◌, ok, err, ◌>>=◌, All, Bool-cases, Result-cases, >>=-eq-ok, ensure-eq-ok,
  ok_injective,
}
use s3prism.Config.{is_configured}
use s3prism.Metadata
use s3prism.Metadata.Models.{BucketMeta}
use s3prism.Metadata.Rocks.{
  Rocks, Codecs, Family, objects, buckets, purge, config, multipart, credentials, family_eq,
  Contents, delete, at, apply_writes,
}
use s3prism.Metadata.Objects.{is_some, decode_value}
use s3prism.Metadata.Buckets.{get_bucket, bucket_exists, bucket_is_empty, delete_found}
use s3prism.Errors.{no_such_bucket, bucket_already_exists}
use s3prism.Handlers.{Services, stored}
use s3prism.Handlers.Multipart.Order.{stored-eq-ok, ok_or-eq-ok}
use s3prism.Handlers.Buckets.{
  create_call, SiteAnswers, Outcome, Created, has_client, delete_calls, without_calls, proceed,
  create_from, may_create, create_bucket, may_delete, delete_bucket, backend_names,
  backend_buckets_of, bucket_meta_of, created_of,
}
use s3prism.Handlers.Buckets.Undo.{
  Held, apply_call, apply_calls, Deletes, AreFresh, IsAhead, HaveClients, HaveClients-++,
  IsAhead-create, each_has_client, delete_calls-held, proceed-error,
}

-- What an outcome without an error has gone through.
proceed-eq-ok :
    {A B : Type 0} (o : Outcome A) (f : A → Outcome B) {b : B}
    → (proceed o f).result ≡ ok b
    → (a : A) × (o.result ≡ ok a)
      × (((f a).result ≡ ok b) × ((proceed o f).calls ≡ o.calls ++ (f a).calls))
proceed-eq-ok o f h = elim (Result-cases o.result) [
  | inl (a, is) ↦ (a, is, (rw (is, proceed) at h, rw (is, proceed) refl))
  | inr (e, is) ↦ cc (h, ap (λ (x : Outcome _). x.result) (proceed-error o f e is))
]

created_of-backend_buckets_of :
    (now : ℕ → ℕ) (i : ℕ) (created : List Created)
    → map created_of (backend_buckets_of now i created) ≡ created
unfolding backend_buckets_of
created_of-backend_buckets_of now i [] = refl
created_of-backend_buckets_of now i (x ∷ created) =
    ap (λ cs. x ∷ cs) (created_of-backend_buckets_of now (i + 1) created)

same_family : (cf : Family) → family_eq buckets cf ≡ true → buckets ≡ cf
same_family buckets h = refl
same_family objects h = cc
same_family purge h = cc
same_family config h = cc
same_family multipart h = cc
same_family credentials h = cc

same_place :
    (bucket : Text) (cf : Family) (k : Text) (c : Contents)
    → at buckets bucket cf k ≡ true
    → c buckets bucket ≡ c cf k
same_place bucket cf k c h = elim (Bool-cases (family_eq buckets cf)) [
  | inl same ↦
      let rest : text_eq bucket k ≡ true = sym (ap (λ b. b && text_eq bucket k) same) ∙ h in
      ap₂ c (same_family cf same) ((text_eq_iff bucket k).0 rest)
  | inr other ↦ cc (h, ap (λ b. b && text_eq bucket k) other)
]

-- To take away what is not there changes nothing.
absent_place :
    (bucket : Text) (cf : Family) (k : Text) (c : Contents)
    → c buckets bucket ≡ none
    → c cf k ≡ (if at buckets bucket cf k then none else c cf k)
absent_place bucket cf k c h = elim (Bool-cases (at buckets bucket cf k)) [
  | inl here ↦ rw here (sym (same_place bucket cf k c here) ∙ h)
  | inr other ↦ rw other refl
]

module _ (clients : List Text) (answers : SiteAnswers) (names : ℕ → Text) (before : Held)
    (fresh : AreFresh names before) where
  -- If the outcome is a success, there is a client for each bucket, and the buckets are all that is
  -- new at the sites.
  abbrev IsThrough : Held → Outcome (List Created) → Type 0
  IsThrough held o =
      (cs : List Created)
      → o.result ≡ ok cs
      → HaveClients clients cs × IsAhead cs (apply_calls answers o.calls held) before

  create_from-IsThrough :
      (i : ℕ) (sites : List Text) (created : List Created) (held : Held)
      → All (λ site. has_client clients site ≡ true) sites
      → HaveClients clients created
      → IsAhead created held before
      → IsThrough held (create_from clients answers names i sites created)
  unfolding create_from apply_calls
  create_from-IsThrough i [] created held hs hc ahead = λ cs h.
      subst (λ cs. HaveClients clients cs × IsAhead cs held before) (ok_injective h) (hc, ahead)
  create_from-IsThrough i (s ∷ sites) created held (hs, hss) hc ahead =
      elim (Result-cases (answers.create s (names i))) [
        | inl (done, made) ↦
            let rest =
              create_from-IsThrough (suc i) sites (created ++ (s, names i) ∷ [])
                (apply_call answers (create_call s (names i)) held) hss
                (HaveClients-++ clients created (s, names i) hc hs)
                (IsAhead-create answers created s (names i) held before ahead (fresh s i)) in
            rw (made, create_from) rest
        | inr (e, refused) ↦ rw (refused, create_from) (λ cs h. cc h)
      ]

not_known :
    (known : Bool) {x : Unit {0}}
    → (if known then err bucket_already_exists else ok tt) ≡ ok x
    → known ≡ false
not_known true e = cc
not_known false e = refl

module _ (r : Rocks) (codecs : Codecs) where
  open r use {Db, contents}

  -- A bucket that does not exist has no value.
  bucket_exists-none :
      (bucket : Text) (d : Db)
      → bucket_exists r codecs bucket d ≡ ok false
      → contents d buckets bucket ≡ none
  unfolding bucket_exists
  bucket_exists-none bucket d h =
      let (v, got, h1) = >>=-eq-ok (r.get_cf buckets bucket d) _ h in
      sym (r.get_cf-contents buckets bucket d got) ∙ nothing v (ok_injective h1)
    where
      nothing : (v : Option Text) → is_some v ≡ false → v ≡ none
      nothing none e = refl
      nothing (some x) e = cc

  pub create_bucket-contents :
      (meta : BucketMeta) (d d' : Db)
      → Metadata.Buckets.create_bucket r codecs meta d ≡ ok d'
      → (v : Text) × (codecs.bucket.to_vec meta ≡ ok v)
        × ((cf : Family) (k : Text)
            → contents d' cf k ≡ (if at buckets meta.name cf k then some v else contents d cf k))
  unfolding Metadata.Buckets.create_bucket apply_writes
  create_bucket-contents meta d d' h =
      let (v, coded, h1) = >>=-eq-ok (codecs.bucket.to_vec meta) _ h in
      (v, coded, λ cf k. r.write-contents _ d h1 cf k)

  -- A bucket that has been created is read back.
  pub get_bucket-created :
      (meta : BucketMeta) (d d' : Db) (after : Option BucketMeta)
      → Metadata.Buckets.create_bucket r codecs meta d ≡ ok d'
      → get_bucket r codecs meta.name d' ≡ ok after
      → after ≡ some meta
  unfolding get_bucket decode_value
  get_bucket-created meta d d' after made got =
      let (v, coded, c) = create_bucket-contents meta d d' made in
      let (stored, read, h) = >>=-eq-ok (r.get_cf buckets meta.name d') _ got in
      let there : stored ≡ some v =
        r.get_cf-contents buckets meta.name d' read
        ∙ c buckets meta.name
        ∙ rw (text_eq_refl meta.name) refl in
      let decoded = codecs.bucket.from_slice-to_vec meta coded in
      ok_injective
        (sym h ∙ ap (decode_value codecs.bucket) there ∙ ap (λ x. x >>= λ b. ok (some b)) decoded)

  delete_found-contents :
      (bucket : Text) (v : Option Text) (d d' : Db) (found : Bool)
      → contents d buckets bucket ≡ v
      → delete_found r codecs buckets bucket (is_some v) d ≡ ok (found, d')
      → (cf : Family) (k : Text)
      → contents d' cf k ≡ (if at buckets bucket cf k then none else contents d cf k)
  unfolding delete_found apply_writes
  delete_found-contents bucket none d d' found held h cf k =
      ap (λ (x : Bool × Db). contents x.1 cf k) (sym (ok_injective h))
      ∙ absent_place bucket cf k (contents d) held
  delete_found-contents bucket (some v) d d' found held h cf k =
      let (d1, written, h1) = >>=-eq-ok (r.write (delete buckets bucket ∷ []) d) _ h in
      ap (λ (x : Bool × Db). contents x.1 cf k) (sym (ok_injective h1))
      ∙ r.write-contents _ d written cf k

  -- A deletion from the database takes away the value of the bucket and nothing else.
  delete_bucket-contents :
      (bucket : Text) (d d' : Db) (found : Bool)
      → Metadata.Buckets.delete_bucket r codecs bucket d ≡ ok (found, d')
      → (cf : Family) (k : Text)
      → contents d' cf k ≡ (if at buckets bucket cf k then none else contents d cf k)
  unfolding Metadata.Buckets.delete_bucket
  delete_bucket-contents bucket d d' found h cf k =
      let (v, got, h1) = >>=-eq-ok (r.get_cf buckets bucket d) _ h in
      delete_found-contents bucket v d d' found (sym (r.get_cf-contents buckets bucket d got)) h1 cf
        k

module _ (s : Services) (r : Rocks) (codecs : Codecs) where
  open r use {Db, contents}

  -- What a creation has gone through.
  abbrev IsCreation : SiteAnswers → (ℕ → ℕ) → Text → Db → Db → List Created → Type 0
  IsCreation answers now bucket d d' cs =
      (bucket_exists r codecs bucket d ≡ ok false)
      × (((create_from s.clients answers (backend_names s bucket) 0 s.clients []).result ≡ ok cs)
          × ((Metadata.Buckets.create_bucket r codecs (bucket_meta_of s now bucket cs) d ≡ ok d')
              × ((create_bucket s r codecs answers now bucket d).calls
                  ≡ (create_from s.clients answers (backend_names s bucket) 0 s.clients []).calls)))

  create_bucket-IsCreation :
      (answers : SiteAnswers) (now : ℕ → ℕ) (bucket : Text) (d d' : Db)
      → (create_bucket s r codecs answers now bucket d).result ≡ ok d'
      → (cs : List Created) × IsCreation answers now bucket d d' cs
  unfolding create_bucket may_create
  create_bucket-IsCreation answers now bucket d d' h =
      let (may, passed, (h1, c1)) =
        proceed-eq-ok (without_calls (may_create s r codecs bucket d)) _ h in
      let (cs, made, (h2, c2)) =
        proceed-eq-ok (create_from s.clients answers (backend_names s bucket) 0 s.clients []) _
          h1 in
      let (ready, p1) = ensure-eq-ok (is_configured s.config) _ _ passed in
      let (known, looked, p2) = >>=-eq-ok (stored (bucket_exists r codecs bucket d)) _ p1 in
      (
        cs,
        (
          stored-eq-ok (bucket_exists r codecs bucket d) looked ∙ ap ok (not_known known p2),
          (
            made,
            (stored-eq-ok (Metadata.Buckets.create_bucket r codecs _ d) h2, c1 ∙ c2 ∙ append-nil _),
          ),
        ),
      )

  -- What a deletion has gone through.
  delete_bucket-IsDeletion :
      (bucket : Text) (d d' : Db)
      → (delete_bucket s r codecs bucket d).result ≡ ok d'
      → (meta : BucketMeta) × (get_bucket r codecs bucket d ≡ ok (some meta))
        × (((delete_bucket s r codecs bucket d).calls
              ≡ delete_calls s.clients (map created_of meta.backend_buckets))
            × ((found : Bool) × (Metadata.Buckets.delete_bucket r codecs bucket d
                  ≡ ok (found, d'))))
  unfolding delete_bucket may_delete
  delete_bucket-IsDeletion bucket d d' h =
      let (meta, may, (h1, c1)) =
        proceed-eq-ok (without_calls (may_delete s r codecs bucket d)) _ h in
      let (x, gone, h2) =
        >>=-eq-ok (stored (Metadata.Buckets.delete_bucket r codecs bucket d)) _ h1 in
      let (ready, p1) = ensure-eq-ok (is_configured s.config) _ _ may in
      let (known, looked, p2) = >>=-eq-ok (stored (bucket_exists r codecs bucket d)) _ p1 in
      let (exists, p3) = ensure-eq-ok known _ _ p2 in
      let (empty, walked, p4) = >>=-eq-ok (stored (bucket_is_empty r codecs bucket d)) _ p3 in
      let (is_empty, p5) = ensure-eq-ok empty _ _ p4 in
      let (held, got, p6) = >>=-eq-ok (stored (get_bucket r codecs bucket d)) _ p5 in
      (
        meta,
        stored-eq-ok (get_bucket r codecs bucket d) got
            ∙ ap ok (ok_or-eq-ok no_such_bucket held p6),
        (
          c1,
          (
            x.0,
            stored-eq-ok (Metadata.Buckets.delete_bucket r codecs bucket d) gone
                ∙ ap (λ d1. ok (x.0, d1)) (ok_injective h2),
          ),
        ),
      )

  -- A creation followed by a deletion of the bucket, both without an error, leaves the database with
  -- what it held and each site with the buckets that it had, if no site had a bucket of a new name
  -- and each deletion at a site succeeds.
  pub delete_bucket-create_bucket :
      (answers : SiteAnswers) (now : ℕ → ℕ) (bucket : Text) (d d' d'' : Db) (held : Held)
      → Deletes answers
      → AreFresh (backend_names s bucket) held
      → (create_bucket s r codecs answers now bucket d).result ≡ ok d'
      → (delete_bucket s r codecs bucket d').result ≡ ok d''
      → ((cf : Family) (k : Text) → contents d'' cf k ≡ contents d cf k)
        × ((site name : Text)
            → apply_calls answers
                (delete_bucket s r codecs bucket d').calls
                (apply_calls answers (create_bucket s r codecs answers now bucket d).calls held)
                site
                name
              ≡ held site name)
  unfolding bucket_meta_of
  delete_bucket-create_bucket answers now bucket d d' d'' held deletes fresh made gone =
      let (cs, (unknown, (looped, (put_it, calls)))) =
        create_bucket-IsCreation answers now bucket d d' made in
      let (meta, got, (deletions, (found, taken))) = delete_bucket-IsDeletion bucket d' d'' gone in
      let (have, ahead) =
        create_from-IsThrough s.clients answers (backend_names s bucket) held fresh 0 s.clients []
          held (each_has_client [] s.clients s.clients refl) tt (λ site name. refl) cs looped in
      let is : meta ≡ bucket_meta_of s now bucket cs = some_injective (
        get_bucket-created r codecs (bucket_meta_of s now bucket cs) d d' (some meta) put_it got) in
      let (v, coded, c) = create_bucket-contents r codecs _ d d' put_it in
      let listed : map created_of meta.backend_buckets ≡ cs =
        ap (λ (m : BucketMeta). map created_of m.backend_buckets) is
        ∙ created_of-backend_buckets_of now 0 cs in
      (
        λ cf k.
            delete_bucket-contents r codecs bucket d' d'' found taken cf k
            ∙ ap (λ o. if at buckets bucket cf k then none else o) (c cf k)
            ∙ collapse (at buckets bucket cf k) v (contents d cf k)
            ∙ sym (
                absent_place bucket cf k (contents d)
                  (bucket_exists-none r codecs bucket d unknown)),
        λ site name.
            ap₂ (λ ds ms. apply_calls answers ds (apply_calls answers ms held) site name)
              (deletions ∙ ap (delete_calls s.clients) listed) calls
            ∙ delete_calls-held s.clients answers cs _ deletes have site name
            ∙ ahead site name,
      )
    where
      some_injective : {A : Type 0} {x y : A} → some x ≡ some y → x ≡ y
      some_injective e = cc

      collapse :
          (b : Bool) (v : Text) (o : Option Text)
          → (if b then none else (if b then some v else o)) ≡ (if b then none else o)
      collapse true v o = refl
      collapse false v o = refl
