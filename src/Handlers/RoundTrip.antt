-- ===== src/Handlers/RoundTrip.antt =====
-- src/api/handlers/object.rs: `get_object` after `put_object`, for a replicated object.
mod Tests
use s3prism.Base.{
  ℕ, ◌+◌, ◌≤◌, ◌≡◌, refl, sym, ap, ◌∙◌, subst, inl, inr, Bool, true, false, ◌&&◌, List, [], ◌∷◌,
  map, take, Text, bytes, Option, none, some, length, text_eq, text_eq_refl, if◌then◌else◌, Result,
  ok, err, ok_or, ◌>>=◌, All, All-take, >>=-eq-ok, ensure-eq-ok, ok_injective, arith,
}
use s3prism.Fault.{Fault}
use s3prism.Config.{StorageMode, replica, is_configured}
use s3prism.Metadata
use s3prism.Metadata.Models.{
  ObjectMeta, BucketMeta, ChunkInfo, ObjectStorageMode, replicated, erasure_coded,
}
use s3prism.Metadata.Rocks.{Rocks, Codecs}
use s3prism.Metadata.Keys.{NoNul}
use s3prism.Metadata.Laws.{get_object-put_object}
use s3prism.Metadata.Buckets.{get_bucket}
use s3prism.Chunked.{Headers, is_chunked, decode_aws_chunked}
use s3prism.Errors.{no_such_bucket}
use s3prism.Fanout.{FanoutResult, PutTarget, GetTarget, has_data, can_send, fanout_put}
use s3prism.Fanout.Quorum.{successes_of, fanout_get_total}
use s3prism.Objects.{
  GetAnswers, effective_mode, replica_target, put_replicated, first_data, get_target,
  get_replicated,
}
use s3prism.Objects.Reading.{HasSent, IsKept}
use s3prism.Handlers.{
  Services, stored, unwrap_or, content_type_of, collect_meta, place, put_in, read_in, read_back,
}
use s3prism.Handlers.Objects.{
  header_value, object_meta, store_content, find_object, put_object, get_object,
}
use s3prism.Handlers.Multipart.Order.{stored-eq-ok, ok_or-eq-ok}

-- Every copy that was sent has the same content.
HasSent-replica_target :
    (clients : List Text) (bucket_meta : BucketMeta) (content_type key content site sent : Text)
    (sites : List Text)
    → HasSent (map (replica_target clients bucket_meta content_type key content) sites) site sent
    → sent ≡ content
unfolding replica_target
HasSent-replica_target clients bucket_meta content_type key content site sent [] h = absurd h
HasSent-replica_target clients bucket_meta content_type key content site sent (s ∷ sites)
      (inl (here, is)) =
    sym is
HasSent-replica_target clients bucket_meta content_type key content site sent (s ∷ sites)
      (inr later) =
    HasSent-replica_target clients bucket_meta content_type key content site sent sites later

-- Data that is returned is the content.
abbrev Returns : Text → FanoutResult (Option Text) → Type 0
Returns content r = (got : Text) → r.result ≡ ok (some got) → got ≡ content

first_data-step :
    (content : Text) (r : FanoutResult (Option Text)) (rs : List (FanoutResult (Option Text)))
    (x : Result Fault (Option Text))
    → r.result ≡ x
    → Returns content r
    → 1 ≤ successes_of has_data (r ∷ rs)
    → (1 ≤ successes_of has_data rs → first_data rs ≡ some content)
    → first_data (r ∷ rs) ≡ some content
unfolding first_data successes_of
first_data-step content r rs (ok (some got)) e h enough rest =
    rw (e, first_data) (ap some (h got e))
first_data-step content r rs (ok none) e h enough rest =
    let fewer : 1 ≤ 0 + successes_of has_data rs = rw (e, successes_of) at enough in
    rw (e, first_data) (rest (omega (arith, fewer)))
first_data-step content r rs (err fault) e h enough rest =
    let fewer : 1 ≤ 0 + successes_of has_data rs = rw (e, successes_of) at enough in
    rw (e, first_data) (rest (omega (arith, fewer)))

first_data_lem :
    (content : Text) (rs : List (FanoutResult (Option Text)))
    → All (Returns content) rs
    → 1 ≤ successes_of has_data rs
    → first_data rs ≡ some content
unfolding successes_of
first_data_lem content [] h enough = absurd (omega (arith, enough))
first_data_lem content (r ∷ rs) (hr, h) enough =
    first_data-step content r rs r.result refl hr enough (first_data_lem content rs h)

-- The sites of an object's chunks have clients, one of them at least returns data, and data that a
-- site returns is the content.
abbrev pub IsServed : List Text → GetAnswers → ObjectMeta → Text → Type 0
IsServed readers answers meta content =
    let arrivals = answers (map get_target meta.chunks) in
    (can_send readers (map (λ (t : GetTarget). t.site) (map get_target meta.chunks)) ≡ true)
    × (All (Returns content) arrivals × (1 ≤ successes_of has_data arrivals))

get_replicated_lem :
    (readers : List Text) (answers : GetAnswers) (late : ℕ) (meta : ObjectMeta) (content : Text)
    → IsServed readers answers meta content
    → get_replicated readers answers late meta ≡ ok content
unfolding get_replicated
get_replicated_lem readers answers late meta content (can, (kept, enough)) =
    let arrivals = answers (map get_target meta.chunks) in
    let (results, got, still, n, first) =
      fanout_get_total readers (map (λ (t : GetTarget). t.site) (map get_target meta.chunks)) late 1
        arrivals can enough in
    let found : first_data results ≡ some content =
      first_data_lem content results
        (subst (All (Returns content)) (sym first) (All-take (Returns content) n arrivals kept))
        still in
    rw got (rw found refl)

-- Sites that return what was written to them return the content.
IsKept-Returns :
    (clients : List Text) (bucket_meta : BucketMeta) (content_type key content : Text)
    (sites : List Text) (rs : List (FanoutResult (Option Text)))
    → All (IsKept (map (replica_target clients bucket_meta content_type key content) sites)) rs
    → All (Returns content) rs
IsKept-Returns clients bucket_meta content_type key content sites [] h = tt
IsKept-Returns clients bucket_meta content_type key content sites (r ∷ rs) (hr, h) = (
  λ got e.
      HasSent-replica_target clients bucket_meta content_type key content r.site got sites
        (hr got e),
  IsKept-Returns clients bucket_meta content_type key content sites rs h,
)

module _ (s s' : Services) (r : Rocks) (codecs : Codecs) where
  open r use {Db}

  -- What a write of a replicated object has gone through.
  put_object-replicated :
      (bucket key : Text) (headers : Headers) (body : Text) (d d' : Db) (meta : ObjectMeta)
      (bucket_meta : BucketMeta)
      → is_chunked headers ≡ false
      → header_value (bytes "x-amz-copy-source") headers ≡ none
      → get_bucket r codecs bucket d ≡ ok (some bucket_meta)
      → effective_mode bucket_meta.storage_mode s.config.erasure.hybrid_threshold_bytes
          (length body)
        ≡ replica
      → put_object s r codecs bucket key headers body d ≡ ok (meta, d')
      → (Metadata.Objects.put_object r codecs meta d ≡ ok d')
        × ((meta.bucket ≡ bucket) × ((meta.key ≡ key) × (meta.storage_mode ≡ replicated)))
  unfolding put_object decode_aws_chunked store_content place put_replicated
  put_object-replicated bucket key headers body d d' meta bucket_meta plain no_copy known mode h =
      let h1 = rw (plain, decode_aws_chunked) at h in
      let (ready, h2) = ensure-eq-ok (is_configured s.config) _ _ h1 in
      let h3 = rw (no_copy, known) at h2 in
      let h4 = rw (mode, place) at h3 in
      let write = put_in s replica bucket_meta (content_type_of headers) s.uuid body in
      let (written, placed, h5) = >>=-eq-ok (stored write) _ h4 in
      let (results, sent, h6) = >>=-eq-ok (fanout_put _ _ _ _ _) _ (stored-eq-ok write placed) in
      let (d1, put_it, h7) =
        >>=-eq-ok
          (stored (
            Metadata.Objects.put_object r codecs
              (object_meta s r codecs bucket key body (content_type_of headers)
                (collect_meta headers []) s.modified written)
              d))
          _ h5 in
      let is = ok_injective h7 in
      let same_meta = ap (λ (x : ObjectMeta × Db). x.0) is in
      (
        ap (λ m. Metadata.Objects.put_object r codecs m d) (sym same_meta)
            ∙ stored-eq-ok (Metadata.Objects.put_object r codecs _ d) put_it
            ∙ ap (λ (x : ObjectMeta × Db). ok x.1) is,
        (
          ap (λ (m : ObjectMeta). m.bucket) (sym same_meta),
          (
            ap (λ (m : ObjectMeta). m.key) (sym same_meta),
            ap (λ (m : ObjectMeta). m.storage_mode) (sym same_meta)
                ∙ ap (λ (w : List ChunkInfo × ObjectStorageMode). w.1) (sym (ok_injective h6)),
          ),
        ),
      )

  -- A replicated object that has been written is read back as it was. The body of the write is neither
  -- in frames nor a copy, the mode of the bucket is replication for its length, and the bucket's name
  -- holds no NUL. At the read the database answers, the sites of the object's chunks have clients, one
  -- of them at least returns data, and data that a site returns is what was written to it.
  pub get_object-put_replicated :
      (bucket key : Text) (headers : Headers) (body : Text) (d d' : Db) (meta : ObjectMeta)
      (bucket_meta : BucketMeta) (before after : Option ObjectMeta)
      → is_chunked headers ≡ false
      → header_value (bytes "x-amz-copy-source") headers ≡ none
      → get_bucket r codecs bucket d ≡ ok (some bucket_meta)
      → effective_mode bucket_meta.storage_mode s.config.erasure.hybrid_threshold_bytes
          (length body)
        ≡ replica
      → NoNul bucket
      → put_object s r codecs bucket key headers body d ≡ ok (meta, d')
      → Metadata.Objects.get_object r codecs bucket key d ≡ ok before
      → Metadata.Objects.get_object r codecs bucket key d' ≡ ok after
      → is_configured s'.config ≡ true
      → can_send s'.clients (map (λ (t : GetTarget). t.site) (map get_target meta.chunks)) ≡ true
      → All
          (IsKept (
            map
              (replica_target s.clients bucket_meta (content_type_of headers) s.uuid body)
              s.clients))
          (s'.get_answers (map get_target meta.chunks))
      → 1 ≤ successes_of has_data (s'.get_answers (map get_target meta.chunks))
      → get_object s' r codecs bucket key d' ≡ ok (meta, body)
  unfolding get_object find_object read_back get_replicated
  get_object-put_replicated bucket key headers body d d' meta bucket_meta before after plain no_copy
        known mode no_nul wrote read_before read_after ready can kept enough =
      let (put_it, (in_bucket, (at_key, replica_mode))) =
        put_object-replicated bucket key headers body d d' meta bucket_meta plain no_copy known mode
          wrote in
      let there : after ≡ some meta =
        get_object-put_object r codecs meta bucket key d d' before after
          (subst NoNul (sym in_bucket) no_nul) no_nul put_it read_before read_after
        ∙ rw (in_bucket, at_key, text_eq_refl bucket, text_eq_refl key) refl in
      let served : IsServed s'.clients s'.get_answers meta body = (
        can,
        (
          IsKept-Returns s.clients bucket_meta (content_type_of headers) s.uuid body s.clients _
              kept,
          enough,
        ),
      ) in
      let read : read_back s' meta ≡ ok body =
        rw replica_mode (get_replicated_lem s'.clients s'.get_answers s'.late meta body served) in
      rw (ready, read_after, there, read) refl
