-- ===== src/Handlers/Buckets.antt =====
-- src/api/handlers/bucket.rs and src/api/handlers/list.rs. A creation or deletion talks to the sites
-- as well as to the database, so its outcome lists the calls to the sites that were made.
pub mod Undo
pub mod RoundTrip
mod Tests
use s3prism.Base.{
  ℕ, suc, ◌+◌, Bool, List, [], ◌∷◌, ◌++◌, map, Text, bytes, Option, none, some, any, text_eq, take,
  leb, if◌then◌else◌, Result, ok, err, ok_or, ensure, ◌>>=◌, ◌>>◌,
}
use s3prism.Fault.{Fault}
use s3prism.Config.{is_configured}
use s3prism.Metadata
use s3prism.Metadata.Models.{BucketMeta, BackendBucket}
use s3prism.Metadata.Rocks.{Rocks, Codecs}
use s3prism.Metadata.Buckets.{get_bucket, bucket_exists, bucket_is_empty}
use s3prism.Metadata.Listing.{Listing, list_objects}
use s3prism.Errors.{
  S3Error, service_unavailable, bucket_already_exists, bucket_not_empty, no_such_bucket,
  internal_error,
}
use s3prism.Xml.{list_buckets_response, list_objects_v2_response}
use s3prism.Handlers.{Services, unwrap_or, stored}

-- A call to a site about one of its buckets.
pub data SiteCall : Type 0 where
  create_call delete_call : (site name : Text) → SiteCall

-- What the sites answer; a site that has answered with a success has done what it was asked.
pub record SiteAnswers : Type 0 where
  pub create : (site name : Text) → Result Fault (Unit {0})
  pub delete : (site name : Text) → Result Fault (Unit {0})

-- The calls that a handler has made, and its result.
pub record Outcome (A : Type 0) : Type 0 where
  pub calls : List SiteCall
  pub result : Result S3Error A

-- What follows calls that have been made.
abbrev pub after_calls : {A : Type 0} → List SiteCall → Outcome A → Outcome A
after_calls calls o = record { calls = calls ++ o.calls; result = o.result }

abbrev pub without_calls : {A : Type 0} → Result S3Error A → Outcome A
without_calls x = record { calls = []; result = x }

-- `?`: an error ends the handler, with the calls made up to it.
abbrev pub proceed : {A B : Type 0} → Outcome A → (A → Outcome B) → Outcome B
proceed o f = elim o.result [
  | err e ↦ record { calls = o.calls; result = err e }
  | ok a ↦ after_calls o.calls (f a)
]

-- A site and the name of a bucket there.
abbrev pub Created : Type 0
Created = Text × Text

-- `uuid` is the text of a new UUID.
unfoldable pub generate_backend_bucket_name : Text → Text → Text
generate_backend_bucket_name virtual_name uuid = virtual_name ++ (bytes "-" ++ take 8 uuid)

-- `state.clients.iter().find(|c| &c.site_name == site)` has a result.
abbrev pub has_client : List Text → Text → Bool
has_client clients site = any (λ c. text_eq c site) clients

-- The deletions of buckets on sites that have a client; their results are ignored.
unfoldable pub delete_calls : List Text → List Created → List SiteCall
delete_calls clients [] = []
delete_calls clients ((site, name) ∷ rest) =
    let later = delete_calls clients rest in
    if has_client clients site then delete_call site name ∷ later else later

module _ (clients : List Text) (answers : SiteAnswers) (names : ℕ → Text) where
  -- The loop over the clients from number `i` on, and the rollback that a failure starts.
  unfoldable pub create_from : ℕ → List Text → List Created → Outcome (List Created)
  unfolding delete_calls
  create_from i [] created = without_calls (ok created)
  create_from i (site ∷ sites) created =
      let rest = create_from (suc i) sites (created ++ (site, names i) ∷ []) in
      elim (answers.create site (names i)) [
        | ok done ↦ after_calls (create_call site (names i) ∷ []) rest
        | err e ↦ record {
          calls = create_call site (names i) ∷ delete_calls clients created;
          result = err (internal_error e);
        }
      ]

-- The backend buckets of the new bucket; `now i` is the clock at bucket `i`.
unfoldable pub backend_buckets_of : (now : ℕ → ℕ) → ℕ → List Created → List BackendBucket
backend_buckets_of now i [] = []
backend_buckets_of now i ((site, name) ∷ rest) =
    record { site = site; bucket_name = name; created = now i }
    ∷ backend_buckets_of now (i + 1) rest

abbrev pub created_of : BackendBucket → Created
created_of bb = (bb.site, bb.bucket_name)

-- The parameters of a listing's URL; `list-type` is not used.
pub record ListObjectsV2Params : Type 0 where
  pub prefix : Option Text
  pub delimiter : Option Text
  pub start_after : Option Text
  pub continuation_token : Option Text
  pub max_keys : Option ℕ
  pub list_type : Option Text

-- `first.or(second)`.
abbrev or_else : {A : Type 0} → Option A → Option A → Option A
or_else (some a) other = some a
or_else none other = other

-- `n.min(1000)`.
abbrev at_most_1000 : ℕ → ℕ
at_most_1000 n = if leb n 1_000 then n else 1_000

-- The request to the store.
unfoldable pub listing_of : Text → ListObjectsV2Params → Listing
listing_of bucket params = record {
  bucket = bucket;
  prefix = unwrap_or [] params.prefix;
  delimiter = params.delimiter;
  start_after = or_else params.continuation_token params.start_after;
  max_keys = at_most_1000 (unwrap_or 1_000 params.max_keys);
}

-- The new bucket's record.
unfoldable pub bucket_meta_of : Services → (now : ℕ → ℕ) → Text → List Created → BucketMeta
unfolding backend_buckets_of
bucket_meta_of s now bucket created = record {
  name = bucket;
  created = s.created;
  storage_mode = s.config.erasure.default_storage_mode;
  data_chunks = none;
  parity_chunks = none;
  backend_buckets = backend_buckets_of now 0 created;
}

-- The name of the bucket at client `i`.
abbrev pub backend_names : Services → Text → ℕ → Text
backend_names s bucket i = generate_backend_bucket_name bucket (s.chunk_uuids i)

module _ (s : Services) (r : Rocks) (codecs : Codecs) where
  open r use {Db}

  -- The guards of a creation.
  unfoldable pub may_create : Text → Db → Result S3Error (Unit {0})
  may_create bucket d = do
    ensure (is_configured s.config) service_unavailable
    known ← stored (bucket_exists r codecs bucket d)
    if known then err bucket_already_exists else ok tt

  unfoldable pub create_bucket : SiteAnswers → (now : ℕ → ℕ) → Text → Db → Outcome Db
  unfolding may_create create_from bucket_meta_of
  create_bucket answers now bucket d = proceed (without_calls (may_create bucket d)) (λ _.
      proceed (create_from s.clients answers (backend_names s bucket) 0 s.clients []) (λ created.
        without_calls (
          stored
            (Metadata.Buckets.create_bucket r codecs (bucket_meta_of s now bucket created) d))))

  -- The guards of a deletion, and the bucket's record.
  unfoldable pub may_delete : Text → Db → Result S3Error BucketMeta
  may_delete bucket d = do
    ensure (is_configured s.config) service_unavailable
    known ← stored (bucket_exists r codecs bucket d)
    ensure known no_such_bucket
    empty ← stored (bucket_is_empty r codecs bucket d)
    ensure empty bucket_not_empty
    found ← stored (get_bucket r codecs bucket d)
    ok_or no_such_bucket found

  unfoldable pub delete_bucket : Text → Db → Outcome Db
  unfolding may_delete delete_calls
  delete_bucket bucket d = proceed (without_calls (may_delete bucket d)) (λ meta. record {
    calls = delete_calls s.clients (map created_of meta.backend_buckets);
    result = do
      deleted ← stored (Metadata.Buckets.delete_bucket r codecs bucket d)
      ok deleted.1;
  })

  unfoldable pub head_bucket : Text → Db → Result S3Error (Unit {0})
  head_bucket bucket d = do
    ensure (is_configured s.config) service_unavailable
    known ← stored (bucket_exists r codecs bucket d)
    ensure known no_such_bucket

  -- The body of the response.
  unfoldable pub list_buckets : (to_rfc3339 : ℕ → Text) → Db → Result S3Error Text
  unfolding list_buckets_response
  list_buckets to_rfc3339 d = do
    ensure (is_configured s.config) service_unavailable
    buckets ← stored (Metadata.Buckets.list_buckets r codecs d)
    ok (list_buckets_response to_rfc3339 buckets)

  -- The body of the response.
  unfoldable pub list_objects_v2 :
      (to_rfc3339 : ℕ → Text) → Text → ListObjectsV2Params → Db → Result S3Error Text
  unfolding listing_of list_objects list_objects_v2_response
  list_objects_v2 to_rfc3339 bucket params d = do
    ensure (is_configured s.config) service_unavailable
    known ← stored (bucket_exists r codecs bucket d)
    ensure known no_such_bucket
    let l = listing_of bucket params
    result ← stored (list_objects codecs.object l r d)
    ok (list_objects_v2_response to_rfc3339 bucket l.prefix l.delimiter l.max_keys result)
