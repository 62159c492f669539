-- ===== src/Router.antt =====
-- src/api/router.rs: the routes of the S3 interface and the handlers behind them. The crate axum
-- matches the path and reads the query; a request that it refuses itself does not come this far.
use s3prism.Base.{
  ℕ, Bool, List, [], Text, bytes, Option, none, some, ◌&&◌, if◌then◌else◌, Result, ok, err, ◌>>=◌,
}
use s3prism.Metadata.Rocks.{Rocks, Codecs}
use s3prism.Metadata.Models.{ObjectMeta}
use s3prism.Metadata.Objects.{is_some}
use s3prism.Chunked.{Headers}
use s3prism.Errors.{S3Error, invalid_argument}
use s3prism.Handlers.{Services}
use s3prism.Handlers
use s3prism.Handlers.Responses.{
  Response, Printing, empty_response, xml_response, etag_response, get_response, head_response,
  copied_response, initiated_response, completed_response, list_multipart_uploads,
}
use s3prism.Handlers.Objects.{header_value}
use s3prism.Handlers.Multipart.{Getter, Deletion}
use s3prism.Handlers.Buckets.{
  SiteCall, SiteAnswers, Outcome, without_calls, proceed, ListObjectsV2Params, list_objects_v2,
}

pub record BucketQuery : Type 0 where
  pub uploads : Option Text
  pub delete : Option Text
  pub location : Option Text
  pub versioning : Option Text
  pub prefix : Option Text
  pub delimiter : Option Text
  pub start_after : Option Text
  pub continuation_token : Option Text
  pub max_keys : Option ℕ
  pub list_type : Option Text

pub record ObjectQuery : Type 0 where
  pub upload_id : Option Text
  pub part_number : Option ℕ
  pub uploads : Option Text

-- What the handlers meet outside of the database, the sites' answers to the writing and reading of
-- objects apart, which are among the services.
pub record Outside : Type 0 where
  pub printing : Printing
  pub sites : SiteAnswers
  pub now : ℕ → ℕ
  pub is_utf8 : Text → Bool
  pub get_part : Getter

-- A response and the database, with the requests to the sites that delete parts of an upload.
abbrev pub Served : Type 0 → Type 0
Served Db = Response × (List Deletion × Db)

pub data Method : Type 0 where
  put delete head get post : Method

-- A path by its route: `/`, `/{bucket}` and `/{bucket}/{*key}`.
pub data Route : Type 0 where
  service : Route
  of_bucket : (bucket : Text) → Route
  of_object : (bucket key : Text) → Route

pub record Request : Type 0 where
  pub method : Method
  pub route : Route
  pub bucket_query : BucketQuery
  pub object_query : ObjectQuery
  pub headers : Headers
  pub body : Text

abbrev location_xml : Text
location_xml =
    bytes
      "<?xml version=\"1.0\" encoding=\"UTF-8\"?><LocationConstraint xmlns=\"http://s3.amazonaws.com/doc/2006-03-01/\">us-east-1</LocationConstraint>"

abbrev versioning_xml : Text
versioning_xml =
    bytes
      "<?xml version=\"1.0\" encoding=\"UTF-8\"?><VersioningConfiguration xmlns=\"http://s3.amazonaws.com/doc/2006-03-01/\"/>"

abbrev list_params : BucketQuery → ListObjectsV2Params
list_params q = record {
  prefix = q.prefix;
  delimiter = q.delimiter;
  start_after = q.start_after;
  continuation_token = q.continuation_token;
  max_keys = q.max_keys;
  list_type = q.list_type;
}

module _ (s : Services) (r : Rocks) (codecs : Codecs) (o : Outside) where
  open r use {Db}

  -- A reading handler leaves the database as it is.
  abbrev reading : Db → Result S3Error Response → Result S3Error (Served Db)
  reading d response = do x ← response; ok (x, ([], d))

  unfoldable pub bucket_get_dispatch : Text → BucketQuery → Db → Result S3Error Response
  bucket_get_dispatch bucket query d =
      if is_some query.location
      then ok (xml_response location_xml)
      else if is_some query.versioning
      then ok (xml_response versioning_xml)
      else if is_some query.uploads
      then (do
        xml ← list_multipart_uploads s r codecs o.printing.to_rfc3339 bucket d
        ok (xml_response xml))
      else (do
        xml ← list_objects_v2 s r codecs o.printing.to_rfc3339 bucket (list_params query) d
        ok (xml_response xml))

  unfoldable pub bucket_post_dispatch : Text → Headers → Text → Db → Result S3Error (Served Db)
  bucket_post_dispatch bucket headers body d = do
    x ← Handlers.Objects.delete_objects s r codecs o.is_utf8 bucket headers body d
    ok (xml_response x.0, ([], x.1))

  -- A copy answers with XML, any other write with the ETag.
  abbrev pub put_response : Option (Option Text) → ObjectMeta → Response
  put_response none meta = etag_response meta.etag
  put_response (some source) meta = copied_response o.printing meta

  unfoldable pub object_put_dispatch :
      Text → Text → ObjectQuery → Headers → Text → Db → Result S3Error (Served Db)
  object_put_dispatch bucket key query headers body d =
      if is_some query.upload_id && is_some query.part_number
      then (do
        x ←
            Handlers.Multipart.upload_part s r codecs query.upload_id query.part_number bucket
              headers body d
        ok (etag_response x.0.etag, ([], x.1)))
      else (do
        x ← Handlers.Objects.put_object s r codecs bucket key headers body d
        ok (put_response (header_value (bytes "x-amz-copy-source") headers) x.0, ([], x.1)))

  unfoldable pub object_post_dispatch :
      Text → Text → ObjectQuery → Headers → Text → Db → Result S3Error (Served Db)
  object_post_dispatch bucket key query headers body d =
      if is_some query.uploads
      then (do
        x ← Handlers.Multipart.create_multipart_upload s r codecs bucket key headers d
        ok (initiated_response bucket key x.0, ([], x.1)))
      else if is_some query.upload_id
      then (do
        x ←
            Handlers.Multipart.complete_multipart_upload s r codecs o.is_utf8 o.get_part
              query.upload_id bucket key body d
        ok (completed_response bucket key x.0.etag, x.1))
      else err (invalid_argument (bytes "missing uploads or uploadId query parameter"))

  unfoldable pub object_delete_dispatch :
      Text → Text → ObjectQuery → Db → Result S3Error (Served Db)
  object_delete_dispatch bucket key query d =
      if is_some query.upload_id
      then (do
        x ← Handlers.Multipart.abort_multipart_upload s r codecs query.upload_id d
        ok (empty_response 204, x))
      else (do
        d' ← Handlers.Objects.delete_object s r codecs bucket key d
        ok (empty_response 204, ([], d')))

  -- A writing handler of buckets with its response.
  abbrev answered : ℕ → Outcome Db → Outcome (Served Db)
  answered status x = proceed x (λ d'. without_calls (ok (empty_response status, ([], d'))))

  -- The table of `build`; none where a path has no route for a method. The crate answers HEAD by a
  -- route for GET where there is none for HEAD.
  unfoldable pub build : Request → Db → Option (Outcome (Served Db))
  unfolding bucket_get_dispatch bucket_post_dispatch object_put_dispatch object_post_dispatch
      object_delete_dispatch
  build q d = elim q.route [
    | service ↦ elim q.method [
      | get ↦ some (
          without_calls (
            reading d (do
              xml ← Handlers.Buckets.list_buckets s r codecs o.printing.to_rfc3339 d
              ok (xml_response xml))))
      | head ↦ some (
          without_calls (
            reading d (do
              xml ← Handlers.Buckets.list_buckets s r codecs o.printing.to_rfc3339 d
              ok (record (xml_response xml) { body = [] }))))
      | put ↦ none
      | delete ↦ none
      | post ↦ none
    ]
    | of_bucket bucket ↦ elim q.method [
      | put ↦ some (answered 200 (Handlers.Buckets.create_bucket s r codecs o.sites o.now bucket d))
      | delete ↦ some (answered 204 (Handlers.Buckets.delete_bucket s r codecs bucket d))
      | head ↦ some (
          without_calls (
            reading d (do
              known ← Handlers.Buckets.head_bucket s r codecs bucket d
              ok (empty_response 200))))
      | get ↦ some (without_calls (reading d (bucket_get_dispatch bucket q.bucket_query d)))
      | post ↦ some (without_calls (bucket_post_dispatch bucket q.headers q.body d))
    ]
    | of_object bucket key ↦ elim q.method [
      | put ↦
          some (without_calls (object_put_dispatch bucket key q.object_query q.headers q.body d))
      | get ↦ some (
          without_calls (
            reading d (do
              x ← Handlers.Objects.get_object s r codecs bucket key d
              get_response o.printing x.0 x.1)))
      | head ↦ some (
          without_calls (
            reading d (do
              meta ← Handlers.Objects.head_object s r codecs bucket key d
              head_response o.printing meta)))
      | delete ↦ some (without_calls (object_delete_dispatch bucket key q.object_query d))
      | post ↦
          some (without_calls (object_post_dispatch bucket key q.object_query q.headers q.body d))
    ]
  ]
