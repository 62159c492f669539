-- ===== src/Handlers/RoundTrip/Tests.antt =====
-- An object that is written to two sites, of which one answers, and read back from the other.
use s3prism.Base.{
  ◌≡◌, refl, inl, inr, true, false, [], ◌∷◌, map, Text, bytes, none, some, text_eq, strip_prefix,
  Result, ok, err, arith, All, ◌≤◌,
}
use s3prism.Fault.{external}
use s3prism.Config.{RuntimeConfig, default_config, path, replica, hybrid, is_configured}
use s3prism.Metadata
use s3prism.Metadata.Models.{BucketMeta, ObjectMeta}
use s3prism.Metadata.Rocks.{buckets, put}
use s3prism.Metadata.Shelf.{shelf, Shelves, steps}
use s3prism.Metadata.Formats.{formats, bucket_wire}
use s3prism.Metadata.Keys.{object_key}
use s3prism.Metadata.Objects.{decode_value}
use s3prism.Metadata.Buckets.{get_bucket}
use s3prism.Chunked.{Headers, is_chunked}
use s3prism.Erasure.Mirror.{mirror}
use s3prism.Fanout.{GetTarget, fanout_put, can_send, has_data}
use s3prism.Fanout.Quorum.{successes_of}
use s3prism.Objects.Reading.{IsKept}
use s3prism.Objects.{get_target, put_replicated, replica_target, effective_mode}
use s3prism.Handlers.{Services, content_type_of, collect_meta}
use s3prism.Handlers.Objects.{header_value, store_content, put_object, get_object}
use s3prism.Handlers.RoundTrip.{get_object-put_replicated}

abbrev two_sites : RuntimeConfig
two_sites = record default_config {
  sites =
      map
        (λ name. record {
          name = name;
          region = [];
          endpoint = [];
          access_key = [];
          secret_key = [];
          priority = 0;
          url_style = path;
        })
        (bytes "a" ∷ bytes "b" ∷ []);
}

abbrev services : Services
services = record {
  config = two_sites;
  clients = bytes "a" ∷ bytes "b" ∷ [];
  rs = mirror;
  sha256_hex = λ t. t;
  md5_hex = λ t. [];
  put_answers = λ targets.
      record { site = bytes "a"; result = err (external 1) }
      ∷ record { site = bytes "b"; result = ok tt }
      ∷ [];
  get_answers = λ targets.
      record { site = bytes "a"; result = ok none }
      ∷ record { site = bytes "b"; result = ok (some (bytes "one")) }
      ∷ [];
  late = 0;
  uuid = bytes "u";
  chunk_uuids = λ i. i ∷ [];
  shuffled = λ order. order;
  created = 1;
  modified = 2;
}

-- A small object in a hybrid bucket is replicated.
abbrev bucket : BucketMeta
bucket = record {
  name = bytes "p";
  created = 0;
  storage_mode = hybrid;
  data_chunks = none;
  parity_chunks = none;
  backend_buckets = record { site = bytes "a"; bucket_name = bytes "x"; created = 0 } ∷ [];
}

abbrev database : Shelves
database = steps (put buckets (bytes "p") (bucket_wire.enc bucket) ∷ []) (λ cf. [])

abbrev headers : Headers
headers = (bytes "content-type", some (bytes "t")) ∷ []

abbrev content : Text
content = bytes "one"

abbrev get_or {ℓ κ} : {A : Type ℓ} → {E : Type κ} → A → Result E A → A
get_or other (ok x) = x
get_or other (err e) = other

abbrev nothing : ObjectMeta
nothing = record {
  key = [];
  bucket = [];
  size = 0;
  etag = [];
  content_type = [];
  created = 0;
  modified = 0;
  user_metadata = [];
  storage_mode = Metadata.Models.replicated;
  chunks = [];
}

abbrev written : ObjectMeta × Shelves
written =
    get_or (nothing, database)
      (put_object services shelf formats (bytes "p") (bytes "k") headers content database)

plain : is_chunked headers ≡ false
unfolding is_chunked text_eq
plain = refl

no_copy : header_value (bytes "x-amz-copy-source") headers ≡ none
unfolding header_value text_eq
no_copy = refl

known : get_bucket shelf formats (bytes "p") database ≡ ok (some bucket)
unfolding get_bucket decode_value text_eq
known = refl

small : effective_mode hybrid 1_048_576 3 ≡ replica
unfolding effective_mode
small = refl

wrote :
    put_object services shelf formats (bytes "p") (bytes "k") headers content database ≡ ok written
unfolding put_object is_chunked text_eq is_configured store_content get_bucket decode_value
    put_replicated fanout_put Metadata.Objects.put_object
wrote = refl

absent : Metadata.Objects.get_object shelf formats (bytes "p") (bytes "k") database ≡ ok none
unfolding Metadata.Objects.get_object decode_value
absent = refl

found :
    Metadata.Objects.get_object shelf formats (bytes "p") (bytes "k") written.1
    ≡ ok (some written.0)
unfolding put_object is_chunked text_eq is_configured store_content get_bucket decode_value
    put_replicated fanout_put Metadata.Objects.put_object Metadata.Objects.get_object object_key
    content_type_of collect_meta strip_prefix
found = refl

ready : is_configured two_sites ≡ true
unfolding is_configured
ready = refl

chunk_sites :
    map (λ (t : GetTarget). t.site) (map get_target written.0.chunks) ≡ bytes "a" ∷ bytes "b" ∷ []
unfolding put_object is_chunked text_eq is_configured store_content get_bucket decode_value
    put_replicated fanout_put Metadata.Objects.put_object
chunk_sites = refl

can :
    can_send services.clients (map (λ (t : GetTarget). t.site) (map get_target written.0.chunks))
    ≡ true
unfolding can_send text_eq
can = rw chunk_sites refl

kept :
    All
      (IsKept (
        map
          (replica_target services.clients bucket (content_type_of headers) services.uuid content)
          services.clients))
      (services.get_answers (map get_target written.0.chunks))
unfolding replica_target
kept = (λ c e. cc e, (λ c e. inr (inl (refl, cc e)), tt))

enough : 1 ≤ successes_of has_data (services.get_answers (map get_target written.0.chunks))
unfolding successes_of
enough = omega arith

get_object-put_replicated_example :
    get_object services shelf formats (bytes "p") (bytes "k") written.1 ≡ ok (written.0, content)
get_object-put_replicated_example =
    get_object-put_replicated services services shelf formats (bytes "p") (bytes "k") headers
      content database written.1 written.0 bucket none (some written.0) plain no_copy known small
      (omega arith, tt) wrote absent found ready can kept enough
