-- ===== src/Handlers/Buckets/Tests.antt =====
-- Runs of the handlers of buckets on two sites.
use s3prism.Base.{
  ℕ, ◌≡◌, refl, inl, inr, false, [], ◌∷◌, Text, bytes, text_eq, if◌then◌else◌, ◌++◌, Result, ok,
  err,
}
use s3prism.Fault.{external}
use s3prism.Config.{RuntimeConfig, SiteConfig, default_config, path, is_configured}
use s3prism.Metadata
use s3prism.Metadata.Rocks.{Family}
use s3prism.Metadata.Shelf.{shelf, Shelves, steps}
use s3prism.Metadata.Formats.{formats}
use s3prism.Metadata.Objects.{decode_value}
use s3prism.Metadata.Buckets.{
  get_bucket, bucket_exists, bucket_is_empty, first_outside, delete_found,
}
use s3prism.Erasure.Mirror.{mirror}
use s3prism.Handlers.{Services}
use s3prism.Handlers.Buckets.{
  create_call, delete_call, SiteAnswers, Outcome, create_from, may_create, create_bucket,
  may_delete, delete_bucket, delete_calls, generate_backend_bucket_name, backend_buckets_of,
  bucket_meta_of,
}
use s3prism.Handlers.Buckets.Undo.{Held, apply_calls, IsError, create_bucket-IsUndone}
use s3prism.Handlers.Buckets.RoundTrip.{delete_bucket-create_bucket}

abbrev site : Text → SiteConfig
site name = record {
  name = name;
  region = [];
  endpoint = [];
  access_key = [];
  secret_key = [];
  priority = 0;
  url_style = path;
}

abbrev two_sites : RuntimeConfig
two_sites = record default_config { sites = site (bytes "a") ∷ site (bytes "b") ∷ [] }

abbrev services : Services
services = record {
  config = two_sites;
  clients = bytes "a" ∷ bytes "b" ∷ [];
  rs = mirror;
  sha256_hex = λ t. t;
  md5_hex = λ t. [];
  put_answers = λ targets. [];
  get_answers = λ targets. [];
  late = 0;
  uuid = bytes "u";
  chunk_uuids = λ i. i ∷ [];
  shuffled = λ order. order;
  created = 1;
  modified = 2;
}

abbrev empty : Shelves
empty = steps [] (λ cf. [])

abbrev now : ℕ → ℕ
now i = 0

-- Site `b` creates no bucket.
abbrev one_refuses : SiteAnswers
one_refuses = record {
  create = λ s n. if text_eq s (bytes "b") then err (external 1) else ok tt;
  delete = λ s n. ok tt;
}

abbrev all_create : SiteAnswers
all_create = record { create = λ s n. ok tt; delete = λ s n. ok tt }

abbrev nothing_held : Held
nothing_held s n = false

abbrev refused : Outcome Shelves
refused = create_bucket services shelf formats one_refuses now (bytes "p") empty

create_bucket-IsUndone_example :
    IsError refused.result
    × ((s n : Text) → apply_calls one_refuses refused.calls nothing_held s n ≡ nothing_held s n)
unfolding text_eq
create_bucket-IsUndone_example =
    create_bucket-IsUndone services shelf formats one_refuses now (bytes "p") empty nothing_held
      (λ s n. refl) (λ s i. refl) (inr (inl (external 1, refl)))

-- The calls of the refused creation: the bucket at `a` is deleted again.
refused_calls :
    refused.calls
    ≡ create_call (bytes "a") (bytes "p-" ++ 0 ∷ [])
      ∷ create_call (bytes "b") (bytes "p-" ++ 1 ∷ [])
      ∷ delete_call (bytes "a") (bytes "p-" ++ 0 ∷ [])
      ∷ []
unfolding create_bucket may_create is_configured bucket_exists create_from delete_calls
    generate_backend_bucket_name text_eq
refused_calls = refl

abbrev get_or {ℓ κ} : {A : Type ℓ} → {E : Type κ} → A → Result E A → A
get_or other (ok x) = x
get_or other (err e) = other

abbrev made : Shelves
made = get_or empty (create_bucket services shelf formats all_create now (bytes "p") empty).result

made_is : (create_bucket services shelf formats all_create now (bytes "p") empty).result ≡ ok made
unfolding create_bucket may_create is_configured bucket_exists create_from delete_calls
    generate_backend_bucket_name bucket_meta_of backend_buckets_of Metadata.Buckets.create_bucket
made_is = refl

abbrev gone : Shelves
gone = get_or empty (delete_bucket services shelf formats (bytes "p") made).result

gone_is : (delete_bucket services shelf formats (bytes "p") made).result ≡ ok gone
unfolding create_bucket may_create is_configured bucket_exists create_from delete_calls
    generate_backend_bucket_name bucket_meta_of backend_buckets_of Metadata.Buckets.create_bucket
    delete_bucket may_delete bucket_is_empty first_outside get_bucket decode_value delete_found
    Metadata.Buckets.delete_bucket text_eq
gone_is = refl

delete_bucket-create_bucket_example :
    ((cf : Family) (k : Text) → shelf.contents gone cf k ≡ shelf.contents empty cf k)
    × ((s n : Text)
        → apply_calls all_create
            (delete_bucket services shelf formats (bytes "p") made).calls
            (apply_calls all_create
              (create_bucket services shelf formats all_create now (bytes "p") empty).calls
              nothing_held)
            s
            n
          ≡ nothing_held s n)
delete_bucket-create_bucket_example =
    delete_bucket-create_bucket services shelf formats all_create now (bytes "p") empty made gone
      nothing_held (λ s n. refl) (λ s i. refl) made_is gone_is
