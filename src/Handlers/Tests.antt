-- ===== src/Handlers/Tests.antt =====
-- Runs of the handlers on a database in memory and two sites.
use s3prism.Base.{
  arith, ℕ, ◌≡◌, refl, List, [], ◌∷◌, Text, bytes, none, some, Bool, true, text_eq, text_le,
  starts_with, Result, ok, err, if◌then◌else◌,
}
use s3prism.Base.Search.{split, before}
use s3prism.Base.Decimal.{decimal, digits}
use s3prism.Config.{default_config, replica}
use s3prism.Metadata
use s3prism.Metadata.Models.{BucketMeta, ObjectMeta, MultipartUpload, PartMeta}
use s3prism.Metadata.Rocks.{buckets, multipart, put}
use s3prism.Metadata.Shelf.{shelf, Shelves, steps}
use s3prism.Metadata.Formats.{formats, bucket_wire, upload_wire, part_wire}
use s3prism.Metadata.Keys.{object_key}
use s3prism.Metadata.Objects.{decode_value}
use s3prism.Metadata.Buckets.{get_bucket}
use s3prism.Metadata.Uploads.{
  upload_key, part_key, parts_prefix, five_digits, parts_from, deletes_from, delete_parts,
  get_multipart_upload, delete_multipart_upload, list_parts,
}
use s3prism.Chunked.{trim, parse_decimal}
use s3prism.Erasure.Mirror.{mirror}
use s3prism.Fanout.{fanout_put, receive, can_send}
use s3prism.Objects.{
  PutAnswers, GetAnswers, put_replicated, replica_chunks, replica_target, effective_mode,
}
use s3prism.Handlers.{Services, place}
use s3prism.Handlers.Multipart.{
  Getter, Deletion, parse_u16, part_numbers, insert_sorted, sort_by_key,
  parse_complete_multipart_xml, find_part, check_parts, fetch_parts, deletions_of, cleanup_parts,
  assemble, store_assembled, complete_multipart_upload, abort_multipart_upload,
}
use s3prism.Handlers.Multipart.Reading.{
  Requested, request_body, parse_complete_multipart_xml-request_body,
}
use s3prism.Handlers.Multipart.Order.{count, IsSorted}
use s3prism.Handlers.Multipart.Life.{
  IsEnded, complete_multipart_upload-IsEnded, abort_multipart_upload-IsEnded,
}

abbrev put_answers : PutAnswers
put_answers targets = record { site = bytes "a"; result = ok tt } ∷ []

abbrev get_answers : GetAnswers
get_answers targets = []

abbrev services : Services
services = record {
  config = default_config;
  clients = bytes "a" ∷ bytes "b" ∷ [];
  rs = mirror;
  sha256_hex = λ t. t;
  md5_hex = λ t. [];
  put_answers = put_answers;
  get_answers = get_answers;
  late = 0;
  uuid = bytes "u";
  chunk_uuids = λ i. i ∷ [];
  shuffled = λ order. order;
  created = 1;
  modified = 2;
}

abbrev bucket : BucketMeta
bucket = record {
  name = bytes "p";
  created = 0;
  storage_mode = replica;
  data_chunks = none;
  parity_chunks = none;
  backend_buckets = record { site = bytes "a"; bucket_name = bytes "x"; created = 0 } ∷ [];
}

abbrev upload : MultipartUpload
upload = record {
  upload_id = bytes "i";
  bucket = bytes "p";
  key = bytes "k";
  created = 0;
  content_type = bytes "t";
}

abbrev part : ℕ → Text → PartMeta
part n key = record {
  part_number = n;
  etag = [];
  size = 1;
  backend_key = key;
  site = bytes "a";
  backend_bucket = bytes "x";
}

abbrev database : Shelves
database =
    steps
      (put buckets (bytes "p") (bucket_wire.enc bucket)
        ∷ put multipart (upload_key (bytes "i")) (upload_wire.enc upload)
        ∷ put multipart (part_key (bytes "i") 1) (part_wire.enc (part 1 (bytes "k1")))
        ∷ put multipart (part_key (bytes "i") 2) (part_wire.enc (part 2 (bytes "k2")))
        ∷ [])
      (λ cf. [])

-- What site `a` holds.
abbrev get : Getter
get site in_bucket key =
    if text_eq key (bytes "k1") then ok (some (bytes "one")) else ok (some (bytes "two"))

abbrev request : Text
request = bytes "<Part><PartNumber>2</PartNumber></Part><Part><PartNumber> 1 </PartNumber></Part>"

parsed : parse_complete_multipart_xml request ≡ ok (1 ∷ 2 ∷ [])
unfolding parse_complete_multipart_xml split before starts_with part_numbers trim parse_u16
    parse_decimal sort_by_key insert_sorted
parsed = refl

abbrev is_utf8 : Text → Bool
is_utf8 t = true

abbrev get_or {ℓ κ} : {A : Type ℓ} → {E : Type κ} → A → Result E A → A
get_or other (ok x) = x
get_or other (err e) = other

abbrev nothing : ObjectMeta × (List Deletion × Shelves)
nothing = (
  record {
    key = [];
    bucket = [];
    size = 0;
    etag = [];
    content_type = [];
    created = 0;
    modified = 0;
    user_metadata = [];
    storage_mode = Metadata.Models.replicated;
    chunks = [];
  },
  ([], database),
)

abbrev completed : ObjectMeta × (List Deletion × Shelves)
completed = get_or nothing (
    complete_multipart_upload services shelf formats is_utf8 get (some (bytes "i")) (bytes "p")
      (bytes "k") request database)

complete_it :
    complete_multipart_upload services shelf formats is_utf8 get
      (some (bytes "i"))
      (bytes "p")
      (bytes "k")
      request
      database
    ≡ ok completed
unfolding complete_multipart_upload assemble store_assembled get_multipart_upload decode_value
    upload_key parse_complete_multipart_xml split before starts_with part_numbers trim parse_u16
    parse_decimal sort_by_key insert_sorted list_parts parts_prefix parts_from part_key five_digits
    text_le text_eq check_parts fetch_parts find_part get_bucket place effective_mode put_replicated
    replica_chunks replica_target fanout_put receive can_send object_key delete_multipart_upload
    delete_parts deletes_from cleanup_parts deletions_of Metadata.Objects.put_object decimal digits
complete_it = refl

completed_size : completed.0.size ≡ 6
unfolding complete_multipart_upload assemble store_assembled get_multipart_upload decode_value
    upload_key parse_complete_multipart_xml split before starts_with part_numbers trim parse_u16
    parse_decimal sort_by_key insert_sorted list_parts parts_prefix parts_from part_key five_digits
    text_le text_eq check_parts fetch_parts find_part get_bucket place effective_mode put_replicated
    replica_chunks replica_target fanout_put receive can_send object_key delete_multipart_upload
    delete_parts deletes_from cleanup_parts deletions_of Metadata.Objects.put_object decimal digits
completed_size = refl

get_completed : get_multipart_upload shelf formats (bytes "i") completed.1.1 ≡ ok none
unfolding complete_multipart_upload assemble store_assembled get_multipart_upload decode_value
    upload_key parse_complete_multipart_xml split before starts_with part_numbers trim parse_u16
    parse_decimal sort_by_key insert_sorted list_parts parts_prefix parts_from part_key five_digits
    text_le text_eq check_parts fetch_parts find_part get_bucket place effective_mode put_replicated
    replica_chunks replica_target fanout_put receive can_send object_key delete_multipart_upload
    delete_parts deletes_from cleanup_parts deletions_of Metadata.Objects.put_object decimal digits
get_completed = refl

complete_multipart_upload-IsEnded_example : IsEnded services shelf formats (bytes "i") completed.1.1
complete_multipart_upload-IsEnded_example =
    complete_multipart_upload-IsEnded services shelf formats is_utf8 get (bytes "i") (bytes "p")
      (bytes "k") request database completed.1.1 completed.0 completed.1.0 none complete_it
      get_completed

abbrev aborted : List Deletion × Shelves
aborted =
    get_or ([], database)
      (abort_multipart_upload services shelf formats (some (bytes "i")) database)

abort_it : abort_multipart_upload services shelf formats (some (bytes "i")) database ≡ ok aborted
unfolding abort_multipart_upload get_multipart_upload decode_value upload_key list_parts
    parts_prefix parts_from part_key five_digits text_le text_eq starts_with get_bucket
    delete_multipart_upload delete_parts deletes_from cleanup_parts deletions_of
abort_it = refl

get_aborted : get_multipart_upload shelf formats (bytes "i") aborted.1 ≡ ok none
unfolding abort_multipart_upload get_multipart_upload decode_value upload_key list_parts
    parts_prefix parts_from part_key five_digits text_le text_eq starts_with get_bucket
    delete_multipart_upload delete_parts deletes_from cleanup_parts deletions_of
get_aborted = refl

abort_multipart_upload-IsEnded_example : IsEnded services shelf formats (bytes "i") aborted.1
abort_multipart_upload-IsEnded_example =
    abort_multipart_upload-IsEnded services shelf formats (bytes "i") database aborted.1 aborted.0
      none abort_it get_aborted

-- The parts 2 and 1, with ETags.
abbrev listed : List Requested
listed = (2, bytes "x") ∷ (1, bytes "y") ∷ []

parse_complete_multipart_xml-request_body_example :
    (ns : List ℕ) × (parse_complete_multipart_xml (request_body listed) ≡ ok ns)
    × IsSorted ns
    × ((k : ℕ) → count k ns ≡ count k (2 ∷ 1 ∷ []))
parse_complete_multipart_xml-request_body_example =
    parse_complete_multipart_xml-request_body (2, bytes "x") ((1, bytes "y") ∷ [])
      ((omega arith, (refl, tt)), ((omega arith, (refl, tt)), tt))
