-- ===== src/Objects/Tests.antt =====
-- Writes of src/api/handlers/object.rs to two sites, of which one is down.
use mathlib.Core.List.{reverse}
use s3prism.Base.{
  ℕ, ◌≡◌, ◌≢◌, ◌≤◌, refl, inl, inr, true, false, List, [], ◌∷◌, map, Text, bytes, text_eq, Option,
  none, some, All, Distinct, Result, ok, err, arith,
}
use s3prism.Base.Word.{add64, sub64, mul64, clear_bit0}
use s3prism.Fault.{Fault, external}
use s3prism.Config.{replica, shuffle}
use s3prism.Metadata.Models.{
  ObjectMeta, BucketMeta, ChunkInfo, ChunkType, data_chunk, parity_chunk, replica_chunk,
  ChunkStatus, confirmed, pending, erasure_coded,
}
use s3prism.Erasure.Encoder.{
  EncodeOutput, encode, shard_size_of, shard_at, original_shards, data_shards, parity_shards,
}
use s3prism.Erasure.Mirror.{mirror}
use s3prism.Fanout.{PutTarget, GetTarget, has_data, fanout_put, receive, can_send}
use s3prism.Fanout.Quorum.{successes_of}
use s3prism.Objects.{
  GetAnswers, get_target, get_erasure_coded, put_erasure_coded, PutAnswers, erasure_targets,
  erasure_chunks, site_order,
}
use s3prism.Objects.Reading.{IsKept}
use s3prism.Objects.RoundTrip.{get_erasure_coded-put_erasure_coded}

abbrev sites : List Text
sites = bytes "a" ∷ bytes "b" ∷ []

abbrev bucket : BucketMeta
bucket = record {
  name = bytes "photos";
  created = 0;
  storage_mode = replica;
  data_chunks = none;
  parity_chunks = none;
  backend_buckets = record { site = bytes "a"; bucket_name = bytes "photos-a"; created = 0 } ∷ [];
}

abbrev answers : PutAnswers
answers targets =
    record { site = bytes "b"; result = err (external 3) }
    ∷ record { site = bytes "a"; result = ok tt }
    ∷ []

abbrev written : Text → Text → ℕ → ChunkType → Text → ℕ → ChunkStatus → ChunkInfo
written site in_bucket i kind key size status = record {
  index = i;
  chunk_type = kind;
  site = site;
  bucket = in_bucket;
  s3_key = key;
  size = size;
  checksum = [];
  status = status;
}

abbrev replicas : List ChunkInfo
replicas =
    written (bytes "a") (bytes "photos-a") 0 replica_chunk (bytes "k") 2 confirmed
    ∷ written (bytes "b") (bytes "photos") 1 replica_chunk (bytes "k") 2 pending
    ∷ []

abbrev no_digest : Text → Text
no_digest s = []

-- The UUID of a chunk.
abbrev keys : ℕ → Text
keys i = i ∷ []

-- A shuffle of two indices.
abbrev swapped : List ℕ → List ℕ
swapped order = reverse order

abbrev coded : List ChunkInfo
coded =
    written (bytes "b") (bytes "photos") 0 data_chunk (keys 0) 2 pending
    ∷ written (bytes "a") (bytes "photos-a") 1 parity_chunk (keys 1) 2 confirmed
    ∷ []

code_it :
    put_erasure_coded sites bucket
      (bytes "t")
      no_digest
      mirror
      answers
      0
      keys
      shuffle
      swapped
      (bytes "hi")
      1
      1
    ≡ ok (coded, erasure_coded 1 1)
unfolding put_erasure_coded site_order erasure_targets erasure_chunks fanout_put receive can_send
    text_eq encode shard_size_of clear_bit0 add64 sub64 mul64 original_shards data_shards
    parity_shards shard_at
code_it = refl

abbrev hi_target : Text → Text → ℕ → PutTarget
hi_target site in_bucket i = record {
  site = site;
  bucket = in_bucket;
  key = keys i;
  content = bytes "hi";
  content_type = some (bytes "t");
}

abbrev sent : List PutTarget
sent = hi_target (bytes "b") (bytes "photos") 0 ∷ hi_target (bytes "a") (bytes "photos-a") 1 ∷ []

abbrev encoded : EncodeOutput
encoded = record {
  chunks =
      record { index = 0; is_parity = false; content = bytes "hi"; checksum = [] }
      ∷ record { index = 1; is_parity = true; content = bytes "hi"; checksum = [] }
      ∷ [];
  shard_size = 2;
  original_size = 2;
}

encode_hi : encode no_digest mirror (bytes "hi") 1 1 ≡ ok encoded
unfolding encode shard_size_of clear_bit0 add64 sub64 mul64 original_shards data_shards
    parity_shards shard_at
encode_hi = refl

aim_hi :
    erasure_targets sites bucket (bytes "t") keys (site_order shuffle swapped 2) 0 encoded.chunks
    ≡ ok sent
unfolding site_order erasure_targets text_eq
aim_hi = refl

-- The site `b` is down, and `a` returns the parity chunk.
abbrev get_answers : GetAnswers
get_answers targets =
    record { site = bytes "b"; result = err (external 3) }
    ∷ record { site = bytes "a"; result = ok (some (bytes "hi")) }
    ∷ []

abbrev object : ObjectMeta
object = record {
  key = bytes "o";
  bucket = bytes "photos";
  size = 2;
  etag = [];
  content_type = bytes "t";
  created = 0;
  modified = 0;
  user_metadata = [];
  storage_mode = erasure_coded 1 1;
  chunks = coded;
}

ne : (x y : ℕ) → x ≢ y → ◌≢◌ {A = Text} (x ∷ []) (y ∷ [])
ne x y differ e = differ (cc e)

some_text : (s t : Text) → ◌≡◌ {A = Result Fault (Option Text)} (ok (some s)) (ok (some t)) → s ≡ t
some_text s t e = cc e

err_ne_ok : (t : Text) → ◌≡◌ {A = Result Fault (Option Text)} (err (external 3)) (ok (some t)) → ⊥
err_ne_ok t e = cc e

kept : All (IsKept sent) (get_answers (map get_target coded))
kept =
    ((λ t e. absurd (err_ne_ok t e)), ((λ t e. inr (inl (refl, some_text (bytes "hi") t e))), tt))

can_read : can_send sites (map (λ (t : GetTarget). t.site) (map get_target coded)) ≡ true
unfolding can_send text_eq
can_read = refl

enough : 1 ≤ successes_of has_data (get_answers (map get_target coded))
unfolding successes_of
enough = omega arith

swapped_once : Distinct (site_order shuffle swapped 2)
unfolding site_order
swapped_once = (((λ e. absurd (omega (arith, e))), tt), (tt, tt))

get_erasure_coded-put_erasure_coded_example :
    get_erasure_coded mirror sites get_answers 0 object 1 1 ≡ ok (bytes "hi")
get_erasure_coded-put_erasure_coded_example =
    get_erasure_coded-put_erasure_coded sites bucket (bytes "t") no_digest mirror keys shuffle
      swapped (bytes "hi") 1 1 answers 0 coded (erasure_coded 1 1) sent sites get_answers 0 object
      refl (omega arith) code_it (encoded, encode_hi, aim_hi) refl refl
      ((ne 97 98 (λ e. omega (arith, e)), tt), (tt, tt)) swapped_once (omega arith) can_read kept
      ((ne 98 97 (λ e. omega (arith, e)), tt), (tt, tt)) enough
