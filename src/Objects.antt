-- ===== src/Objects.antt =====
-- src/api/handlers/object.rs: how the bytes of an object are placed on the sites and read back. The
-- handlers around it are in Handlers.Objects. A fault stands for `S3Error::InternalError` of it.
pub mod Status
pub mod Reading
pub mod Shards
pub mod Apart
pub mod RoundTrip
mod Tests
use s3prism.Base.{
  ℕ, zero, suc, ◌+◌, ◌%◌, Bool, true, false, ◌&&◌, List, [], ◌∷◌, ◌++◌, map, Text, Option, none,
  some, length, get_elem?, any, find, ltb, leb, text_eq, if◌then◌else◌, Result, ok, err, ◌>>=◌,
  ◌>>◌, ensure, map_err, ok_or,
}
use s3prism.Base.Word.{add64}
use s3prism.Fault.{Fault, panicked, too_few_sites, no_replica}
use s3prism.Config.{StorageMode, replica, erasure, hybrid, WriteDistribution, shuffle, priority}
use s3prism.Metadata.Models.{
  ObjectMeta, BucketMeta, BackendBucket, ChunkInfo, ChunkType, ChunkStatus, data_chunk,
  parity_chunk, replica_chunk, confirmed, pending, ObjectStorageMode, replicated, erasure_coded,
}
use s3prism.Erasure.Codec.{ReedSolomon}
use s3prism.Erasure.Encoder.{EncodedChunk, encode}
use s3prism.Erasure.Decoder.{ShardInput, decode}
use s3prism.Fanout.{FanoutResult, PutTarget, GetTarget, is_ok, fanout_put, fanout_get}

-- `bb_map.get(site)`: of two buckets for one site the map holds the later.
unfoldable pub bucket_at : List BackendBucket → Text → Option Text
bucket_at [] site = none
bucket_at (bb ∷ rest) site =
    let later = bucket_at rest site in
    let here = if text_eq bb.site site then some bb.bucket_name else none in
    elim later [ some b ↦ some b | none ↦ here ]

unfoldable pub backend_bucket : BucketMeta → Text → Text
unfolding bucket_at
backend_bucket bucket_meta site = elim (bucket_at bucket_meta.backend_buckets site) [
  | some b ↦ b
  | none ↦ bucket_meta.name
]

unfoldable pub effective_mode : StorageMode → ℕ → ℕ → StorageMode
effective_mode hybrid threshold size = if ltb size threshold then replica else erasure
effective_mode replica threshold size = replica
effective_mode erasure threshold size = erasure

-- `results.iter().any(|r| r.site == site && r.result.is_ok())`.
unfoldable pub succeeded : List (FanoutResult (Unit {0})) → Text → Bool
succeeded results site = any (λ r. text_eq r.site site && is_ok r.result) results

abbrev pub status_of : Bool → ChunkStatus
status_of true = confirmed
status_of false = pending

-- The indices of the sites in the order of the configuration.
unfoldable pub indices : ℕ → ℕ → List ℕ
indices i zero = []
indices i (suc n) = i ∷ indices (i + 1) n

-- `shuffled` is what `shuffle` makes of the indices.
unfoldable pub site_order : WriteDistribution → (List ℕ → List ℕ) → ℕ → List ℕ
unfolding indices
site_order shuffle shuffled n = shuffled (indices 0 n)
site_order priority shuffled n = indices 0 n

-- A site's name for chunk `i`: `&state.clients[site_indices[i % total_sites]].site_name`.
unfoldable pub site_for : List Text → List ℕ → ℕ → Result Fault Text
site_for clients order i = do
  site_idx ← ok_or panicked (get_elem? order (i % length clients))
  ok_or panicked (get_elem? clients site_idx)

-- The answers to the requests, in the order of their arrival.
abbrev pub PutAnswers : Type 0
PutAnswers = List PutTarget → List (FanoutResult (Unit {0}))

abbrev pub GetAnswers : Type 0
GetAnswers = List GetTarget → List (FanoutResult (Option Text))

module _ (clients : List Text) (bucket_meta : BucketMeta) (content_type : Text) where
  unfoldable pub replica_target : Text → Text → Text → PutTarget
  unfolding backend_bucket
  replica_target key content site = record {
    site = site;
    bucket = backend_bucket bucket_meta site;
    key = key;
    content = content;
    content_type = some content_type;
  }

  -- The chunks of a replicated object, one for each client, from index `i`.
  unfoldable pub replica_chunks :
      Text → ℕ → List (FanoutResult (Unit {0})) → ℕ → List Text → List ChunkInfo
  unfolding backend_bucket succeeded
  replica_chunks key size results i [] = []
  replica_chunks key size results i (site ∷ sites) =
      record {
        index = i;
        chunk_type = replica_chunk;
        site = site;
        bucket = backend_bucket bucket_meta site;
        s3_key = key;
        size = size;
        checksum = [];
        status = status_of (succeeded results site);
      }
      ∷ replica_chunks key size results (i + 1) sites

  unfoldable pub put_replicated :
      PutAnswers → ℕ → Text → Text → Result Fault (List ChunkInfo × ObjectStorageMode)
  unfolding replica_target replica_chunks
  put_replicated answers late key content = do
    let targets = map (replica_target key content) clients
    results ← fanout_put clients (map (λ (t : PutTarget). t.site) targets) (answers targets) late 1
    ok (replica_chunks key (length content) results 0 clients, replicated)

  -- The targets of an encoded object; `keys i` is the UUID for chunk `i`.
  unfoldable pub erasure_targets :
      (keys : ℕ → Text) → List ℕ → ℕ → List EncodedChunk → Result Fault (List PutTarget)
  unfolding site_for backend_bucket
  erasure_targets keys order i [] = ok []
  erasure_targets keys order i (chunk ∷ chunks) = do
    site ← site_for clients order i
    rest ← erasure_targets keys order (i + 1) chunks
    ok (
        record {
          site = site;
          bucket = backend_bucket bucket_meta site;
          key = keys i;
          content = chunk.content;
          content_type = some content_type;
        }
        ∷ rest)

  unfoldable pub erasure_chunks :
      (keys : ℕ → Text)
      → List ℕ
      → List (FanoutResult (Unit {0}))
      → ℕ
      → List EncodedChunk
      → Result Fault (List ChunkInfo)
  unfolding site_for backend_bucket succeeded
  erasure_chunks keys order results i [] = ok []
  erasure_chunks keys order results i (chunk ∷ chunks) = do
    site ← site_for clients order i
    rest ← erasure_chunks keys order results (i + 1) chunks
    ok (
        record {
          index = chunk.index;
          chunk_type = if chunk.is_parity then parity_chunk else data_chunk;
          site = site;
          bucket = backend_bucket bucket_meta site;
          s3_key = keys i;
          size = length chunk.content;
          checksum = chunk.checksum;
          status = status_of (succeeded results site);
        }
        ∷ rest)

  unfoldable pub put_erasure_coded :
      (sha256_hex : Text → Text)
      → ReedSolomon
      → PutAnswers
      → ℕ
      → (keys : ℕ → Text) → WriteDistribution
      → (shuffled : List ℕ → List ℕ) → Text
      → ℕ
      → ℕ
      → Result Fault (List ChunkInfo × ObjectStorageMode)
  unfolding erasure_targets erasure_chunks site_order
  put_erasure_coded sha256_hex rs answers late keys distribution shuffled content k p = do
    let order = site_order distribution shuffled (length clients)
    ensure (leb (add64 k p) (length clients)) (too_few_sites (add64 k p) (length clients))
    encoded ← encode sha256_hex rs content k p
    targets ← erasure_targets keys order 0 encoded.chunks
    results ← fanout_put clients (map (λ (t : PutTarget). t.site) targets) (answers targets) late k
    chunks ← erasure_chunks keys order results 0 encoded.chunks
    ok (chunks, erasure_coded k p)

abbrev pub get_target : ChunkInfo → GetTarget
get_target c = record { site = c.site; bucket = c.bucket; key = c.s3_key }

-- The first result that holds data.
unfoldable pub first_data : List (FanoutResult (Option Text)) → Option Text
first_data [] = none
first_data (r ∷ rest) = elim r.result [
  | ok o ↦ elim o [ some t ↦ some t | none ↦ first_data rest ]
  | err e ↦ first_data rest
]

unfoldable pub get_replicated : List Text → GetAnswers → ℕ → ObjectMeta → Result Fault Text
unfolding first_data
get_replicated clients answers late meta = do
  let targets = map get_target meta.chunks
  results ← fanout_get clients (map (λ (t : GetTarget). t.site) targets) (answers targets) late 1
  ok_or no_replica (first_data results)

abbrev pub is_parity_chunk : ChunkType → Bool
is_parity_chunk parity_chunk = true
is_parity_chunk data_chunk = false
is_parity_chunk replica_chunk = false

-- The loop over the results: the shards, and the length of the last one.
unfoldable pub collect_shards :
    List ChunkInfo → List (FanoutResult (Option Text)) → ℕ → Result Fault (List ShardInput × ℕ)
collect_shards chunks [] shard_size = ok ([], shard_size)
collect_shards chunks (r ∷ rest) shard_size = elim r.result [
  | err e ↦ collect_shards chunks rest shard_size
  | ok o ↦ elim o [
    | none ↦ collect_shards chunks rest shard_size
    | some t ↦ do
      info ← ok_or panicked (find (λ (c : ChunkInfo). text_eq c.site r.site) chunks)
      more ← collect_shards chunks rest (length t)
      ok (
        record { index = info.index; is_parity = is_parity_chunk info.chunk_type; content = t }
            ∷ more.0,
        more.1,
      )
  ]
]

unfoldable pub get_erasure_coded :
    ReedSolomon → List Text → GetAnswers → ℕ → ObjectMeta → ℕ → ℕ → Result Fault Text
unfolding collect_shards
get_erasure_coded rs clients answers late meta k p = do
  let targets = map get_target meta.chunks
  results ← fanout_get clients (map (λ (t : GetTarget). t.site) targets) (answers targets) late k
  shards ← collect_shards meta.chunks results 0
  decode rs shards.0 k p shards.1 meta.size
