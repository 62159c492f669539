-- ===== src/Erasure/Streaming.antt =====
-- src/erasure_coding/streaming.rs: a body encoded block by block.
pub mod RoundTrip
use s3prism.Base.{
  ℕ, zero, suc, ◌+◌, ◌-◌, ◌*◌, min, Bool, true, false, not, ◌&&◌, List, [], ◌∷◌, ◌++◌, Text, Option,
  none, some, length, take, drop, get_elem?, ◌==◌, ltb, leb, if◌then◌else◌, Result, ok, err, ◌>>=◌,
  ◌>>◌, ensure,
}
use s3prism.Base.Word.{add64}
use s3prism.Fault.{Fault, empty_data, mismatched_lengths, panicked, out_of_fuel}
use s3prism.Slice.{slice}
use s3prism.Config.{ErasureConfig, default_erasure}
use s3prism.Erasure.Codec.{ReedSolomon}
use s3prism.Erasure.Encoder.{EncodeOutput, encode}
use s3prism.Erasure.Decoder.{ShardInput, decode}

pub record StreamingEncoder : Type 0 where
  pub data_chunks : ℕ
  pub parity_chunks : ℕ
  pub block_size : ℕ

-- `StreamingEncoder::new`: the block size of the default configuration.
unfoldable pub new_encoder : ℕ → ℕ → StreamingEncoder
new_encoder data_chunks parity_chunks = record {
  data_chunks = data_chunks;
  parity_chunks = parity_chunks;
  block_size = default_erasure.block_size_bytes;
}

unfoldable pub from_config : ErasureConfig → StreamingEncoder
from_config config = record {
  data_chunks = config.data_chunks;
  parity_chunks = config.parity_chunks;
  block_size = config.block_size_bytes;
}

unfoldable pub with_block_size : StreamingEncoder → ℕ → StreamingEncoder
with_block_size enc block_size = record enc { block_size = block_size }

-- `compute_checksum`; the digest is an argument.
unfoldable pub compute_checksum : (sha256_hex : Text → Text) → Text → Text
compute_checksum sha256_hex content = sha256_hex content

pub record BlockEncodeOutput : Type 0 where
  pub blocks : List EncodeOutput
  pub total_chunks : ℕ
  pub original_size : ℕ

module _ (sha256_hex : Text → Text) (rs : ReedSolomon) where
  -- The `while` loop, from `offset`.
  unfoldable pub encode_from : ℕ → StreamingEncoder → Text → ℕ → Result Fault (List EncodeOutput)
  unfolding slice
  encode_from zero enc body offset = err out_of_fuel
  encode_from (suc fuel) enc body offset =
      let end = min (add64 offset enc.block_size) (length body) in
      let round = (do
        block ← slice body offset end
        encoded ← encode sha256_hex rs block enc.data_chunks enc.parity_chunks
        blocks ← encode_from fuel enc body end
        ok (encoded ∷ blocks)) in
      if ltb offset (length body) then round else ok []

  unfoldable pub encode_blocks : StreamingEncoder → Text → Result Fault BlockEncodeOutput
  unfolding encode_from
  encode_blocks enc body = do
    ensure (not (length body == 0)) empty_data
    blocks ← encode_from (length body + 1) enc body 0
    ok (record {
      blocks = blocks;
      total_chunks = length blocks * (enc.data_chunks + enc.parity_chunks);
      original_size = length body;
    })

-- `shard_sizes[i]`.
abbrev pub index_at : List ℕ → ℕ → Result Fault ℕ
index_at xs i = elim (get_elem? xs i) [ some n ↦ ok n | none ↦ err panicked ]

module _ (rs : ReedSolomon) (k p : ℕ) where
  -- The `for` loop, from block `i`.
  unfoldable pub decode_from : ℕ → List (List ShardInput) → List ℕ → List ℕ → Result Fault Text
  decode_from i [] shard_sizes block_sizes = ok []
  decode_from i (shards ∷ rest) shard_sizes block_sizes = do
    shard_size ← index_at shard_sizes i
    block_size ← index_at block_sizes i
    decoded ← decode rs shards k p shard_size block_size
    output ← decode_from (i + 1) rest shard_sizes block_sizes
    ok (decoded ++ output)

  unfoldable pub decode_blocks : List (List ShardInput) → List ℕ → List ℕ → Result Fault Text
  unfolding decode_from
  decode_blocks block_shards shard_sizes block_sizes = do
    ensure (length block_shards == length shard_sizes && length block_shards == length block_sizes)
        mismatched_lengths
    decode_from 0 block_shards shard_sizes block_sizes
