-- ===== src/Erasure/Encoder.antt =====
-- src/erasure_coding/encoder.rs: a block is cut into shards of one even size, the last ones padded
-- with zeros, and the recovery shards are appended.
use s3prism.Base.{
  ℕ, zero, suc, ◌+◌, ◌-◌, ◌/◌, min, max, Bool, true, false, not, List, [], ◌∷◌, ◌++◌, Text, length,
  take, drop, replicate, ◌==◌, ltb, leb, if◌then◌else◌, Result, ok, ◌>>=◌, ◌>>◌, ensure,
}
use s3prism.Base.Word.{add64, sub64, mul64, clear_bit0}
use s3prism.Fault.{Fault, data_chunks_zero, parity_chunks_zero, empty_data}
use s3prism.Erasure.Codec.{ReedSolomon}

pub record EncodedChunk : Type 0 where
  pub index : ℕ
  pub is_parity : Bool
  pub content : Text
  pub checksum : Text

pub record EncodeOutput : Type 0 where
  pub chunks : List EncodedChunk
  pub shard_size : ℕ
  pub original_size : ℕ

-- The three `let shard_size` lines.
unfoldable pub shard_size_of : ℕ → ℕ → ℕ
shard_size_of len k = clear_bit0 (add64 (max (sub64 (add64 len k) 1 / k) 2) 1)

-- One round of either loop over `0..data_chunks`. Where `start` is inside the data, `start + size`
-- stays within 64 bits, so that `end` is not before it.
unfoldable pub shard_at : Text → ℕ → ℕ → Text
shard_at block size i =
    let start = mul64 i size in
    let end = min (add64 start size) (length block) in
    let slice = take (end - start) (drop start block) in
    if leb (length block) start
    then replicate size 0
    else if ltb (length slice) size
    then slice ++ replicate (size - length slice) 0
    else slice

-- The shards that the first loop hands to the encoder, from round `i`, with `n` rounds left.
unfoldable pub original_shards : Text → ℕ → ℕ → ℕ → List Text
original_shards block size i zero = []
original_shards block size i (suc n) = shard_at block size i ∷ original_shards block size (i + 1) n

module _ (sha256_hex : Text → Text) where
  -- The second loop.
  unfoldable pub data_shards : Text → ℕ → ℕ → ℕ → List EncodedChunk
  data_shards block size i zero = []
  data_shards block size i (suc n) =
      let shard = shard_at block size i in
      record { index = i; is_parity = false; content = shard; checksum = sha256_hex shard }
      ∷ data_shards block size (i + 1) n

  -- The third loop.
  unfoldable pub parity_shards : ℕ → ℕ → List Text → List EncodedChunk
  parity_shards k i [] = []
  parity_shards k i (parity ∷ rest) =
      record { index = k + i; is_parity = true; content = parity; checksum = sha256_hex parity }
      ∷ parity_shards k (i + 1) rest

  unfoldable pub encode : ReedSolomon → Text → ℕ → ℕ → Result Fault EncodeOutput
  encode rs block k p = do
    ensure (not (k == 0)) data_chunks_zero
    ensure (not (p == 0)) parity_chunks_zero
    ensure (not (length block == 0)) empty_data
    let size = shard_size_of (length block) k
    parity ← rs.encode k p size (original_shards block size 0 k)
    ok (record {
      chunks = data_shards block size 0 k ++ parity_shards k 0 parity;
      shard_size = size;
      original_size = length block;
    })
