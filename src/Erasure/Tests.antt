-- ===== src/Erasure/Tests.antt =====
-- The theorems on erasure coding at concrete inputs, over the code of copies.
use s3prism.Base.{
  ℕ, ◌+◌, ◌≤◌, ◌%◌, ◌*◌, ◌≡◌, refl, Bool, true, false, List, [], ◌∷◌, Text, arith, length, ok,
}
use s3prism.Base.Word.{add64, sub64, mul64, clear_bit0}
use s3prism.Erasure.Encoder.{
  EncodeOutput, EncodedChunk, encode, shard_size_of, shard_at, original_shards, data_shards,
  parity_shards,
}
use s3prism.Erasure.Decoder.{ShardInput, decode}
use s3prism.Erasure.Mirror.{mirror}
use s3prism.Erasure.RoundTrip.{decode-encode, encode_total}
use s3prism.Erasure.Streaming.{StreamingEncoder, BlockEncodeOutput, encode_blocks, decode_blocks}
use s3prism.Erasure.Streaming.RoundTrip.{decode_blocks-encode_blocks, encode_blocks_total}

abbrev no_digest : Text → Text
no_digest s = []

abbrev five : Text
five = 1 ∷ 2 ∷ 3 ∷ 4 ∷ 5 ∷ []

abbrev six : Text
six = 1 ∷ 2 ∷ 3 ∷ 4 ∷ 5 ∷ 0 ∷ []

abbrev chunk : ℕ → Bool → EncodedChunk
chunk i parity = record { index = i; is_parity = parity; content = six; checksum = [] }

abbrev five_encoded : EncodeOutput
five_encoded = record {
  chunks = chunk 0 false ∷ chunk 1 true ∷ chunk 2 true ∷ [];
  shard_size = 6;
  original_size = 5;
}

five-encode : encode no_digest mirror five 1 2 ≡ ok five_encoded
unfolding encode shard_size_of clear_bit0 add64 sub64 mul64 original_shards data_shards
    parity_shards shard_at
five-encode = refl

-- The data chunk is lost, one recovery chunk is left.
abbrev last_chunk : List ShardInput
last_chunk = record { index = 2; is_parity = true; content = six } ∷ []

decode-encode_example : decode mirror last_chunk 1 2 6 5 ≡ ok five
decode-encode_example =
    decode-encode no_digest mirror five 1 2 five_encoded (omega arith) five-encode last_chunk
      (refl, tt) (tt, tt) (omega arith)

encode_total_example :
    (out : EncodeOutput) × (encode no_digest mirror five 1 2 ≡ ok out)
    × (length out.chunks ≡ 1 + 2)
    × (out.original_size ≡ length five)
    × (out.shard_size % 2 ≡ 0)
    × (2 ≤ out.shard_size)
    × (out.shard_size * 1 ≤ length five + 1 + 1 + 1)
encode_total_example =
    encode_total no_digest mirror five 1 2 (omega arith) (omega arith) (omega arith) (omega arith)
      refl

abbrev by_three : StreamingEncoder
by_three = record { data_chunks = 1; parity_chunks = 1; block_size = 3 }

abbrev piece_chunks : Text → List EncodedChunk
piece_chunks d =
    record { index = 0; is_parity = false; content = d; checksum = [] }
    ∷ record { index = 1; is_parity = true; content = d; checksum = [] }
    ∷ []

abbrev five_blocks : BlockEncodeOutput
five_blocks = record {
  blocks =
      record { chunks = piece_chunks (1 ∷ 2 ∷ 3 ∷ 0 ∷ []); shard_size = 4; original_size = 3 }
      ∷ record { chunks = piece_chunks (4 ∷ 5 ∷ []); shard_size = 2; original_size = 2 }
      ∷ [];
  total_chunks = 4;
  original_size = 5;
}

five-encode_blocks : encode_blocks no_digest mirror by_three five ≡ ok five_blocks
unfolding encode_blocks encode shard_size_of clear_bit0 add64 sub64 mul64 original_shards
    data_shards parity_shards shard_at
five-encode_blocks = refl

abbrev one_each : List (List ShardInput)
one_each =
    (record { index = 1; is_parity = true; content = 1 ∷ 2 ∷ 3 ∷ 0 ∷ [] } ∷ [])
    ∷ (record { index = 0; is_parity = false; content = 4 ∷ 5 ∷ [] } ∷ [])
    ∷ []

decode_blocks-encode_blocks_example :
    decode_blocks mirror 1 1 one_each (4 ∷ 2 ∷ []) (3 ∷ 2 ∷ []) ≡ ok five
decode_blocks-encode_blocks_example =
    decode_blocks-encode_blocks no_digest mirror by_three five (omega arith) (omega arith)
      five_blocks one_each five-encode_blocks
      (
        record { taken = (refl, tt); distinct = (tt, tt); enough = omega arith },
        (record { taken = (refl, tt); distinct = (tt, tt); enough = omega arith }, tt),
      )

encode_blocks_total_example :
    (out : BlockEncodeOutput) × (encode_blocks no_digest mirror by_three five ≡ ok out)
    × (out.total_chunks ≡ length out.blocks * (1 + 1))
    × (out.original_size ≡ length five)
encode_blocks_total_example =
    encode_blocks_total no_digest mirror by_three five (omega arith) (omega arith) (omega arith)
      (omega arith) (omega arith) refl (omega arith)
