-- ===== src/Erasure/Streaming/RoundTrip.antt =====
-- Encoding a body block by block and decoding it again: src/erasure_coding/streaming.rs.
use s3prism.Base.{
  ℕ, zero, suc, ◌+◌, ◌-◌, ◌*◌, ◌≤◌, ◌<◌, min, ◌≡◌, refl, sym, ap, ◌∙◌, subst, inl, inr, true, not,
  ◌==◌, ==_refl, List, [], ◌∷◌, ◌++◌, map, Text, arith, length, take, drop, Distinct, Result, ok,
  err, >>=-eq-ok, ensure-eq-ok, ok_injective, ltb, Bool-cases, length-drop, length-take, drop-drop,
  take-append-drop, drop_all, ltb→lt, ltb-false→le, le→leb, length-map,
}
use s3prism.Base.Word.{word, add64, add64_lem}
use s3prism.Fault.{Fault, empty_data}
use s3prism.Slice.{slice}
use s3prism.Erasure.Codec.{ReedSolomon}
use s3prism.Erasure.Encoder.{EncodeOutput, encode}
use s3prism.Erasure.Decoder.{ShardInput}
use s3prism.Erasure.RoundTrip.{IsTakenFrom, decode-encode, encode_total, positive}
use s3prism.Erasure.Streaming.{
  StreamingEncoder, BlockEncodeOutput, encode_from, encode_blocks, index_at, decode_from,
  decode_blocks,
}

-- What is needed of the shards of one block: enough different chunks of it.
pub record CanDecode (k : ℕ) (out : EncodeOutput) (shards : List ShardInput) : Type 0 where
  pub taken : IsTakenFrom out shards
  pub distinct : Distinct (map (λ (s : ShardInput). s.index) shards)
  pub enough : k ≤ length shards

abbrev pub CanDecodeAll : ℕ → List EncodeOutput → List (List ShardInput) → Type 0
CanDecodeAll k [] [] = Unit
CanDecodeAll k [] (shards ∷ rest) = ⊥
CanDecodeAll k (out ∷ outs) [] = ⊥
CanDecodeAll k (out ∷ outs) (shards ∷ rest) = CanDecode k out shards × CanDecodeAll k outs rest

abbrev pub shard_sizes_of : List EncodeOutput → List ℕ
shard_sizes_of = map (λ (out : EncodeOutput). out.shard_size)

abbrev pub block_sizes_of : List EncodeOutput → List ℕ
block_sizes_of = map (λ (out : EncodeOutput). out.original_size)

module _ (sha : Text → Text) (rs : ReedSolomon) (k p : ℕ) where
  -- The blocks are encodings of pieces that make up the text.
  data Covers : Text → List EncodeOutput → Type 0 where
    done : Covers [] []
    piece :
        (block rest : Text) (out : EncodeOutput) (outs : List EncodeOutput)
        → length block + k + k + k < word
        → encode sha rs block k p ≡ ok out
        → Covers rest outs
        → Covers (block ++ rest) (out ∷ outs)

  length-CanDecodeAll :
      (outs : List EncodeOutput) (shards : List (List ShardInput))
      → CanDecodeAll k outs shards
      → length shards ≡ length outs
  length-CanDecodeAll [] [] h = refl
  length-CanDecodeAll [] (s ∷ shards) h = elim h [ ]
  length-CanDecodeAll (out ∷ outs) [] h = elim h [ ]
  length-CanDecodeAll (out ∷ outs) (s ∷ shards) (here, h) =
      ap suc (length-CanDecodeAll outs shards h)

  index_at_lem : (xs ys : List ℕ) (i x : ℕ) → drop i xs ≡ x ∷ ys → index_at xs i ≡ ok x
  index_at_lem [] ys zero x h = cc
  index_at_lem [] ys (suc i) x h = cc
  index_at_lem (y ∷ xs) ys zero x h = cc
  index_at_lem (y ∷ xs) ys (suc i) x h = index_at_lem xs ys i x h

  drop_next : (xs ys : List ℕ) (i x : ℕ) → drop i xs ≡ x ∷ ys → drop (i + 1) xs ≡ ys
  drop_next xs ys i x h = sym (drop-drop i 1 xs) ∙ ap (drop 1) h

  decode_from_lem :
      (body : Text) (outs : List EncodeOutput) (i : ℕ) (shards : List (List ShardInput))
      (shard_sizes block_sizes : List ℕ)
      → Covers body outs
      → CanDecodeAll k outs shards
      → drop i shard_sizes ≡ shard_sizes_of outs
      → drop i block_sizes ≡ block_sizes_of outs
      → decode_from rs k p i shards shard_sizes block_sizes ≡ ok body
  unfolding decode_from
  decode_from_lem body outs i [] ss bs done h es eb = refl
  decode_from_lem body outs i (s ∷ shards) ss bs done h es eb = elim h [ ]
  decode_from_lem body outs i [] ss bs (piece block rest out outs' fits e c) h es eb = elim h [ ]
  decode_from_lem body outs i (s ∷ shards) ss bs (piece block rest out outs' fits e c) (here, h) es
        eb =
      rw (index_at_lem ss _ i _ es) (
        rw (index_at_lem bs _ i _ eb) (
          rw (decode-encode sha rs block k p out fits e s here.taken here.distinct here.enough) (
            rw (
              decode_from_lem rest outs' (i + 1) shards ss bs c h (drop_next ss _ i _ es)
                (drop_next bs _ i _ eb)))))

module _ (sha : Text → Text) (rs : ReedSolomon) (enc : StreamingEncoder) (body : Text)
    (fits : length body + enc.block_size < word)
    (small : length body + enc.data_chunks + enc.data_chunks + enc.data_chunks < word) where
  -- One round takes the bytes up to `end`.
  slice_lem :
      (offset end : ℕ)
      → offset ≤ end
      → end ≤ length body
      → slice body offset end ≡ ok (take (end - offset) (drop offset body))
  unfolding slice
  slice_lem offset end h k = rw (le→leb offset end h) (rw (le→leb end (length body) k))

  slice-rest :
      (offset end : ℕ)
      → offset ≤ end
      → take (end - offset) (drop offset body) ++ drop end body ≡ drop offset body
  slice-rest offset end h =
      let e : end ≡ offset + (end - offset) = omega arith in
      ap (λ n. take (end - offset) (drop offset body) ++ drop n body) e
      ∙ ap (λ t. take (end - offset) (drop offset body) ++ t)
          (sym (drop-drop offset (end - offset) body))
      ∙ take-append-drop (end - offset) (drop offset body)

  end_lem :
      (offset : ℕ)
      → offset ≤ length body
      → (offset ≤ min (add64 offset enc.block_size) (length body))
        × (min (add64 offset enc.block_size) (length body)
            ≡ min (offset + enc.block_size) (length body))
  end_lem offset h = rw (add64_lem offset enc.block_size (omega arith)) (omega arith, refl)

  encode_from-Covers :
      (fuel offset : ℕ) (outs : List EncodeOutput)
      → offset ≤ length body
      → encode_from sha rs fuel enc body offset ≡ ok outs
      → Covers sha rs enc.data_chunks enc.parity_chunks (drop offset body) outs
  unfolding encode_from
  encode_from-Covers zero offset outs le h = cc
  encode_from-Covers (suc fuel) offset outs le h = elim (Bool-cases (ltb offset (length body))) [
    | inr past ↦
        subst (Covers sha rs enc.data_chunks enc.parity_chunks (drop offset body))
          (ok_injective (rw past at h)) (rw (drop_all offset body (ltb-false→le _ _ past)) done)
    | inl within ↦
        let end = min (add64 offset enc.block_size) (length body) in
        let (above, _) = end_lem offset le in
        let block = take (end - offset) (drop offset body) in
        let h1 = rw (within, slice_lem offset end above (omega arith)) at h in
        let (out, encoded, h2) =
          >>=-eq-ok (encode sha rs block enc.data_chunks enc.parity_chunks) _ h1 in
        let (rest, later, h3) = >>=-eq-ok (encode_from sha rs fuel enc body end) _ h2 in
        subst (Covers sha rs enc.data_chunks enc.parity_chunks (drop offset body)) (ok_injective h3)
          (subst (λ t. Covers sha rs enc.data_chunks enc.parity_chunks t (out ∷ rest))
            (slice-rest offset end above)
            (piece block (drop end body) out rest
              (omega
                (arith, length-take (end - offset) (drop offset body), length-drop offset body))
              encoded (encode_from-Covers fuel end rest (omega arith) later)))
  ]

  -- If `encode_blocks` succeeds, then decoding enough different chunks of each of its blocks gives
  -- back the body, whatever the block size, if the lengths stay below 2 ^ 64.
  pub decode_blocks-encode_blocks :
      (out : BlockEncodeOutput) (shards : List (List ShardInput))
      → encode_blocks sha rs enc body ≡ ok out
      → CanDecodeAll enc.data_chunks out.blocks shards
      → decode_blocks rs enc.data_chunks enc.parity_chunks shards
          (shard_sizes_of out.blocks)
          (block_sizes_of out.blocks)
        ≡ ok body
  unfolding encode_blocks decode_blocks
  decode_blocks-encode_blocks out shards h can =
      let (_, h1) = ensure-eq-ok (not (length body == 0)) empty_data _ h in
      let (outs, encoded, h2) = >>=-eq-ok (encode_from sha rs (length body + 1) enc body 0) _ h1 in
      let same : outs ≡ out.blocks = ap blocks_of h2 in
      let covers =
        subst (Covers sha rs enc.data_chunks enc.parity_chunks body) same
          (encode_from-Covers (length body + 1) 0 outs (omega arith) encoded) in
      let n = length-CanDecodeAll sha rs enc.data_chunks enc.parity_chunks out.blocks shards can in
      rw
        (
          n,
          length-map (λ (out : EncodeOutput). out.shard_size) out.blocks,
          length-map (λ (out : EncodeOutput). out.original_size) out.blocks,
          ==_refl (length out.blocks),
        )
        (decode_from_lem sha rs enc.data_chunks enc.parity_chunks body out.blocks 0 shards _ _
          covers can refl refl)
    where
      blocks_of : Result Fault BlockEncodeOutput → List EncodeOutput
      blocks_of (ok o) = o.blocks
      blocks_of (err e) = []

  -- The loop's fuel is enough, and each of its steps succeeds.
  module _ (k_pos : 0 < enc.data_chunks) (p_pos : 0 < enc.parity_chunks)
      (block_pos : 0 < enc.block_size)
      (supported : rs.supports enc.data_chunks enc.parity_chunks ≡ true) where
    encode_from_total :
        (fuel offset : ℕ)
        → offset ≤ length body
        → length body - offset < fuel
        → (outs : List EncodeOutput) × (encode_from sha rs fuel enc body offset ≡ ok outs)
    unfolding encode_from
    encode_from_total zero offset le enough = absurd (omega arith)
    encode_from_total (suc fuel) offset le enough = elim (Bool-cases (ltb offset (length body))) [
      | inr past ↦ ([], rw past)
      | inl within ↦
          let lt = ltb→lt offset (length body) within in
          let end = min (add64 offset enc.block_size) (length body) in
          let (above, same) = end_lem offset le in
          let block = take (end - offset) (drop offset body) in
          let sized = length-take (end - offset) (drop offset body) in
          let left = length-drop offset body in
          let found =
            encode_total sha rs block enc.data_chunks enc.parity_chunks (omega arith) k_pos p_pos
              (omega arith) supported in
          let (outs, later) = encode_from_total fuel end (omega arith) (omega arith) in
          (
            found.0 ∷ outs,
            rw (within, slice_lem offset end above (omega arith)) (rw found.1 (rw later)),
          )
    ]

    -- The loop of `encode_blocks` ends, without an error, on a non-empty body, if the block size and
    -- both counts are positive, the crate supports the counts and the lengths stay below 2 ^ 64; it
    -- reports the chunks of all blocks and the length of the body.
    pub encode_blocks_total :
        0 < length body
        → (out : BlockEncodeOutput) × (encode_blocks sha rs enc body ≡ ok out)
          × (out.total_chunks ≡ length out.blocks * (enc.data_chunks + enc.parity_chunks))
          × (out.original_size ≡ length body)
    unfolding encode_blocks
    encode_blocks_total pos =
        let (outs, encoded) = encode_from_total (length body + 1) 0 (omega arith) (omega arith) in
        (
          record {
            blocks = outs;
            total_chunks = length outs * (enc.data_chunks + enc.parity_chunks);
            original_size = length body;
          },
          rw (positive (length body) pos) (rw encoded),
          refl,
          refl,
        )
