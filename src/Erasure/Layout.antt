-- ===== src/Erasure/Layout.antt =====
-- The chunks that `encode` of src/erasure_coding/encoder.rs returns: their indices and lengths.
use s3prism.Base.{
  ℕ, zero, suc, ◌+◌, ◌<◌, ◌≡◌, refl, sym, ◌∙◌, subst, List, [], ◌∷◌, ◌++◌, Text, All, length, ok,
  ok_injective, true, arith,
}
use s3prism.Base.Word.{word}
use s3prism.Erasure.Codec.{ReedSolomon}
use s3prism.Erasure.Encoder.{
  EncodedChunk, EncodeOutput, original_shards, data_shards, parity_shards, encode,
}
use s3prism.Erasure.Split.{
  IsShardSize, shard_size_of-IsShardSize, length-original_shards, original_shards-All,
}
use s3prism.Erasure.RoundTrip.{encode-IsEncoding, length-data_shards}

-- The indices count from `i`, and each chunk has `size` bytes.
abbrev pub IsLaidOut : ℕ → ℕ → List EncodedChunk → Type 0
IsLaidOut size i [] = Unit
IsLaidOut size i (e ∷ es) = (e.index ≡ i) × (length e.content ≡ size) × IsLaidOut size (i + 1) es

IsLaidOut-append :
    (size i : ℕ) (es fs : List EncodedChunk)
    → IsLaidOut size i es
    → IsLaidOut size (i + length es) fs
    → IsLaidOut size i (es ++ fs)
IsLaidOut-append size i [] fs he hf = let e : i + 0 ≡ i = omega arith in rw e at hf
IsLaidOut-append size i (e ∷ es) fs (at, long, he) hf =
    let step : i + suc (length es) ≡ i + 1 + length es = omega arith in
    (at, long, IsLaidOut-append size (i + 1) es fs he (rw step at hf))

module _ (sha : Text → Text) where
  data_shards-IsLaidOut :
      (block : Text) (size i n : ℕ)
      → All (λ d. length d ≡ size) (original_shards block size i n)
      → IsLaidOut size i (data_shards sha block size i n)
  unfolding data_shards original_shards
  data_shards-IsLaidOut block size i zero h = tt
  data_shards-IsLaidOut block size i (suc n) (long, h) =
      (refl, long, data_shards-IsLaidOut block size (i + 1) n h)

  parity_shards-IsLaidOut :
      (size k i : ℕ) (parity : List Text)
      → All (λ d. length d ≡ size) parity
      → IsLaidOut size (k + i) (parity_shards sha k i parity)
  unfolding parity_shards
  parity_shards-IsLaidOut size k i [] h = tt
  parity_shards-IsLaidOut size k i (d ∷ parity) (long, h) =
      let step : k + i + 1 ≡ k + (i + 1) = omega arith in
      (refl, long, rw step (parity_shards-IsLaidOut size k (i + 1) parity h))

  pub encode-IsLaidOut :
      (rs : ReedSolomon) (block : Text) (k p : ℕ) (out : EncodeOutput)
      → rs.supports k p ≡ true
      → length block + k + k + k < word
      → encode sha rs block k p ≡ ok out
      → IsLaidOut out.shard_size 0 out.chunks
  encode-IsLaidOut rs block k p out supported fits encoded =
      let e = encode-IsEncoding sha rs block k p out encoded in
      let size = out.shard_size in
      let facts : IsShardSize (length block) k size =
        rw e.size (shard_size_of-IsShardSize (length block) k e.k_pos fits) in
      let sized =
        original_shards-All block size k 0 0 (omega arith) (omega (arith, facts.in_range)) in
      let (parity, again, counted, long) =
        rs.encode_total k p size (original_shards block size 0 k) supported
          (omega (arith, facts.at_least_2)) facts.even (length-original_shards block size k 0)
          sized in
      let same : parity ≡ e.parity = ok_injective (sym again ∙ e.encoded) in
      let start : k + 0 ≡ 0 + length (data_shards sha block size 0 k) =
        omega (arith, length-data_shards sha block size k 0) in
      let after : IsLaidOut size (0 + length (data_shards sha block size 0 k))
          (parity_shards sha k 0 e.parity) =
        subst (λ i. IsLaidOut size i (parity_shards sha k 0 e.parity)) start
          (parity_shards-IsLaidOut size k 0 e.parity
            (subst (All (λ d. length d ≡ size)) same long)) in
      subst (IsLaidOut size 0) (sym e.chunks) (
        IsLaidOut-append size 0 (data_shards sha block size 0 k) (parity_shards sha k 0 e.parity)
          (data_shards-IsLaidOut block size 0 k sized) after)
