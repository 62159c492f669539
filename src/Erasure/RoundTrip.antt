-- ===== src/Erasure/RoundTrip.antt =====
-- Encoding and decoding a block: src/erasure_coding/encoder.rs against decoder.rs.
use s3prism.Base.{
  ℕ, zero, suc, ◌+◌, ◌-◌, ◌*◌, ◌%◌, ◌≤◌, ◌<◌, ◌≡◌, refl, sym, ap, ap₂, subst, ◌∙◌, Bool, true,
  false, not, ◌==◌, inl, inr, List, [], ◌∷◌, ◌++◌, map, Text, Option, none, some, arith, length,
  take, get_elem?, All, Distinct, concat, ok, >>=-eq-ok, ensure-eq-ok, ok_injective, length-append,
  length-map, get_elem?-append_left, get_elem?-append_right, Bool-cases, ltb, ltb→lt, ltb-false→le,
  le→leb,
}
use mathlib.Core.List.{map-append}
use s3prism.Base.Word.{word}
use s3prism.Fault.{data_chunks_zero, parity_chunks_zero, empty_data}
use s3prism.Erasure.Codec.{ReedSolomon, slot, IsGenuine}
use s3prism.Erasure.Encoder.{
  EncodedChunk, EncodeOutput, shard_size_of, original_shards, data_shards, parity_shards, encode,
}
use s3prism.Erasure.Decoder.{ShardInput, gathered_none, gather, decode}
use s3prism.Erasure.Split.{
  IsShardSize, shard_size_of-IsShardSize, take-concat-shards, length-original_shards,
  original_shards-All,
}
use s3prism.Erasure.Gather.{
  IsShardOf, added_for, gather-IsFaithful, gather-added, added_for-IsGenuine, assemble_lem,
  gathered_none-IsFaithful,
}

-- `ShardInput { index: c.index, is_parity: c.is_parity, data: c.data.clone() }`.
abbrev pub shard_input : EncodedChunk → ShardInput
shard_input c = record { index = c.index; is_parity = c.is_parity; content = c.content }

abbrev some_input : ℕ → Bool → Option Text → Option ShardInput
some_input i parity none = none
some_input i parity (some d) = some (record { index = i; is_parity = parity; content = d })

module _ (sha : Text → Text) where
  module _ (block : Text) (size : ℕ) where
    pub length-data_shards : (n i : ℕ) → length (data_shards sha block size i n) ≡ n
    unfolding data_shards
    length-data_shards zero i = refl
    length-data_shards (suc n) i = ap suc (length-data_shards n (i + 1))

    data_shards-inputs :
        (n i j : ℕ)
        → get_elem? (map shard_input (data_shards sha block size i n)) j
          ≡ some_input (i + j) false (get_elem? (original_shards block size i n) j)
    unfolding data_shards original_shards
    data_shards-inputs zero i j = refl
    data_shards-inputs (suc n) i zero = let e : i + 0 ≡ i = omega arith in rw e
    data_shards-inputs (suc n) i (suc j) =
        let e : i + suc j ≡ i + 1 + j = omega arith in rw e (data_shards-inputs n (i + 1) j)

  parity_shards-inputs :
      (k i : ℕ) (parity : List Text) (j : ℕ)
      → get_elem? (map shard_input (parity_shards sha k i parity)) j
        ≡ some_input (k + (i + j)) true (get_elem? parity j)
  unfolding parity_shards
  parity_shards-inputs k i [] j = refl
  parity_shards-inputs k i (d ∷ parity) zero = let e : i + 0 ≡ i = omega arith in rw e
  parity_shards-inputs k i (d ∷ parity) (suc j) =
      let e : i + suc j ≡ i + 1 + j = omega arith in rw e (parity_shards-inputs k (i + 1) parity j)

  length-parity_shards :
      (k i : ℕ) (parity : List Text) → length (parity_shards sha k i parity) ≡ length parity
  unfolding parity_shards
  length-parity_shards k i [] = refl
  length-parity_shards k i (d ∷ parity) = ap suc (length-parity_shards k (i + 1) parity)

  -- What a successful encoding went through.
  pub record IsEncoding (rs : ReedSolomon) (block : Text) (k p : ℕ) (out : EncodeOutput)
      : Type 0 where
    pub k_pos : 0 < k
    pub p_pos : 0 < p
    pub non_empty : 0 < length block
    pub size : out.shard_size ≡ shard_size_of (length block) k
    pub original_size : out.original_size ≡ length block
    pub parity : List Text
    pub encoded :
        rs.encode k p out.shard_size (original_shards block out.shard_size 0 k) ≡ ok parity
    pub chunks :
        out.chunks ≡ data_shards sha block out.shard_size 0 k ++ parity_shards sha k 0 parity

  pub encode-IsEncoding :
      (rs : ReedSolomon) (block : Text) (k p : ℕ) (out : EncodeOutput)
      → encode sha rs block k p ≡ ok out
      → IsEncoding rs block k p out
  unfolding encode
  encode-IsEncoding rs block k p out h =
      let (nk, h1) = ensure-eq-ok (not (k == 0)) data_chunks_zero _ h in
      let (np, h2) = ensure-eq-ok (not (p == 0)) parity_chunks_zero _ h1 in
      let (nb, h3) = ensure-eq-ok (not (length block == 0)) empty_data _ h2 in
      let (parity, encoded, h4) =
        >>=-eq-ok
          (rs.encode k p (shard_size_of (length block) k)
            (original_shards block (shard_size_of (length block) k) 0 k))
          _ h3 in
      subst (IsEncoding rs block k p) (ok_injective h4) (record {
        k_pos = ground arith;
        p_pos = ground arith;
        non_empty = ground arith;
        size = refl;
        original_size = refl;
        parity = parity;
        encoded = encoded;
        chunks = refl;
      })

  -- A shard taken from the output is one of the originals or one of the recovery shards.
  module _ (block : Text) (size k : ℕ) (parity : List Text) where
    of_some_input :
        (i : ℕ) (flag : Bool) (o : Option Text) (s : ShardInput)
        → some_input i flag o ≡ some s
        → (s.is_parity ≡ flag) × (o ≡ some s.content)
    of_some_input i flag none s h = cc
    of_some_input i flag (some d) s h = (ground arith, ground arith)

    split_inputs :
        map shard_input (data_shards sha block size 0 k ++ parity_shards sha k 0 parity)
        ≡ map shard_input (data_shards sha block size 0 k)
          ++ map shard_input (parity_shards sha k 0 parity)
    split_inputs =
        map-append shard_input (data_shards sha block size 0 k) (parity_shards sha k 0 parity)

    length-inputs : length (map shard_input (data_shards sha block size 0 k)) ≡ k
    length-inputs =
        length-map shard_input (data_shards sha block size 0 k) ∙ length-data_shards block size k 0

    input-IsShardOf :
        (s : ShardInput)
        → get_elem?
            (map shard_input (data_shards sha block size 0 k ++ parity_shards sha k 0 parity))
            s.index
          ≡ some s
        → IsShardOf (original_shards block size 0 k) parity k s
    input-IsShardOf s h =
        let inputs = map shard_input (data_shards sha block size 0 k) in
        let recoveries = map shard_input (parity_shards sha k 0 parity) in
        elim (Bool-cases (ltb s.index k)) [
          | inl below ↦
              let lt = ltb→lt s.index k below in
              let (flag, here) = of_some_input (0 + s.index) false _ s (
                sym (data_shards-inputs block size k 0 s.index)
                ∙ sym
                    (get_elem?-append_left inputs recoveries s.index (omega (arith, length-inputs)))
                ∙ (rw split_inputs at h)) in
              inl (flag, lt, here)
          | inr above ↦
              let le = ltb-false→le s.index k above in
              let (flag, here) = of_some_input (k + (0 + (s.index - k))) true _ s (
                sym (parity_shards-inputs k 0 parity (s.index - k))
                ∙ (rw length-inputs at (
                    sym (
                      get_elem?-append_right inputs recoveries s.index
                        (omega (arith, length-inputs)))))
                ∙ (rw split_inputs at h)) in
              inr (flag, le, here)
        ]

    inputs-IsShardOf :
        (shards : List ShardInput)
        → All
            (λ s.
              get_elem?
                (map shard_input (data_shards sha block size 0 k ++ parity_shards sha k 0 parity))
                s.index
              ≡ some s)
            shards
        → All (IsShardOf (original_shards block size 0 k) parity k) shards
    inputs-IsShardOf [] h = tt
    inputs-IsShardOf (s ∷ shards) (here, h) = (input-IsShardOf s here, inputs-IsShardOf shards h)

-- The calls on the decoder are genuine, and their places are the shards' indices.
module _ (originals parity : List Text) (k : ℕ) where
  calls-IsGenuine :
      (shards : List ShardInput)
      → All (IsShardOf originals parity k) shards
      → All (IsGenuine originals parity) (map (added_for k) shards)
  calls-IsGenuine [] h = tt
  calls-IsGenuine (s ∷ shards) (here, h) =
      ((added_for-IsGenuine originals parity k s here).0, calls-IsGenuine shards h)

  calls-slots :
      (shards : List ShardInput)
      → All (IsShardOf originals parity k) shards
      → map (slot k) (map (added_for k) shards) ≡ map (λ (s : ShardInput). s.index) shards
  calls-slots [] h = refl
  calls-slots (s ∷ shards) (here, h) =
      ap₂ (λ x xs. x ∷ xs) (added_for-IsGenuine originals parity k s here).1 (calls-slots shards h)

pub positive : (m : ℕ) → 0 < m → (m == 0) ≡ false
positive m h = ground arith

-- Decoding genuine shards concatenates the originals.
pub decode_lem :
    (rs : ReedSolomon) (originals parity : List Text) (k p size n : ℕ) (shards : List ShardInput)
    → 0 < k
    → 0 < p
    → length originals ≡ k
    → rs.encode k p size originals ≡ ok parity
    → All (IsShardOf originals parity k) shards
    → Distinct (map (λ (s : ShardInput). s.index) shards)
    → k ≤ length shards
    → decode rs shards k p size n ≡ ok (take n (concat originals))
unfolding decode
decode_lem rs originals parity k p size n shards k_pos p_pos full encoded ours distinct enough =
    let g = gather k (gathered_none k) shards in
    let added : g.added ≡ map (added_for k) shards =
      gather-added originals parity k shards (gathered_none k) in
    let (restored, decoded, restores) =
      rs.restores k p size originals parity (map (added_for k) shards) full encoded
        (calls-IsGenuine originals parity k shards ours)
        (rw (calls-slots originals parity k shards ours) distinct)
        (omega (arith, length-map (added_for k) shards, enough)) in
    let faithful =
      gather-IsFaithful originals parity k shards (gathered_none k)
        (gathered_none-IsFaithful originals parity k) ours in
    let output =
      assemble_lem originals parity k g faithful restored full (rw added restores) k 0
        (omega arith) in
    rw (positive k k_pos) (
      rw (positive p p_pos) (
        rw (le→leb k (length shards) enough)
          (rw (ap (rs.decode k p size) added ∙ decoded) (rw output))))

-- Shards that stand among the chunks of the output, under their own index.
abbrev pub IsTakenFrom : EncodeOutput → List ShardInput → Type 0
IsTakenFrom out = All (λ s. get_elem? (map shard_input out.chunks) s.index ≡ some s)

module _ (sha : Text → Text) (rs : ReedSolomon) (block : Text) (k p : ℕ) (out : EncodeOutput)
    (fits : length block + k + k + k < word) (encoded : encode sha rs block k p ≡ ok out) where
  originals-cover : take (length block) (concat (original_shards block out.shard_size 0 k)) ≡ block
  originals-cover =
      let e = encode-IsEncoding sha rs block k p out encoded in
      let facts : IsShardSize (length block) k out.shard_size =
        rw e.size (shard_size_of-IsShardSize (length block) k e.k_pos fits) in
      let whole : length block - 0 ≡ length block = omega arith in
      rw whole at (
        take-concat-shards block out.shard_size k 0 0 (omega arith) (omega (arith, facts.in_range))
          (omega (arith, facts.covers)))

  -- From any chunks of an encoding with different indices, at least `data_chunks` of them, in any
  -- order, `decode` gives back the block that `encode` was given, if the block's length plus three
  -- times `data_chunks` stays below 2 ^ 64.
  pub decode-encode :
      (shards : List ShardInput)
      → IsTakenFrom out shards
      → Distinct (map (λ (s : ShardInput). s.index) shards)
      → k ≤ length shards
      → decode rs shards k p out.shard_size out.original_size ≡ ok block
  decode-encode shards taken distinct enough =
      let e = encode-IsEncoding sha rs block k p out encoded in
      let originals = original_shards block out.shard_size 0 k in
      let ours = inputs-IsShardOf sha block out.shard_size k e.parity shards (
        subst (λ c. All (λ s. get_elem? (map shard_input c) s.index ≡ some s) shards) e.chunks
          taken) in
      decode_lem rs originals e.parity k p out.shard_size out.original_size shards e.k_pos e.p_pos
        (length-original_shards block out.shard_size k 0) e.encoded ours distinct enough
      ∙ rw e.original_size (ap ok originals-cover)

module _ (sha : Text → Text) (rs : ReedSolomon) (block : Text) (k p : ℕ)
    (fits : length block + k + k + k < word) (k_pos : 0 < k) (p_pos : 0 < p)
    (non_empty : 0 < length block) (supported : rs.supports k p ≡ true) where
  -- A non-empty block is encoded without an error, if both counts are positive and supported by the
  -- crate and the block's length plus three times `data_chunks` stays below 2 ^ 64. There is one
  -- chunk for each data and recovery shard, and the shard size is even, at least 2, and as small as
  -- its rounding up allows.
  pub encode_total :
      (out : EncodeOutput) × (encode sha rs block k p ≡ ok out)
      × (length out.chunks ≡ k + p)
      × (out.original_size ≡ length block)
      × (out.shard_size % 2 ≡ 0)
      × (2 ≤ out.shard_size)
      × (out.shard_size * k ≤ length block + k + k + k)
  unfolding encode
  encode_total =
      let size = shard_size_of (length block) k in
      let facts = shard_size_of-IsShardSize (length block) k k_pos fits in
      let (parity, encoded, counted, sized) =
        rs.encode_total k p size (original_shards block size 0 k) supported
          (omega (arith, facts.at_least_2)) facts.even (length-original_shards block size k 0)
          (original_shards-All block size k 0 0 (omega arith) (omega (arith, facts.in_range))) in
      (
        record {
          chunks = data_shards sha block size 0 k ++ parity_shards sha k 0 parity;
          shard_size = size;
          original_size = length block;
        },
        rw (positive k k_pos)
            (rw (positive p p_pos) (rw (positive (length block) non_empty) (rw encoded))),
        omega (
          arith,
          length-append (data_shards sha block size 0 k) (parity_shards sha k 0 parity),
          length-data_shards sha block size k 0,
          length-parity_shards sha k 0 parity,
          counted,
        ),
        refl,
        facts.even,
        facts.at_least_2,
        omega (arith, facts.in_range),
      )
