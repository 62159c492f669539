-- ===== src/Erasure/Split.antt =====
-- The shards of src/erasure_coding/encoder.rs cover the block in order.
use native.Mathlib.Nat.{div-add-mod}
use s3prism.Base.{
  ℕ, zero, suc, ◌+◌, ◌-◌, ◌*◌, ◌/◌, ◌%◌, ◌≤◌, ◌<◌, min, max, ◌≡◌, refl, sym, ap, subst, ◌∙◌,
  append-nil, [], ◌++◌, append_assoc, Text, length, take, if◌then◌else◌, drop, replicate, concat,
  All, arith, leb, ltb, Bool-cases, inl, inr, length-append, length-take, length-drop,
  length-replicate, leb→le, leb-false→lt, drop_all, take_all, take-append-drop, take-append_length,
  drop-drop, take-append_add, ltb-false→le, ltb→lt,
}
use s3prism.Base.Word.{word, clear_bit0, add64_lem, sub64_lem, mul64_lem}
use s3prism.Erasure.Encoder.{shard_size_of, shard_at, original_shards}

-- Rounding up to an even number.
clear_bit0_bounds :
    (x : ℕ) → (x ≤ clear_bit0 (x + 1)) × (clear_bit0 (x + 1) ≤ x + 1) × (clear_bit0 (x + 1) % 2 ≡ 0)
unfolding clear_bit0
clear_bit0_bounds x = (omega arith, omega arith, omega arith)

div_up : (len k : ℕ) → 0 < k → len ≤ k * ((len + k - 1) / k)
div_up len k h = grind arith

-- What the size of the shards is for: they hold the block, and the loops' products do not wrap.
pub record IsShardSize (len k size : ℕ) : Type 0 where
  pub covers : len ≤ k * size
  pub even : size % 2 ≡ 0
  pub at_least_2 : 2 ≤ size
  pub in_range : k * size ≤ len + k + k + k

mul_le : (k a b : ℕ) → a ≤ b → k * a ≤ k * b
mul_le k a b h = grind arith

rounded-IsShardSize :
    (len k q size : ℕ)
    → 0 < k
    → len ≤ k * q
    → k * q ≤ len + k
    → max q 2 ≤ size
    → size ≤ max q 2 + 1
    → size % 2 ≡ 0
    → IsShardSize len k size
rounded-IsShardSize len k q size pos lo hi above below even = record {
  covers = omega (arith, mul_le k q size (omega arith));
  even = even;
  at_least_2 = omega arith;
  in_range = elim (Bool-cases (ltb q 2)) [
    | inl small ↦ let h = ltb→lt q 2 small in omega (arith, mul_le k size 3 (omega arith))
    | inr large ↦
        let h = ltb-false→le q 2 large in omega (arith, mul_le k size (q + 1) (omega arith))
  ];
}

-- The quotient is at most the sum that it comes from.
div_le : (n k : ℕ) → 0 < k → n / k ≤ n
div_le n k h = grind arith

mul-div_le : (n k : ℕ) → 0 < k → k * (n / k) ≤ n
mul-div_le n k h = omega (arith, div-add-mod n k)

pub shard_size_of-IsShardSize :
    (len k : ℕ) → 0 < k → len + k + k + k < word → IsShardSize len k (shard_size_of len k)
unfolding shard_size_of
shard_size_of-IsShardSize len k pos fits =
    let n = len + k - 1 in
    let q = n / k in
    let round = clear_bit0_bounds (max q 2) in
    let q_le : q ≤ n = div_le n k pos in
    rw (add64_lem len k (omega arith)) (
      rw (sub64_lem (len + k) 1 (omega arith) (omega arith)) (
        rw (add64_lem (max q 2) 1 (omega arith)) (
          rounded-IsShardSize len k q _ pos (div_up len k pos) (omega (arith, mul-div_le n k pos))
            round.0 round.1 round.2)))

-- A shard, with its zeros.
abbrev pub pad : ℕ → Text → Text
pad size s = s ++ replicate (size - length s) 0

pub length-pad : (size : ℕ) (s : Text) → length s ≤ size → length (pad size s) ≡ size
length-pad size s h =
    let zeros : Text = replicate (size - length s) 0 in
    omega (arith, length-append s zeros, length-replicate {A = ℕ} (size - length s) 0)

pad_full : (size : ℕ) (s : Text) → size ≤ length s → pad size s ≡ s
pad_full size s h = let e : size - length s ≡ 0 = omega arith in rw e (append-nil s)

pad_branch :
    (size : ℕ) (s : Text)
    → (if ltb (length s) size then s ++ replicate (size - length s) 0 else s) ≡ pad size s
pad_branch size s = elim (Bool-cases (ltb (length s) size)) [
  | inl less ↦ rw less
  | inr full ↦ rw full (sym (pad_full size s (ltb-false→le _ _ full)))
]

-- `&data[start..end]` is the next `size` bytes, or what is left.
slice_lem :
    (block : Text) (size start : ℕ)
    → take (min (start + size) (length block) - start) (drop start block)
      ≡ take size (drop start block)
slice_lem block size start = elim (Bool-cases (leb (start + size) (length block))) [
  | inl fits ↦
      let h = leb→le _ _ fits in
      let e : min (start + size) (length block) - start ≡ size = omega arith in rw e
  | inr over ↦
      let h = leb-false→lt _ _ over in
      let e : min (start + size) (length block) - start ≡ length block - start = omega arith in
      let n = length-drop start block in
      rw e (
        take_all (length block - start) (drop start block) (omega arith)
        ∙ sym (take_all size (drop start block) (omega arith)))
]

zeros : (size : ℕ) → replicate size 0 ≡ pad size (take size [])
zeros zero = refl
zeros (suc n) = let e : suc n - 0 ≡ suc n = omega arith in rw e

pub shard_at_lem :
    (block : Text) (size i start : ℕ)
    → start ≡ i * size
    → start + size < word
    → shard_at block size i ≡ pad size (take size (drop start block))
unfolding shard_at
shard_at_lem block size i start at fits = rw (mul64_lem i size (omega arith)) (
    rw (← at) (
      rw (add64_lem start size fits) (
        rw (slice_lem block size start) (elim (Bool-cases (leb (length block) start)) [
          | inl past ↦ rw past (rw (drop_all start block (leb→le _ _ past)) (zeros size))
          | inr within ↦ rw within (pad_branch size _)
        ]))))

module _ (d rest : Text) (size : ℕ) where
  take_last : length d ≤ size → take (length d) (pad size (take size d) ++ rest) ≡ d
  take_last h = rw (take_all size d h) (rw (append_assoc d) (take-append_length d _))

  take_more :
      (m : ℕ)
      → size ≤ length d
      → take m rest ≡ drop size d
      → take (size + m) (pad size (take size d) ++ rest) ≡ d
  take_more m h e =
      let n : length (take size d) ≡ size = omega (arith, length-take size d) in
      rw (pad_full size (take size d) (omega arith)) (
        subst (λ k. take (k + m) (take size d ++ rest) ≡ d) n
          (take-append_add (take size d) rest m
            ∙ ap (λ t. take size d ++ t) e
            ∙ take-append-drop size d))

module _ (block : Text) (size : ℕ) where
  pub length-shard_at :
      (i start : ℕ) → start ≡ i * size → start + size < word → length (shard_at block size i) ≡ size
  length-shard_at i start at fits =
      rw (shard_at_lem block size i start at fits)
        (length-pad size _ (omega (arith, length-take size (drop start block))))

  -- The shards from round `i` on begin with what is left of the block.
  pub take-concat-shards :
      (n i start : ℕ)
      → start ≡ i * size
      → start + n * size < word
      → length block ≤ start + n * size
      → take (length block - start) (concat (original_shards block size i n)) ≡ drop start block
  unfolding original_shards
  take-concat-shards zero i start at fits covers =
      let e : length block - start ≡ 0 = omega arith in rw (e, drop_all start block (omega arith))
  take-concat-shards (suc n) i start at fits covers =
      let len = length-drop start block in
      let rest = concat (original_shards block size (i + 1) n) in
      rw (shard_at_lem block size i start at (omega arith))
        (elim (Bool-cases (leb (length block) (start + size))) [
          | inl last ↦
              rw (← len) (take_last (drop start block) rest size (omega (arith, leb→le _ _ last)))
          | inr more ↦
              let within = leb-false→lt _ _ more in
              let e : length block - start ≡ size + (length block - (start + size)) = omega arith in
              rw e (
                take_more (drop start block) rest size (length block - (start + size)) (omega arith)
                  (take-concat-shards n (i + 1) (start + size) (omega arith) (omega arith)
                      (omega arith)
                    ∙ sym (drop-drop start size block)))
        ])

  pub length-original_shards : (n i : ℕ) → length (original_shards block size i n) ≡ n
  unfolding original_shards
  length-original_shards zero i = refl
  length-original_shards (suc n) i = ap suc (length-original_shards n (i + 1))

  pub original_shards-All :
      (n i start : ℕ)
      → start ≡ i * size
      → start + n * size < word
      → All (λ d. length d ≡ size) (original_shards block size i n)
  unfolding original_shards
  original_shards-All zero i start at fits = tt
  original_shards-All (suc n) i start at fits = (
    length-shard_at i start at (omega arith),
    original_shards-All n (i + 1) (start + size) (omega arith) (omega arith),
  )
