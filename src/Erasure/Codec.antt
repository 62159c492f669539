-- ===== src/Erasure/Codec.antt =====
-- The crate `reed_solomon_simd` and the SHA-256 digest, which are not part of the repository: an
-- interface with what the code relies on. Used by src/erasure_coding/encoder.rs and decoder.rs.
use s3prism.Base.{
  ℕ, ◌+◌, ◌%◌, ◌≤◌, ◌<◌, ◌≡◌, Bool, true, false, Option, some, List, map, Text, length, get_elem?,
  any, All, Distinct, Result, ok, ◌==◌,
}
use s3prism.Fault.{Fault}

-- `add_original_shard(i, d)` and `add_recovery_shard(j, d)`.
pub data Added : Type 0 where
  original : ℕ → Text → Added
  recovery : ℕ → Text → Added

-- The place of a shard among the originals and the recovery shards that follow them.
abbrev pub slot : ℕ → Added → ℕ
slot k (original i d) = i
slot k (recovery j d) = k + j

abbrev pub is_original : ℕ → Added → Bool
is_original i (original j d) = i == j
is_original i (recovery j d) = false

abbrev pub IsGenuine : List Text → List Text → Added → Type 0
IsGenuine originals parity (original i d) = get_elem? originals i ≡ some d
IsGenuine originals parity (recovery j d) = get_elem? parity j ≡ some d

pub record ReedSolomon : Type 0 where
  -- The pairs of counts that the crate supports.
  pub supports : ℕ → ℕ → Bool
  -- `ReedSolomonEncoder::new`, `add_original_shard` for each shard, `encode`, `recovery_iter`.
  pub encode : ℕ → ℕ → ℕ → List Text → Result Fault (List Text)
  -- `ReedSolomonDecoder::new`, the `add_..._shard` calls, `decode`, `restored_original`.
  pub decode : ℕ → ℕ → ℕ → List Added → Result Fault (ℕ → Option Text)
  pub encode_total :
      (k p size : ℕ) (originals : List Text)
      → supports k p ≡ true
      → 0 < size
      → size % 2 ≡ 0
      → length originals ≡ k
      → All (λ d. length d ≡ size) originals
      → (parity : List Text) × (encode k p size originals ≡ ok parity)
        × (length parity ≡ p)
        × All (λ d. length d ≡ size) parity
  -- Any `k` different shards of an encoding restore the originals that were not given.
  pub restores :
      (k p size : ℕ) (originals parity : List Text) (added : List Added)
      → length originals ≡ k
      → encode k p size originals ≡ ok parity
      → All (IsGenuine originals parity) added
      → Distinct (map (slot k) added)
      → k ≤ length added
      → (restored : ℕ → Option Text) × (decode k p size added ≡ ok restored)
        × ((i : ℕ) → i < k → any (is_original i) added ≡ false → restored i ≡ get_elem? originals i)
