-- ===== src/Erasure/Decoder.antt =====
-- src/erasure_coding/decoder.rs. The allocation of the output is not modelled.
use s3prism.Base.{
  ℕ, zero, suc, ◌+◌, ◌-◌, Bool, true, false, not, ◌||◌, List, [], ◌∷◌, ◌++◌, Text, Option, none,
  some, length, take, replicate, set, get_elem?, ◌==◌, ltb, leb, if◌then◌else◌, Result, ok, err,
  ◌>>=◌, ◌>>◌, ensure, ok_or,
}
use s3prism.Fault.{Fault, chunk_counts_zero, too_few_shards, not_restored, panicked}
use s3prism.Erasure.Codec.{ReedSolomon, Added, original, recovery}

pub record ShardInput : Type 0 where
  pub index : ℕ
  pub is_parity : Bool
  pub content : Text

-- The variables of the loop over the shards, with the calls on the decoder in order.
pub record Gathered : Type 0 where
  pub have_originals : List Bool
  pub original_data : List (Option Text)
  pub added : List Added

abbrev pub gathered_none : ℕ → Gathered
gathered_none k = record {
  have_originals = replicate k false;
  original_data = replicate k none;
  added = [];
}

-- `shard.index.checked_sub(data_chunks).unwrap_or(shard.index)`.
unfoldable pub recovery_index : ℕ → ℕ → ℕ
recovery_index k i = if leb k i then i - k else i

unfoldable pub gather_one : ℕ → Gathered → ShardInput → Gathered
unfolding recovery_index
gather_one k g shard =
    if shard.is_parity
    then record g { added = g.added ++ recovery (recovery_index k shard.index) shard.content ∷ [] }
    else if ltb shard.index k
    then record {
      have_originals = set g.have_originals shard.index true;
      original_data = set g.original_data shard.index (some shard.content);
      added = g.added ++ original shard.index shard.content ∷ [];
    }
    else record g { added = g.added ++ original shard.index shard.content ∷ [] }

unfoldable pub gather : ℕ → Gathered → List ShardInput → Gathered
gather k g [] = g
gather k g (shard ∷ shards) = gather k (gather_one k g shard) shards

-- `original_data[i].as_deref().unwrap()`.
abbrev pub unwrap_data : Option (Option Text) → Result Fault Text
unwrap_data (some (some d)) = ok d
unwrap_data (some none) = err panicked
unwrap_data none = err panicked

abbrev pub choose_shard : Option Bool → Gathered → (ℕ → Option Text) → ℕ → Result Fault Text
choose_shard none g restored i = err panicked
choose_shard (some true) g restored i = unwrap_data (get_elem? g.original_data i)
choose_shard (some false) g restored i = ok_or (not_restored i) (restored i)

-- The loop that reassembles the data, from round `i`, with `n` rounds left.
unfoldable pub assemble : Gathered → (ℕ → Option Text) → ℕ → ℕ → Result Fault Text
assemble g restored i zero = ok []
assemble g restored i (suc n) = do
  shard ← choose_shard (get_elem? g.have_originals i) g restored i
  rest ← assemble g restored (i + 1) n
  ok (shard ++ rest)

unfoldable pub decode : ReedSolomon → List ShardInput → ℕ → ℕ → ℕ → ℕ → Result Fault Text
decode rs shards k p shard_size original_size = do
  ensure (not (k == 0 || p == 0)) chunk_counts_zero
  ensure (leb k (length shards)) (too_few_shards k (length shards))
  let g = gather k (gathered_none k) shards
  restored ← rs.decode k p shard_size g.added
  output ← assemble g restored 0 k
  ok (take original_size output)
