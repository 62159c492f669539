-- ===== src/Fault.antt =====
-- `anyhow::Error`: one constructor for each `bail!` or `context` that the modelled code raises, and
-- `external` for the errors of libraries and services.
use s3prism.Base.{ℕ}

pub data Fault : Type 0 where
  data_chunks_zero parity_chunks_zero empty_data : Fault
  chunk_counts_zero mismatched_lengths : Fault
  too_few_shards : ℕ → ℕ → Fault
  not_restored : ℕ → Fault
  write_quorum : ℕ → ℕ → Fault
  read_quorum : ℕ → ℕ → Fault
  too_few_sites : ℕ → ℕ → Fault
  no_replica : Fault
  no_confirmed_replica no_client no_part_data : Fault
  -- A response of a site whose status is an error.
  http_status : ℕ → Fault
  external : ℕ → Fault
  -- A panic: an `unwrap` or an index that fails.
  panicked : Fault
  -- Not an error of the code: a loop of the model has used up its fuel.
  out_of_fuel : Fault
