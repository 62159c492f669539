-- ===== src/Mgmt/Settings.antt =====
-- The settings in src/web/api.rs: erasure coding, TLS and the whole configuration.
use s3prism.Base.{
  ℕ, ◌+◌, not, ◌&&◌, ◌||◌, ◌++◌, Text, bytes, text_eq, map, Option, none, some, length, ◌==◌, ltb,
  leb, if◌then◌else◌, Result, ok, err, ◌>>=◌, ◌>>◌, ensure,
}
use s3prism.Base.Word.{add64}
use s3prism.Base.Decimal.{decimal}
use s3prism.Config.{
  RuntimeConfig, ErasureConfig, TlsConfig, StorageMode, replica, erasure, hybrid, ReadStrategy,
  fan_out_all, fetch_minimum, WriteDistribution, shuffle, priority,
}
use s3prism.Metadata.Rocks.{Rocks, Codecs}
use s3prism.Mgmt.{MgmtError, bad_request, MgmtState, Reply, update_and_save}

pub record ErasureConfigRequest : Type 0 where
  pub data_chunks : Option ℕ
  pub parity_chunks : Option ℕ
  pub default_storage_mode : Option Text
  pub hybrid_threshold_bytes : Option ℕ
  pub block_size_bytes : Option ℕ
  pub read_strategy : Option Text
  pub write_distribution : Option Text

-- `to_lowercase`. No letter outside ASCII has a lower case that is one of the letters of the words
-- below.
lower : ℕ → ℕ
lower c = if leb b'A' c && leb c b'Z' then c + 32 else c

unfoldable pub to_lowercase : Text → Text
unfolding lower
to_lowercase s = map lower s

unfoldable pub parse_storage_mode : Text → Result MgmtError StorageMode
unfolding to_lowercase
parse_storage_mode mode =
    let m = to_lowercase mode in
    if text_eq m (bytes "replica")
    then ok replica
    else if text_eq m (bytes "erasure")
    then ok erasure
    else if text_eq m (bytes "hybrid")
    then ok hybrid
    else err (bad_request (bytes "invalid storage mode"))

unfoldable pub parse_read_strategy : Text → Result MgmtError ReadStrategy
unfolding to_lowercase
parse_read_strategy rs =
    let m = to_lowercase rs in
    if text_eq m (bytes "fan_out_all") || text_eq m (bytes "fanoutall")
    then ok fan_out_all
    else if text_eq m (bytes "fetch_minimum") || text_eq m (bytes "fetchminimum")
    then ok fetch_minimum
    else err (bad_request (bytes "invalid read strategy"))

unfoldable pub parse_write_distribution : Text → Result MgmtError WriteDistribution
unfolding to_lowercase
parse_write_distribution wd =
    let m = to_lowercase wd in
    if text_eq m (bytes "shuffle")
    then ok shuffle
    else if text_eq m (bytes "priority")
    then ok priority
    else err (bad_request (bytes "invalid write distribution"))

-- `if let Some(x) = req.field { cfg.field = x }`.
abbrev pub or_old : {A : Type 0} → Option A → A → A
or_old none old = old
or_old (some new) old = new

-- The same where the text has to be parsed first.
abbrev pub parsed_or_old :
    {A : Type 0} → (Text → Result MgmtError A) → Option Text → A → Result MgmtError A
parsed_or_old parse none old = ok old
parsed_or_old parse (some t) old = parse t

-- The configuration with the request's fields.
unfoldable pub merge : ErasureConfigRequest → ErasureConfig → Result MgmtError ErasureConfig
unfolding parse_storage_mode parse_read_strategy parse_write_distribution
merge req e = do
  mode ← parsed_or_old parse_storage_mode req.default_storage_mode e.default_storage_mode
  strategy ← parsed_or_old parse_read_strategy req.read_strategy e.read_strategy
  distribution ← parsed_or_old parse_write_distribution req.write_distribution e.write_distribution
  ok (record {
    data_chunks = or_old req.data_chunks e.data_chunks;
    parity_chunks = or_old req.parity_chunks e.parity_chunks;
    default_storage_mode = mode;
    hybrid_threshold_bytes = or_old req.hybrid_threshold_bytes e.hybrid_threshold_bytes;
    block_size_bytes = or_old req.block_size_bytes e.block_size_bytes;
    read_strategy = strategy;
    write_distribution = distribution;
  })

abbrev exceeds_message : ℕ → ℕ → Text
exceeds_message total sites =
    bytes "data_chunks + parity_chunks ("
    ++ (decimal total ++ (bytes ") exceeds site count (" ++ (decimal sites ++ bytes ")")))

-- The two checks of `update_erasure_config`, on the counts and the number of sites.
unfoldable pub validate : ErasureConfig → ℕ → Result MgmtError (Unit {0})
validate e sites = do
  ensure (not (e.data_chunks == 0 || e.parity_chunks == 0))
      (bad_request (bytes "data_chunks and parity_chunks must be > 0"))
  let total = add64 e.data_chunks e.parity_chunks
  ensure (not (ltb sites total && not (sites == 0))) (bad_request (exceeds_message total sites))
  ok tt

unfoldable pub checked_config :
    ErasureConfigRequest → RuntimeConfig → Result MgmtError RuntimeConfig
unfolding merge validate
checked_config req cfg = do
  e ← merge req cfg.erasure
  validate e (length cfg.sites)
  ok (record cfg { erasure = e })

module _ (r : Rocks) (codecs : Codecs) where
  open r use {Db}

  abbrev pub update_checked : MgmtState Db → Result MgmtError RuntimeConfig → Reply Db ℕ
  update_checked s (err e) = (s, err e)
  update_checked s (ok cfg) = update_and_save r codecs cfg 200 s

  unfoldable pub update_erasure_config : ErasureConfigRequest → MgmtState Db → Reply Db ℕ
  update_erasure_config req s = update_checked s (checked_config req s.config)

  unfoldable pub update_tls_config : TlsConfig → MgmtState Db → Reply Db ℕ
  update_tls_config tls s = update_and_save r codecs (record s.config { tls = some tls }) 200 s

  unfoldable pub remove_tls_config : MgmtState Db → Reply Db ℕ
  remove_tls_config s = update_and_save r codecs (record s.config { tls = none }) 204 s

  unfoldable pub save_full_config : RuntimeConfig → MgmtState Db → Reply Db ℕ
  save_full_config cfg s = update_and_save r codecs cfg 200 s
