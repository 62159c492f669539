-- ===== src/Config.antt =====
-- src/config.rs: the bootstrap configuration and the runtime configuration.
use s3prism.Base.{
  ℕ, Bool, not, List, [], Text, bytes, Option, none, some, length, ◌==◌, Result, ok, ◌>>=◌,
}
use s3prism.Fault.{Fault}

pub record BootstrapConfig : Type 0 where
  pub s3_port : ℕ
  pub mgmt_port : ℕ
  pub bind_addr : Text
  pub db_path : Text
  pub log_level : Text
  pub mgmt_password : Option Text

-- `BootstrapConfig::default()`.
abbrev pub default_bootstrap : BootstrapConfig
default_bootstrap = record {
  s3_port = 8443;
  mgmt_port = 9090;
  bind_addr = bytes "0.0.0.0";
  db_path = bytes "data/s3prism.rocksdb";
  log_level = bytes "info";
  mgmt_password = none;
}

-- The fields that a bootstrap file gives, as the crate toml reads them.
pub record BootstrapFile : Type 0 where
  pub s3_port : Option ℕ
  pub mgmt_port : Option ℕ
  pub bind_addr : Option Text
  pub db_path : Option Text
  pub log_level : Option Text
  pub mgmt_password : Option Text

abbrev or_default {ℓ} : {A : Type ℓ} → A → Option A → A
or_default default none = default
or_default default (some x) = x

-- `#[serde(default = ...)]` on each field.
unfoldable pub with_defaults : BootstrapFile → BootstrapConfig
with_defaults file = record {
  s3_port = or_default default_bootstrap.s3_port file.s3_port;
  mgmt_port = or_default default_bootstrap.mgmt_port file.mgmt_port;
  bind_addr = or_default default_bootstrap.bind_addr file.bind_addr;
  db_path = or_default default_bootstrap.db_path file.db_path;
  log_level = or_default default_bootstrap.log_level file.log_level;
  mgmt_password = file.mgmt_password;
}

-- `read` is the file system: nothing where the path does not exist, and otherwise what reading the file
-- returns. `parse` is the crate toml.
unfoldable pub load_bootstrap :
    (read : Text → Option (Result Fault Text)) (parse : Text → Result Fault BootstrapFile)
    → Text
    → Result Fault BootstrapConfig
unfolding with_defaults
load_bootstrap read parse at = elim (read at) [
  | none ↦ ok default_bootstrap
  | some file ↦ do contents ← file; fields ← parse contents; ok (with_defaults fields)
]

pub data UrlStyle : Type 0 where
  path virtual_host : UrlStyle

pub data StorageMode : Type 0 where
  replica erasure hybrid : StorageMode

pub data ReadStrategy : Type 0 where
  fan_out_all fetch_minimum : ReadStrategy

pub data WriteDistribution : Type 0 where
  shuffle priority : WriteDistribution

pub record SiteConfig : Type 0 where
  pub name : Text
  pub region : Text
  pub endpoint : Text
  pub access_key : Text
  pub secret_key : Text
  pub priority : ℕ
  pub url_style : UrlStyle

pub record ErasureConfig : Type 0 where
  pub data_chunks : ℕ
  pub parity_chunks : ℕ
  pub default_storage_mode : StorageMode
  pub hybrid_threshold_bytes : ℕ
  pub block_size_bytes : ℕ
  pub read_strategy : ReadStrategy
  pub write_distribution : WriteDistribution

pub record ServerRuntimeConfig : Type 0 where
  pub snapshot_interval_secs : ℕ
  pub health_check_interval_secs : ℕ
  pub max_concurrent_uploads : ℕ

pub record TlsConfig : Type 0 where
  pub cert_path : Text
  pub key_path : Text

pub record RuntimeConfig : Type 0 where
  pub sites : List SiteConfig
  pub erasure : ErasureConfig
  pub server : ServerRuntimeConfig
  pub tls : Option TlsConfig

unfoldable pub is_configured : RuntimeConfig → Bool
is_configured cfg = not (length cfg.sites == 0)

-- `ErasureConfig::default()`.
abbrev pub default_erasure : ErasureConfig
default_erasure = record {
  data_chunks = 2;
  parity_chunks = 1;
  default_storage_mode = hybrid;
  hybrid_threshold_bytes = 1_048_576;
  block_size_bytes = 67_108_864;
  read_strategy = fan_out_all;
  write_distribution = shuffle;
}

-- `ServerRuntimeConfig::default()`.
abbrev pub default_server : ServerRuntimeConfig
default_server = record {
  snapshot_interval_secs = 300;
  health_check_interval_secs = 30;
  max_concurrent_uploads = 64;
}

-- `RuntimeConfig::default()`.
abbrev pub default_config : RuntimeConfig
default_config = record {
  sites = [];
  erasure = default_erasure;
  server = default_server;
  tls = none;
}
