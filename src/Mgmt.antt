-- ===== src/Mgmt.antt =====
-- src/web: the management interface. A request may change the shared configuration, the database or
-- both; `config.update` comes before `save_to_db`, so an error of the latter leaves the first changed.
pub mod Sites
pub mod Settings
pub mod Users
pub mod Auth
pub mod Requests
pub mod Names
pub mod Clash
pub mod Saved
pub mod Admission
pub mod Logins
pub mod Accounts
pub mod Ping
pub mod Views
mod Tests
use s3prism.Base.{ℕ, Text, Result, ok, err, map_err, ◌>>=◌, Option, none, some}
use s3prism.Fault.{Fault}
use s3prism.Config.{RuntimeConfig, default_config}
use s3prism.Metadata.Rocks.{Rocks, Codecs}
use s3prism.Metadata.Buckets.{get_runtime_config, put_runtime_config}

-- `internal` keeps the error whose text the response shows.
pub data MgmtError : Type 0 where
  not_found conflict bad_request : Text → MgmtError
  internal : Fault → MgmtError

-- `into_response`: the status code.
unfoldable pub status_code : MgmtError → ℕ
status_code (not_found msg) = 404
status_code (conflict msg) = 409
status_code (bad_request msg) = 400
status_code (internal e) = 500

-- The shared configuration and the database.
pub record MgmtState (Db : Type 0) : Type 0 where
  pub config : RuntimeConfig
  pub db : Db

-- A handler: the state it leaves, and its result.
abbrev pub Reply : Type 0 → Type 0 → Type 0
Reply Db A = MgmtState Db × Result MgmtError A

module _ (r : Rocks) (codecs : Codecs) where
  open r use {Db}

  -- `SharedRuntimeConfig::load_from_db`.
  unfoldable pub load_from_db : Db → Result Fault RuntimeConfig
  load_from_db d = do
    stored ← get_runtime_config r codecs d
    ok (elim stored [ some cfg ↦ cfg | none ↦ default_config ])

  -- `state.config.update(cfg); state.config.save_to_db(store)?;` and the status of the response.
  abbrev pub saved : MgmtState Db → RuntimeConfig → ℕ → Result Fault Db → Reply Db ℕ
  saved s cfg status (ok d) = (record { config = cfg; db = d }, ok status)
  saved s cfg status (err e) = (record s { config = cfg }, err (internal e))

  unfoldable pub update_and_save : RuntimeConfig → ℕ → MgmtState Db → Reply Db ℕ
  update_and_save cfg status s = saved s cfg status (put_runtime_config r codecs cfg s.db)
