-- ===== src/Startup.antt =====
-- src/main.rs: what the program is put together from when it starts. The clients of the sites are made
-- here, once, from the configuration in the database.
use s3prism.Base.{ℕ, List, map, Text, bytes, ◌++◌, Option, Result, ok, ◌>>=◌}
use s3prism.Base.Decimal.{decimal}
use s3prism.Fault.{Fault}
use s3prism.Config.{RuntimeConfig, BootstrapFile, load_bootstrap}
use s3prism.Metadata.Rocks.{Rocks, Codecs}
use s3prism.Client.{SiteClient, new_client}
use s3prism.Mgmt.{MgmtState, load_from_db}

pub record AppState (Db : Type 0) : Type 0 where
  pub config : RuntimeConfig
  pub store : Db
  pub clients : List SiteClient
  pub upload_permits : ℕ

-- The state of the S3 interface, the clients of the reaper, and the state of the management interface.
pub record Program (Db : Type 0) : Type 0 where
  pub app : AppState Db
  pub reaper_clients : List SiteClient
  pub mgmt : MgmtState Db
  pub mgmt_password : Option Text

module _ (r : Rocks) (codecs : Codecs) where
  unfoldable pub start : (mgmt_password : Option Text) → r.Db → Result Fault (Program r.Db)
  unfolding load_from_db new_client
  start mgmt_password d = do
    config ← load_from_db r codecs d
    let clients = map new_client config.sites
    ok (record {
      app = record {
        config = config;
        store = d;
        clients = clients;
        upload_permits = config.server.max_concurrent_uploads;
      };
      reaper_clients = clients;
      mgmt = record { config = config; db = d };
      mgmt_password = mgmt_password;
    })

  -- What `main` listens on and works with: the addresses of the management interface and of S3.
  pub record Served (Address : Type 0) : Type 0 where
    pub mgmt_addr : Address
    pub s3_addr : Address
    pub program : Program r.Db

  -- `Serve`, up to the servers and the reaper, which run side by side from here on. Reading a file,
  -- the crate toml, opening the database and reading an address are arguments.
  unfoldable pub main :
      {Address : Type 0} (read : Text → Option (Result Fault Text))
      (parse : Text → Result Fault BootstrapFile) (open_db : Text → Result Fault r.Db)
      (parse_address : Text → Result Fault Address)
      → Text
      → Result Fault (Served Address)
  unfolding load_bootstrap start
  main read parse open_db parse_address config_path = do
    bootstrap ← load_bootstrap read parse config_path
    d ← open_db bootstrap.db_path
    program ← start bootstrap.mgmt_password d
    mgmt_addr ← parse_address (bootstrap.bind_addr ++ (bytes ":" ++ decimal bootstrap.mgmt_port))
    s3_addr ← parse_address (bootstrap.bind_addr ++ (bytes ":" ++ decimal bootstrap.s3_port))
    ok (record { mgmt_addr = mgmt_addr; s3_addr = s3_addr; program = program })
