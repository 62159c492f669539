-- ===== src/Mgmt/Requests.antt =====
-- The requests of src/web/api.rs that change the configuration, as `routes` lists them.
use s3prism.Base.{ℕ, Text, List, [], ◌∷◌}
use s3prism.Config.{RuntimeConfig, TlsConfig}
use s3prism.Metadata.Rocks.{Rocks, Codecs}
use s3prism.Mgmt.{MgmtState, Reply}
use s3prism.Mgmt.Sites.{AddSiteRequest, add_site, update_site, remove_site}
use s3prism.Mgmt.Settings.{
  ErasureConfigRequest, update_erasure_config, update_tls_config, remove_tls_config,
  save_full_config,
}

pub data Request : Type 0 where
  post_site : AddSiteRequest → Request
  put_site : Text → AddSiteRequest → Request
  delete_site : Text → Request
  put_erasure : ErasureConfigRequest → Request
  put_tls : TlsConfig → Request
  delete_tls : Request
  put_config : RuntimeConfig → Request

module _ (r : Rocks) (codecs : Codecs) where
  open r use {Db}

  unfoldable pub handle : Request → MgmtState Db → Reply Db ℕ
  unfolding add_site update_site remove_site update_erasure_config update_tls_config
      remove_tls_config save_full_config
  handle (post_site req) s = add_site r codecs req s
  handle (put_site name req) s = update_site r codecs name req s
  handle (delete_site name) s = remove_site r codecs name s
  handle (put_erasure req) s = update_erasure_config r codecs req s
  handle (put_tls tls) s = update_tls_config r codecs tls s
  handle delete_tls s = remove_tls_config r codecs s
  handle (put_config cfg) s = save_full_config r codecs cfg s

  -- The state after a sequence of requests, whatever their results.
  unfoldable pub handle_all : List Request → MgmtState Db → MgmtState Db
  unfolding handle
  handle_all [] s = s
  handle_all (q ∷ qs) s = handle_all qs (handle q s).0
