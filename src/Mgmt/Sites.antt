-- ===== src/Mgmt/Sites.antt =====
-- The sites in src/web/api.rs.
use s3prism.Base.{
  map, ℕ, Bool, List, [], ◌∷◌, ◌++◌, Text, bytes, text_eq, Option, none, some, any, length, ◌==◌,
  if◌then◌else◌, err, ◌||◌,
}
use s3prism.Config.{RuntimeConfig, SiteConfig, UrlStyle, path, virtual_host}
use s3prism.Metadata.Rocks.{Rocks, Codecs}
use s3prism.Mgmt.{not_found, conflict, MgmtState, Reply, update_and_save}

pub record AddSiteRequest : Type 0 where
  pub name : Text
  pub region : Text
  pub endpoint : Text
  pub access_key : Text
  pub secret_key : Text
  pub priority : ℕ
  pub url_style : Option Text

-- The `match` on `req.url_style`.
unfoldable pub url_style_of : Option Text → UrlStyle
url_style_of none = path
url_style_of (some s) =
    if text_eq s (bytes "virtualhost") || text_eq s (bytes "virtual_host")
    then virtual_host
    else path

unfoldable pub has_site : Text → List SiteConfig → Bool
has_site name sites = any (λ (s : SiteConfig). text_eq s.name name) sites

unfoldable pub site_of : AddSiteRequest → SiteConfig
unfolding url_style_of
site_of req = record {
  name = req.name;
  region = req.region;
  endpoint = req.endpoint;
  access_key = req.access_key;
  secret_key = req.secret_key;
  priority = req.priority;
  url_style = url_style_of req.url_style;
}

-- The first site of that name is overwritten; `None` if there is none.
unfoldable pub overwrite : Text → SiteConfig → List SiteConfig → Option (List SiteConfig)
overwrite name site [] = none
overwrite name site (s ∷ sites) =
    let later : Option (List SiteConfig) = elim (overwrite name site sites) [
      | some rest ↦ some (s ∷ rest)
      | none ↦ none
    ] in
    if text_eq s.name name then some (site ∷ sites) else later

-- `retain(|s| s.name != name)`.
unfoldable pub retain : Text → List SiteConfig → List SiteConfig
retain name [] = []
retain name (s ∷ sites) =
    let rest = retain name sites in if text_eq s.name name then rest else s ∷ rest

-- `format!("site '{name}' not found")`, or `already exists`.
abbrev pub site_message : Text → Text → Text
site_message name rest = bytes "site '" ++ (name ++ (bytes "' " ++ rest))

pub record SiteResponse : Type 0 where
  pub name : Text
  pub region : Text
  pub endpoint : Text
  pub priority : ℕ
  pub url_style : Text

-- `SiteResponse::from`: the keys stay out.
unfoldable pub site_response : SiteConfig → SiteResponse
site_response s = record {
  name = s.name;
  region = s.region;
  endpoint = s.endpoint;
  priority = s.priority;
  url_style = elim s.url_style [ path ↦ bytes "Path" | virtual_host ↦ bytes "VirtualHost" ];
}

unfoldable pub list_sites : RuntimeConfig → List SiteResponse
unfolding site_response
list_sites cfg = map site_response cfg.sites

module _ (r : Rocks) (codecs : Codecs) where
  open r use {Db}

  unfoldable pub add_site : AddSiteRequest → MgmtState Db → Reply Db ℕ
  unfolding has_site site_of
  add_site req s =
      if has_site req.name s.config.sites
      then (s, err (conflict (site_message req.name (bytes "already exists"))))
      else update_and_save r codecs (record s.config { sites = s.config.sites ++ site_of req ∷ [] })
          201 s

  abbrev pub update_found : Text → MgmtState Db → Option (List SiteConfig) → Reply Db ℕ
  update_found name s none = (s, err (not_found (site_message name (bytes "not found"))))
  update_found name s (some sites) =
      update_and_save r codecs (record s.config { sites = sites }) 200 s

  unfoldable pub update_site : Text → AddSiteRequest → MgmtState Db → Reply Db ℕ
  update_site name req s = update_found name s (overwrite name (site_of req) s.config.sites)

  unfoldable pub remove_site : Text → MgmtState Db → Reply Db ℕ
  unfolding retain
  remove_site name s =
      let sites = retain name s.config.sites in
      if length sites == length s.config.sites
      then (s, err (not_found (site_message name (bytes "not found"))))
      else update_and_save r codecs (record s.config { sites = sites }) 204 s
