-- ===== src/Mgmt/Names.antt =====
-- The names of the sites under the requests of src/web/api.rs.
use s3prism.Base.{
  ℕ, ◌≡◌, ◌≢◌, refl, sym, ap, ◌∙◌, subst, ◌⊎◌, inl, inr, false, List, [], ◌∷◌, ◌++◌, map, Text,
  text_eq, text_eq_iff, Option, none, some, All, Distinct, ◌||◌, ◌==◌, length, Result, ok, err,
  Bool-cases, Option-cases, some_injective, arith, >>=-eq-ok, ok_injective, Result-cases,
}
use s3prism.Fault.{Fault}
use s3prism.Config.{RuntimeConfig, SiteConfig}
use s3prism.Metadata.Rocks.{Rocks, Codecs}
use s3prism.Metadata.Buckets.{put_runtime_config}
use s3prism.Mgmt.{MgmtState, update_and_save, saved}
use s3prism.Mgmt.Sites.{has_site, site_of, overwrite, retain}
use s3prism.Mgmt.Settings.{ErasureConfigRequest, merge, validate, checked_config}
use s3prism.Mgmt.Requests.{
  Request, post_site, put_site, delete_site, put_erasure, put_tls, delete_tls, put_config, handle,
  handle_all,
}

abbrev pub names : List SiteConfig → List Text
names = map (λ (s : SiteConfig). s.name)

-- No two sites have one name.
abbrev pub HasDistinctNames : List SiteConfig → Type 0
HasDistinctNames sites = Distinct (names sites)

pub text_eq-false : (s t : Text) → text_eq s t ≡ false → s ≢ t
text_eq-false s t h e = cc (h, (text_eq_iff s t).1 e)

module _ {A : Type 0} where
  Distinct-append_one :
      (xs : List A) (y : A) → Distinct xs → All (λ x. x ≢ y) xs → Distinct (xs ++ y ∷ [])
  Distinct-append_one [] y d h = (tt, tt)
  Distinct-append_one (x ∷ xs) y (hx, d) (ne, h) = (append xs hx, Distinct-append_one xs y d h)
    where
      append : (xs : List A) → All (λ z. x ≢ z) xs → All (λ z. x ≢ z) (xs ++ y ∷ [])
      append [] h = (ne, tt)
      append (z ∷ xs) (hz, h) = (hz, append xs h)

has_site-All :
    (name : Text) (sites : List SiteConfig)
    → has_site name sites ≡ false
    → All (λ n. n ≢ name) (names sites)
unfolding has_site
has_site-All name [] h = tt
has_site-All name (s ∷ sites) h = elim (Bool-cases (text_eq s.name name)) [
  | inl same ↦ absurd (cc (h, same))
  | inr other ↦ (
    text_eq-false s.name name other,
    has_site-All name sites (subst (λ b. (b || has_site name sites) ≡ false) other h),
  )
]

pub none_ne_some : {xs : List SiteConfig} → ◌≡◌ {A = Option (List SiteConfig)} none (some xs) → ⊥
none_ne_some e = cc

names-append : (xs ys : List SiteConfig) → names (xs ++ ys) ≡ names xs ++ names ys
names-append [] ys = refl
names-append (x ∷ xs) ys = ap (λ t. x.name ∷ t) (names-append xs ys)

-- `retain` drops names, and keeps their order.
retain-All :
    (P : Text → Type 0) (name : Text) (sites : List SiteConfig)
    → All P (names sites)
    → All P (names (retain name sites))
unfolding retain
retain-All P name [] h = tt
retain-All P name (s ∷ sites) (hs, h) = elim (Bool-cases (text_eq s.name name)) [
  | inl same ↦ rw same (retain-All P name sites h)
  | inr other ↦ rw other (hs, retain-All P name sites h)
]

retain-Distinct :
    (name : Text) (sites : List SiteConfig)
    → HasDistinctNames sites
    → HasDistinctNames (retain name sites)
unfolding retain
retain-Distinct name [] h = tt
retain-Distinct name (s ∷ sites) (hs, h) = elim (Bool-cases (text_eq s.name name)) [
  | inl same ↦ rw same (retain-Distinct name sites h)
  | inr other ↦ rw other (retain-All (λ n. s.name ≢ n) name sites hs, retain-Distinct name sites h)
]

-- The new name is the old one, or no other site has it.
abbrev pub IsFree : Text → Text → List SiteConfig → Type 0
IsFree name new sites = (new ≡ name) ⊎ (has_site new sites ≡ false)

overwrite-All :
    (P : Text → Type 0) (name : Text) (site : SiteConfig) (sites sites' : List SiteConfig)
    → overwrite name site sites ≡ some sites'
    → P site.name
    → All P (names sites)
    → All P (names sites')
unfolding overwrite
overwrite-All P name site [] sites' e hp h = cc
overwrite-All P name site (s ∷ sites) sites' e hp (hs, h) =
    elim (Bool-cases (text_eq s.name name)) [
      | inl same ↦ subst (λ t. All P (names t)) (some_injective (rw same at e)) (hp, h)
      | inr other ↦ elim (Option-cases (overwrite name site sites)) [
        | inl gone ↦ absurd (none_ne_some (rw (other, gone) at e))
        | inr (rest, found) ↦
            subst (λ t. All P (names t)) (some_injective (rw (other, found) at e))
              (hs, overwrite-All P name site sites rest found hp h)
      ]
    ]

All-ne_sym :
    (n : Text) (sites : List SiteConfig)
    → All (λ m. m ≢ n) (names sites)
    → All (λ m. n ≢ m) (names sites)
All-ne_sym n [] h = tt
All-ne_sym n (s ∷ sites) (hs, h) = ((λ e. hs (sym e)), All-ne_sym n sites h)

IsFree-tail :
    (name new : Text) (s : SiteConfig) (sites : List SiteConfig)
    → IsFree name new (s ∷ sites)
    → IsFree name new sites
unfolding has_site
IsFree-tail name new s sites (inl same) = inl same
IsFree-tail name new s sites (inr free) = inr (ground (arith, free))

IsFree-ne :
    (name : Text) (site s : SiteConfig) (sites : List SiteConfig)
    → IsFree name site.name (s ∷ sites)
    → text_eq s.name name ≡ false
    → s.name ≢ site.name
IsFree-ne name site s sites (inl same) other e = text_eq-false s.name name other (e ∙ same)
IsFree-ne name site s sites (inr free) other e = (has_site-All site.name (s ∷ sites) free).0 e

IsFree-All :
    (name : Text) (site s : SiteConfig) (sites : List SiteConfig)
    → IsFree name site.name (s ∷ sites)
    → s.name ≡ name
    → All (λ n. s.name ≢ n) (names sites)
    → All (λ n. site.name ≢ n) (names sites)
IsFree-All name site s sites (inl same) e h = rw (same, ← e) h
IsFree-All name site s sites (inr free) e h =
    All-ne_sym site.name sites (has_site-All site.name (s ∷ sites) free).1

overwrite-Distinct :
    (name : Text) (site : SiteConfig) (sites sites' : List SiteConfig)
    → overwrite name site sites ≡ some sites'
    → IsFree name site.name sites
    → HasDistinctNames sites
    → HasDistinctNames sites'
unfolding overwrite
overwrite-Distinct name site [] sites' e free d = cc
overwrite-Distinct name site (s ∷ sites) sites' e free (hs, d) =
    elim (Bool-cases (text_eq s.name name)) [
      | inl same ↦
          subst HasDistinctNames (some_injective (rw same at e))
            (IsFree-All name site s sites free ((text_eq_iff s.name name).0 same) hs, d)
      | inr other ↦ elim (Option-cases (overwrite name site sites)) [
        | inl gone ↦ absurd (none_ne_some (rw (other, gone) at e))
        | inr (rest, found) ↦ subst HasDistinctNames (some_injective (rw (other, found) at e)) (
          overwrite-All (λ n. s.name ≢ n) name site sites rest found
              (IsFree-ne name site s sites free other) hs,
          overwrite-Distinct name site sites rest found (IsFree-tail name site.name s sites free) d,
        )
      ]
    ]

module _ (r : Rocks) (codecs : Codecs) where
  open r use {Db}

  saved-config :
      (s : MgmtState Db) (cfg : RuntimeConfig) (status : ℕ) (x : Result Fault Db)
      → (saved r codecs s cfg status x).0.config ≡ cfg
  saved-config s cfg status (ok d) = refl
  saved-config s cfg status (err e) = refl

  pub update_and_save-config :
      (cfg : RuntimeConfig) (status : ℕ) (s : MgmtState Db)
      → (update_and_save r codecs cfg status s).0.config ≡ cfg
  unfolding update_and_save
  update_and_save-config cfg status s =
      saved-config s cfg status (put_runtime_config r codecs cfg s.db)

  -- The requests that cannot give two sites one name: all but a renaming to a name in use and a whole
  -- configuration with such names.
  abbrev pub KeepsNames : Request → RuntimeConfig → Type 0
  KeepsNames (post_site req) cfg = Unit
  KeepsNames (put_site name req) cfg = IsFree name req.name cfg.sites
  KeepsNames (delete_site name) cfg = Unit
  KeepsNames (put_erasure req) cfg = Unit
  KeepsNames (put_tls tls) cfg = Unit
  KeepsNames delete_tls cfg = Unit
  KeepsNames (put_config new) cfg = HasDistinctNames new.sites

  -- What a save leaves has the property of the new configuration.
  saved_names :
      (cfg : RuntimeConfig) (status : ℕ) (s : MgmtState Db)
      → HasDistinctNames cfg.sites
      → HasDistinctNames (update_and_save r codecs cfg status s).0.config.sites
  saved_names cfg status s h =
      subst (λ (c : RuntimeConfig). HasDistinctNames c.sites)
        (sym (update_and_save-config cfg status s)) h

  checked_config-sites :
      (req : ErasureConfigRequest) (cfg cfg' : RuntimeConfig)
      → checked_config req cfg ≡ ok cfg'
      → cfg.sites ≡ cfg'.sites
  unfolding checked_config
  checked_config-sites req cfg cfg' h =
      let (e, merged, h1) = >>=-eq-ok (merge req cfg.erasure) _ h in
      let (u, valid, h2) = >>=-eq-ok (validate e (length cfg.sites)) _ h1 in
      ap (λ (c : RuntimeConfig). c.sites) (ok_injective h2)

  -- No request but a renaming to a name in use and the import of a configuration gives two sites one
  -- name, whether it succeeds or not.
  handle-HasDistinctNames :
      (q : Request) (s : MgmtState Db)
      → KeepsNames q s.config
      → HasDistinctNames s.config.sites
      → HasDistinctNames (handle r codecs q s).0.config.sites
  unfolding handle
  handle-HasDistinctNames (post_site req) s k d =
      elim (Bool-cases (has_site req.name s.config.sites)) [
        | inl used ↦ rw used d
        | inr free ↦ rw free (
            saved_names (record s.config { sites = s.config.sites ++ site_of req ∷ [] }) 201 s
              (subst Distinct (sym (names-append s.config.sites (site_of req ∷ []))) (
                Distinct-append_one (names s.config.sites) req.name d
                  (has_site-All req.name s.config.sites free))))
      ]
  handle-HasDistinctNames (put_site name req) s k d =
      elim (Option-cases (overwrite name (site_of req) s.config.sites)) [
        | inl gone ↦ rw gone d
        | inr (sites, found) ↦ rw found (
            saved_names (record s.config { sites = sites }) 200 s
              (overwrite-Distinct name (site_of req) s.config.sites sites found k d))
      ]
  handle-HasDistinctNames (delete_site name) s k d =
      elim (Bool-cases (length (retain name s.config.sites) == length s.config.sites)) [
        | inl same ↦ rw same d
        | inr fewer ↦ rw fewer (
            saved_names (record s.config { sites = retain name s.config.sites }) 204 s
              (retain-Distinct name s.config.sites d))
      ]
  handle-HasDistinctNames (put_erasure req) s k d =
      elim (Result-cases (checked_config req s.config)) [
        | inl (cfg, valid) ↦ rw valid (
            saved_names cfg 200 s
              (subst HasDistinctNames (checked_config-sites req s.config cfg valid) d))
        | inr (e, invalid) ↦ rw invalid d
      ]
  handle-HasDistinctNames (put_tls tls) s k d =
      saved_names (record s.config { tls = some tls }) 200 s d
  handle-HasDistinctNames delete_tls s k d = saved_names (record s.config { tls = none }) 204 s d
  handle-HasDistinctNames (put_config cfg) s k d = saved_names cfg 200 s k

  -- Each request of a sequence keeps the names, in the state that it meets.
  abbrev pub AllKeepNames : List Request → MgmtState Db → Type 0
  AllKeepNames [] s = Unit
  AllKeepNames (q ∷ qs) s = KeepsNames q s.config × AllKeepNames qs (handle r codecs q s).0

  -- The sites have different names after any sequence of requests, successful or not, if they had
  -- before it, and if no request of it renames a site to the name of another or imports a
  -- configuration with such names.
  pub handle_all-HasDistinctNames :
      (qs : List Request) (s : MgmtState Db)
      → AllKeepNames qs s
      → HasDistinctNames s.config.sites
      → HasDistinctNames (handle_all r codecs qs s).config.sites
  unfolding handle_all
  handle_all-HasDistinctNames [] s k d = d
  handle_all-HasDistinctNames (q ∷ qs) s (k, ks) d =
      handle_all-HasDistinctNames qs (handle r codecs q s).0 ks (handle-HasDistinctNames q s k d)
