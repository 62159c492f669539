-- ===== src/Mgmt/Clash.antt =====
-- A renaming by `update_site` of src/web/api.rs, which has no check for a name in use.
use s3prism.Base.{
  ℕ, suc, Bool, if◌then◌else◌, ap, ◌≡◌, ◌≢◌, refl, sym, ◌∙◌, subst, inl, inr, true, false, List, [],
  ◌∷◌, Text, text_eq, text_eq_iff, text_eq_refl, some, All, Bool-cases, Option-cases,
  some_injective, arith,
}
use s3prism.Config.{RuntimeConfig, SiteConfig}
use s3prism.Metadata.Rocks.{Rocks, Codecs}
use s3prism.Mgmt.{MgmtState}
use s3prism.Mgmt.Sites.{AddSiteRequest, has_site, site_of, overwrite, update_site, update_found}
use s3prism.Mgmt.Names.{HasDistinctNames, names, none_ne_some, update_and_save-config}

-- How many sites have the name.
abbrev pub count_named : Text → List SiteConfig → ℕ
count_named name [] = 0
count_named name (s ∷ sites) =
    let rest = count_named name sites in if text_eq s.name name then suc rest else rest

count_named-absent :
    (name : Text) (sites : List SiteConfig)
    → All (λ n. name ≢ n) (names sites)
    → count_named name sites ≡ 0
count_named-absent name [] h = refl
count_named-absent name (s ∷ sites) (ne, h) = elim (Bool-cases (text_eq s.name name)) [
  | inl same ↦ absurd (ne (sym ((text_eq_iff s.name name).0 same)))
  | inr other ↦ rw other (count_named-absent name sites h)
]

-- With distinct names, a site that is there is the only one of its name.
count_named-has_site :
    (name : Text) (sites : List SiteConfig)
    → HasDistinctNames sites
    → has_site name sites ≡ true
    → count_named name sites ≡ 1
unfolding has_site
count_named-has_site name [] d h = cc
count_named-has_site name (s ∷ sites) (apart, d) h = elim (Bool-cases (text_eq s.name name)) [
  | inl same ↦
      let is = (text_eq_iff s.name name).0 same in
      rw same (
        ap suc
          (count_named-absent name sites (subst (λ n. All (λ m. n ≢ m) (names sites)) is apart)))
  | inr other ↦ rw other (count_named-has_site name sites d (ground (arith, h, other)))
]

-- An entry that is overwritten under another name is one more of the new name.
count_named-overwrite :
    (name : Text) (site : SiteConfig) (sites sites' : List SiteConfig)
    → site.name ≢ name
    → overwrite name site sites ≡ some sites'
    → count_named site.name sites' ≡ suc (count_named site.name sites)
unfolding overwrite
count_named-overwrite name site [] sites' ne e = absurd (none_ne_some e)
count_named-overwrite name site (s ∷ sites) sites' ne e = elim (Bool-cases (text_eq s.name name)) [
  | inl same ↦
      let other : text_eq s.name site.name ≡ false = elim (Bool-cases (text_eq s.name site.name)) [
        | inr o ↦ o
        | inl again ↦
            absurd
              (ne (sym ((text_eq_iff s.name site.name).0 again) ∙ (text_eq_iff s.name name).0 same))
      ] in
      subst (λ t. count_named site.name t ≡ suc (count_named site.name (s ∷ sites)))
        (some_injective (rw same at e)) (rw (text_eq_refl site.name, other) refl)
  | inr other ↦ elim (Option-cases (overwrite name site sites)) [
    | inl gone ↦ absurd (none_ne_some (rw (other, gone) at e))
    | inr (rest, found) ↦
        subst (λ t. count_named site.name t ≡ suc (count_named site.name (s ∷ sites)))
          (some_injective (rw (other, found) at e))
          (step (text_eq s.name site.name) (count_named-overwrite name site sites rest ne found))
  ]
]
  where
    step :
        (b : Bool) {after before : ℕ}
        → after ≡ suc before
        → (if b then suc after else after) ≡ suc (if b then suc before else before)
    step true e = ap suc e
    step false e = e

overwrite_total :
    (name : Text) (site : SiteConfig) (sites : List SiteConfig)
    → has_site name sites ≡ true
    → (sites' : List SiteConfig) × (overwrite name site sites ≡ some sites')
unfolding overwrite has_site
overwrite_total name site [] h = cc
overwrite_total name site (s ∷ sites) h = elim (Bool-cases (text_eq s.name name)) [
  | inl same ↦ (site ∷ sites, rw same)
  | inr other ↦
      let (rest, found) = overwrite_total name site sites (ground (arith, h, other)) in
      (s ∷ rest, rw (other, found))
]

-- Where the names of the sites differ, a request that renames a site to the name of another one leaves
-- exactly two sites with that name, whether the save succeeds or not.
pub update_site_clash :
    (r : Rocks) (codecs : Codecs) (name : Text) (req : AddSiteRequest) (s : MgmtState r.Db)
    → HasDistinctNames s.config.sites
    → req.name ≢ name
    → has_site name s.config.sites ≡ true
    → has_site req.name s.config.sites ≡ true
    → count_named req.name (update_site r codecs name req s).0.config.sites ≡ 2
unfolding update_site site_of
update_site_clash r codecs name req s distinct ne old new =
    let (sites, found) = overwrite_total name (site_of req) s.config.sites old in
    subst (λ o. count_named req.name (update_found r codecs name s o).0.config.sites ≡ 2)
      (sym found)
      (subst (λ (c : RuntimeConfig). count_named req.name c.sites ≡ 2)
        (sym (update_and_save-config r codecs (record s.config { sites = sites }) 200 s))
        (count_named-overwrite name (site_of req) s.config.sites sites ne found
          ∙ ap suc (count_named-has_site req.name s.config.sites distinct new)))
