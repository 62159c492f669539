-- ===== src/Mgmt/Saved.antt =====
-- What a request of src/web/api.rs that succeeds has checked and stored.
use s3prism.Base.{
  ◌+◌, ℕ, ◌≡◌, ◌≤◌, ◌<◌, refl, sym, ap, ◌∙◌, subst, ◌⊎◌, inl, inr, true, not, ◌&&◌, ◌||◌, Text,
  bytes, text_eq, Option, none, some, length, ◌==◌, ltb, Result, ok, err, ◌>>=◌, >>=-eq-ok,
  ensure-eq-ok, ok_injective, Result-cases, Option-cases, Bool-cases, arith,
}
use s3prism.Base.Word.{word, add64, add64_lem}
use s3prism.Fault.{Fault}
use s3prism.Config.{RuntimeConfig, ErasureConfig, default_config}
use s3prism.Metadata.Rocks.{Rocks, Codecs, config, apply_writes}
use s3prism.Metadata.Objects.{decode_value}
use s3prism.Metadata.Buckets.{get_runtime_config, put_runtime_config}
use s3prism.Mgmt.{MgmtError, MgmtState, Reply, saved, update_and_save, load_from_db}
use s3prism.Mgmt.Sites.{has_site, overwrite, site_of, retain}
use s3prism.Mgmt.Settings.{
  ErasureConfigRequest, merge, validate, checked_config, update_checked, update_erasure_config,
}
use s3prism.Mgmt.Requests.{
  Request, post_site, put_site, delete_site, put_erasure, put_tls, delete_tls, put_config, handle,
}

-- Both counts are positive, and there are no sites yet, or enough for all chunks, or the sum of the
-- counts passes 64 bits.
abbrev pub IsValidErasure : ErasureConfig → ℕ → Type 0
IsValidErasure e sites =
    (0 < e.data_chunks)
    × (0 < e.parity_chunks)
    × ((sites ≡ 0)
        ⊎ ((e.data_chunks + e.parity_chunks ≤ sites) ⊎ (word ≤ e.data_chunks + e.parity_chunks)))

enough_sites :
    (k p sites : ℕ)
    → not (ltb sites (add64 k p) && not (sites == 0)) ≡ true
    → (sites ≡ 0) ⊎ ((k + p ≤ sites) ⊎ (word ≤ k + p))
enough_sites k p sites few = elim (Bool-cases (sites == 0)) [
  | inl no_sites ↦ inl (ground (arith, no_sites))
  | inr some_sites ↦ elim (Bool-cases (ltb (k + p) word)) [
    | inr past ↦ inr (inr (ground (arith, past)))
    | inl below ↦
        let total : add64 k p ≤ sites = ground (arith, few, some_sites) in
        let exact : add64 k p ≡ k + p = add64_lem k p (ground (arith, below)) in
        inr (inl (omega (arith, total, exact)))
  ]
]

validate-IsValidErasure :
    (e : ErasureConfig) (sites : ℕ) (u : Unit {0})
    → validate e sites ≡ ok u
    → IsValidErasure e sites
unfolding validate
validate-IsValidErasure e sites u h =
    let (pos, h1) = ensure-eq-ok (not (e.data_chunks == 0 || e.parity_chunks == 0)) _ _ h in
    let total = add64 e.data_chunks e.parity_chunks in
    let (few, h2) = ensure-eq-ok (not (ltb sites total && not (sites == 0))) _ _ h1 in
    (ground (arith, pos), ground (arith, pos), enough_sites e.data_chunks e.parity_chunks sites few)

module _ (r : Rocks) (codecs : Codecs) where
  open r use {Db}

  err_ne_ok : {f : MgmtError} {m : ℕ} → ◌≡◌ {A = Result MgmtError ℕ} (err f) (ok m) → ⊥
  err_ne_ok e = cc

  saved-ok :
      (s s' : MgmtState Db) (cfg : RuntimeConfig) (status n : ℕ) (x : Result Fault Db)
      → saved r codecs s cfg status x ≡ (s', ok n)
      → (d : Db) × (x ≡ ok d) × (record { config = cfg; db = d } ≡ s')
  saved-ok s s' cfg status n (ok d) h = (d, refl, ap (λ (p : Reply Db ℕ). p.0) h)
  saved-ok s s' cfg status n (err e) h = absurd (err_ne_ok (ap (λ (p : Reply Db ℕ). p.1) h))

  -- A successful update of the settings of the erasure code leaves positive counts whose sum is at most
  -- the number of the sites, unless there are no sites or the sum passes 64 bits, and it changes nothing
  -- else of the configuration.
  pub update_erasure_config-IsValid :
      (req : ErasureConfigRequest) (s s' : MgmtState Db) (n : ℕ)
      → update_erasure_config r codecs req s ≡ (s', ok n)
      → IsValidErasure s'.config.erasure (length s'.config.sites)
        × (s'.config ≡ record s.config { erasure = s'.config.erasure })
  unfolding update_erasure_config update_and_save checked_config
  update_erasure_config-IsValid req s s' n h = elim (Result-cases (checked_config req s.config)) [
    | inr (e, bad) ↦ absurd (
        err_ne_ok (
          ap (λ (p : Reply Db ℕ). p.1)
            (subst (λ x. update_checked r codecs s x ≡ (s', ok n)) bad h)))
    | inl (cfg, good) ↦
        let (d, stored, same) =
          saved-ok s s' cfg 200 n (put_runtime_config r codecs cfg s.db)
            (subst (λ x. update_checked r codecs s x ≡ (s', ok n)) good h) in
        let (e, merged, g1) = >>=-eq-ok (merge req s.config.erasure) _ good in
        let (u, valid, g2) = >>=-eq-ok (validate e (length s.config.sites)) _ g1 in
        let is : record s.config { erasure = e } ≡ s'.config =
          ok_injective g2 ∙ ap (λ (t : MgmtState Db). t.config) same in
        subst
          (λ (c : RuntimeConfig).
            IsValidErasure c.erasure (length c.sites)
            × (c ≡ record s.config { erasure = c.erasure }))
          is (validate-IsValidErasure e (length s.config.sites) u valid, refl)
  ]

  put_runtime_config-contents :
      (cfg : RuntimeConfig) (d d' : Db)
      → put_runtime_config r codecs cfg d ≡ ok d'
      → (v : Text) × (codecs.runtime.to_vec cfg ≡ ok v)
        × (r.contents d' config (bytes "__runtime_config__") ≡ some v)
  unfolding put_runtime_config apply_writes text_eq
  put_runtime_config-contents cfg d d' h =
      let (v, coded, h1) = >>=-eq-ok (codecs.runtime.to_vec cfg) _ h in
      (v, coded, r.write-contents _ d h1 config (bytes "__runtime_config__"))

  load_found : Option RuntimeConfig → RuntimeConfig
  load_found o = elim o [ some cfg ↦ cfg | none ↦ default_config ]

  load_from_db-written :
      (cfg got : RuntimeConfig) (v : Text) (d : Db)
      → codecs.runtime.to_vec cfg ≡ ok v
      → r.contents d config (bytes "__runtime_config__") ≡ some v
      → load_from_db r codecs d ≡ ok got
      → got ≡ cfg
  unfolding load_from_db get_runtime_config decode_value load_found
  load_from_db-written cfg got v d coded held h =
      let (o, found, h1) = >>=-eq-ok (get_runtime_config r codecs d) _ h in
      let (stored, read, h2) = >>=-eq-ok (r.get_cf config (bytes "__runtime_config__") d) _ found in
      let is : stored ≡ some v =
        r.get_cf-contents config (bytes "__runtime_config__") d read ∙ held in
      let decoded : o ≡ some cfg = ok_injective (
        sym (subst (λ x. decode_value codecs.runtime x ≡ ok o) is h2)
        ∙ ap (λ x. x >>= λ a. ok (some a)) (codecs.runtime.from_slice-to_vec cfg coded)) in
      sym (ok_injective h1) ∙ ap load_found decoded

  update_and_save-stored :
      (s s' : MgmtState Db) (cfg got : RuntimeConfig) (status n : ℕ)
      → update_and_save r codecs cfg status s ≡ (s', ok n)
      → load_from_db r codecs s'.db ≡ ok got
      → got ≡ s'.config
  unfolding update_and_save
  update_and_save-stored s s' cfg got status n h loaded =
      let (d, put_it, same) = saved-ok s s' cfg status n (put_runtime_config r codecs cfg s.db) h in
      let (v, coded, held) = put_runtime_config-contents cfg s.db d put_it in
      load_from_db-written cfg got v d coded held
        (subst (λ (t : MgmtState Db). load_from_db r codecs t.db ≡ ok got) (sym same) loaded)
      ∙ ap (λ (t : MgmtState Db). t.config) same

  refused :
      {s s' : MgmtState Db} {e : MgmtError} {n : ℕ} → ◌≡◌ {A = Reply Db ℕ} (s, err e) (s', ok n) → ⊥
  refused h = err_ne_ok (ap (λ (p : Reply Db ℕ). p.1) h)

  -- After any request that succeeds, a restart finds the configuration that is in use: if it can be
  -- loaded from the database at all, it is that one.
  pub handle-load_from_db :
      (q : Request) (s s' : MgmtState Db) (n : ℕ) (got : RuntimeConfig)
      → handle r codecs q s ≡ (s', ok n)
      → load_from_db r codecs s'.db ≡ ok got
      → got ≡ s'.config
  unfolding handle
  handle-load_from_db (post_site req) s s' n got h loaded =
      elim (Bool-cases (has_site req.name s.config.sites)) [
        | inl used ↦ absurd (refused (rw used at h))
        | inr free ↦ update_and_save-stored s s' _ got 201 n (rw free at h) loaded
      ]
  handle-load_from_db (put_site name req) s s' n got h loaded =
      elim (Option-cases (overwrite name (site_of req) s.config.sites)) [
        | inl gone ↦ absurd (refused (rw gone at h))
        | inr (sites, found) ↦ update_and_save-stored s s' _ got 200 n (rw found at h) loaded
      ]
  handle-load_from_db (delete_site name) s s' n got h loaded =
      elim (Bool-cases (length (retain name s.config.sites) == length s.config.sites)) [
        | inl same ↦ absurd (refused (rw same at h))
        | inr fewer ↦ update_and_save-stored s s' _ got 204 n (rw fewer at h) loaded
      ]
  handle-load_from_db (put_erasure req) s s' n got h loaded =
      elim (Result-cases (checked_config req s.config)) [
        | inl (cfg, valid) ↦ update_and_save-stored s s' cfg got 200 n (rw valid at h) loaded
        | inr (e, invalid) ↦ absurd (refused (rw invalid at h))
      ]
  handle-load_from_db (put_tls tls) s s' n got h loaded =
      update_and_save-stored s s' _ got 200 n h loaded
  handle-load_from_db delete_tls s s' n got h loaded =
      update_and_save-stored s s' _ got 204 n h loaded
  handle-load_from_db (put_config cfg) s s' n got h loaded =
      update_and_save-stored s s' cfg got 200 n h loaded
