-- ===== src/Mgmt/Logins.antt =====
-- The requests of administrators to log in, src/web/api.rs behind the check of src/web/auth.rs.
use s3prism.Base.{
  ℕ, ◌≡◌, refl, sym, ap, ◌∙◌, subst, ◌⊎◌, inl, inr, true, not, ◌||◌, List, [], ◌++◌, Text, bytes,
  text_eq, text_eq_refl, text_le, Option, none, some, length, ◌==◌, Result, ok, err, map_err, ◌>>=◌,
  >>=-eq-ok, ensure-eq-ok, ok_injective, Bool-cases,
}
use s3prism.Fault.{Fault}
use s3prism.Metadata.Models.{AdminUser}
use s3prism.Metadata.Rocks.{Rocks, Codecs, credentials, apply_writes, item_at}
use s3prism.Metadata.Objects.{decode_value, is_some}
use s3prism.Metadata.Buckets.{put_admin_user, get_admin_user, list_admin_users}
use s3prism.Metadata.Iterate.{collect_values-Decodes, any-Decodes}
use s3prism.Mgmt.{internal}
use s3prism.Mgmt.Users.{
  Login, hash_password, verify_password, login_found, auth_login, login_request, create_admin_user,
}
use s3prism.Mgmt.Auth.{auth_middleware}
use s3prism.Mgmt.Admission.{HasHash, CarriesToken, any-HasHash, auth_middleware_iff}

pub map_err-eq-ok : {A : Type 0} (x : Result Fault A) {a : A} → map_err internal x ≡ ok a → x ≡ ok a
map_err-eq-ok (ok x) h = ap ok (ok_injective h)
map_err-eq-ok (err e) h = cc

module _ (sha256_hex : Text → Text) (r : Rocks) (codecs : Codecs) where
  open r use {Db}

  -- The administrator that `create_admin_user` stores.
  abbrev new_user : ℕ → Text → Text → AdminUser
  new_user now username password = record {
    username = username;
    password_hash = hash_password sha256_hex password;
    created = now;
  }

  created-contents :
      (now : ℕ) (username password : Text) (d d' : Db)
      → create_admin_user sha256_hex r codecs now username password d ≡ ok d'
      → (v : Text) × (codecs.user.to_vec (new_user now username password) ≡ ok v)
        × (r.contents d' credentials username ≡ some v)
  unfolding create_admin_user put_admin_user apply_writes
  created-contents now username password d d' h =
      let (full, h1) = ensure-eq-ok (not (length username == 0 || length password == 0)) _ _ h in
      let (old, read, h2) =
        >>=-eq-ok (map_err internal (get_admin_user r codecs username d)) _ h1 in
      let (fresh, h3) = ensure-eq-ok (not (is_some old)) _ _ h2 in
      let (v, coded, h4) =
        >>=-eq-ok (codecs.user.to_vec (new_user now username password)) _ (map_err-eq-ok _ h3) in
      (v, coded, r.write-contents _ d h4 credentials username ∙ rw (text_eq_refl username) refl)

  get_admin_user-contents :
      (username v : Text) (u : AdminUser) (d : Db) {o : Option AdminUser}
      → codecs.user.to_vec u ≡ ok v
      → r.contents d credentials username ≡ some v
      → get_admin_user r codecs username d ≡ ok o
      → o ≡ some u
  unfolding get_admin_user decode_value
  get_admin_user-contents username v u d {o} coded held h =
      let (value, read, h1) = >>=-eq-ok (r.get_cf credentials username d) _ h in
      let is : value ≡ some v = r.get_cf-contents credentials username d read ∙ held in
      ok_injective (
        sym (subst (λ x. decode_value codecs.user x ≡ ok o) is h1)
        ∙ ap (λ x. x >>= λ a. ok (some a)) (codecs.user.from_slice-to_vec u coded))

  listed-HasHash :
      (username v : Text) (u : AdminUser) (d : Db) (users : List AdminUser)
      → codecs.user.to_vec u ≡ ok v
      → r.contents d credentials username ≡ some v
      → list_admin_users r codecs d ≡ ok users
      → HasHash u.password_hash users
  unfolding list_admin_users text_le
  listed-HasHash username v u d users coded held h =
      let (items, all_ok, decoded) =
        collect_values-Decodes codecs.user (r.iterator_cf credentials [] d) users h in
      let found : item_at username items ≡ some v =
        (r.iterator_cf-items credentials [] d items all_ok).1 username ∙ held in
      any-HasHash u.password_hash users (
        any-Decodes codecs.user (λ (w : AdminUser). text_eq w.password_hash u.password_hash)
          username items users decoded found (codecs.user.from_slice-to_vec u coded)
          (text_eq_refl u.password_hash))

  verified :
      (password : Text)
      → verify_password sha256_hex password (hash_password sha256_hex password) ≡ true
  unfolding verify_password
  verified password = text_eq_refl (hash_password sha256_hex password)

  -- The request of a login either carries a token and returns this login, or carries none and is
  -- refused.
  abbrev pub IsAnswered :
      (header : Option Text) (username password : Text) (mgmt_password : Option Text)
      → List AdminUser
      → Db
      → Login
      → Type 0
  IsAnswered header username password mgmt_password users d l =
      (CarriesToken mgmt_password header users
        × (login_request sha256_hex r codecs header (some username) mgmt_password password d
            ≡ some l))
      ⊎ ((¬ CarriesToken mgmt_password header users)
          × (login_request sha256_hex r codecs header (some username) mgmt_password password d
              ≡ none))

  -- Once there is an administrator, what the login itself answers counts only behind the middleware.
  login_request-IsAnswered :
      (header : Option Text) (username password hash : Text) (mgmt_password : Option Text)
      (users : List AdminUser) (d : Db) (l : Login)
      → list_admin_users r codecs d ≡ ok users
      → HasHash hash users
      → auth_login sha256_hex r codecs (some username) mgmt_password password d ≡ some l
      → IsAnswered header username password mgmt_password users d l
  unfolding login_request
  login_request-IsAnswered header username password hash mgmt_password users d l listed held
        answer =
      elim (Bool-cases (auth_middleware mgmt_password header (ok users) (ok users))) [
        | inl passes ↦ elim ((auth_middleware_iff users mgmt_password header).0 passes) [
          | inl (no_users, no_password) ↦ absurd (subst (HasHash hash) no_users held)
          | inr carries ↦ inl (carries, rw (listed, passes) answer)
        ]
        | inr fails ↦ inr (
          λ carries. cc (fails, (auth_middleware_iff users mgmt_password header).1 (inr carries)),
          rw (listed, fails) refl,
        )
      ]

  -- After an administrator is created, and while the database answers, a request to log in with the name
  -- and the password succeeds if it already carries the password of the interface or the token of an
  -- administrator, and else is refused. The token that it returns passes the check of a later request.
  pub create_admin_user-login_request :
      (now : ℕ) (header : Option Text) (username password : Text) (mgmt_password : Option Text)
      (d d' : Db) (o : Option AdminUser) (users : List AdminUser)
      → create_admin_user sha256_hex r codecs now username password d ≡ ok d'
      → get_admin_user r codecs username d' ≡ ok o
      → list_admin_users r codecs d' ≡ ok users
      → (l : Login) × IsAnswered header username password mgmt_password users d' l
        × (auth_middleware mgmt_password (some (bytes "Bearer " ++ l.token)) (ok users) (ok users)
            ≡ true)
  unfolding auth_login
  create_admin_user-login_request now header username password mgmt_password d d' o users created
        got listed =
      let u = new_user now username password in
      let (v, coded, held) = created-contents now username password d d' created in
      let is : get_admin_user r codecs username d' ≡ ok (some u) =
        got ∙ ap ok (get_admin_user-contents username v u d' coded held got) in
      let l : Login = record { token = bytes "user:" ++ u.password_hash; username = username } in
      let known = listed-HasHash username v u d' users coded held listed in
      (
        l,
        login_request-IsAnswered header username password u.password_hash mgmt_password users d' l
            listed known
            (ap (login_found sha256_hex username password) is ∙ rw (verified password) refl),
        (auth_middleware_iff users mgmt_password (some (bytes "Bearer " ++ l.token))).1
            (inr (l.token, refl, inl (u.password_hash, refl, known))),
      )
