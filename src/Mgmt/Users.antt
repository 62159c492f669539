-- ===== src/Mgmt/Users.antt =====
-- The administrators in src/web/api.rs, and the login.
use s3prism.Base.{
  ℕ, Bool, not, ◌||◌, ◌++◌, Text, bytes, text_eq, Option, none, some, length, ◌==◌, leb,
  if◌then◌else◌, Result, ok, err, ◌>>=◌, ◌>>◌, ensure, map_err,
}
use s3prism.Fault.{Fault}
use s3prism.Metadata.Models.{AdminUser}
use s3prism.Metadata.Rocks.{Rocks, Codecs}
use s3prism.Metadata.Objects.{is_some}
use s3prism.Metadata.Buckets.{put_admin_user, get_admin_user, delete_admin_user, list_admin_users}
use s3prism.Mgmt.Auth.{auth_middleware}
use s3prism.Mgmt.{MgmtError, not_found, conflict, bad_request, internal}

-- What a response of `auth_login` with status 200 carries.
pub record Login : Type 0 where
  pub token : Text
  pub username : Text

module _ (sha256_hex : Text → Text) where
  unfoldable pub hash_password : Text → Text
  hash_password password = sha256_hex (bytes "s3prism:" ++ password)

  unfoldable pub verify_password : Text → Text → Bool
  unfolding hash_password
  verify_password password hash = text_eq (hash_password password) hash

  abbrev pub login_of : Text → Text → AdminUser → Option Login
  login_of username password user =
      if verify_password password user.password_hash
      then some (record { token = bytes "user:" ++ user.password_hash; username = username })
      else none

  abbrev pub login_found : Text → Text → Result Fault (Option AdminUser) → Option Login
  login_found username password (ok (some user)) = login_of username password user
  login_found username password (ok none) = none
  login_found username password (err e) = none

  abbrev pub legacy_login : Text → Option Text → Option Login
  legacy_login password none = none
  legacy_login password (some pw) =
      if text_eq password pw then some (record { token = pw; username = bytes "admin" }) else none

  module _ (r : Rocks) (codecs : Codecs) where
    open r use {Db}

    -- `none` is the response 401.
    unfoldable pub auth_login :
        Option Text → (mgmt_password : Option Text) → Text → Db → Option Login
    unfolding verify_password
    auth_login none mgmt_password password d = legacy_login password mgmt_password
    auth_login (some username) mgmt_password password d =
        login_found username password (get_admin_user r codecs username d)

    -- The route /api/auth/login, which the layer of `auth_middleware` covers like all others: the
    -- handler runs if the header passes.
    unfoldable pub login_request :
        (header : Option Text)
        → Option Text
        → (mgmt_password : Option Text) → Text
        → Db
        → Option Login
    unfolding auth_login auth_middleware
    login_request header username mgmt_password password d =
        let listed = list_admin_users r codecs d in
        if auth_middleware mgmt_password header listed listed
        then auth_login username mgmt_password password d
        else none

    -- `now` is the clock.
    unfoldable pub create_admin_user : ℕ → Text → Text → Db → Result MgmtError Db
    unfolding hash_password
    create_admin_user now username password d = do
      ensure (not (length username == 0 || length password == 0))
          (bad_request (bytes "username and password required"))
      old ← map_err internal (get_admin_user r codecs username d)
      ensure (not (is_some old))
          (conflict (bytes "user '" ++ (username ++ bytes "' already exists")))
      map_err internal (
          put_admin_user r codecs
            (record { username = username; password_hash = hash_password password; created = now })
            d)

module _ (r : Rocks) (codecs : Codecs) where
  open r use {Db}

  unfoldable pub delete_admin_handler : Text → Db → Result MgmtError Db
  delete_admin_handler username d = do
    users ← map_err internal (list_admin_users r codecs d)
    ensure (not (leb (length users) 1)) (bad_request (bytes "cannot delete the last admin user"))
    deleted ← map_err internal (delete_admin_user r codecs username d)
    ensure deleted.0 (not_found (bytes "user not found"))
    ok deleted.1
