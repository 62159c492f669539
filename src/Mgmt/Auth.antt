-- ===== src/Mgmt/Auth.antt =====
-- src/web/auth.rs: which requests reach the management interface.
use s3prism.Base.{
  Bool, true, false, not, ◌&&◌, ◌||◌, List, Text, bytes, text_eq, strip_prefix, Option, none, some,
  any, length, ◌==◌, if◌then◌else◌, Result, ok, err,
}
use s3prism.Fault.{Fault}
use s3prism.Metadata.Models.{AdminUser}
use s3prism.Metadata.Objects.{is_some}

-- `list_admin_users().map(|u| !u.is_empty()).unwrap_or(false)`.
unfoldable pub has_users : Result Fault (List AdminUser) → Bool
has_users (ok users) = not (length users == 0)
has_users (err e) = false

-- `list_admin_users().map(|users| users.iter().any(..)).unwrap_or(false)`.
unfoldable pub knows_hash : Text → Result Fault (List AdminUser) → Bool
knows_hash hash (ok users) = any (λ (u : AdminUser). text_eq u.password_hash hash) users
knows_hash hash (err e) = false

-- The check of a user's token, which may fall through.
abbrev pub user_hash :
    Result Fault (List AdminUser) → Result Fault (List AdminUser) → Option Text → Bool
user_hash listed again none = false
user_hash listed again (some hash) = has_users listed && knows_hash hash again

unfoldable pub user_token :
    Text → Result Fault (List AdminUser) → Result Fault (List AdminUser) → Bool
user_token token listed again = user_hash listed again (strip_prefix (bytes "user:") token)

-- The check of the password.
unfoldable pub password_token : Text → Option Text → Bool
password_token token none = false
password_token token (some pw) = text_eq token pw

-- The token behind `Bearer `; the header is `None` where it is missing or not text.
unfoldable pub bearer : Option Text → Option Text
bearer none = none
bearer (some h) = strip_prefix (bytes "Bearer ") h

-- The two checks of the token, if there is one.
unfoldable pub token_valid :
    Option Text → Result Fault (List AdminUser) → Result Fault (List AdminUser) → Option Text → Bool
unfolding user_token password_token
token_valid mgmt_password listed again none = false
token_valid mgmt_password listed again (some token) =
    user_token token listed again || password_token token mgmt_password

-- Whether the request runs; else the response is 401. `listed` and `again` are the two answers of
-- `list_admin_users`, which may differ.
unfoldable pub auth_middleware :
    (mgmt_password header : Option Text) → (listed again : Result Fault (List AdminUser)) → Bool
unfolding bearer token_valid
auth_middleware mgmt_password header listed again =
    if not (has_users listed) && not (is_some mgmt_password)
    then true
    else token_valid mgmt_password listed again (bearer header)

-- `auth_check`.
unfoldable pub auth_required : Option Text → Result Fault (List AdminUser) → Bool
unfolding has_users
auth_required mgmt_password listed = has_users listed || is_some mgmt_password
