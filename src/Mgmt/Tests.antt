-- ===== src/Mgmt/Tests.antt =====
-- Runs of src/web on a database in memory.
use s3prism.Base.{
  ℕ, strip_prefix, ◌≡◌, ◌↔◌, ◌≤◌, ◌<◌, ◌≢◌, refl, inl, true, List, [], ◌∷◌, ◌++◌, Text, bytes,
  text_eq, text_le, none, some, ok, arith,
}
use s3prism.Base.Word.{word, add64}
use s3prism.Config.{SiteConfig, path, default_config, default_erasure}
use s3prism.Metadata.Models.{AdminUser}
use s3prism.Metadata.Rocks.{credentials, put, delete}
use s3prism.Metadata.Shelf.{shelf, Shelves, steps}
use s3prism.Metadata.Formats.{formats, user_wire}
use s3prism.Metadata.Objects.{decode_value}
use s3prism.Metadata.Buckets.{
  get_runtime_config, put_runtime_config, put_admin_user, get_admin_user, delete_found,
  delete_admin_user, collect_values, list_admin_users,
}
use s3prism.Mgmt.{MgmtState, update_and_save, load_from_db}
use s3prism.Mgmt.Sites.{AddSiteRequest, has_site, update_site}
use s3prism.Mgmt.Settings.{
  ErasureConfigRequest, merge, validate, checked_config, update_erasure_config,
}
use s3prism.Mgmt.Users.{
  Login, hash_password, verify_password, auth_login, login_request, create_admin_user,
  delete_admin_handler,
}
use s3prism.Mgmt.Auth.{
  auth_middleware, has_users, bearer, token_valid, user_token, password_token, knows_hash,
}
use s3prism.Mgmt.Admission.{IsAdmitted, auth_middleware_iff}
use s3prism.Mgmt.Logins.{IsAnswered, create_admin_user-login_request}
use s3prism.Mgmt.Accounts.{delete_admin_handler-has_users}
use s3prism.Mgmt.Requests.{
  Request, post_site, put_site, delete_site, put_erasure, handle, handle_all,
}
use s3prism.Mgmt.Names.{HasDistinctNames, handle_all-HasDistinctNames}
use s3prism.Mgmt.Ping.{sum, ping_result, ping_result_bounds}
use s3prism.Mgmt.Clash.{count_named, update_site_clash}
use s3prism.Mgmt.Saved.{IsValidErasure, update_erasure_config-IsValid, handle-load_from_db}

abbrev request : Text → AddSiteRequest
request name = record {
  name = name;
  region = bytes "r";
  endpoint = bytes "e";
  access_key = [];
  secret_key = [];
  priority = 1;
  url_style = none;
}

abbrev site : Text → SiteConfig
site name = record {
  name = name;
  region = bytes "r";
  endpoint = bytes "e";
  access_key = [];
  secret_key = [];
  priority = 1;
  url_style = path;
}

abbrev empty : Shelves
empty cf = []

abbrev start : MgmtState Shelves
start = record {
  config = record default_config { sites = site (bytes "a") ∷ site (bytes "b") ∷ [] };
  db = empty;
}

ne : (x y : ℕ) (s t : Text) → x ≢ y → ◌≢◌ {A = Text} (x ∷ s) (y ∷ t)
ne x y s t differ e = differ (cc e)

a_ne_b : bytes "a" ≢ bytes "b"
a_ne_b = ne 97 98 [] [] (λ e. omega (arith, e))

start-HasDistinctNames : HasDistinctNames start.config.sites
start-HasDistinctNames = ((a_ne_b, tt), (tt, tt))

abbrev requests : List Request
requests =
    post_site (request (bytes "c"))
    ∷ put_site (bytes "a") (request (bytes "a"))
    ∷ delete_site (bytes "b")
    ∷ []

handle_all-HasDistinctNames_example :
    HasDistinctNames (handle_all shelf formats requests start).config.sites
handle_all-HasDistinctNames_example =
    handle_all-HasDistinctNames shelf formats requests start (tt, (inl refl, (tt, tt)))
      start-HasDistinctNames

a-has_site : has_site (bytes "a") start.config.sites ≡ true
unfolding has_site text_eq
a-has_site = refl

b-has_site : has_site (bytes "b") start.config.sites ≡ true
unfolding has_site text_eq
b-has_site = refl

update_site_clash_example :
    count_named
      (bytes "a")
      (update_site shelf formats (bytes "b") (request (bytes "a")) start).0.config.sites
    ≡ 2
update_site_clash_example =
    update_site_clash shelf formats (bytes "b") (request (bytes "a")) start start-HasDistinctNames
      a_ne_b b-has_site a-has_site

abbrev one_and_one : ErasureConfigRequest
one_and_one = record {
  data_chunks = some 1;
  parity_chunks = none;
  default_storage_mode = some (bytes "Erasure");
  hybrid_threshold_bytes = none;
  block_size_bytes = none;
  read_strategy = none;
  write_distribution = none;
}

abbrev changed : MgmtState Shelves
changed = (update_erasure_config shelf formats one_and_one start).0

changed_ok : update_erasure_config shelf formats one_and_one start ≡ (changed, ok 200)
unfolding update_erasure_config checked_config merge validate update_and_save put_runtime_config
    text_eq add64
changed_ok = refl

update_erasure_config-IsValid_example :
    IsValidErasure changed.config.erasure 2
    × (changed.config ≡ record start.config { erasure = changed.config.erasure })
unfolding update_erasure_config checked_config merge validate update_and_save put_runtime_config
    text_eq add64
update_erasure_config-IsValid_example =
    update_erasure_config-IsValid shelf formats one_and_one start changed 200 changed_ok

put_changed_ok : handle shelf formats (put_erasure one_and_one) start ≡ (changed, ok 200)
unfolding handle
put_changed_ok = changed_ok

load_changed : load_from_db shelf formats changed.db ≡ ok changed.config
unfolding load_from_db get_runtime_config decode_value update_erasure_config checked_config merge
    validate update_and_save put_runtime_config text_eq add64 text_le
load_changed = refl

handle-load_from_db_example : changed.config ≡ changed.config
handle-load_from_db_example =
    handle-load_from_db shelf formats (put_erasure one_and_one) start changed 200 changed.config
      put_changed_ok load_changed

-- The digest of the texts below.
abbrev digest : Text → Text
digest t = 7 ∷ t

abbrev admin : AdminUser
admin = record { username = bytes "a"; password_hash = 7 ∷ bytes "s3prism:p"; created = 3 }

abbrev second : AdminUser
second = record { username = bytes "b"; password_hash = 7 ∷ bytes "s3prism:q"; created = 4 }

abbrev one_user : Shelves
one_user = steps (put credentials (bytes "a") (user_wire.enc admin) ∷ []) empty

abbrev two_users : Shelves
two_users = steps (put credentials (bytes "b") (user_wire.enc second) ∷ []) one_user

auth_middleware_iff_example :
    (auth_middleware
        (some (bytes "pw"))
        (some (bytes "Bearer user:x"))
        (ok (admin ∷ []))
        (ok (admin ∷ []))
      ≡ true)
    ↔ IsAdmitted (some (bytes "pw")) (some (bytes "Bearer user:x")) (admin ∷ [])
auth_middleware_iff_example =
    auth_middleware_iff (admin ∷ []) (some (bytes "pw")) (some (bytes "Bearer user:x"))

create_admin : create_admin_user digest shelf formats 3 (bytes "a") (bytes "p") empty ≡ ok one_user
unfolding create_admin_user hash_password get_admin_user decode_value put_admin_user
create_admin = refl

get_admin : get_admin_user shelf formats (bytes "a") one_user ≡ ok (some admin)
unfolding get_admin_user decode_value text_eq
get_admin = refl

list_admin : list_admin_users shelf formats one_user ≡ ok (admin ∷ [])
unfolding list_admin_users collect_values text_le
list_admin = refl

-- With the password of the interface in the header, and without a header.
create_admin_user-login_request_example :
    (l : Login) × IsAnswered digest shelf formats
      (some (bytes "Bearer m"))
      (bytes "a")
      (bytes "p")
      (some (bytes "m"))
      (admin ∷ [])
      one_user
      l
    × (auth_middleware
          (some (bytes "m"))
          (some (bytes "Bearer " ++ l.token))
          (ok (admin ∷ []))
          (ok (admin ∷ []))
        ≡ true)
create_admin_user-login_request_example =
    create_admin_user-login_request digest shelf formats 3 (some (bytes "Bearer m")) (bytes "a")
      (bytes "p") (some (bytes "m")) empty one_user (some admin) (admin ∷ []) create_admin get_admin
      list_admin

login_with_password :
    login_request digest shelf formats
      (some (bytes "Bearer m"))
      (some (bytes "a"))
      (some (bytes "m"))
      (bytes "p")
      one_user
    ≡ some (record { token = bytes "user:" ++ admin.password_hash; username = bytes "a" })
unfolding login_request auth_middleware bearer token_valid user_token password_token has_users
    list_admin_users collect_values text_le auth_login get_admin_user decode_value verify_password
    hash_password text_eq strip_prefix knows_hash
login_with_password = refl

login_without_token :
    login_request digest shelf formats none (some (bytes "a")) none (bytes "p") one_user ≡ none
unfolding login_request auth_middleware bearer token_valid has_users list_admin_users collect_values
    text_le
login_without_token = refl

-- The sum of the counts wraps, so two sites are enough for it.
validate_wrapped :
    validate
      (record default_erasure { data_chunks = 18_446_744_073_709_551_615; parity_chunks = 1 })
      2
    ≡ ok tt
unfolding validate add64
validate_wrapped = refl

delete_second :
    delete_admin_handler shelf formats (bytes "b") two_users
    ≡ ok (steps (delete credentials (bytes "b") ∷ []) two_users)
unfolding delete_admin_handler list_admin_users collect_values text_le text_eq delete_admin_user
    delete_found
delete_second = refl

list_after :
    list_admin_users shelf formats (steps (delete credentials (bytes "b") ∷ []) two_users)
    ≡ ok (admin ∷ [])
unfolding list_admin_users collect_values text_le text_eq
list_after = refl

delete_admin_handler-has_users_example : has_users (ok (admin ∷ [])) ≡ true
delete_admin_handler-has_users_example =
    delete_admin_handler-has_users shelf formats (bytes "b") two_users
      (steps (delete credentials (bytes "b") ∷ []) two_users) (admin ∷ []) delete_second list_after

abbrev times : List ℕ
times = 30 ∷ 10 ∷ 25 ∷ []

times-sum : sum times < word
times-sum = omega arith

ping_result_bounds_example :
    ((ping_result (bytes "eu") times none).min_ms ≤ (ping_result (bytes "eu") times none).avg_ms)
    × ((ping_result (bytes "eu") times none).avg_ms ≤ (ping_result (bytes "eu") times none).max_ms)
ping_result_bounds_example = ping_result_bounds (bytes "eu") times none times-sum
