-- ===== src/Mgmt/Admission.antt =====
-- Who passes `auth_middleware` of src/web/auth.rs.
use s3prism.Base.{
  ◌≡◌, ◌↔◌, refl, sym, ap, ◌∙◌, subst, ◌⊎◌, inl, inr, true, not, ◌&&◌, ◌||◌, List, [], ◌∷◌, ◌++◌,
  Text, bytes, text_eq, text_eq_iff, text_eq_refl, strip_prefix, strip_prefix-append,
  strip_prefix-eq-some, Option, none, some, any, length, ◌==◌, ok, Bool-cases, arith,
}
use s3prism.Metadata.Models.{AdminUser}
use s3prism.Metadata.Objects.{is_some}
use s3prism.Mgmt.Auth.{
  has_users, knows_hash, user_token, password_token, bearer, auth_middleware, user_hash,
  token_valid,
}

-- A user has this hash.
abbrev pub HasHash : Text → List AdminUser → Type 0
HasHash hash [] = ⊥
HasHash hash (u ∷ users) = (u.password_hash ≡ hash) ⊎ HasHash hash users

-- The token is the password, or names the hash of a user.
abbrev pub IsToken : Option Text → List AdminUser → Text → Type 0
IsToken password users token =
    ((hash : Text) × (token ≡ bytes "user:" ++ hash) × HasHash hash users) ⊎ (password ≡ some token)

-- The header is `Bearer` with a token.
abbrev pub CarriesToken : Option Text → Option Text → List AdminUser → Type 0
CarriesToken password header users =
    (token : Text) × (header ≡ some (bytes "Bearer " ++ token)) × IsToken password users token

-- There is neither a user nor a password, or the header carries a token.
abbrev pub IsAdmitted : Option Text → Option Text → List AdminUser → Type 0
IsAdmitted password header users =
    ((users ≡ []) × (password ≡ none)) ⊎ CarriesToken password header users

pub any-HasHash :
    (hash : Text) (users : List AdminUser)
    → any (λ (u : AdminUser). text_eq u.password_hash hash) users ≡ true
    → HasHash hash users
any-HasHash hash [] h = cc
any-HasHash hash (u ∷ users) h = elim (Bool-cases (text_eq u.password_hash hash)) [
  | inl same ↦ inl ((text_eq_iff u.password_hash hash).0 same)
  | inr other ↦ inr (any-HasHash hash users (ground (arith, h, other)))
]

HasHash-any :
    (hash : Text) (users : List AdminUser)
    → HasHash hash users
    → any (λ (u : AdminUser). text_eq u.password_hash hash) users ≡ true
HasHash-any hash [] h = absurd h
HasHash-any hash (u ∷ users) (inl same) = rw ((text_eq_iff u.password_hash hash).1 same) refl
HasHash-any hash (u ∷ users) (inr later) = ground (arith, HasHash-any hash users later)

HasHash-has_users :
    (hash : Text) (users : List AdminUser) → HasHash hash users → not (length users == 0) ≡ true
HasHash-has_users hash [] h = absurd h
HasHash-has_users hash (u ∷ users) h = ground arith

module _ (users : List AdminUser) where
  user_hash-HasHash :
      (token : Text) (o : Option Text)
      → strip_prefix (bytes "user:") token ≡ o
      → user_hash (ok users) (ok users) o ≡ true
      → (hash : Text) × (token ≡ bytes "user:" ++ hash) × HasHash hash users
  unfolding has_users knows_hash
  user_hash-HasHash token none found h = cc
  user_hash-HasHash token (some hash) found h = (
    hash,
    strip_prefix-eq-some (bytes "user:") token found,
    any-HasHash hash users (ground (arith, h)),
  )

  HasHash-user_token :
      (hash : Text)
      → HasHash hash users
      → user_token (bytes "user:" ++ hash) (ok users) (ok users) ≡ true
  unfolding user_token has_users knows_hash
  HasHash-user_token hash held =
      ap (user_hash (ok users) (ok users)) (strip_prefix-append (bytes "user:") hash)
      ∙ ground (arith, HasHash-has_users hash users held, HasHash-any hash users held)

  password_token-eq :
      (token : Text) (p : Option Text) → password_token token p ≡ true → p ≡ some token
  unfolding password_token
  password_token-eq token none h = cc
  password_token-eq token (some pw) h = ap some (sym ((text_eq_iff token pw).0 h))

  password_token_refl : (token : Text) → password_token token (some token) ≡ true
  unfolding password_token
  password_token_refl token = text_eq_refl token

  module _ (password : Option Text) where
    token_valid-IsToken :
        (token : Text)
        → token_valid password (ok users) (ok users) (some token) ≡ true
        → IsToken password users token
    unfolding token_valid user_token
    token_valid-IsToken token h = elim (Bool-cases (user_token token (ok users) (ok users))) [
      | inl user ↦ inl (user_hash-HasHash token (strip_prefix (bytes "user:") token) refl user)
      | inr other ↦ inr (password_token-eq token password (rw other at h))
    ]

    IsToken-token_valid :
        (token : Text)
        → IsToken password users token
        → token_valid password (ok users) (ok users) (some token) ≡ true
    unfolding token_valid
    IsToken-token_valid token (inl (hash, is, held)) =
        ap (λ t. user_token t (ok users) (ok users) || password_token token password) is
        ∙ rw (HasHash-user_token hash held) refl
    IsToken-token_valid token (inr is) =
        ap (λ p. user_token token (ok users) (ok users) || password_token token p) is
        ∙ ground (arith, password_token_refl token)

    bearer-eq-some :
        (header : Option Text) (o : Option Text)
        → bearer header ≡ o
        → token_valid password (ok users) (ok users) o ≡ true
        → (token : Text) × (header ≡ some (bytes "Bearer " ++ token)) × IsToken password users token
    unfolding bearer token_valid
    bearer-eq-some header none is h = cc
    bearer-eq-some none (some token) is h = cc
    bearer-eq-some (some t) (some token) is h =
        (token, ap some (strip_prefix-eq-some (bytes "Bearer ") t is), token_valid-IsToken token h)

    bearer-append : (token : Text) → bearer (some (bytes "Bearer " ++ token)) ≡ some token
    unfolding bearer
    bearer-append token = strip_prefix-append (bytes "Bearer ") token

    gate-eq :
        (us : List AdminUser) (p : Option Text)
        → (not (has_users (ok us)) && not (is_some p)) ≡ true
        → (us ≡ []) × (p ≡ none)
    unfolding has_users
    gate-eq [] none h = (refl, refl)
    gate-eq [] (some pw) h = cc
    gate-eq (u ∷ us) p h = absurd (ground (arith, h))

    IsToken-auth_middleware :
        (token : Text)
        → IsToken password users token
        → auth_middleware password (some (bytes "Bearer " ++ token)) (ok users) (ok users) ≡ true
    unfolding auth_middleware
    IsToken-auth_middleware token h =
        let valid =
          ap (token_valid password (ok users) (ok users)) (bearer-append token)
          ∙ IsToken-token_valid token h in
        elim (Bool-cases (not (has_users (ok users)) && not (is_some password))) [
          | inl unlocked ↦ rw unlocked refl
          | inr locked ↦ rw locked valid
        ]

    admitted :
        (header : Option Text)
        → IsAdmitted password header users
        → auth_middleware password header (ok users) (ok users) ≡ true
    unfolding auth_middleware has_users
    admitted header (inl (no_users, no_password)) = rw (no_users, no_password) refl
    admitted header (inr (token, is, h)) =
        subst (λ t. auth_middleware password t (ok users) (ok users) ≡ true) (sym is)
          (IsToken-auth_middleware token h)

    auth_middleware-IsAdmitted :
        (header : Option Text)
        → auth_middleware password header (ok users) (ok users) ≡ true
        → IsAdmitted password header users
    unfolding auth_middleware
    auth_middleware-IsAdmitted header h =
        elim (Bool-cases (not (has_users (ok users)) && not (is_some password))) [
          | inl unlocked ↦ inl (gate-eq users password unlocked)
          | inr locked ↦ inr (bearer-eq-some header (bearer header) refl (rw locked at h))
        ]

    -- When the administrators can be listed, a request runs if and only if there is neither an
    -- administrator nor a password, or its header is `Bearer` with a token that is the password or is
    -- `user:` with the hash of an administrator.
    pub auth_middleware_iff :
        (header : Option Text)
        → (auth_middleware password header (ok users) (ok users) ≡ true)
          ↔ IsAdmitted password header users
    auth_middleware_iff header = (auth_middleware-IsAdmitted header, admitted header)
