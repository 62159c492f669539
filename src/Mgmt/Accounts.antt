-- ===== src/Mgmt/Accounts.antt =====
-- The administrators of src/web/api.rs in the database, and the deletion, which keeps the last one.
use s3prism.Base.{
  ◌≡◌, ◌≢◌, ◌<◌, refl, sym, ap, ◌∙◌, inl, inr, Bool, true, false, not, List, [], ◌∷◌, Text, text_eq,
  text_eq_iff, text_eq_refl, text_le, text_le_refl, some, length, ◌==◌, leb, ok, map_err, >>=-eq-ok,
  ensure-eq-ok, ok_injective, Bool-cases, arith,
}
use s3prism.Metadata.Models.{AdminUser}
use s3prism.Metadata.Rocks.{
  Rocks, Codecs, Serde, credentials, apply_writes, delete, item_at, IsAscending,
}
use s3prism.Metadata.Objects.{is_some}
use s3prism.Metadata.Buckets.{delete_admin_user, delete_found, list_admin_users}
use s3prism.Metadata.Iterate.{Decodes, collect_values-Decodes}
use s3prism.Mgmt.{internal}
use s3prism.Mgmt.Names.{text_eq-false}
use s3prism.Mgmt.Users.{delete_admin_handler}
use s3prism.Mgmt.Auth.{has_users}
use s3prism.Mgmt.Logins.{map_err-eq-ok}

text_le-ne : (s t : Text) → text_le t s ≡ false → s ≢ t
text_le-ne s t h e = true_ne_false (sym (text_le_refl t) ∙ ap (text_le t) (sym e) ∙ h)
  where
    true_ne_false : true ≡ false → ⊥
    true_ne_false e = cc

-- Of two items with different keys at least one is not at the given key.
other_item :
    (username : Text) (s : Serde AdminUser) (items : List (Text × Text)) (us : List AdminUser)
    → Decodes s items us
    → IsAscending items
    → 1 < length us
    → (k : Text) × (k ≢ username) × ((v : Text) × (item_at k items ≡ some v))
other_item username s [] [] decoded up two = absurd (ground (arith, two))
other_item username s [] (u ∷ us) decoded up two = absurd decoded
other_item username s (x ∷ items) [] decoded up two = absurd decoded
other_item username s (x ∷ []) (u ∷ []) decoded up two = absurd (ground (arith, two))
other_item username s (x ∷ []) (u ∷ w ∷ us) decoded up two = absurd decoded.1
other_item username s ((k, v) ∷ (l, w) ∷ items) (u ∷ us) decoded up two =
    let differ = text_le-ne k l up.0.0 in
    elim (Bool-cases (text_eq k username)) [
      | inl same ↦
          let is = (text_eq_iff k username).0 same in
          let other : text_eq k l ≡ false = elim (Bool-cases (text_eq k l)) [
            | inr o ↦ o
            | inl again ↦ absurd (differ ((text_eq_iff k l).0 again))
          ] in
          (l, (λ e. differ (is ∙ sym e)), (w, rw (other, text_eq_refl l) refl))
      | inr other ↦ (k, text_eq-false k username other, (v, rw (text_eq_refl k) refl))
    ]

module _ (r : Rocks) (codecs : Codecs) where
  open r use {Db}

  has_users-contents :
      (k v : Text) (d : Db) (users : List AdminUser)
      → r.contents d credentials k ≡ some v
      → list_admin_users r codecs d ≡ ok users
      → has_users (ok users) ≡ true
  unfolding list_admin_users text_le has_users
  has_users-contents k v d users held h =
      let (items, all_ok, decoded) =
        collect_values-Decodes codecs.user (r.iterator_cf credentials [] d) users h in
      go items users decoded ((r.iterator_cf-items credentials [] d items all_ok).1 k ∙ held)
    where
      go :
          (items : List (Text × Text)) (us : List AdminUser)
          → Decodes codecs.user items us
          → item_at k items ≡ some v
          → not (length us == 0) ≡ true
      go [] us decoded e = cc
      go (x ∷ items) [] decoded e = absurd decoded
      go (x ∷ items) (u ∷ us) decoded e = ground arith

  -- Of two administrators at least one is not the one deleted.
  other_user :
      (username : Text) (d : Db) (users : List AdminUser)
      → list_admin_users r codecs d ≡ ok users
      → 1 < length users
      → (k : Text) × (k ≢ username) × ((v : Text) × (r.contents d credentials k ≡ some v))
  unfolding list_admin_users text_le
  other_user username d users h two =
      let (items, all_ok, decoded) =
        collect_values-Decodes codecs.user (r.iterator_cf credentials [] d) users h in
      let (ascending, at) = r.iterator_cf-items credentials [] d items all_ok in
      let (k, ne, (v, found)) = other_item username codecs.user items users decoded ascending two in
      (k, ne, (v, sym (at k) ∙ found))

  delete_found-contents :
      (username : Text) (d : Db) (b : Bool) (deleted : Bool × Db)
      → delete_found r codecs credentials username b d ≡ ok deleted
      → deleted.0 ≡ true
      → (k : Text) → k ≢ username
      → r.contents deleted.1 credentials k ≡ r.contents d credentials k
  unfolding delete_found apply_writes
  delete_found-contents username d false deleted h was k ne =
      absurd (cc (ap (λ (x : Bool × Db). x.0) (ok_injective h), was))
  delete_found-contents username d true deleted h was k ne =
      let (d', wrote, h1) = >>=-eq-ok (r.write (delete credentials username ∷ []) d) _ h in
      let other : text_eq username k ≡ false = elim (Bool-cases (text_eq username k)) [
        | inr o ↦ o
        | inl same ↦ absurd (ne (sym ((text_eq_iff username k).0 same)))
      ] in
      ap (λ (x : Bool × Db). r.contents x.1 credentials k) (sym (ok_injective h1))
      ∙ r.write-contents _ d wrote credentials k
      ∙ rw other refl

  delete_admin_user-contents :
      (username : Text) (d : Db) (deleted : Bool × Db)
      → delete_admin_user r codecs username d ≡ ok deleted
      → deleted.0 ≡ true
      → (k : Text) → k ≢ username
      → r.contents deleted.1 credentials k ≡ r.contents d credentials k
  unfolding delete_admin_user
  delete_admin_user-contents username d deleted h was =
      let (value, read, h1) = >>=-eq-ok (r.get_cf credentials username d) _ h in
      delete_found-contents username d (is_some value) deleted h1 was

  -- A deletion of an administrator that succeeds leaves another one: while the database answers,
  -- the interface still asks for a token.
  pub delete_admin_handler-has_users :
      (username : Text) (d d' : Db) (users : List AdminUser)
      → delete_admin_handler r codecs username d ≡ ok d'
      → list_admin_users r codecs d' ≡ ok users
      → has_users (ok users) ≡ true
  unfolding delete_admin_handler
  delete_admin_handler-has_users username d d' users h listed =
      let (before, known, h1) = >>=-eq-ok (map_err internal (list_admin_users r codecs d)) _ h in
      let (enough, h2) = ensure-eq-ok (not (leb (length before) 1)) _ _ h1 in
      let (deleted, done, h3) =
        >>=-eq-ok (map_err internal (delete_admin_user r codecs username d)) _ h2 in
      let (was, h4) = ensure-eq-ok deleted.0 _ _ h3 in
      let (k, ne, (v, held)) =
        other_user username d before (map_err-eq-ok _ known) (ground (arith, enough)) in
      let gone = delete_admin_user-contents username d deleted (map_err-eq-ok _ done) was k ne in
      has_users-contents k v d' users
        (ap (λ x. r.contents x credentials k) (sym (ok_injective h4)) ∙ gone ∙ held) listed
