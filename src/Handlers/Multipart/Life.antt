-- ===== src/Handlers/Multipart/Life.antt =====
-- The end of an upload in src/api/handlers/multipart.rs.
use s3prism.Base.{
  ◌≡◌, refl, ap, ◌∙◌, subst, inl, inr, Bool, true, false, List, [], ◌∷◌, Text, Option, none, some,
  text_eq_refl, starts_with, if◌then◌else◌, Result, ok, err, ok_or, ◌>>=◌, >>=-eq-ok, ok_injective,
  Bool-cases,
}
use s3prism.Fault.{Fault}
use s3prism.Metadata
use s3prism.Metadata.Models.{ObjectMeta, MultipartUpload}
use s3prism.Metadata.Rocks.{
  Rocks, Codecs, Family, multipart, Contents, Write, delete, at, apply_write, apply_writes,
}
use s3prism.Metadata.Objects.{decode_value}
use s3prism.Metadata.Buckets.{get_bucket}
use s3prism.Metadata.Uploads.{
  upload_key, parts_prefix, deletes_from, delete_parts, get_multipart_upload,
  delete_multipart_upload, list_parts,
}
use s3prism.Errors.{no_such_upload, no_such_bucket}
use s3prism.Handlers.{Services, stored, place}
use s3prism.Handlers.Multipart.{
  Getter, Deletion, assemble, store_assembled, complete_multipart_upload, abort_multipart_upload,
}
use s3prism.Handlers.Multipart.Order.{stored-eq-ok}

-- A batch of deletions brings no value back.
deletes_from-none :
    (prefix : Text) (items : List (Result Fault (Text × Text))) (ws : List Write) (c : Contents)
    (cf : Family) (k : Text)
    → deletes_from prefix items ≡ ok ws
    → c cf k ≡ none
    → apply_writes ws c cf k ≡ none
unfolding deletes_from apply_writes
deletes_from-none prefix [] ws c cf k h gone =
    subst (λ us. apply_writes us c cf k ≡ none) (ok_injective h) gone
deletes_from-none prefix (err e ∷ items) ws c cf k h gone = cc
deletes_from-none prefix (ok (key, value) ∷ items) ws c cf k h gone =
    elim (Bool-cases (starts_with prefix key)) [
      | inl inside ↦
          let (rest, later, h1) = >>=-eq-ok (deletes_from prefix items) _ (rw inside at h) in
          subst (λ us. apply_writes us c cf k ≡ none) (ok_injective h1)
            (deletes_from-none prefix items rest (apply_write (delete multipart key) c) cf k later
              (kept (at multipart key cf k)))
      | inr outside ↦
          subst (λ us. apply_writes us c cf k ≡ none) (ok_injective (rw outside at h)) gone
    ]
  where
    kept : (b : Bool) → (if b then none else c cf k) ≡ none
    kept true = refl
    kept false = gone

module _ (r : Rocks) (codecs : Codecs) where
  open r use {Db}

  delete_multipart_upload-none :
      (id : Text) (d d' : Db)
      → delete_multipart_upload r codecs id d ≡ ok d'
      → r.contents d' multipart (upload_key id) ≡ none
  unfolding delete_multipart_upload delete_parts apply_writes
  delete_multipart_upload-none id d d' h =
      let (d1, gone, h1) = >>=-eq-ok (r.write (delete multipart (upload_key id) ∷ []) d) _ h in
      let (ws, batch, h2) =
        >>=-eq-ok (deletes_from (parts_prefix id) (r.iterator_cf multipart (parts_prefix id) d1)) _
          h1 in
      let now : r.contents d1 multipart (upload_key id) ≡ none =
        r.write-contents _ d gone multipart (upload_key id)
        ∙ rw (text_eq_refl (upload_key id)) refl in
      r.write-contents ws d1 h2 multipart (upload_key id)
      ∙ deletes_from-none (parts_prefix id) (r.iterator_cf multipart (parts_prefix id) d1) ws
          (r.contents d1) multipart (upload_key id) batch now

  get_multipart_upload-none :
      (id : Text) (d : Db) {o : Option MultipartUpload}
      → r.contents d multipart (upload_key id) ≡ none
      → get_multipart_upload r codecs id d ≡ ok o
      → get_multipart_upload r codecs id d ≡ ok none
  unfolding get_multipart_upload decode_value
  get_multipart_upload-none id d {o} gone h =
      let (v, read, h1) = >>=-eq-ok (r.get_cf multipart (upload_key id) d) _ h in
      let is : v ≡ none = r.get_cf-contents multipart (upload_key id) d read ∙ gone in
      ap (λ x. x >>= λ v. decode_value codecs.upload v) (read ∙ ap ok is)

module _ (s : Services) (r : Rocks) (codecs : Codecs) where
  open r use {Db}

  -- Neither a completion nor an abortion finds the upload.
  abbrev pub IsEnded : Text → Db → Type 0
  IsEnded id d =
      (abort_multipart_upload s r codecs (some id) d ≡ err no_such_upload)
      × ((is_utf8 : Text → Bool) (get : Getter) (bucket key body : Text)
          → complete_multipart_upload s r codecs is_utf8 get (some id) bucket key body d
            ≡ err no_such_upload)

  get_multipart_upload-IsEnded :
      (id : Text) (d : Db) → get_multipart_upload r codecs id d ≡ ok none → IsEnded id d
  unfolding abort_multipart_upload complete_multipart_upload assemble
  get_multipart_upload-IsEnded id d h = (rw h refl, λ is_utf8 get bucket key body. rw h refl)

  ended :
      (id : Text) (d d' : Db) (o : Option MultipartUpload)
      → delete_multipart_upload r codecs id d ≡ ok d'
      → get_multipart_upload r codecs id d' ≡ ok o
      → IsEnded id d'
  ended id d d' o gone got = get_multipart_upload-IsEnded id d' (
      get_multipart_upload-none r codecs id d' (delete_multipart_upload-none r codecs id d d' gone)
        got)

  -- After a completion that succeeds, and while the database answers, every later completion or
  -- abortion of the same upload is refused with NoSuchUpload.
  pub complete_multipart_upload-IsEnded :
      (is_utf8 : Text → Bool) (get : Getter) (id bucket key body : Text) (d d' : Db)
      (meta : ObjectMeta) (deletions : List Deletion) (o : Option MultipartUpload)
      → complete_multipart_upload s r codecs is_utf8 get (some id) bucket key body d
        ≡ ok (meta, (deletions, d'))
      → get_multipart_upload r codecs id d' ≡ ok o
      → IsEnded id d'
  unfolding complete_multipart_upload store_assembled
  complete_multipart_upload-IsEnded is_utf8 get id bucket key body d d' meta deletions o h got =
      let (a, assembled, h0) = >>=-eq-ok (assemble s r codecs is_utf8 get id body d) _ h in
      let (held, got_bucket, h1) = >>=-eq-ok (stored (get_bucket r codecs bucket d)) _ h0 in
      let (bucket_meta, is_bucket, h2) = >>=-eq-ok (ok_or no_such_bucket held) _ h1 in
      let (written, placed, h3) =
        >>=-eq-ok (stored (place s bucket_meta a.upload.content_type a.content)) _ h2 in
      let (d1, put_it, h4) = >>=-eq-ok (stored (Metadata.Objects.put_object r codecs _ d)) _ h3 in
      let (d2, gone, h5) = >>=-eq-ok (stored (delete_multipart_upload r codecs id d1)) _ h4 in
      let is : d2 ≡ d' = ap (λ (x : ObjectMeta × (List Deletion × Db)). x.1.1) (ok_injective h5) in
      ended id d1 d' o (stored-eq-ok (delete_multipart_upload r codecs id d1) gone ∙ ap ok is) got

  -- After an abortion that succeeds, and while the database answers, every later completion or
  -- abortion of the same upload is refused with NoSuchUpload.
  pub abort_multipart_upload-IsEnded :
      (id : Text) (d d' : Db) (deletions : List Deletion) (o : Option MultipartUpload)
      → abort_multipart_upload s r codecs (some id) d ≡ ok (deletions, d')
      → get_multipart_upload r codecs id d' ≡ ok o
      → IsEnded id d'
  unfolding abort_multipart_upload
  abort_multipart_upload-IsEnded id d d' deletions o h got =
      let (found, is_there, h1) = >>=-eq-ok (stored (get_multipart_upload r codecs id d)) _ h in
      let (upload, is_upload, h2) = >>=-eq-ok (ok_or no_such_upload found) _ h1 in
      let (held, got_bucket, h3) = >>=-eq-ok (stored (get_bucket r codecs upload.bucket d)) _ h2 in
      let (bucket_meta, is_bucket, h4) = >>=-eq-ok (ok_or no_such_bucket held) _ h3 in
      let (parts, listed, h5) = >>=-eq-ok (stored (list_parts r codecs id d)) _ h4 in
      let (d2, gone, h6) = >>=-eq-ok (stored (delete_multipart_upload r codecs id d)) _ h5 in
      let is : d2 ≡ d' = ap (λ (x : List Deletion × Db). x.1) (ok_injective h6) in
      ended id d d' o (stored-eq-ok (delete_multipart_upload r codecs id d) gone ∙ ap ok is) got
