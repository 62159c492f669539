-- ===== src/Handlers/Multipart/Recorded.antt =====
-- What a completion in src/api/handlers/multipart.rs leaves among the objects of the database.
use s3prism.Base.{
  ◌≡◌, sym, ap, ◌∙◌, List, [], ◌∷◌, Text, some, text_eq, starts_with, if◌then◌else◌, Result, ok,
  err, >>=-eq-ok, ok_injective, inl, inr, Bool-cases,
}
use s3prism.Fault.{Fault}
use s3prism.Metadata
use s3prism.Metadata.Models.{ObjectMeta}
use s3prism.Metadata.Rocks.{
  Rocks, Codecs, objects, multipart, Contents, Write, delete, apply_write, apply_writes,
}
use s3prism.Metadata.Keys.{object_key}
use s3prism.Metadata.Laws.{put_object-contents}
use s3prism.Metadata.Uploads.{
  upload_key, parts_prefix, deletes_from, delete_parts, delete_multipart_upload,
}

-- The batch that deletes the parts leaves the objects alone.
deletes_from-objects :
    (prefix : Text) (items : List (Result Fault (Text × Text))) (ws : List Write) (c : Contents)
    (k : Text)
    → deletes_from prefix items ≡ ok ws
    → apply_writes ws c objects k ≡ c objects k
unfolding deletes_from apply_writes
deletes_from-objects prefix [] ws c k h =
    ap (λ us. apply_writes us c objects k) (sym (ok_injective h))
deletes_from-objects prefix (err e ∷ items) ws c k h = cc
deletes_from-objects prefix (ok (key, value) ∷ items) ws c k h =
    elim (Bool-cases (starts_with prefix key)) [
      | inl inside ↦
          let (rest, later, h1) = >>=-eq-ok (deletes_from prefix items) _ (rw inside at h) in
          ap (λ us. apply_writes us c objects k) (sym (ok_injective h1))
          ∙ deletes_from-objects prefix items rest (apply_write (delete multipart key) c) k later
      | inr outside ↦ ap (λ us. apply_writes us c objects k) (sym (ok_injective (rw outside at h)))
    ]

module _ (r : Rocks) (codecs : Codecs) where
  open r use {Db, contents}

  -- The record is stored under the bucket and the key, and every other object is as before.
  abbrev pub IsRecorded : ObjectMeta → Text → Text → Db → Db → Type 0
  IsRecorded meta bucket key d d' =
      (v : Text) × (codecs.object.to_vec meta ≡ ok v)
      × ((k : Text)
          → contents d' objects k
            ≡ (if text_eq (object_key bucket key) k then some v else contents d objects k))

  delete_multipart_upload-objects :
      (id k : Text) (d d' : Db)
      → delete_multipart_upload r codecs id d ≡ ok d'
      → contents d' objects k ≡ contents d objects k
  unfolding delete_multipart_upload delete_parts apply_writes
  delete_multipart_upload-objects id k d d' h =
      let (d1, gone, h1) = >>=-eq-ok (r.write (delete multipart (upload_key id) ∷ []) d) _ h in
      let (ws, batch, h2) =
        >>=-eq-ok (deletes_from (parts_prefix id) (r.iterator_cf multipart (parts_prefix id) d1)) _
          h1 in
      r.write-contents ws d1 h2 objects k
      ∙ deletes_from-objects (parts_prefix id) (r.iterator_cf multipart (parts_prefix id) d1) ws
          (contents d1) k batch
      ∙ r.write-contents _ d gone objects k

  -- The last two steps of a completion.
  pub put_object-IsRecorded :
      (meta : ObjectMeta) (id : Text) (d d1 d' : Db)
      → Metadata.Objects.put_object r codecs meta d ≡ ok d1
      → delete_multipart_upload r codecs id d1 ≡ ok d'
      → IsRecorded meta meta.bucket meta.key d d'
  put_object-IsRecorded meta id d d1 d' wrote gone =
      let (v, coded, now) = put_object-contents r codecs meta d d1 wrote in
      (v, coded, λ k. delete_multipart_upload-objects id k d1 d' gone ∙ now objects k)
