-- ===== src/Metadata/Spec/Keeps.antt =====
-- Single writes to the database of src/metadata/rocksdb_backend.rs, and the maps.
use s3prism.Base.{
  ◌≡◌, refl, sym, ap, ◌∙◌, subst, Bool, true, false, ◌&&◌, [], ◌∷◌, Text, Option, none, some,
  text_eq, if◌then◌else◌, ok, ◌>>=◌,
}
use s3prism.Metadata.Models.{ObjectMeta, PurgeEntry}
use s3prism.Metadata.Rocks.{Rocks, Serde, Codecs, objects, purge, put, delete, apply_writes}
use s3prism.Metadata.Keys.{object_key, NoNul, text_eq-object_key}
use s3prism.Metadata.Objects.{decode_value}
use s3prism.Metadata.Spec.{Model, set_object, set_entry, IsModel}

module _ (r : Rocks) (codecs : Codecs) where
  open r use {Db, contents}

  decode_if_some :
      {A : Type 0} (s : Serde A) (b : Bool) (a : A) (v : Text) (stored : Option Text) (o : Option A)
      → s.to_vec a ≡ ok v
      → decode_value s stored ≡ ok o
      → decode_value s (if b then some v else stored) ≡ ok (if b then some a else o)
  unfolding decode_value
  decode_if_some s true a v stored o coded h =
      ap (λ x. x >>= λ a. ok (some a)) (s.from_slice-to_vec a coded)
  decode_if_some s false a v stored o coded h = h

  decode_if_none :
      {A : Type 0} (s : Serde A) (b : Bool) (stored : Option Text) (o : Option A)
      → decode_value s stored ≡ ok o
      → decode_value s (if b then none else stored) ≡ ok (if b then none else o)
  unfolding decode_value
  decode_if_none s true stored o h = refl
  decode_if_none s false stored o h = h

  -- A read of an object, decoded.
  pub read_object :
      (d : Db) (m : Model) (bucket key : Text) (v : Option Text)
      → IsModel r codecs d m
      → NoNul bucket
      → r.get_cf objects (object_key bucket key) d ≡ ok v
      → decode_value codecs.object v ≡ ok (m.objects bucket key)
  read_object d m bucket key v h n got =
      ap (decode_value codecs.object) (r.get_cf-contents objects (object_key bucket key) d got)
      ∙ h.at_object bucket key n

  pub IsModel-set_object :
      (d d' : Db) (m : Model) (bucket key : Text) (meta : ObjectMeta) (v : Text)
      → NoNul bucket
      → codecs.object.to_vec meta ≡ ok v
      → IsModel r codecs d m
      → r.write (put objects (object_key bucket key) v ∷ []) d ≡ ok d'
      → IsModel r codecs d' (set_object bucket key (some meta) m)
  unfolding apply_writes
  IsModel-set_object d d' m bucket key meta v n coded h w = record {
    at_object = λ b k n'.
        ap (decode_value codecs.object) (r.write-contents _ d w objects (object_key b k))
        ∙ subst
            (λ t.
              decode_value codecs.object (if t then some v else contents d objects (object_key b k))
              ≡ ok (if text_eq bucket b && text_eq key k then some meta else m.objects b k))
            (sym (text_eq-object_key bucket b key k n n'))
            (decode_if_some codecs.object (text_eq bucket b && text_eq key k) meta v _ _ coded
              (h.at_object b k n'));
    at_entry = λ id.
        ap (decode_value codecs.purge_entry) (r.write-contents _ d w purge id) ∙ h.at_entry id;
  }

  pub IsModel-unset_object :
      (d d' : Db) (m : Model) (bucket key : Text)
      → NoNul bucket
      → IsModel r codecs d m
      → r.write (delete objects (object_key bucket key) ∷ []) d ≡ ok d'
      → IsModel r codecs d' (set_object bucket key none m)
  unfolding apply_writes
  IsModel-unset_object d d' m bucket key n h w = record {
    at_object = λ b k n'.
        ap (decode_value codecs.object) (r.write-contents _ d w objects (object_key b k))
        ∙ subst
            (λ t.
              decode_value codecs.object (if t then none else contents d objects (object_key b k))
              ≡ ok (if text_eq bucket b && text_eq key k then none else m.objects b k))
            (sym (text_eq-object_key bucket b key k n n'))
            (decode_if_none codecs.object (text_eq bucket b && text_eq key k) _ _
              (h.at_object b k n'));
    at_entry = λ id.
        ap (decode_value codecs.purge_entry) (r.write-contents _ d w purge id) ∙ h.at_entry id;
  }

  pub IsModel-set_entry :
      (d d' : Db) (m : Model) (e : PurgeEntry) (v : Text)
      → codecs.purge_entry.to_vec e ≡ ok v
      → IsModel r codecs d m
      → r.write (put purge e.id v ∷ []) d ≡ ok d'
      → IsModel r codecs d' (set_entry e.id (some e) m)
  unfolding apply_writes
  IsModel-set_entry d d' m e v coded h w = record {
    at_object = λ b k n.
        ap (decode_value codecs.object) (r.write-contents _ d w objects (object_key b k))
        ∙ h.at_object b k n;
    at_entry = λ id.
        ap (decode_value codecs.purge_entry) (r.write-contents _ d w purge id)
        ∙ decode_if_some codecs.purge_entry (text_eq e.id id) e v _ _ coded (h.at_entry id);
  }

  pub IsModel-unset_entry :
      (d d' : Db) (m : Model) (gone : Text)
      → IsModel r codecs d m
      → r.write (delete purge gone ∷ []) d ≡ ok d'
      → IsModel r codecs d' (set_entry gone none m)
  unfolding apply_writes
  IsModel-unset_entry d d' m gone h w = record {
    at_object = λ b k n.
        ap (decode_value codecs.object) (r.write-contents _ d w objects (object_key b k))
        ∙ h.at_object b k n;
    at_entry = λ id.
        ap (decode_value codecs.purge_entry) (r.write-contents _ d w purge id)
        ∙ decode_if_none codecs.purge_entry (text_eq gone id) _ _ (h.at_entry id);
  }

  -- The two writes of a deletion with its entry for the queue.
  pub IsModel-moved :
      (d d' : Db) (m : Model) (bucket key : Text) (e : PurgeEntry) (v : Text)
      → NoNul bucket
      → codecs.purge_entry.to_vec e ≡ ok v
      → IsModel r codecs d m
      → r.write (delete objects (object_key bucket key) ∷ put purge e.id v ∷ []) d ≡ ok d'
      → IsModel r codecs d' (set_entry e.id (some e) (set_object bucket key none m))
  unfolding apply_writes
  IsModel-moved d d' m bucket key e v n coded h w = record {
    at_object = λ b k n'.
        ap (decode_value codecs.object) (r.write-contents _ d w objects (object_key b k))
        ∙ subst
            (λ t.
              decode_value codecs.object (if t then none else contents d objects (object_key b k))
              ≡ ok (if text_eq bucket b && text_eq key k then none else m.objects b k))
            (sym (text_eq-object_key bucket b key k n n'))
            (decode_if_none codecs.object (text_eq bucket b && text_eq key k) _ _
              (h.at_object b k n'));
    at_entry = λ id.
        ap (decode_value codecs.purge_entry) (r.write-contents _ d w purge id)
        ∙ decode_if_some codecs.purge_entry (text_eq e.id id) e v _ _ coded (h.at_entry id);
  }
