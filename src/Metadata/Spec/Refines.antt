-- ===== src/Metadata/Spec/Refines.antt =====
-- Any operations on objects and the purge queue of src/metadata/rocksdb_backend.rs, and the maps.
use s3prism.Base.{
  ℕ, ◌≡◌, refl, sym, ap, ap₂, ◌∙◌, subst, Bool, true, false, List, [], ◌∷◌, Text, Option, none,
  some, All, ok, ◌>>=◌, >>=-eq-ok, ok_injective,
}
use s3prism.Metadata.Models.{ObjectMeta, PurgeEntry, from_object_meta}
use s3prism.Metadata.Rocks.{Rocks, Serde, Codecs, objects, delete}
use s3prism.Metadata.Keys.{object_key, NoNul}
use s3prism.Metadata.Objects.{
  decode_value, is_some, put_object, get_object, head_object, delete_object, delete_if_some,
  delete_object_and_enqueue_purge, purge_writes, enqueue_found,
}
use s3prism.Metadata.Queue.{enqueue_purge, update_purge_entry, remove_purge_entry}
use s3prism.Metadata.Spec.{
  Op, put_op, get_op, head_op, delete_op, purge_op, enqueue_op, update_op, remove_op, Answer, done,
  object, flag, Model, set_object, set_entry, take_away, move, spec_step, spec_run, IsPlain, step,
  run, IsModel,
}
use s3prism.Metadata.Spec.Keeps.{
  IsModel-set_object, IsModel-unset_object, IsModel-set_entry, IsModel-unset_entry, IsModel-moved,
  read_object,
}

module _ (r : Rocks) (codecs : Codecs) where
  open r use {Db, contents}

  -- An answer and a database are what the maps give.
  abbrev Agrees : Answer × Db → Answer × Model → Type 0
  Agrees x y = (x.0 ≡ y.0) × IsModel r codecs x.1 y.1

  decode-is_some :
      {A : Type 0} (s : Serde A) (v : Option Text) (o : Option A)
      → decode_value s v ≡ ok o
      → is_some v ≡ is_some o
  unfolding decode_value
  decode-is_some s none o h = ap is_some (ok_injective h)
  decode-is_some s (some v) o h =
      let (a, read, h1) = >>=-eq-ok (s.from_slice v) _ h in ap is_some (ok_injective h1)

  put_step :
      (meta : ObjectMeta) (d : Db) (m : Model) (x : Answer × Db)
      → NoNul meta.bucket
      → IsModel r codecs d m
      → step r codecs (put_op meta) d ≡ ok x
      → Agrees x (spec_step (put_op meta) m)
  unfolding step put_object
  put_step meta d m x n h e =
      let (d', put_it, e1) = >>=-eq-ok (put_object r codecs meta d) _ e in
      let (v, coded, w) = >>=-eq-ok (codecs.object.to_vec meta) _ put_it in
      subst (λ y. Agrees y (spec_step (put_op meta) m)) (ok_injective e1)
        (refl, IsModel-set_object r codecs d d' m meta.bucket meta.key meta v n coded h w)

  get_step :
      (bucket key : Text) (d : Db) (m : Model) (x : Answer × Db)
      → NoNul bucket
      → IsModel r codecs d m
      → step r codecs (get_op bucket key) d ≡ ok x
      → Agrees x (spec_step (get_op bucket key) m)
  unfolding step get_object
  get_step bucket key d m x n h e =
      let (o, got, e1) = >>=-eq-ok (get_object r codecs bucket key d) _ e in
      let (v, read, e2) = >>=-eq-ok (r.get_cf objects (object_key bucket key) d) _ got in
      let is : o ≡ m.objects bucket key =
        ok_injective (sym e2 ∙ read_object r codecs d m bucket key v h n read) in
      subst (λ y. Agrees y (spec_step (get_op bucket key) m)) (ok_injective e1) (ap object is, h)

  head_step :
      (bucket key : Text) (d : Db) (m : Model) (x : Answer × Db)
      → NoNul bucket
      → IsModel r codecs d m
      → step r codecs (head_op bucket key) d ≡ ok x
      → Agrees x (spec_step (head_op bucket key) m)
  unfolding step head_object
  head_step bucket key d m x n h e =
      let (b, got, e1) = >>=-eq-ok (head_object r codecs bucket key d) _ e in
      let (v, read, e2) = >>=-eq-ok (r.get_cf objects (object_key bucket key) d) _ got in
      let is : b ≡ is_some (m.objects bucket key) =
        sym (ok_injective e2)
        ∙ decode-is_some codecs.object v _ (read_object r codecs d m bucket key v h n read) in
      subst (λ y. Agrees y (spec_step (head_op bucket key) m)) (ok_injective e1) (ap flag is, h)

  delete_found_step :
      (bucket key : Text) (o : Option ObjectMeta) (d : Db) (m : Model) (x : Option ObjectMeta × Db)
      → NoNul bucket
      → IsModel r codecs d m
      → delete_if_some r codecs (object_key bucket key) o d ≡ ok x
      → (x.0 ≡ o) × IsModel r codecs x.1 (take_away bucket key o m)
  unfolding delete_if_some
  delete_found_step bucket key none d m x n h e =
      subst (λ (y : Option ObjectMeta × Db). (y.0 ≡ none) × IsModel r codecs y.1 m) (ok_injective e)
        (refl, h)
  delete_found_step bucket key (some meta) d m x n h e =
      let (d', w, e1) = >>=-eq-ok (r.write (delete objects (object_key bucket key) ∷ []) d) _ e in
      subst
        (λ (y : Option ObjectMeta × Db).
          (y.0 ≡ some meta) × IsModel r codecs y.1 (set_object bucket key none m))
        (ok_injective e1) (refl, IsModel-unset_object r codecs d d' m bucket key n h w)

  delete_step :
      (bucket key : Text) (d : Db) (m : Model) (x : Answer × Db)
      → NoNul bucket
      → IsModel r codecs d m
      → step r codecs (delete_op bucket key) d ≡ ok x
      → Agrees x (spec_step (delete_op bucket key) m)
  unfolding step delete_object
  delete_step bucket key d m x n h e =
      let (y, deleted, e1) = >>=-eq-ok (delete_object r codecs bucket key d) _ e in
      let (v, read, e2) = >>=-eq-ok (r.get_cf objects (object_key bucket key) d) _ deleted in
      let (o, decoded, e3) = >>=-eq-ok (decode_value codecs.object v) _ e2 in
      let is : o ≡ m.objects bucket key =
        ok_injective (sym decoded ∙ read_object r codecs d m bucket key v h n read) in
      let (found, kept) = delete_found_step bucket key o d m y n h e3 in
      subst (λ z. Agrees z (spec_step (delete_op bucket key) m)) (ok_injective e1)
        (
          ap object (found ∙ is),
          subst (λ o. IsModel r codecs y.1 (take_away bucket key o m)) is kept,
        )

  move_step :
      (id : Text) (now : ℕ) (bucket key : Text) (o : Option ObjectMeta) (d : Db) (m : Model)
      (x : Bool × Db)
      → NoNul bucket
      → IsModel r codecs d m
      → enqueue_found r codecs id now (object_key bucket key) o d ≡ ok x
      → (x.0 ≡ is_some o) × IsModel r codecs x.1 (move id now bucket key o m)
  unfolding enqueue_found purge_writes from_object_meta
  move_step id now bucket key none d m x n h e =
      subst (λ (y : Bool × Db). (y.0 ≡ false) × IsModel r codecs y.1 m) (ok_injective e) (refl, h)
  move_step id now bucket key (some meta) d m x n h e =
      let entry = from_object_meta id now meta in
      let (batch, made, e1) =
        >>=-eq-ok (purge_writes r codecs id now (object_key bucket key) meta) _ e in
      let (v, coded, e2) = >>=-eq-ok (codecs.purge_entry.to_vec entry) _ made in
      let (d', w, e3) = >>=-eq-ok (r.write batch d) _ e1 in
      let written = ap (λ ws. r.write ws d) (ok_injective e2) ∙ w in
      subst
        (λ (y : Bool × Db).
          (y.0 ≡ true)
          × IsModel r codecs y.1 (set_entry id (some entry) (set_object bucket key none m)))
        (ok_injective e3) (refl, IsModel-moved r codecs d d' m bucket key entry v n coded h written)

  purge_step :
      (id : Text) (now : ℕ) (bucket key : Text) (d : Db) (m : Model) (x : Answer × Db)
      → NoNul bucket
      → IsModel r codecs d m
      → step r codecs (purge_op id now bucket key) d ≡ ok x
      → Agrees x (spec_step (purge_op id now bucket key) m)
  unfolding step delete_object_and_enqueue_purge
  purge_step id now bucket key d m x n h e =
      let (y, moved, e1) =
        >>=-eq-ok (delete_object_and_enqueue_purge r codecs id now bucket key d) _ e in
      let (v, read, e2) = >>=-eq-ok (r.get_cf objects (object_key bucket key) d) _ moved in
      let (o, decoded, e3) = >>=-eq-ok (decode_value codecs.object v) _ e2 in
      let is : o ≡ m.objects bucket key =
        ok_injective (sym decoded ∙ read_object r codecs d m bucket key v h n read) in
      let (found, kept) = move_step id now bucket key o d m y n h e3 in
      subst (λ z. Agrees z (spec_step (purge_op id now bucket key) m)) (ok_injective e1)
        (
          ap flag (found ∙ ap is_some is),
          subst (λ o. IsModel r codecs y.1 (move id now bucket key o m)) is kept,
        )

  entry_step :
      (entry : PurgeEntry) (d : Db) (m : Model) (x : Answer × Db)
      → IsModel r codecs d m
      → (update_purge_entry r codecs entry d >>= λ d. ok (done, d)) ≡ ok x
      → Agrees x (done, set_entry entry.id (some entry) m)
  unfolding update_purge_entry
  entry_step entry d m x h e =
      let (d', put_it, e1) = >>=-eq-ok (update_purge_entry r codecs entry d) _ e in
      let (v, coded, w) = >>=-eq-ok (codecs.purge_entry.to_vec entry) _ put_it in
      subst (λ y. Agrees y (done, set_entry entry.id (some entry) m)) (ok_injective e1)
        (refl, IsModel-set_entry r codecs d d' m entry v coded h w)

  remove_step :
      (id : Text) (d : Db) (m : Model) (x : Answer × Db)
      → IsModel r codecs d m
      → step r codecs (remove_op id) d ≡ ok x
      → Agrees x (spec_step (remove_op id) m)
  unfolding step remove_purge_entry
  remove_step id d m x h e =
      let (d', w, e1) = >>=-eq-ok (remove_purge_entry r codecs id d) _ e in
      subst (λ y. Agrees y (spec_step (remove_op id) m)) (ok_injective e1)
        (refl, IsModel-unset_entry r codecs d d' m id h w)

  step-Agrees :
      (op : Op) (d : Db) (m : Model) (x : Answer × Db)
      → IsPlain op
      → IsModel r codecs d m
      → step r codecs op d ≡ ok x
      → Agrees x (spec_step op m)
  unfolding step enqueue_purge update_purge_entry
  step-Agrees (put_op meta) d m x n h e = put_step meta d m x n h e
  step-Agrees (get_op bucket key) d m x n h e = get_step bucket key d m x n h e
  step-Agrees (head_op bucket key) d m x n h e = head_step bucket key d m x n h e
  step-Agrees (delete_op bucket key) d m x n h e = delete_step bucket key d m x n h e
  step-Agrees (purge_op id now bucket key) d m x n h e = purge_step id now bucket key d m x n h e
  step-Agrees (enqueue_op entry) d m x n h e = entry_step entry d m x h e
  step-Agrees (update_op entry) d m x n h e = entry_step entry d m x h e
  step-Agrees (remove_op id) d m x n h e = remove_step id d m x h e

  -- Operations on objects and the purge queue that succeed, one after the other, give the answers
  -- that two maps give, one of the objects by bucket and key and one of the entries by id, and leave
  -- the database with what the maps then hold. It holds at the start what the maps hold, and no name
  -- of a bucket holds a NUL.
  pub run-IsModel :
      (ops : List Op) (d d' : Db) (m : Model) (answers : List Answer)
      → All IsPlain ops
      → IsModel r codecs d m
      → run r codecs ops d ≡ ok (answers, d')
      → (answers ≡ (spec_run ops m).0) × IsModel r codecs d' (spec_run ops m).1
  unfolding run
  run-IsModel [] d d' m answers n h e =
      subst (λ (x : List Answer × Db). (x.0 ≡ []) × IsModel r codecs x.1 m) (ok_injective e)
        (refl, h)
  run-IsModel (op ∷ ops) d d' m answers (n, ns) h e =
      let (first, stepped, e1) = >>=-eq-ok (step r codecs op d) _ e in
      let (rest, ran, e2) = >>=-eq-ok (run r codecs ops first.1) _ e1 in
      let (same, kept) = step-Agrees op d m first n h stepped in
      let (sames, kepts) = run-IsModel ops first.1 rest.1 (spec_step op m).1 rest.0 ns kept ran in
      subst
        (λ (x : List Answer × Db).
          (x.0 ≡ (spec_run (op ∷ ops) m).0) × IsModel r codecs x.1 (spec_run (op ∷ ops) m).1)
        (ok_injective e2) (ap₂ (λ a as'. a ∷ as') same sames, kepts)
