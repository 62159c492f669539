-- ===== src/Metadata/Spec/Tests.antt =====
-- A run of operations on a database in memory that is empty at first.
use s3prism.Base.{◌≡◌, refl, List, [], ◌∷◌, bytes, none, Result, ok, err, text_eq, arith}
use s3prism.Metadata.Models.{ObjectMeta, replicated}
use s3prism.Metadata.Shelf.{shelf, Shelves}
use s3prism.Metadata.Formats.{formats}
use s3prism.Metadata.Keys.{object_key}
use s3prism.Metadata.Queue.{remove_purge_entry}
use s3prism.Metadata.Objects.{
  decode_value, put_object, get_object, head_object, delete_object_and_enqueue_purge, enqueue_found,
  purge_writes,
}
use s3prism.Metadata.Spec.{
  Op, put_op, get_op, head_op, purge_op, remove_op, Answer, Model, spec_run, run, IsModel,
}
use s3prism.Metadata.Spec.Refines.{run-IsModel}

abbrev meta : ObjectMeta
meta = record {
  key = bytes "k";
  bucket = bytes "p";
  size = 3;
  etag = [];
  content_type = [];
  created = 0;
  modified = 0;
  user_metadata = [];
  storage_mode = replicated;
  chunks = [];
}

abbrev ops : List Op
ops =
    put_op meta
    ∷ get_op (bytes "p") (bytes "k")
    ∷ purge_op (bytes "i") 5 (bytes "p") (bytes "k")
    ∷ head_op (bytes "p") (bytes "k")
    ∷ remove_op (bytes "i")
    ∷ []

abbrev nothing : Model
nothing = record { objects = λ b k. none; queue = λ id. none }

abbrev empty : Shelves
empty cf = []

empty-IsModel : IsModel shelf formats empty nothing
unfolding decode_value
empty-IsModel = record { at_object = λ b k n. refl; at_entry = λ id. refl }

abbrev get_or {ℓ κ} : {A : Type ℓ} → {E : Type κ} → A → Result E A → A
get_or other (ok x) = x
get_or other (err e) = other

abbrev ran : List Answer × Shelves
ran = get_or ([], empty) (run shelf formats ops empty)

runs : run shelf formats ops empty ≡ ok ran
unfolding run put_object get_object decode_value text_eq object_key delete_object_and_enqueue_purge
    enqueue_found purge_writes head_object remove_purge_entry
runs = refl

run-IsModel_example :
    (ran.0 ≡ (spec_run ops nothing).0) × IsModel shelf formats ran.1 (spec_run ops nothing).1
run-IsModel_example =
    run-IsModel shelf formats ops empty ran.1 nothing ran.0
      ((omega arith, tt), ((omega arith, tt), ((omega arith, tt), ((omega arith, tt), (tt, tt)))))
      empty-IsModel runs
