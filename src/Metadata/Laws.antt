-- ===== src/Metadata/Laws.antt =====
-- What the operations on objects promise.
use s3prism.Base.{
  ℕ, ◌≡◌, sym, ap, ◌∙◌, subst, Bool, true, false, ◌&&◌, List, Text, Option, none, some, ok, ◌>>=◌,
  >>=-eq-ok, ok_injective, text_eq, if◌then◌else◌,
}
use s3prism.Metadata.Models.{ObjectMeta, from_object_meta}
use s3prism.Metadata.Rocks.{Rocks, Codecs, Family, Write, objects, purge, apply_writes, at}
use s3prism.Metadata.Keys.{object_key, NoNul, text_eq-object_key}
use s3prism.Metadata.Objects.{
  decode_value, put_object, get_object, purge_writes, enqueue_found, is_some,
  delete_object_and_enqueue_purge,
}

module _ (r : Rocks) (codecs : Codecs) where
  open r use {Db, contents}

  -- A read returns what the database holds.
  get_object-contents :
      (bucket key : Text) (d : Db) (o : Option ObjectMeta)
      → get_object r codecs bucket key d ≡ ok o
      → decode_value codecs.object (contents d objects (object_key bucket key)) ≡ ok o
  unfolding get_object
  get_object-contents bucket key d o h =
      let (v, got, e) = >>=-eq-ok (r.get_cf objects (object_key bucket key) d) _ h in
      rw (← (r.get_cf-contents objects (object_key bucket key) d got)) e

  pub put_object-contents :
      (meta : ObjectMeta) (d d' : Db)
      → put_object r codecs meta d ≡ ok d'
      → (v : Text) × (codecs.object.to_vec meta ≡ ok v)
        × ((cf : Family) (k : Text)
            → contents d' cf k ≡ (
                if at objects (object_key meta.bucket meta.key) cf k
                then some v
                else contents d cf k))
  unfolding put_object apply_writes
  put_object-contents meta d d' h =
      let (v, coded, e) = >>=-eq-ok (codecs.object.to_vec meta) _ h in
      (v, coded, λ cf k. r.write-contents _ d e cf k)

  decode_written :
      (meta : ObjectMeta) (b : Bool) (v : Text) (stored : Option Text)
      (before after : Option ObjectMeta)
      → codecs.object.to_vec meta ≡ ok v
      → decode_value codecs.object stored ≡ ok before
      → decode_value codecs.object (if b then some v else stored) ≡ ok after
      → after ≡ (if b then some meta else before)
  unfolding decode_value
  decode_written meta true v stored before after coded old now =
      let read = codecs.object.from_slice-to_vec meta coded in
      ok_injective (sym now ∙ ap (λ r. r >>= λ a. ok (some a)) read)
  decode_written meta false v stored before after coded old now = ok_injective (sym now ∙ old)

  -- After a successful write, a read that succeeds returns what was written, under the written bucket
  -- and key, and under any other what a read before the write returned, where the buckets' names hold
  -- no NUL.
  pub get_object-put_object :
      (meta : ObjectMeta) (bucket key : Text) (d d' : Db) (before after : Option ObjectMeta)
      → NoNul meta.bucket
      → NoNul bucket
      → put_object r codecs meta d ≡ ok d'
      → get_object r codecs bucket key d ≡ ok before
      → get_object r codecs bucket key d' ≡ ok after
      → after ≡ (if text_eq meta.bucket bucket && text_eq meta.key key then some meta else before)
  get_object-put_object meta bucket key d d' before after n n' w g g' =
      let (v, coded, c) = put_object-contents meta d d' w in
      let stored = contents d objects (object_key bucket key) in
      let now = get_object-contents bucket key d' after g' in
      decode_written meta (text_eq meta.bucket bucket && text_eq meta.key key) v stored before after
        coded (get_object-contents bucket key d before g)
        (subst (λ b. decode_value codecs.object (if b then some v else stored) ≡ ok after)
          (text_eq-object_key meta.bucket bucket meta.key key n n')
          (subst (λ o. decode_value codecs.object o ≡ ok after) (c objects (object_key bucket key))
            now))

  -- One atomic batch of writes leads from the one database to the other.
  abbrev pub IsOneWrite : Db → Db → Type 0
  IsOneWrite d d' = (batch : List Write) × (r.write batch d ≡ ok d')

  -- What a deletion leaves behind: the same database if there was no object; else one batch has taken
  -- the object away and queued the entry for its chunks under `id`, and changed nothing else.
  abbrev pub IsMoved : Text → ℕ → Text → Option ObjectMeta → Db → Db → Type 0
  IsMoved id now db_key none d d' = d' ≡ d
  IsMoved id now db_key (some meta) d d' =
      IsOneWrite d d'
      × (value : Text) × (codecs.purge_entry.to_vec (from_object_meta id now meta) ≡ ok value)
      × ((cf : Family) (k : Text)
          → contents d' cf k ≡ (
              if at purge id cf k
              then some value
              else if at objects db_key cf k
              then none
              else contents d cf k))

  enqueue_found-IsMoved :
      (id : Text) (now : ℕ) (db_key : Text) (o : Option ObjectMeta) (d d' : Db) (found : Bool)
      → enqueue_found r codecs id now db_key o d ≡ ok (found, d')
      → (is_some o ≡ found) × IsMoved id now db_key o d d'
  unfolding enqueue_found purge_writes apply_writes
  enqueue_found-IsMoved id now db_key none d d' found e =
      let same = ok_injective e in
      (ap (λ (t : Bool × Db). t.0) same, ap (λ (t : Bool × Db). t.1) (sym same))
  enqueue_found-IsMoved id now db_key (some meta) d d' found e =
      let (batch, made, e1) = >>=-eq-ok (purge_writes r codecs id now db_key meta) _ e in
      let (value, coded, e2) =
        >>=-eq-ok (codecs.purge_entry.to_vec (from_object_meta id now meta)) _ made in
      let (d1, written, e3) = >>=-eq-ok (r.write batch d) _ e1 in
      let same = ok_injective e3 in
      (
        ap (λ (t : Bool × Db). t.0) same,
        (
          (batch, written ∙ ap (λ (t : Bool × Db). ok t.1) same),
          value,
          coded,
          λ cf k.
              ap (λ (t : Bool × Db). contents t.1 cf k) (sym same)
              ∙ r.write-contents batch d written cf k
              ∙ ap (λ ws. apply_writes ws (contents d) cf k) (sym (ok_injective e2)),
        ),
      )

  -- A deletion that succeeds says whether there was an object. If so, one atomic batch of writes has
  -- taken the object out of the store and put the entry for its chunks into the purge queue under the
  -- new id, and has changed nothing else; if not, the database is the same.
  pub delete_object_and_enqueue_purge-IsMoved :
      (id : Text) (now : ℕ) (bucket key : Text) (d d' : Db) (found : Bool)
      → delete_object_and_enqueue_purge r codecs id now bucket key d ≡ ok (found, d')
      → (o : Option ObjectMeta) × (get_object r codecs bucket key d ≡ ok o)
        × ((is_some o ≡ found) × IsMoved id now (object_key bucket key) o d d')
  unfolding delete_object_and_enqueue_purge get_object
  delete_object_and_enqueue_purge-IsMoved id now bucket key d d' found h =
      let (v, got, h1) = >>=-eq-ok (r.get_cf objects (object_key bucket key) d) _ h in
      let (o, decoded, h2) = >>=-eq-ok (decode_value codecs.object v) _ h1 in
      (
        o,
        rw (got, ◌>>=◌) decoded,
        enqueue_found-IsMoved id now (object_key bucket key) o d d' found h2,
      )
