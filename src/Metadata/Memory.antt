-- ===== src/Metadata/Memory.antt =====
-- Concrete instances of the interfaces of Metadata.Rocks, for tests.
use s3prism.Base.{
  ℕ, zero, suc, ◌≡◌, refl, ap, Bool, true, false, List, [], ◌∷◌, map, Text, Option, none, some,
  Result, ok, err, ok_injective, sym,
}
use s3prism.Fault.{Fault, external}
use s3prism.Metadata.Models.{
  ObjectMeta, PurgeEntry, PurgeChunk, ChunkInfo, ChunkType, data_chunk, parity_chunk, replica_chunk,
  ChunkStatus, confirmed, pending, missing, ObjectStorageMode, replicated, erasure_coded,
}
use s3prism.Metadata.Rocks.{Rocks, Serde, Codecs, Contents, apply_writes}
use s3prism.Metadata.Wire.{Wire, number, pair, via, list, text, serde}

pub iterator_fails :
    (items : List (Text × Text))
    → ◌≡◌ {A = List (Result Fault (Text × Text))} (err (external 1) ∷ []) (map ok items)
    → ⊥
iterator_fails [] e = cc
iterator_fails (x ∷ xs) e = cc

-- The database in memory; its iterator meets an error at once.
abbrev pub memory : Rocks
memory = record {
  Db = Contents;
  contents = λ d. d;
  get_cf = λ cf k d. ok (d cf k);
  write = λ ws d. ok (apply_writes ws d);
  iterator_cf = λ cf start d. err (external 1) ∷ [];
  get_cf-contents = λ cf k d e. sym (ok_injective e);
  write-contents = λ ws d e cf k. ap (λ c. c cf k) (sym (ok_injective e));
  iterator_cf-items = λ cf start d items e. absurd (iterator_fails items e);
}

abbrev pub chunk_type_code : ChunkType → ℕ
chunk_type_code data_chunk = 0
chunk_type_code parity_chunk = 1
chunk_type_code replica_chunk = 2

abbrev pub chunk_type_of : ℕ → ChunkType
chunk_type_of zero = data_chunk
chunk_type_of (suc zero) = parity_chunk
chunk_type_of _ = replica_chunk

pub chunk_type_same : (t : ChunkType) → chunk_type_of (chunk_type_code t) ≡ t
chunk_type_same data_chunk = refl
chunk_type_same parity_chunk = refl
chunk_type_same replica_chunk = refl

abbrev pub status_code : ChunkStatus → ℕ
status_code confirmed = 0
status_code pending = 1
status_code missing = 2

abbrev pub status_of : ℕ → ChunkStatus
status_of zero = confirmed
status_of (suc zero) = pending
status_of _ = missing

pub status_same : (t : ChunkStatus) → status_of (status_code t) ≡ t
status_same confirmed = refl
status_same pending = refl
status_same missing = refl

abbrev pub mode_code : ObjectStorageMode → ℕ × (ℕ × ℕ)
mode_code replicated = (0, (0, 0))
mode_code (erasure_coded k m) = (1, (k, m))

abbrev pub mode_of : ℕ × (ℕ × ℕ) → ObjectStorageMode
mode_of (zero, (k, m)) = replicated
mode_of (suc n, (k, m)) = erasure_coded k m

pub mode_same : (t : ObjectStorageMode) → mode_of (mode_code t) ≡ t
mode_same replicated = refl
mode_same (erasure_coded k m) = refl

abbrev pub flag_code : Bool → ℕ
flag_code true = 1
flag_code false = 0

abbrev pub flag_of : ℕ → Bool
flag_of zero = false
flag_of _ = true

pub flag_same : (t : Bool) → flag_of (flag_code t) ≡ t
flag_same true = refl
flag_same false = refl

abbrev pub time_code : Option ℕ → ℕ × ℕ
time_code none = (0, 0)
time_code (some t) = (1, t)

abbrev pub time_of : ℕ × ℕ → Option ℕ
time_of (zero, t) = none
time_of (suc n, t) = some t

pub time_same : (t : Option ℕ) → time_of (time_code t) ≡ t
time_same none = refl
time_same (some t) = refl

abbrev pub chunk_wire : Wire ChunkInfo
chunk_wire =
    via
      (λ c. (
        c.index,
        (c.chunk_type, (c.site, (c.bucket, (c.s3_key, (c.size, (c.checksum, c.status)))))),
      ))
      (λ (i, (t, (s, (b, (k, (n, (x, st))))))). record {
        index = i;
        chunk_type = t;
        site = s;
        bucket = b;
        s3_key = k;
        size = n;
        checksum = x;
        status = st;
      })
      (λ c. refl)
      (pair number (
        pair (via chunk_type_code chunk_type_of chunk_type_same number) (
          pair text (
            pair text (
              pair text
                (pair number (pair text (via status_code status_of status_same number))))))))

abbrev pub object_wire : Wire ObjectMeta
object_wire =
    via
      (λ o. (
        o.key,
        (
          o.bucket,
          (
            o.size,
            (
              o.etag,
              (
                o.content_type,
                (o.created, (o.modified, (o.user_metadata, (o.storage_mode, o.chunks)))),
              ),
            ),
          ),
        ),
      ))
      (λ (k, (b, (n, (e, (t, (c, (m, (u, (s, cs))))))))). record {
        key = k;
        bucket = b;
        size = n;
        etag = e;
        content_type = t;
        created = c;
        modified = m;
        user_metadata = u;
        storage_mode = s;
        chunks = cs;
      })
      (λ o. refl)
      (pair text (
        pair text (
          pair number (
            pair text (
              pair text (
                pair number (
                  pair number (
                    pair (list (pair text text)) (
                      pair (via mode_code mode_of mode_same (pair number (pair number number)))
                        (list chunk_wire))))))))))

abbrev pub purge_chunk_wire : Wire PurgeChunk
purge_chunk_wire =
    via (λ c. (c.site, (c.bucket, (c.s3_key, c.deleted))))
      (λ (s, (b, (k, d))). record { site = s; bucket = b; s3_key = k; deleted = d }) (λ c. refl)
      (pair text (pair text (pair text (via flag_code flag_of flag_same number))))

abbrev pub purge_wire : Wire PurgeEntry
purge_wire =
    via (λ e. (e.id, (e.bucket, (e.key, (e.chunks, (e.queued_at, (e.attempts, e.last_attempt)))))))
      (λ (i, (b, (k, (cs, (q, (n, t)))))). record {
        id = i;
        bucket = b;
        key = k;
        chunks = cs;
        queued_at = q;
        attempts = n;
        last_attempt = t;
      })
      (λ e. refl)
      (pair text (
        pair text (
          pair text (
            pair (list purge_chunk_wire)
              (pair number (pair number (via time_code time_of time_same (pair number number))))))))

pub err_ne_ok : {v : Text} → ◌≡◌ {A = Result Fault Text} (err (external 2)) (ok v) → ⊥
err_ne_ok e = cc

-- A type that no run below stores.
abbrev pub unused : {A : Type 0} → Serde A
unused = record {
  to_vec = λ a. err (external 2);
  from_slice = λ v. err (external 2);
  from_slice-to_vec = λ a e. absurd (err_ne_ok e);
}

abbrev pub codecs : Codecs
codecs = record {
  object = serde object_wire;
  bucket = unused;
  purge_entry = serde purge_wire;
  upload = unused;
  part = unused;
  user = unused;
  runtime = unused;
}
