-- ===== src/Metadata/Formats.antt =====
-- Concrete serializations of the records that Metadata.Memory leaves out, for tests.
use s3prism.Base.{ℕ, zero, suc, ◌≡◌, refl, [], ◌∷◌, ◌++◌, Text, Option, none, some}
use s3prism.Config.{
  RuntimeConfig, SiteConfig, ErasureConfig, ServerRuntimeConfig, TlsConfig, UrlStyle, path,
  virtual_host, StorageMode, replica, erasure, hybrid, ReadStrategy, fan_out_all, fetch_minimum,
  WriteDistribution, shuffle, priority,
}
use s3prism.Metadata.Models.{BucketMeta, BackendBucket, MultipartUpload, PartMeta, AdminUser}
use s3prism.Metadata.Rocks.{Codecs}
use s3prism.Metadata.Wire.{Wire, number, pair, via, list, text, serde, then_some}
use s3prism.Metadata.Memory.{object_wire, purge_wire}

module _ {A : Type 0} (a : Wire A) where
  abbrev pub option_enc : Option A → Text
  option_enc none = 0 ∷ []
  option_enc (some x) = 1 ∷ a.enc x

  abbrev pub option_dec : Text → Option (Option A × Text)
  option_dec [] = none
  option_dec (zero ∷ t) = some (none, t)
  option_dec (suc n ∷ t) = then_some (a.dec t) (λ x. some (some x.0, x.1))

  pub option_dec-enc :
      (o : Option A) (rest : Text) → option_dec (option_enc o ++ rest) ≡ some (o, rest)
  option_dec-enc none rest = refl
  option_dec-enc (some x) rest = rw (a.dec-enc x rest) refl

  abbrev pub option : Wire (Option A)
  option = record { enc = option_enc; dec = option_dec; dec-enc = option_dec-enc }

abbrev pub style_code : UrlStyle → ℕ
style_code path = 0
style_code virtual_host = 1

abbrev pub style_of : ℕ → UrlStyle
style_of zero = path
style_of _ = virtual_host

pub style_same : (x : UrlStyle) → style_of (style_code x) ≡ x
style_same path = refl
style_same virtual_host = refl

abbrev pub mode_code : StorageMode → ℕ
mode_code replica = 0
mode_code erasure = 1
mode_code hybrid = 2

abbrev pub mode_of : ℕ → StorageMode
mode_of zero = replica
mode_of (suc zero) = erasure
mode_of _ = hybrid

pub mode_same : (x : StorageMode) → mode_of (mode_code x) ≡ x
mode_same replica = refl
mode_same erasure = refl
mode_same hybrid = refl

abbrev pub read_code : ReadStrategy → ℕ
read_code fan_out_all = 0
read_code fetch_minimum = 1

abbrev pub read_of : ℕ → ReadStrategy
read_of zero = fan_out_all
read_of _ = fetch_minimum

pub read_same : (x : ReadStrategy) → read_of (read_code x) ≡ x
read_same fan_out_all = refl
read_same fetch_minimum = refl

abbrev pub write_code : WriteDistribution → ℕ
write_code shuffle = 0
write_code priority = 1

abbrev pub write_of : ℕ → WriteDistribution
write_of zero = shuffle
write_of _ = priority

pub write_same : (x : WriteDistribution) → write_of (write_code x) ≡ x
write_same shuffle = refl
write_same priority = refl

abbrev pub site_wire : Wire SiteConfig
site_wire =
    via
      (λ s. (
        s.name,
        (s.region, (s.endpoint, (s.access_key, (s.secret_key, (s.priority, s.url_style))))),
      ))
      (λ (n, (g, (e, (a, (k, (p, u)))))). record {
        name = n;
        region = g;
        endpoint = e;
        access_key = a;
        secret_key = k;
        priority = p;
        url_style = u;
      })
      (λ s. refl)
      (pair text (
        pair text (
          pair text
            (pair text (pair text (pair number (via style_code style_of style_same number)))))))

abbrev pub erasure_wire : Wire ErasureConfig
erasure_wire =
    via
      (λ e. (
        e.data_chunks,
        (
          e.parity_chunks,
          (
            e.default_storage_mode,
            (
              e.hybrid_threshold_bytes,
              (e.block_size_bytes, (e.read_strategy, e.write_distribution)),
            ),
          ),
        ),
      ))
      (λ (k, (m, (d, (h, (b, (r, w)))))). record {
        data_chunks = k;
        parity_chunks = m;
        default_storage_mode = d;
        hybrid_threshold_bytes = h;
        block_size_bytes = b;
        read_strategy = r;
        write_distribution = w;
      })
      (λ e. refl)
      (pair number (
        pair number (
          pair (via mode_code mode_of mode_same number) (
            pair number (
              pair number (
                pair (via read_code read_of read_same number)
                  (via write_code write_of write_same number)))))))

abbrev pub server_wire : Wire ServerRuntimeConfig
server_wire =
    via (λ s. (s.snapshot_interval_secs, (s.health_check_interval_secs, s.max_concurrent_uploads)))
      (λ (a, (b, c)). record {
        snapshot_interval_secs = a;
        health_check_interval_secs = b;
        max_concurrent_uploads = c;
      })
      (λ s. refl) (pair number (pair number number))

abbrev pub tls_wire : Wire TlsConfig
tls_wire =
    via (λ t. (t.cert_path, t.key_path)) (λ (c, k). record { cert_path = c; key_path = k })
      (λ t. refl) (pair text text)

abbrev pub runtime_wire : Wire RuntimeConfig
runtime_wire =
    via (λ c. (c.sites, (c.erasure, (c.server, c.tls))))
      (λ (s, (e, (r, t))). record { sites = s; erasure = e; server = r; tls = t }) (λ c. refl)
      (pair (list site_wire) (pair erasure_wire (pair server_wire (option tls_wire))))

abbrev pub user_wire : Wire AdminUser
user_wire =
    via (λ u. (u.username, (u.password_hash, u.created)))
      (λ (n, (h, c)). record { username = n; password_hash = h; created = c }) (λ u. refl)
      (pair text (pair text number))

abbrev pub backend_wire : Wire BackendBucket
backend_wire =
    via (λ b. (b.site, (b.bucket_name, b.created)))
      (λ (s, (n, c)). record { site = s; bucket_name = n; created = c }) (λ b. refl)
      (pair text (pair text number))

abbrev pub bucket_wire : Wire BucketMeta
bucket_wire =
    via
      (λ b. (
        b.name,
        (b.created, (b.storage_mode, (b.data_chunks, (b.parity_chunks, b.backend_buckets)))),
      ))
      (λ (n, (c, (m, (k, (p, bs))))). record {
        name = n;
        created = c;
        storage_mode = m;
        data_chunks = k;
        parity_chunks = p;
        backend_buckets = bs;
      })
      (λ b. refl)
      (pair text (
        pair number (
          pair (via mode_code mode_of mode_same number)
            (pair (option number) (pair (option number) (list backend_wire))))))

abbrev pub upload_wire : Wire MultipartUpload
upload_wire =
    via (λ u. (u.upload_id, (u.bucket, (u.key, (u.created, u.content_type)))))
      (λ (i, (b, (k, (c, t)))). record {
        upload_id = i;
        bucket = b;
        key = k;
        created = c;
        content_type = t;
      })
      (λ u. refl) (pair text (pair text (pair text (pair number text))))

abbrev pub part_wire : Wire PartMeta
part_wire =
    via (λ p. (p.part_number, (p.etag, (p.size, (p.backend_key, (p.site, p.backend_bucket))))))
      (λ (n, (e, (s, (k, (t, b))))). record {
        part_number = n;
        etag = e;
        size = s;
        backend_key = k;
        site = t;
        backend_bucket = b;
      })
      (λ p. refl) (pair number (pair text (pair number (pair text (pair text text)))))

abbrev pub formats : Codecs
formats = record {
  object = serde object_wire;
  bucket = serde bucket_wire;
  purge_entry = serde purge_wire;
  upload = serde upload_wire;
  part = serde part_wire;
  user = serde user_wire;
  runtime = serde runtime_wire;
}
