-- ===== src/Mgmt/Views.antt =====
-- The views of src/web/api.rs that change nothing, the test of a site and the list of regions. A JSON
-- value is a record; what a site or the directory of regions answers is an argument.
use s3prism.Base.{
  ℕ, suc, Bool, true, not, ◌&&◌, ◌||◌, List, [], ◌∷◌, ◌++◌, map, drop, find, get_elem?, length,
  Text, bytes, text_eq, starts_with, Option, none, some, if◌then◌else◌, Result, ok, err, ok_or,
  map_err, ◌>>=◌,
}
use s3prism.Base.Search.{split}
use s3prism.Fault.{Fault}
use s3prism.Config.{RuntimeConfig, SiteConfig, StorageMode, replica, erasure, hybrid, is_configured}
use s3prism.Metadata
use s3prism.Metadata.Models.{BucketMeta, BackendBucket, AdminUser, PurgeEntry, PurgeChunk}
use s3prism.Metadata.Rocks.{Rocks, Codecs}
use s3prism.Metadata.Buckets.{BucketStats, bucket_stats, get_bucket}
use s3prism.Metadata.Stats.{SiteStats, bucket_site_stats}
use s3prism.Metadata.Queue.{purge_queue_depth, list_purge_entries}
use s3prism.Chunked.{contains}
use s3prism.Mgmt.{MgmtError, internal, not_found, MgmtState}

-- `format!("{:?}", mode)`.
abbrev mode_text : StorageMode → Text
mode_text replica = bytes "Replica"
mode_text erasure = bytes "Erasure"
mode_text hybrid = bytes "Hybrid"

-- `?` on the result of the database.
abbrev stored : {A : Type 0} → Result Fault A → Result MgmtError A
stored x = map_err internal x

pub record StatusResponse : Type 0 where
  pub configured : Bool
  pub site_count : ℕ
  pub storage_mode : Text
  pub data_chunks : ℕ
  pub parity_chunks : ℕ
  pub bucket_count : ℕ
  pub purge_queue_depth : ℕ

-- A bucket in the list.
pub record BucketView : Type 0 where
  pub name : Text
  pub created : ℕ
  pub storage_mode : Text
  pub sites : ℕ
  pub object_count : ℕ
  pub total_size : ℕ

pub record BackendView : Type 0 where
  pub site : Text
  pub bucket_name : Text
  pub created : ℕ
  pub chunk_count : ℕ
  pub total_size : ℕ

pub record BucketDetail : Type 0 where
  pub name : Text
  pub created : ℕ
  pub storage_mode : Text
  pub data_chunks : Option ℕ
  pub parity_chunks : Option ℕ
  pub object_count : ℕ
  pub total_size : ℕ
  pub backend_buckets : List BackendView

pub record UserView : Type 0 where
  pub username : Text
  pub created : ℕ

pub record PurgeView : Type 0 where
  pub id : Text
  pub bucket : Text
  pub key : Text
  pub chunks : ℕ
  pub deleted : ℕ
  pub attempts : ℕ
  pub queued_at : ℕ

-- `stats.unwrap_or(BucketStats { .. 0 .. })`.
abbrev stats_or_zero : Result Fault BucketStats → BucketStats
stats_or_zero (ok st) = st
stats_or_zero (err e) = record { object_count = 0; total_size = 0 }

abbrev map_or : {A : Type 0} → ℕ → (A → ℕ) → Option A → ℕ
map_or other f none = other
map_or other f (some a) = f a

unfoldable pub backend_view : List SiteStats → BackendBucket → BackendView
backend_view stats bb =
    let ss = find (λ (st : SiteStats). text_eq st.site bb.site) stats in
    record {
      site = bb.site;
      bucket_name = bb.bucket_name;
      created = bb.created;
      chunk_count = map_or 0 (λ (st : SiteStats). st.chunk_count) ss;
      total_size = map_or 0 (λ (st : SiteStats). st.total_size) ss;
    }

-- `e.chunks.iter().filter(|c| c.deleted).count()`.
unfoldable pub count_deleted : List PurgeChunk → ℕ
count_deleted [] = 0
count_deleted (c ∷ cs) = let rest = count_deleted cs in if c.deleted then suc rest else rest

unfoldable pub purge_view : PurgeEntry → PurgeView
unfolding count_deleted
purge_view e = record {
  id = e.id;
  bucket = e.bucket;
  key = e.key;
  chunks = length e.chunks;
  deleted = count_deleted e.chunks;
  attempts = e.attempts;
  queued_at = e.queued_at;
}

module _ (r : Rocks) (codecs : Codecs) where
  open r use {Db}

  unfoldable pub get_status : MgmtState Db → Result MgmtError StatusResponse
  get_status s = do
    buckets ← stored (Metadata.Buckets.list_buckets r codecs s.db)
    depth ← stored (Metadata.Queue.purge_queue_depth r codecs s.db)
    ok (record {
      configured = is_configured s.config;
      site_count = length s.config.sites;
      storage_mode = mode_text s.config.erasure.default_storage_mode;
      data_chunks = s.config.erasure.data_chunks;
      parity_chunks = s.config.erasure.parity_chunks;
      bucket_count = length buckets;
      purge_queue_depth = depth;
    })

  unfoldable pub bucket_view : Db → BucketMeta → BucketView
  bucket_view d b =
      let stats = stats_or_zero (bucket_stats r codecs b.name d) in
      record {
        name = b.name;
        created = b.created;
        storage_mode = mode_text b.storage_mode;
        sites = length b.backend_buckets;
        object_count = stats.object_count;
        total_size = stats.total_size;
      }

  unfoldable pub list_buckets : Db → Result MgmtError (List BucketView)
  unfolding bucket_view
  list_buckets d = do
    buckets ← stored (Metadata.Buckets.list_buckets r codecs d)
    ok (map (bucket_view d) buckets)

  unfoldable pub get_bucket_detail : Text → Db → Result MgmtError BucketDetail
  unfolding backend_view
  get_bucket_detail name d = do
    found ← stored (get_bucket r codecs name d)
    bucket ← ok_or (not_found (bytes "bucket not found")) found
    let stats = stats_or_zero (bucket_stats r codecs name d)
    site_stats ← stored (bucket_site_stats r codecs name d)
    ok (record {
      name = bucket.name;
      created = bucket.created;
      storage_mode = mode_text bucket.storage_mode;
      data_chunks = bucket.data_chunks;
      parity_chunks = bucket.parity_chunks;
      object_count = stats.object_count;
      total_size = stats.total_size;
      backend_buckets = map (backend_view site_stats) bucket.backend_buckets;
    })

  unfoldable pub list_admin_users : Db → Result MgmtError (List UserView)
  list_admin_users d = do
    users ← stored (Metadata.Buckets.list_admin_users r codecs d)
    ok (map (λ (u : AdminUser). record { username = u.username; created = u.created }) users)

  -- The depth of the queue, and its first ten entries.
  unfoldable pub get_purge_stats : Db → Result MgmtError (ℕ × List PurgeView)
  unfolding purge_view
  get_purge_stats d = do
    depth ← stored (Metadata.Queue.purge_queue_depth r codecs d)
    entries ← stored (list_purge_entries r codecs 10 d)
    ok (depth, map purge_view entries)

pub record TestSiteResponse : Type 0 where
  pub reachable : Bool
  pub latency_ms : ℕ
  pub error : Option Text

-- A listing on the site, with the text of its error and the time that it took.
abbrev pub Probe : Type 0
Probe = SiteConfig → Result Text (Unit {0}) × ℕ

unfoldable pub probed : Result Text (Unit {0}) × ℕ → TestSiteResponse
unfolding contains
probed (ok done, elapsed) = record { reachable = true; latency_ms = elapsed; error = none }
probed (err text, elapsed) = record {
  reachable = not (contains (bytes "connect") text) && not (contains (bytes "dns") text);
  latency_ms = elapsed;
  error = some text;
}

unfoldable pub test_site : Probe → Text → RuntimeConfig → Result MgmtError TestSiteResponse
unfolding probed
test_site probe name cfg = do
  site ←
      ok_or (not_found (bytes "site '" ++ (name ++ bytes "' not found")))
        (find (λ (s : SiteConfig). text_eq s.name name) cfg.sites)
  ok (probed (probe site))

pub record WasabiRegion : Type 0 where
  pub region : Text
  pub name : Text
  pub endpoint : Text
  pub status : Text
  pub is_default : Bool
  pub geo : Text

unfoldable pub region_to_geo : Text → Text
region_to_geo region =
    if starts_with (bytes "us-") region || starts_with (bytes "ca-") region
    then bytes "Americas"
    else if starts_with (bytes "eu-") region
    then bytes "Europe"
    else if starts_with (bytes "ap-") region
    then bytes "Asia Pacific"
    else bytes "Other"

abbrev or_empty : Option Text → Text
or_empty none = []
or_empty (some t) = t

-- The closure `extract`: what stands between the first opening tag and the next closing one.
unfoldable pub extract : Text → Text → Text
unfolding split
extract tag item = elim (get_elem? (split (bytes "<" ++ (tag ++ bytes ">")) item) 1) [
  | none ↦ []
  | some rest ↦ or_empty (get_elem? (split (bytes "</" ++ (tag ++ bytes ">")) rest) 0)
]

unfoldable pub region_of : Text → WasabiRegion
unfolding extract region_to_geo
region_of item = record {
  region = extract (bytes "Region") item;
  name = extract (bytes "RegionName") item;
  endpoint = extract (bytes "Endpoint") item;
  status = extract (bytes "Status") item;
  is_default = text_eq (extract (bytes "IsDefault") item) (bytes "true");
  geo = region_to_geo (extract (bytes "Region") item);
}

-- The regions in the body of the directory.
unfoldable pub discover_wasabi_regions : Text → List WasabiRegion
unfolding split region_of
discover_wasabi_regions body = map region_of (drop 1 (split (bytes "<item>") body))
