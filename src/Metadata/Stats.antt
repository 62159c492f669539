-- ===== src/Metadata/Stats.antt =====
-- The statistics of a bucket by site, `bucket_site_stats` of src/metadata/rocksdb_backend.rs.
use s3prism.Base.{
  ℕ, List, [], ◌∷◌, ◌++◌, Text, text_eq, text_le, starts_with, not, if◌then◌else◌, Result, ok, err,
  ◌>>=◌,
}
use s3prism.Base.Word.{add64}
use s3prism.Fault.{Fault}
use s3prism.Metadata.Models.{ObjectMeta, ChunkInfo}
use s3prism.Metadata.Rocks.{Rocks, Serde, Codecs, objects}

pub record SiteStats : Type 0 where
  pub site : Text
  pub backend_bucket : Text
  pub chunk_count : ℕ
  pub total_size : ℕ

abbrev counted : ChunkInfo → SiteStats → SiteStats
counted chunk st = record st {
  chunk_count = add64 st.chunk_count 1;
  total_size = add64 st.total_size chunk.size;
}

-- The entry of the chunk's site, which a first chunk makes; the map is listed in the order of first
-- insertion.
unfoldable pub add_chunk : ChunkInfo → List SiteStats → List SiteStats
add_chunk chunk [] =
    counted chunk
      (record { site = chunk.site; backend_bucket = chunk.bucket; chunk_count = 0; total_size = 0 })
    ∷ []
add_chunk chunk (st ∷ rest) =
    let later = st ∷ add_chunk chunk rest in
    if text_eq st.site chunk.site then counted chunk st ∷ rest else later

unfoldable pub add_chunks : List ChunkInfo → List SiteStats → List SiteStats
unfolding add_chunk
add_chunks [] map = map
add_chunks (chunk ∷ chunks) map = add_chunks chunks (add_chunk chunk map)

-- A value that cannot be read counts for nothing.
abbrev chunks_or_none : Result Fault ObjectMeta → List ChunkInfo
chunks_or_none (ok meta) = meta.chunks
chunks_or_none (err e) = []

unfoldable pub site_stats_from :
    Serde ObjectMeta
    → Text
    → List (Result Fault (Text × Text))
    → List SiteStats
    → Result Fault (List SiteStats)
unfolding add_chunks
site_stats_from s prefix [] map = ok map
site_stats_from s prefix (err e ∷ items) map = err e
site_stats_from s prefix (ok (k, v) ∷ items) map =
    let next = site_stats_from s prefix items (add_chunks (chunks_or_none (s.from_slice v)) map) in
    if not (starts_with prefix k) then ok map else next

-- `sort_by` on the sites.
unfoldable pub insert_stats : SiteStats → List SiteStats → List SiteStats
insert_stats st [] = st ∷ []
insert_stats st (x ∷ xs) =
    let later = x ∷ insert_stats st xs in if text_le st.site x.site then st ∷ x ∷ xs else later

unfoldable pub sort_stats : List SiteStats → List SiteStats
unfolding insert_stats
sort_stats [] = []
sort_stats (st ∷ rest) = insert_stats st (sort_stats rest)

module _ (r : Rocks) (codecs : Codecs) where
  unfoldable pub bucket_site_stats : Text → r.Db → Result Fault (List SiteStats)
  unfolding site_stats_from sort_stats
  bucket_site_stats bucket d = do
    map ←
        site_stats_from codecs.object (bucket ++ 0 ∷ [])
          (r.iterator_cf objects (bucket ++ 0 ∷ []) d) []
    ok (sort_stats map)
