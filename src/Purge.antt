-- ===== src/Purge.antt =====
-- src/metadata/purge_queue.rs: the reaper that deletes the chunks of deleted objects.
pub mod Confirmed
pub mod Marks
pub mod Store
pub mod Rounds
pub mod Progress
pub mod Coverage
pub mod Drained
mod Tests
use s3prism.Base.{
  ℕ, zero, suc, ◌+◌, ◌%◌, Bool, true, false, ◌&&◌, List, [], ◌∷◌, ◌++◌, map, Text, Option, none,
  some, length, take, drop, set, get_elem?, any, ◌==◌, text_eq, if◌then◌else◌, Result, ok, err,
  ◌>>=◌,
}
use s3prism.Fault.{Fault, out_of_fuel}
use s3prism.Metadata.Models.{PurgeEntry, PurgeChunk, all_deleted}
use s3prism.Metadata.Rocks.{Rocks, Codecs}
use s3prism.Metadata.Queue.{list_purge_entries, update_purge_entry, remove_purge_entry}

-- An item of a batch: the entry, the chunk in it, and its key at the site.
pub record Item : Type 0 where
  pub entry_idx : ℕ
  pub chunk_idx : ℕ
  pub key : Text

-- A key of `batches` with its items; the map is listed in the order of first insertion.
pub record Group : Type 0 where
  pub site : Text
  pub bucket : Text
  pub items : List Item

-- `e.attempts += 1` on a `u32`, and the time of the attempt.
unfoldable pub attempt : ℕ → PurgeEntry → PurgeEntry
attempt now e = record e { attempts = (e.attempts + 1) % 4_294_967_296; last_attempt = some now }

-- `batches.entry((site, bucket)).or_default().push(item)`.
unfoldable pub push_item : Text → Text → Item → List Group → List Group
push_item site bucket item [] = record { site = site; bucket = bucket; items = item ∷ [] } ∷ []
push_item site bucket item (g ∷ gs) =
    let rest = g ∷ push_item site bucket item gs in
    if text_eq g.site site && text_eq g.bucket bucket
    then record g { items = g.items ++ item ∷ [] } ∷ gs
    else rest

unfoldable pub group_chunks : ℕ → ℕ → List PurgeChunk → List Group → List Group
group_chunks entry_idx chunk_idx [] gs = gs
group_chunks entry_idx chunk_idx (c ∷ cs) gs = group_chunks entry_idx (chunk_idx + 1) cs (
    if c.deleted
    then gs
    else push_item c.site c.bucket
        (record { entry_idx = entry_idx; chunk_idx = chunk_idx; key = c.s3_key }) gs)

unfoldable pub group_entries : ℕ → List PurgeEntry → List Group → List Group
unfolding group_chunks push_item
group_entries entry_idx [] gs = gs
group_entries entry_idx (e ∷ es) gs =
    group_entries (entry_idx + 1) es (group_chunks entry_idx 0 e.chunks gs)

-- `delete_objects` of the client of a site, which answers with the keys that are gone.
abbrev pub Deleter : Type 0
Deleter = (site bucket : Text) → List Text → Result Fault (List Text)

-- `keys.chunks(1000)`, with as much fuel as there are keys.
unfoldable pub delete_in_chunks : ℕ → (List Text → Result Fault (List Text)) → List Text → List Text
delete_in_chunks zero del keys = []
delete_in_chunks (suc fuel) del [] = []
delete_in_chunks (suc fuel) del (k ∷ keys) =
    (elim (del (take 1000 (k ∷ keys))) [ ok gone ↦ gone | err e ↦ [] ])
    ++ delete_in_chunks fuel del (drop 1000 (k ∷ keys))

-- The task of a group: without a client for the site there is none.
unfoldable pub deleted_keys : List Text → Deleter → Group → List Text
unfolding delete_in_chunks
deleted_keys clients del g =
    if any (λ c. text_eq c g.site) clients
    then delete_in_chunks (length g.items) (del g.site g.bucket) (map (λ (i : Item). i.key) g.items)
    else []

abbrev pub set_deleted : PurgeChunk → PurgeChunk
set_deleted c = record c { deleted = true }

-- `xs[i] = f(xs[i])`; the indices come from the same vectors, so none is out of range.
unfoldable pub update_at {ℓ} : {A : Type ℓ} → List A → ℕ → (A → A) → List A
update_at [] i f = []
update_at (x ∷ xs) zero f = f x ∷ xs
update_at (x ∷ xs) (suc i) f = x ∷ update_at xs i f

unfoldable pub mark_items : List Text → List Item → List PurgeEntry → List PurgeEntry
unfolding update_at
mark_items gone [] entries = entries
mark_items gone (i ∷ items) entries = mark_items gone items (
    if any (λ k. text_eq k i.key) gone
    then update_at entries i.entry_idx
        (λ e. record e { chunks = update_at e.chunks i.chunk_idx set_deleted })
    else entries)

unfoldable pub mark_groups : List Text → Deleter → List Group → List PurgeEntry → List PurgeEntry
unfolding mark_items deleted_keys
mark_groups clients del [] entries = entries
mark_groups clients del (g ∷ gs) entries =
    mark_groups clients del gs (mark_items (deleted_keys clients del g) g.items entries)

-- The entries with what this round has deleted.
unfoldable pub process_entries : List Text → Deleter → ℕ → List PurgeEntry → List PurgeEntry
unfolding mark_groups group_entries attempt
process_entries clients del now found =
    let entries = map (attempt now) found in
    mark_groups clients del (group_entries 0 entries []) entries

-- What ends the wait in `run`: the notice of a deletion, with what the handlers have done to the
-- database since the last round and the answers and the time of the rounds after it, or the shutdown.
pub data Signal (Db : Type 0) : Type 0 where
  wake : (others : Db → Db) (del : ℕ → Deleter) (now : ℕ) → Signal Db
  shutdown : Signal Db

module _ (r : Rocks) (codecs : Codecs) where
  open r use {Db}

  -- A round of the last loop: an entry leaves the queue when all its chunks are deleted.
  unfoldable pub store_one : PurgeEntry → Db → Result Fault Db
  store_one e d =
      if all_deleted e then remove_purge_entry r codecs e.id d else update_purge_entry r codecs e d

module _ (r : Rocks) (codecs : Codecs) (clients : List Text) where
  open r use {Db}

  -- The last loop, which an error ends.
  unfoldable pub store_entries : List PurgeEntry → Db → Result Fault Db
  store_entries [] d = ok d
  store_entries (e ∷ es) d = do d' ← store_one r codecs e d; store_entries es d'

  unfoldable pub process_batch : Deleter → ℕ → Db → Result Fault (ℕ × Db)
  process_batch del now d = do
    entries ← list_purge_entries r codecs 1000 d
    d' ← store_entries (process_entries clients del now entries) d
    ok (length entries, d')

  -- The database that the last loop leaves, also where it stops at an error.
  unfoldable pub store_left : List PurgeEntry → Db → Db
  store_left [] d = d
  store_left (e ∷ es) d = elim (store_one r codecs e d) [ err fault ↦ d | ok d' ↦ store_left es d' ]

  unfoldable pub batch_left : Deleter → ℕ → Db → Db
  unfolding store_left
  batch_left del now d = elim (list_purge_entries r codecs 1000 d) [
    | err fault ↦ d
    | ok entries ↦ store_left (process_entries clients del now entries) d
  ]

  -- The loop of `drain`, round by round; it ends on an empty queue or on an error.
  unfoldable pub drain : ℕ → (ℕ → Deleter) → ℕ → Db → Result Fault Db
  unfolding batch_left
  drain zero del now d = err out_of_fuel
  drain (suc fuel) del now d = elim (process_batch (del now) now d) [
    | err e ↦ ok (batch_left (del now) now d)
    | ok (processed, d') ↦
        let again = drain fuel del (now + 1) d' in if processed == 0 then ok d' else again
  ]

  -- The loop of `run`, over the signals in the order in which it receives them; where there is no more
  -- signal, it waits.
  unfoldable pub receive : ℕ → List (Signal Db) → Db → Result Fault Db
  unfolding drain
  receive fuel [] d = ok d
  receive fuel (shutdown ∷ signals) d = ok d
  receive fuel (wake others del now ∷ signals) d =
      drain fuel del now (others d) >>= receive fuel signals

  unfoldable pub run : ℕ → (ℕ → Deleter) → ℕ → List (Signal Db) → Db → Result Fault Db
  unfolding receive
  run fuel del now signals d = drain fuel del now d >>= receive fuel signals
