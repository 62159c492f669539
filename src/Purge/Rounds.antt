-- ===== src/Purge/Rounds.antt =====
-- What the rounds of `drain` take out of the queue, src/metadata/purge_queue.rs:56.
use s3prism.Base.{ℕ, zero, suc, ◌+◌, ◌≡◌, List, Text, ◌==◌, ◌⊎◌, if◌then◌else◌, Result, ok, err}
use s3prism.Fault.{Fault}
use s3prism.Metadata.Models.{PurgeEntry}
use s3prism.Metadata.Rocks.{Rocks, Codecs}
use s3prism.Metadata.Queue.{list_purge_entries}
use s3prism.Purge.{Deleter, process_entries, store_left, batch_left, drain}
use s3prism.Purge.Store.{IsFinished}

module _ (r : Rocks) (codecs : Codecs) (clients : List Text) where
  open r use {Db, contents}

  -- The entry is listed in a round, and all its chunks are marked as deleted at the end of it.
  abbrev pub IsFinishedAt : Text → Deleter → ℕ → Db → Type 0
  IsFinishedAt k del now d =
      (found : List PurgeEntry) × (list_purge_entries r codecs 1000 d ≡ ok found)
      × IsFinished k (process_entries clients del now found)

  -- So in one of the rounds, each on the database that the one before has left.
  abbrev pub IsFinishedIn : Text → ℕ → (ℕ → Deleter) → ℕ → Db → Type 0
  IsFinishedIn k zero del now d = ⊥
  IsFinishedIn k (suc rounds) del now d =
      IsFinishedAt k (del now) now d
      ⊎ IsFinishedIn k rounds del (now + 1) (batch_left r codecs clients (del now) now d)

  -- What a round leaves, by the listing that it starts from.
  abbrev left_by : Deleter → ℕ → Db → Result Fault (List PurgeEntry) → Db
  left_by del now d listing = elim listing [
    | err fault ↦ d
    | ok entries ↦ store_left r codecs clients (process_entries clients del now entries) d
  ]

  -- How `drain` goes on after a round.
  abbrev go_on : ℕ → (ℕ → Deleter) → ℕ → Db → Result Fault (ℕ × Db) → Result Fault Db
  go_on fuel del now d round = elim round [
    | err e ↦ ok (batch_left r codecs clients (del now) now d)
    | ok (processed, d1) ↦
        let again = drain r codecs clients fuel del (now + 1) d1 in
        if processed == 0 then ok d1 else again
  ]
