-- ===== src/Purge/Tests.antt =====
-- A round of src/metadata/purge_queue.rs: one site deletes its chunk, the other has no client.
use s3prism.Base.{
  Text, List, Option, Result, err, inl, inr, Bool-cases, text_eq_iff, subst, text_le, if◌then◌else◌,
  sym, ok_injective, ◌≡◌, refl, true, false, [], ◌∷◌, map, bytes, text_eq, none, some, ok,
}
use s3prism.Metadata.Models.{PurgeEntry, PurgeChunk, all_deleted}
use s3prism.Metadata.Rocks.{
  Rocks, Family, objects, buckets, purge, config, multipart, credentials, Contents, Write, put,
  delete, apply_writes, at, IsAscending, item_at,
}
use s3prism.Metadata.Memory.{codecs, purge_wire}
use s3prism.Metadata.Queue.{list_purge_entries, collect_limit, remove_purge_entry}
use s3prism.Fault.{Fault, external}
use s3prism.Purge.{
  store_one, store_entries, process_batch, Deleter, attempt, process_entries, drain, receive, run,
  wake, shutdown,
}
use s3prism.Purge.Marks.{All₂, IsMarkedEntry, process_entries-IsMarkedEntry}

abbrev here : PurgeChunk
here = record { site = bytes "a"; bucket = bytes "x"; s3_key = bytes "k1"; deleted = false }

abbrev gone_site : PurgeChunk
gone_site = record { site = bytes "z"; bucket = bytes "x"; s3_key = bytes "k2"; deleted = false }

abbrev entry : PurgeEntry
entry = record {
  id = bytes "1";
  bucket = bytes "b";
  key = bytes "o";
  chunks = here ∷ gone_site ∷ [];
  queued_at = 5;
  attempts = 0;
  last_attempt = none;
}

-- Every key is gone.
abbrev del : Deleter
del site bucket keys = ok keys

process_entries_run :
    process_entries (bytes "a" ∷ []) del 9 (entry ∷ [])
    ≡ record entry {
      chunks = record here { deleted = true } ∷ gone_site ∷ [];
      attempts = 1;
      last_attempt = some 9;
    }
      ∷ []
unfolding process_entries text_eq
process_entries_run = refl

process_entries-IsMarkedEntry_example :
    All₂
      (IsMarkedEntry (bytes "a" ∷ []) del (map (attempt 9) (entry ∷ [])))
      (map (attempt 9) (entry ∷ []))
      (process_entries (bytes "a" ∷ []) del 9 (entry ∷ []))
process_entries-IsMarkedEntry_example =
    process_entries-IsMarkedEntry (bytes "a" ∷ []) del 9 (entry ∷ [])

-- A database that holds at most one purge entry, under the key `1`.
abbrev one_contents : Option Text → Contents
one_contents o cf k = if at purge (bytes "1") cf k then o else none

abbrev one_items : Option Text → List (Text × Text)
one_items none = []
one_items (some v) = (bytes "1", v) ∷ []

abbrev one_iterator : Family → Text → Option Text → List (Result Fault (Text × Text))
one_iterator purge [] o = map ok (one_items o)
one_iterator purge (c ∷ start) o = err (external 1) ∷ []
one_iterator objects start o = err (external 1) ∷ []
one_iterator buckets start o = err (external 1) ∷ []
one_iterator config start o = err (external 1) ∷ []
one_iterator multipart start o = err (external 1) ∷ []
one_iterator credentials start o = err (external 1) ∷ []

-- It can only be emptied.
abbrev one_write : List Write → Option Text → Result Fault (Option Text)
one_write [] o = err (external 2)
one_write (put cf k v ∷ ws) o = err (external 2)
one_write (delete cf k ∷ w ∷ ws) o = err (external 2)
one_write (delete cf k ∷ []) o = if at cf k purge (bytes "1") then ok none else err (external 2)

err_ne : {o' : Option Text} → ◌≡◌ {A = Result Fault (Option Text)} (err (external 2)) (ok o') → ⊥
err_ne e = cc

emptied :
    (k : Text) (o : Option Text) (cf' : Family) (k' : Text) {o' : Option Text}
    → ◌≡◌ {A = Result Fault (Option Text)}
        (if text_eq k (bytes "1") then ok none else err (external 2))
        (ok o')
    → one_contents o' cf' k' ≡ (if at purge k cf' k' then none else one_contents o cf' k')
emptied k o cf' k' {o'} h = elim (Bool-cases (text_eq k (bytes "1"))) [
  | inr other ↦ absurd (
      err_ne (
        subst
          (λ b.
            ◌≡◌ {A = Result Fault (Option Text)} (if b then ok none else err (external 2)) (ok o'))
          other h))
  | inl same ↦
      let k1 = (text_eq_iff k (bytes "1")).0 same in
      let now : none ≡ o' = ok_injective (
        subst
          (λ b.
            ◌≡◌ {A = Result Fault (Option Text)} (if b then ok none else err (external 2)) (ok o'))
          same h) in
      elim (Bool-cases (at purge (bytes "1") cf' k')) [
        | inl there ↦ rw (← now, k1, there) refl
        | inr away ↦ rw (← now, k1, away) refl
      ]
]

one_write-contents :
    (ws : List Write) (o : Option Text) {o' : Option Text}
    → one_write ws o ≡ ok o'
    → (cf : Family) (k : Text) → one_contents o' cf k ≡ apply_writes ws (one_contents o) cf k
unfolding apply_writes
one_write-contents [] o h cf k = cc
one_write-contents (put cf' k' v ∷ ws) o h cf k = cc
one_write-contents (delete cf' k' ∷ w ∷ ws) o h cf k = cc
one_write-contents (delete purge k' ∷ []) o h cf k = emptied k' o cf k h
one_write-contents (delete objects k' ∷ []) o h cf k = cc
one_write-contents (delete buckets k' ∷ []) o h cf k = cc
one_write-contents (delete config k' ∷ []) o h cf k = cc
one_write-contents (delete multipart k' ∷ []) o h cf k = cc
one_write-contents (delete credentials k' ∷ []) o h cf k = cc

fails :
    (items : List (Text × Text))
    → ◌≡◌ {A = List (Result Fault (Text × Text))} (err (external 1) ∷ []) (map ok items)
    → ⊥
fails [] e = cc
fails (x ∷ xs) e = cc

one_iterator-items :
    (cf : Family) (start : Text) (o : Option Text) (items : List (Text × Text))
    → one_iterator cf start o ≡ map ok items
    → IsAscending items
      × ((k : Text) → item_at k items ≡ (if text_le start k then one_contents o cf k else none))
unfolding text_le
one_iterator-items purge [] none [] h =
    (tt, λ k. elim (Bool-cases (text_eq (bytes "1") k)) [ inl y ↦ rw y refl | inr n ↦ rw n refl ])
one_iterator-items purge [] none (i ∷ items) h = cc
one_iterator-items purge [] (some v) [] h = cc
one_iterator-items purge [] (some v) (i ∷ []) h =
    let same : (bytes "1", v) ≡ i = cc in
    subst
      (λ (i : Text × Text).
        IsAscending (i ∷ []) × ((k : Text) → item_at k (i ∷ []) ≡ one_contents (some v) purge k))
      same ((tt, tt), λ k. refl)
one_iterator-items purge [] (some v) (i ∷ j ∷ items) h = cc
one_iterator-items purge (c ∷ start) o items h = absurd (fails items h)
one_iterator-items objects start o items h = absurd (fails items h)
one_iterator-items buckets start o items h = absurd (fails items h)
one_iterator-items config start o items h = absurd (fails items h)
one_iterator-items multipart start o items h = absurd (fails items h)
one_iterator-items credentials start o items h = absurd (fails items h)

abbrev one : Rocks
one = record {
  Db = Option Text;
  contents = one_contents;
  get_cf = λ cf k o. ok (one_contents o cf k);
  write = one_write;
  iterator_cf = one_iterator;
  get_cf-contents = λ cf k o e. sym (ok_injective e);
  write-contents = one_write-contents;
  iterator_cf-items = one_iterator-items;
}

abbrev short_entry : PurgeEntry
short_entry = record entry { chunks = here ∷ [] }

-- The reaper empties the queue at its start and again after a deletion, and ends at the shutdown.
run_twice :
    run one codecs
      (bytes "a" ∷ [])
      3
      (λ n. del)
      9
      (wake (λ d. some (purge_wire.enc short_entry)) (λ n. del) 20 ∷ shutdown ∷ [])
      (some (purge_wire.enc short_entry))
    ≡ ok none
unfolding run receive drain process_batch list_purge_entries collect_limit process_entries
    store_entries store_one remove_purge_entry all_deleted text_eq
run_twice = refl
