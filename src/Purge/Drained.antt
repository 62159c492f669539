-- ===== src/Purge/Drained.antt =====
-- What a round of the reaper takes out of the queue, src/metadata/purge_queue.rs:156.
mod Tests
use s3prism.Base.{
  Bool, false, ℕ, ◌≡◌, ◌≢◌, refl, sym, ap, ap₂, ◌∙◌, subst, true, List, [], ◌∷◌, map, Text, Option,
  none, text_eq, text_eq_iff, text_eq_refl, length, if◌then◌else◌, inl, inr, Bool-cases, Result, ok,
  All, Distinct, ◌>>=◌, >>=-eq-ok,
}
use s3prism.Fault.{Fault}
use s3prism.Metadata.Models.{PurgeEntry, all_deleted}
use s3prism.Metadata.Rocks.{Rocks, Codecs, Write, purge, put, delete, apply_writes}
use s3prism.Metadata.Queue.{list_purge_entries, update_purge_entry, remove_purge_entry}
use s3prism.Purge.{Deleter, attempt, process_entries, store_one, store_entries, process_batch}
use s3prism.Purge.Marks.{All₂}
use s3prism.Purge.Coverage.{ConfirmsAll, IsCleared, process_entries-IsCleared}

differ : (k id : Text) → k ≢ id → text_eq id k ≡ false
differ k id other = elim (Bool-cases (text_eq id k)) [
  | inl same ↦ absurd (other (sym ((text_eq_iff id k).0 same)))
  | inr differs ↦ differs
]

module _ (r : Rocks) (codecs : Codecs) (clients : List Text) where
  open r use {Db, contents, write}

  -- The database takes every write, and every entry has a text.
  abbrev pub Answers : Type 0
  Answers =
      ((ws : List Write) (d : Db) → (d' : Db) × (write ws d ≡ ok d'))
      × ((e : PurgeEntry) → (v : Text) × (codecs.purge_entry.to_vec e ≡ ok v))

  -- The finished entries are out of the queue.
  abbrev Emptied : Db → List PurgeEntry → Type 0
  Emptied d' = All (λ (e : PurgeEntry). all_deleted e ≡ true → contents d' purge e.id ≡ none)

  -- Other entries do not touch the place of an id.
  abbrev Same : Text → Db → Db → Type 0
  Same k d d' = contents d' purge k ≡ contents d purge k

  -- One round of the last loop: the entry is out of the queue if it is finished.
  abbrev IsStored : PurgeEntry → Db → Result Fault Db → Type 0
  IsStored e d written =
      (d1 : Db) × (written ≡ ok d1)
      × ((all_deleted e ≡ true → contents d1 purge e.id ≡ none)
          × ((k : Text) → k ≢ e.id → Same k d d1))

  remove_purge_entry-IsStored :
      Answers → (e : PurgeEntry) (d : Db) → IsStored e d (remove_purge_entry r codecs e.id d)
  unfolding remove_purge_entry apply_writes
  remove_purge_entry-IsStored (writes, codes) e d =
      let (d1, written) = writes (delete purge e.id ∷ []) d in
      (
        d1,
        written,
        (
          λ done.
              r.write-contents (delete purge e.id ∷ []) d written purge e.id
              ∙ rw (text_eq_refl e.id) refl,
          λ k other.
              r.write-contents (delete purge e.id ∷ []) d written purge k
              ∙ rw (differ k e.id other) refl,
        ),
      )

  update_purge_entry-IsStored :
      Answers
      → (e : PurgeEntry) (d : Db) → all_deleted e ≡ false
      → IsStored e d (update_purge_entry r codecs e d)
  unfolding update_purge_entry apply_writes
  update_purge_entry-IsStored (writes, codes) e d left =
      let (v, coded) = codes e in
      let (d1, written) = writes (put purge e.id v ∷ []) d in
      (
        d1,
        rw coded written,
        (
          λ done. cc (done, left),
          λ k other.
              r.write-contents (put purge e.id v ∷ []) d written purge k
              ∙ rw (differ k e.id other) refl,
        ),
      )

  store_entries-Emptied :
      Answers
      → (es : List PurgeEntry) (d : Db) → Distinct (map (λ (e : PurgeEntry). e.id) es)
      → (d' : Db) × (store_entries r codecs clients es d ≡ ok d')
        × (Emptied d' es
            × ((k : Text) → All (λ i. k ≢ i) (map (λ (e : PurgeEntry). e.id) es) → Same k d d'))
  unfolding store_entries store_one
  store_entries-Emptied answers [] d apart = (d, refl, (tt, λ k h. refl))
  store_entries-Emptied answers (e ∷ es) d (ne, apart) =
      let chosen : Bool → Result Fault Db =
        λ b. if b then remove_purge_entry r codecs e.id d else update_purge_entry r codecs e d in
      let one : IsStored e d (chosen (all_deleted e)) = elim (Bool-cases (all_deleted e)) [
        | inl done ↦
            subst (λ b. IsStored e d (chosen b)) (sym done)
              (remove_purge_entry-IsStored answers e d)
        | inr left ↦
            subst (λ b. IsStored e d (chosen b)) (sym left)
              (update_purge_entry-IsStored answers e d left)
      ] in
      let (d1, stored, (gone, same)) = one in
      let (d', rest, (emptied, kept)) = store_entries-Emptied answers es d1 apart in
      (
        d',
        rw stored rest,
        (
          (λ done. kept e.id ne ∙ gone done, emptied),
          λ k (other, others). kept k others ∙ same k other,
        ),
      )

  -- What was finished before the last loop is out of the queue after it.
  cleared-Emptied :
      (del : Deleter) (es ps : List PurgeEntry) (d' : Db)
      → All₂ (IsCleared clients del) es ps
      → Emptied d' ps
      → All (λ (e : PurgeEntry). ConfirmsAll clients del e → contents d' purge e.id ≡ none) es
  cleared-Emptied del [] [] d' h emptied = tt
  cleared-Emptied del [] (p ∷ ps) d' h emptied = absurd h
  cleared-Emptied del (e ∷ es) [] d' h emptied = absurd h
  cleared-Emptied del (e ∷ es) (p ∷ ps) d' ((same, done), h) (gone, emptied) = (
    λ confirms. ap (λ k. contents d' purge k) (sym same) ∙ gone (done confirms),
    cleared-Emptied del es ps d' h emptied,
  )

  All₂-ids :
      (del : Deleter) (es ps : List PurgeEntry)
      → All₂ (IsCleared clients del) es ps
      → map (λ (e : PurgeEntry). e.id) ps ≡ map (λ (e : PurgeEntry). e.id) es
  All₂-ids del [] [] h = refl
  All₂-ids del [] (p ∷ ps) h = absurd h
  All₂-ids del (e ∷ es) [] h = absurd h
  All₂-ids del (e ∷ es) (p ∷ ps) ((same, done), h) =
      ap₂ (λ x xs. x ∷ xs) same (All₂-ids del es ps h)

  -- The attempt changes neither the id nor the chunks.
  attempts-ids :
      (now : ℕ) (es : List PurgeEntry)
      → map (λ (e : PurgeEntry). e.id) (map (attempt now) es) ≡ map (λ (e : PurgeEntry). e.id) es
  unfolding attempt
  attempts-ids now [] = refl
  attempts-ids now (e ∷ es) = ap (λ xs. e.id ∷ xs) (attempts-ids now es)

  attempts-cleared :
      (del : Deleter) (now : ℕ) (es : List PurgeEntry) (d' : Db)
      → All
          (λ (e : PurgeEntry). ConfirmsAll clients del e → contents d' purge e.id ≡ none)
          (map (attempt now) es)
      → All (λ (e : PurgeEntry). ConfirmsAll clients del e → contents d' purge e.id ≡ none) es
  unfolding attempt
  attempts-cleared del now [] d' h = tt
  attempts-cleared del now (e ∷ es) d' (he, h) = (he, attempts-cleared del now es d' h)

  -- A round of the reaper ends, and it takes each listed entry out of the queue whose chunks are all
  -- at sites that have a client and confirm what they are asked to delete, whatever the other sites
  -- do. The database answers, and the listed entries have different ids.
  pub process_batch-clears :
      (del : Deleter) (now : ℕ) (d : Db) (entries : List PurgeEntry)
      → Answers
      → list_purge_entries r codecs 1000 d ≡ ok entries
      → Distinct (map (λ (e : PurgeEntry). e.id) entries)
      → (d' : Db) × (process_batch r codecs clients del now d ≡ ok (length entries, d'))
        × All
            (λ (e : PurgeEntry). ConfirmsAll clients del e → contents d' purge e.id ≡ none)
            entries
  unfolding process_batch
  process_batch-clears del now d entries answers listed apart =
      let ps = process_entries clients del now entries in
      let clear = process_entries-IsCleared clients del now entries in
      let ids = All₂-ids del (map (attempt now) entries) ps clear ∙ attempts-ids now entries in
      let (d', stored, (emptied, _)) =
        store_entries-Emptied answers ps d (subst Distinct (sym ids) apart) in
      (
        d',
        rw (listed, stored) refl,
        attempts-cleared del now entries d'
            (cleared-Emptied del (map (attempt now) entries) ps d' clear emptied),
      )
