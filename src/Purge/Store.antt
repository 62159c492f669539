-- ===== src/Purge/Store.antt =====
-- What a round of the reaper takes out of the queue, src/metadata/purge_queue.rs:156.
use s3prism.Base.{
  ℕ, ◌≡◌, sym, ap, ◌∙◌, subst, true, List, [], ◌∷◌, Text, Option, none, some, text_eq, text_eq_iff,
  if◌then◌else◌, ◌⊎◌, inl, inr, Bool-cases, Result, ok, err, >>=-eq-ok, ok_injective,
}
use s3prism.Fault.{Fault}
use s3prism.Metadata.Models.{PurgeEntry, all_deleted}
use s3prism.Metadata.Rocks.{Rocks, Codecs, purge, put, delete, apply_writes}
use s3prism.Metadata.Queue.{list_purge_entries, update_purge_entry, remove_purge_entry}
use s3prism.Purge.{
  Deleter, process_entries, store_one, store_entries, store_left, process_batch, batch_left,
}

-- One of the entries has the id, and all its chunks are deleted.
abbrev pub IsFinished : Text → List PurgeEntry → Type 0
IsFinished k [] = ⊥
IsFinished k (e ∷ es) = ((e.id ≡ k) × (all_deleted e ≡ true)) ⊎ IsFinished k es

module _ (r : Rocks) (codecs : Codecs) where
  open r use {Db, contents}

  remove-none :
      (k id : Text) (d d' : Db)
      → remove_purge_entry r codecs id d ≡ ok d'
      → contents d' purge k ≡ none
      → (contents d purge k ≡ none) ⊎ (id ≡ k)
  unfolding remove_purge_entry apply_writes
  remove-none k id d d' h gone =
      let now = sym (r.write-contents (delete purge id ∷ []) d h purge k) ∙ gone in
      elim (Bool-cases (text_eq id k)) [
        | inl same ↦ inr ((text_eq_iff id k).0 same)
        | inr other ↦ inl (subst (λ b. (if b then none else contents d purge k) ≡ none) other now)
      ]

  update-none :
      (k : Text) (e : PurgeEntry) (d d' : Db)
      → update_purge_entry r codecs e d ≡ ok d'
      → contents d' purge k ≡ none
      → contents d purge k ≡ none
  unfolding update_purge_entry apply_writes
  update-none k e d d' h gone =
      let (v, coded, h1) = >>=-eq-ok (codecs.purge_entry.to_vec e) _ h in
      let now = sym (r.write-contents (put purge e.id v ∷ []) d h1 purge k) ∙ gone in
      elim (Bool-cases (text_eq e.id k)) [
        | inl same ↦ absurd (
            some_ne_none v
              (subst (λ b. (if b then some v else contents d purge k) ≡ none) same now))
        | inr other ↦ subst (λ b. (if b then some v else contents d purge k) ≡ none) other now
      ]
    where
      some_ne_none : (v : Text) → ◌≡◌ {A = Option Text} (some v) none → ⊥
      some_ne_none v e = cc

  pub store_one-none :
      (k : Text) (e : PurgeEntry) (d d' : Db)
      → store_one r codecs e d ≡ ok d'
      → contents d' purge k ≡ none
      → (contents d purge k ≡ none) ⊎ ((e.id ≡ k) × (all_deleted e ≡ true))
  unfolding store_one
  store_one-none k e d d' h gone = elim (Bool-cases (all_deleted e)) [
    | inl done ↦
        let removed : remove_purge_entry r codecs e.id d ≡ ok d' =
          subst
            (λ b.
              (if b then remove_purge_entry r codecs e.id d else update_purge_entry r codecs e d)
              ≡ ok d')
            done h in
        elim (remove-none k e.id d d' removed gone) [
          | inl before ↦ inl before
          | inr same ↦ inr (same, done)
        ]
    | inr left ↦
        let updated : update_purge_entry r codecs e d ≡ ok d' =
          subst
            (λ b.
              (if b then remove_purge_entry r codecs e.id d else update_purge_entry r codecs e d)
              ≡ ok d')
            left h in
        inl (update-none k e d d' updated gone)
  ]

  module _ (clients : List Text) where
    store_left-store_entries :
        (es : List PurgeEntry) (d d' : Db)
        → store_entries r codecs clients es d ≡ ok d'
        → store_left r codecs clients es d ≡ d'
    unfolding store_entries store_left
    store_left-store_entries [] d d' h = ok_injective h
    store_left-store_entries (e ∷ es) d d' h =
        let (d1, one, rest) = >>=-eq-ok (store_one r codecs e d) _ h in
        ap
          (λ (res : Result Fault Db). elim res [
            | err fault ↦ d
            | ok next ↦ store_left r codecs clients es next
          ])
          one
        ∙ store_left-store_entries es d1 d' rest

    -- A round that succeeds leaves the database that it returns.
    pub batch_left-process_batch :
        (del : Deleter) (now n : ℕ) (d d' : Db)
        → process_batch r codecs clients del now d ≡ ok (n, d')
        → batch_left r codecs clients del now d ≡ d'
    unfolding process_batch batch_left
    batch_left-process_batch del now n d d' h =
        let (found, listed, h1) = >>=-eq-ok (list_purge_entries r codecs 1000 d) _ h in
        let (d1, stored, h2) =
          >>=-eq-ok (store_entries r codecs clients (process_entries clients del now found) d) _
            h1 in
        ap
          (λ (res : Result Fault (List PurgeEntry)). elim res [
            | err fault ↦ d
            | ok entries ↦ store_left r codecs clients (process_entries clients del now entries) d
          ])
          listed
        ∙ store_left-store_entries (process_entries clients del now found) d d1 stored
        ∙ ap (λ (p : ℕ × Db). p.1) (ok_injective h2)
