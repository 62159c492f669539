-- ===== src/Purge/Marks.antt =====
-- The marks that a round of the reaper sets, src/metadata/purge_queue.rs:78.
use s3prism.Base.{
  ℕ, zero, suc, ◌+◌, ◌≡◌, refl, sym, ap, subst, true, ◌&&◌, List, [], ◌∷◌, ◌++◌, map, Text, some,
  All, drop, get_elem?, any, text_eq, text_eq_iff, if◌then◌else◌, ◌⊎◌, inl, inr, Bool-cases, arith,
}
use s3prism.Metadata.Models.{PurgeEntry, PurgeChunk}
use s3prism.Purge.Confirmed.{IsConfirmed, IsItemOf, IsGroupOf, deleted_keys-IsConfirmed}
use s3prism.Purge.{
  Item, Group, Deleter, attempt, push_item, group_chunks, group_entries, deleted_keys, set_deleted,
  update_at, mark_items, mark_groups, process_entries,
}

-- Two lists are as long, and the items at each place are related.
abbrev pub All₂ : {A : Type 0} → (A → A → Type 0) → List A → List A → Type 0
All₂ R [] [] = Unit
All₂ R [] (y ∷ ys) = ⊥
All₂ R (x ∷ xs) [] = ⊥
All₂ R (x ∷ xs) (y ∷ ys) = R x y × All₂ R xs ys

-- A chunk after a round: as before, or marked and confirmed.
abbrev pub IsMarkedChunk : List Text → Deleter → List PurgeEntry → PurgeChunk → PurgeChunk → Type 0
IsMarkedChunk clients del es c c' = (c' ≡ c) ⊎ ((c' ≡ set_deleted c) × IsConfirmed clients del es c)

-- An entry after a round: it differs in its chunks' marks only.
abbrev pub IsMarkedEntry : List Text → Deleter → List PurgeEntry → PurgeEntry → PurgeEntry → Type 0
IsMarkedEntry clients del es e e' =
    (cs : List PurgeChunk) × (e' ≡ record e { chunks = cs })
    × All₂ (IsMarkedChunk clients del es) e.chunks cs

module _ {A : Type 0} where
  All₂-refl : (R : A → A → Type 0) → ((x : A) → R x x) → (xs : List A) → All₂ R xs xs
  All₂-refl R h [] = tt
  All₂-refl R h (x ∷ xs) = (h x, All₂-refl R h xs)

  All₂-update_at :
      (R : A → A → Type 0) (f : A → A) (xs ys : List A) (i : ℕ) {a : A}
      → get_elem? xs i ≡ some a
      → ((y : A) → R a y → R a (f y))
      → All₂ R xs ys
      → All₂ R xs (update_at ys i f)
  unfolding update_at
  All₂-update_at R f [] [] i e h r = tt
  All₂-update_at R f [] (y ∷ ys) i e h r = elim r [ ]
  All₂-update_at R f (x ∷ xs) [] i e h r = elim r [ ]
  All₂-update_at R f (x ∷ xs) (y ∷ ys) zero {a} e h (rx, rest) =
      let same : a ≡ x = cc in
      (subst (λ z. R z (f y)) same (h y (subst (λ z. R z y) (sym same) rx)), rest)
  All₂-update_at R f (x ∷ xs) (y ∷ ys) (suc i) e h (rx, rest) =
      (rx, All₂-update_at R f xs ys i e h rest)

  All-append_one : (P : A → Type 0) (xs : List A) (y : A) → All P xs → P y → All P (xs ++ y ∷ [])
  All-append_one P [] y h hy = (hy, tt)
  All-append_one P (x ∷ xs) y (hx, h) hy = (hx, All-append_one P xs y h hy)

  get_elem?-drop :
      (xs : List A) (i : ℕ) {x : A} {rest : List A}
      → drop i xs ≡ x ∷ rest
      → (get_elem? xs i ≡ some x) × (drop (suc i) xs ≡ rest)
  get_elem?-drop [] zero e = cc
  get_elem?-drop [] (suc i) e = cc
  get_elem?-drop (x ∷ xs) zero e = (cc, cc)
  get_elem?-drop (x ∷ xs) (suc i) e = get_elem?-drop xs i e

suc-add_one : (n : ℕ) → suc n ≡ n + 1
suc-add_one n = omega arith

module _ (es : List PurgeEntry) where
  push_item-IsGroupOf :
      (site bucket : Text) (item : Item) (gs : List Group)
      → IsItemOf es site bucket item
      → All (IsGroupOf es) gs
      → All (IsGroupOf es) (push_item site bucket item gs)
  unfolding push_item
  push_item-IsGroupOf site bucket item [] h hs = ((h, tt), tt)
  push_item-IsGroupOf site bucket item (g ∷ gs) h (hg, hs) =
      elim (Bool-cases (text_eq g.site site && text_eq g.bucket bucket)) [
        | inr other ↦ rw other (hg, push_item-IsGroupOf site bucket item gs h hs)
        | inl same ↦
            let s : g.site ≡ site = (text_eq_iff g.site site).0 (ground (arith, same)) in
            let b : g.bucket ≡ bucket = (text_eq_iff g.bucket bucket).0 (ground (arith, same)) in
            rw same (
              All-append_one (IsItemOf es g.site g.bucket) g.items item hg (
                  subst (λ t. IsItemOf es t g.bucket item) (sym s)
                    (subst (λ t. IsItemOf es site t item) (sym b) h)),
              hs,
            )
      ]

  group_chunks-IsGroupOf :
      (entry_idx chunk_idx : ℕ) (e : PurgeEntry) (cs : List PurgeChunk) (gs : List Group)
      → get_elem? es entry_idx ≡ some e
      → drop chunk_idx e.chunks ≡ cs
      → All (IsGroupOf es) gs
      → All (IsGroupOf es) (group_chunks entry_idx chunk_idx cs gs)
  unfolding group_chunks
  group_chunks-IsGroupOf i j e [] gs he hc h = h
  group_chunks-IsGroupOf i j e (c ∷ cs) gs he hc h =
      let (at, rest) = get_elem?-drop e.chunks j hc in
      let item : Item = record { entry_idx = i; chunk_idx = j; key = c.s3_key } in
      let next = if c.deleted then gs else push_item c.site c.bucket item gs in
      let kept : All (IsGroupOf es) next = elim (Bool-cases c.deleted) [
        | inl gone ↦ rw gone h
        | inr there ↦
            rw there
              (push_item-IsGroupOf c.site c.bucket item gs (e, he, c, at, refl, refl, refl) h)
      ] in
      group_chunks-IsGroupOf i (j + 1) e cs next he
        (subst (λ n. drop n e.chunks ≡ cs) (suc-add_one j) rest) kept

  group_entries-IsGroupOf :
      (i : ℕ) (rest : List PurgeEntry) (gs : List Group)
      → drop i es ≡ rest
      → All (IsGroupOf es) gs
      → All (IsGroupOf es) (group_entries i rest gs)
  unfolding group_entries
  group_entries-IsGroupOf i [] gs hd h = h
  group_entries-IsGroupOf i (e ∷ rest) gs hd h =
      let (at, hd') = get_elem?-drop es i hd in
      group_entries-IsGroupOf (i + 1) rest (group_chunks i 0 e.chunks gs)
        (subst (λ n. drop n es ≡ rest) (suc-add_one i) hd')
        (group_chunks-IsGroupOf i 0 e e.chunks gs at refl h)

module _ (clients : List Text) (del : Deleter) (es : List PurgeEntry) where
  IsMarkedEntry-refl : (e : PurgeEntry) → IsMarkedEntry clients del es e e
  IsMarkedEntry-refl e =
      (e.chunks, refl, All₂-refl (IsMarkedChunk clients del es) (λ c. inl refl) e.chunks)

  set_deleted-IsMarkedChunk :
      (c c' : PurgeChunk)
      → IsConfirmed clients del es c
      → IsMarkedChunk clients del es c c'
      → IsMarkedChunk clients del es c (set_deleted c')
  set_deleted-IsMarkedChunk c c' conf (inl same) = inr (ap set_deleted same, conf)
  set_deleted-IsMarkedChunk c c' conf (inr (marked, _)) = inr (ap set_deleted marked, conf)

  mark_items-All₂ :
      (g : Group) (items : List Item) (cur : List PurgeEntry)
      → IsGroupOf es g
      → All (IsItemOf es g.site g.bucket) items
      → All₂ (IsMarkedEntry clients del es) es cur
      → All₂ (IsMarkedEntry clients del es) es (mark_items (deleted_keys clients del g) items cur)
  unfolding mark_items
  mark_items-All₂ g [] cur of h r = r
  mark_items-All₂ g (i ∷ items) cur of ((e, he, c, hc, s, b, k), h) r =
      let gone = deleted_keys clients del g in
      elim (Bool-cases (any (λ key. text_eq key i.key) gone)) [
        | inr there ↦ rw there (mark_items-All₂ g items cur of h r)
        | inl found ↦
            let conf : IsConfirmed clients del es c =
              deleted_keys-IsConfirmed es clients del g c of s b
                (subst (λ t. any (λ key. text_eq key t) gone ≡ true) k found) in
            rw found (
              mark_items-All₂ g items _ of h (
                All₂-update_at (IsMarkedEntry clients del es) _ es cur i.entry_idx he
                  (λ y marked.
                    let (cs, same, chunks) = marked in
                    (
                      update_at cs i.chunk_idx set_deleted,
                      ap
                          (λ (y : PurgeEntry). record y {
                            chunks = update_at y.chunks i.chunk_idx set_deleted;
                          })
                          same,
                      All₂-update_at (IsMarkedChunk clients del es) set_deleted e.chunks cs
                          i.chunk_idx hc (λ c' m. set_deleted-IsMarkedChunk c c' conf m) chunks,
                    ))
                  r))
      ]

  mark_groups-All₂ :
      (gs : List Group) (cur : List PurgeEntry)
      → All (IsGroupOf es) gs
      → All₂ (IsMarkedEntry clients del es) es cur
      → All₂ (IsMarkedEntry clients del es) es (mark_groups clients del gs cur)
  unfolding mark_groups
  mark_groups-All₂ [] cur h r = r
  mark_groups-All₂ (g ∷ gs) cur (hg, h) r =
      mark_groups-All₂ gs _ h (mark_items-All₂ g g.items cur hg hg r)

-- A round changes nothing in the entries it has found but the number and the time of the attempts
-- and the marks. It marks a chunk only if the site of the chunk has a client and has answered a request,
-- which deletes at most 1000 keys of the entries' chunks at that site and bucket, with a success that
-- has the chunk's key among the deleted ones.
pub process_entries-IsMarkedEntry :
    (clients : List Text) (del : Deleter) (now : ℕ) (found : List PurgeEntry)
    → All₂
        (IsMarkedEntry clients del (map (attempt now) found))
        (map (attempt now) found)
        (process_entries clients del now found)
unfolding process_entries
process_entries-IsMarkedEntry clients del now found =
    let es = map (attempt now) found in
    mark_groups-All₂ clients del es (group_entries 0 es []) es
      (group_entries-IsGroupOf es 0 es [] refl tt)
      (All₂-refl (IsMarkedEntry clients del es) (IsMarkedEntry-refl clients del es) es)
