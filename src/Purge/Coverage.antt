-- ===== src/Purge/Coverage.antt =====
-- The entries that a round of the reaper finishes, src/metadata/purge_queue.rs:78.
use s3prism.Base.{
  ℕ, zero, suc, ◌+◌, ◌≡◌, refl, sym, ap, ◌∙◌, subst, ◌⊎◌, inl, inr, Bool, true, false, ◌&&◌, List,
  [], ◌∷◌, ◌++◌, map, Text, none, some, All, get_elem?, all, text_eq, text_eq_iff, if◌then◌else◌,
  Bool-cases, arith,
}
use s3prism.Metadata.Models.{PurgeEntry, PurgeChunk, all_deleted}
use s3prism.Purge.{
  Item, Group, Deleter, attempt, push_item, group_chunks, group_entries, process_entries,
}
use s3prism.Purge.Marks.{All₂, IsMarkedEntry, process_entries-IsMarkedEntry}
use s3prism.Purge.Progress.{
  chunk_done, is_done, InItems, InGroups, mark_groups-keep, mark_groups-done, Confirms,
}

module _ (site bucket : Text) (item : Item) where
  InItems-append :
      (items : List Item) (x : Item) → InItems item items → InItems item (items ++ x ∷ [])
  InItems-append [] x h = absurd h
  InItems-append (y ∷ items) x (inl same) = inl same
  InItems-append (y ∷ items) x (inr later) = inr (InItems-append items x later)

  InItems-last : (items : List Item) → InItems item (items ++ item ∷ [])
  InItems-last [] = inl refl
  InItems-last (y ∷ items) = inr (InItems-last items)

  push_item-InGroups : (gs : List Group) → InGroups site bucket item (push_item site bucket item gs)
  unfolding push_item
  push_item-InGroups [] = inl (refl, (refl, inl refl))
  push_item-InGroups (g ∷ gs) = elim (Bool-cases (text_eq g.site site && text_eq g.bucket bucket)) [
    | inr other ↦ rw other (inr (push_item-InGroups gs))
    | inl same ↦
        let s : g.site ≡ site = (text_eq_iff g.site site).0 (ground (arith, same)) in
        let b : g.bucket ≡ bucket = (text_eq_iff g.bucket bucket).0 (ground (arith, same)) in
        rw same (inl (s, (b, InItems-last g.items)))
  ]

  push_item-keep :
      (s b : Text) (x : Item) (gs : List Group)
      → InGroups site bucket item gs
      → InGroups site bucket item (push_item s b x gs)
  unfolding push_item
  push_item-keep s b x [] h = absurd h
  push_item-keep s b x (g ∷ gs) (inl (es, (eb, here))) =
      elim (Bool-cases (text_eq g.site s && text_eq g.bucket b)) [
        | inr other ↦ rw other (inl (es, (eb, here)))
        | inl same ↦ rw same (inl (es, (eb, InItems-append g.items x here)))
      ]
  push_item-keep s b x (g ∷ gs) (inr later) =
      elim (Bool-cases (text_eq g.site s && text_eq g.bucket b)) [
        | inr other ↦ rw other (inr (push_item-keep s b x gs later))
        | inl same ↦ rw same (inr later)
      ]

  group_chunks-keep :
      (i j : ℕ) (cs : List PurgeChunk) (gs : List Group)
      → InGroups site bucket item gs
      → InGroups site bucket item (group_chunks i j cs gs)
  unfolding group_chunks
  group_chunks-keep i j [] gs h = h
  group_chunks-keep i j (c ∷ cs) gs h = group_chunks-keep i (j + 1) cs _ (next c.deleted)
    where
      next :
          (b : Bool)
          → InGroups site bucket item (
              if b
              then gs
              else push_item c.site c.bucket
                  (record { entry_idx = i; chunk_idx = j; key = c.s3_key })
                  gs)
      next true = h
      next false = push_item-keep c.site c.bucket _ gs h

  group_entries-keep :
      (i : ℕ) (es : List PurgeEntry) (gs : List Group)
      → InGroups site bucket item gs
      → InGroups site bucket item (group_entries i es gs)
  unfolding group_entries
  group_entries-keep i [] gs h = h
  group_entries-keep i (e ∷ es) gs h =
      group_entries-keep (i + 1) es _ (group_chunks-keep i 0 e.chunks gs h)

abbrev item_of : ℕ → ℕ → PurgeChunk → Item
item_of i j c = record { entry_idx = i; chunk_idx = j; key = c.s3_key }

-- A chunk that is not yet marked is in a group of its site and bucket.
group_chunks-InGroups :
    (i j k n : ℕ) (cs : List PurgeChunk) (gs : List Group) (c : PurgeChunk)
    → k ≡ j + n
    → get_elem? cs n ≡ some c
    → c.deleted ≡ false
    → InGroups c.site c.bucket (item_of i k c) (group_chunks i j cs gs)
unfolding group_chunks
group_chunks-InGroups i j k n [] gs c at h fresh = cc
group_chunks-InGroups i j k zero (x ∷ cs) gs c at h fresh =
    let same : c ≡ x = cc in
    let here : k ≡ j = omega (arith, at) in
    let pushed : InGroups c.site c.bucket (item_of i k c)
        (push_item c.site c.bucket (item_of i j c) gs) =
      subst
        (λ l.
          InGroups c.site c.bucket (item_of i k c) (push_item c.site c.bucket (item_of i l c) gs))
        here (push_item-InGroups c.site c.bucket (item_of i k c) gs) in
    subst
      (λ (y : PurgeChunk). InGroups c.site c.bucket (item_of i k c) (
        group_chunks i (j + 1) cs
          (if y.deleted then gs else push_item y.site y.bucket (item_of i j y) gs)))
      same (rw fresh (group_chunks-keep c.site c.bucket (item_of i k c) i (j + 1) cs _ pushed))
group_chunks-InGroups i j k (suc n) (x ∷ cs) gs c at h fresh =
    group_chunks-InGroups i (j + 1) k n cs _ c (omega (arith, at)) h fresh

group_entries-InGroups :
    (i k m n : ℕ) (es : List PurgeEntry) (gs : List Group) (e : PurgeEntry) (c : PurgeChunk)
    → k ≡ i + m
    → get_elem? es m ≡ some e
    → get_elem? e.chunks n ≡ some c
    → c.deleted ≡ false
    → InGroups c.site c.bucket (item_of k n c) (group_entries i es gs)
unfolding group_entries
group_entries-InGroups i k m n [] gs e c at he h fresh = cc
group_entries-InGroups i k zero n (x ∷ es) gs e c at he h fresh =
    let same : e ≡ x = cc in
    let here : i ≡ k = omega (arith, at) in
    group_entries-keep c.site c.bucket (item_of k n c) (i + 1) es _ (
      subst (λ l. InGroups c.site c.bucket (item_of k n c) (group_chunks l 0 x.chunks gs))
        (sym here)
        (group_chunks-InGroups k 0 n n x.chunks gs c (omega arith)
          (subst (λ (y : PurgeEntry). get_elem? y.chunks n ≡ some c) same h) fresh))
group_entries-InGroups i k (suc m) n (x ∷ es) gs e c at he h fresh =
    group_entries-InGroups (i + 1) k m n es _ e c (omega (arith, at)) he h fresh

chunk_done-here :
    (cs : List PurgeChunk) (j : ℕ) (c : PurgeChunk)
    → get_elem? cs j ≡ some c
    → chunk_done cs j ≡ c.deleted
chunk_done-here [] j c h = cc
chunk_done-here (x ∷ cs) zero c h = cc
chunk_done-here (x ∷ cs) (suc j) c h = chunk_done-here cs j c h

pub chunk_done-absent :
    (cs : List PurgeChunk) (j : ℕ) → get_elem? cs j ≡ none → chunk_done cs j ≡ true
chunk_done-absent [] j h = refl
chunk_done-absent (x ∷ cs) zero h = cc
chunk_done-absent (x ∷ cs) (suc j) h = chunk_done-absent cs j h

is_done-here :
    (es : List PurgeEntry) (i j : ℕ) (e : PurgeEntry)
    → get_elem? es i ≡ some e
    → is_done es i j ≡ chunk_done e.chunks j
is_done-here [] i j e he = cc
is_done-here (x ∷ es) zero j e he =
    ap (λ (y : PurgeEntry). chunk_done y.chunks j) (some_injective he)
  where
    some_injective : {x y : PurgeEntry} → some x ≡ some y → x ≡ y
    some_injective h = cc
is_done-here (x ∷ es) (suc i) j e he = is_done-here es i j e he

-- A chunk whose site confirms is marked after the round.
pub process_entries-is_done :
    (clients : List Text) (del : Deleter) (now : ℕ) (found : List PurgeEntry) (i j : ℕ)
    (e : PurgeEntry) (c : PurgeChunk)
    → get_elem? (map (attempt now) found) i ≡ some e
    → get_elem? e.chunks j ≡ some c
    → Confirms clients del c.site c.bucket
    → is_done (process_entries clients del now found) i j ≡ true
unfolding process_entries
process_entries-is_done clients del now found i j e c he hc confirms =
    let es = map (attempt now) found in
    let round = group_entries 0 es [] in
    elim (Bool-cases c.deleted) [
      | inl done ↦
          mark_groups-keep clients del round es i j
            (is_done-here es i j e he ∙ chunk_done-here e.chunks j c hc ∙ done)
      | inr fresh ↦
          mark_groups-done clients del c.site c.bucket confirms round es (item_of i j c)
            (group_entries-InGroups 0 i i j es [] e c (omega arith) he hc fresh)
    ]

-- Every chunk of the entry is at a site that confirms.
abbrev pub ConfirmsAll : List Text → Deleter → PurgeEntry → Type 0
ConfirmsAll clients del e = All (λ (c : PurgeChunk). Confirms clients del c.site c.bucket) e.chunks

All-get_elem? :
    (P : PurgeChunk → Type 0) (cs : List PurgeChunk) (j : ℕ)
    → All P cs
    → ((c : PurgeChunk) × (get_elem? cs j ≡ some c) × P c) ⊎ (get_elem? cs j ≡ none)
All-get_elem? P [] j h = inr refl
All-get_elem? P (c ∷ cs) zero (hc, h) = inl (c, refl, hc)
All-get_elem? P (c ∷ cs) (suc j) (hc, h) = All-get_elem? P cs j h

-- An entry all of whose sites confirm has only marked chunks after the round.
process_entries-all :
    (clients : List Text) (del : Deleter) (now : ℕ) (found : List PurgeEntry) (i : ℕ)
    (e : PurgeEntry)
    → get_elem? (map (attempt now) found) i ≡ some e
    → ConfirmsAll clients del e
    → (j : ℕ) → is_done (process_entries clients del now found) i j ≡ true
unfolding process_entries
process_entries-all clients del now found i e he confirms j =
    let es = map (attempt now) found in
    elim (All-get_elem? (λ (c : PurgeChunk). Confirms clients del c.site c.bucket) e.chunks j
      confirms) [
        | inl (c, hc, conf) ↦ process_entries-is_done clients del now found i j e c he hc conf
        | inr absent ↦
            mark_groups-keep clients del (group_entries 0 es []) es i j
              (is_done-here es i j e he ∙ chunk_done-absent e.chunks j absent)
      ]

all-chunk_done :
    (cs : List PurgeChunk)
    → ((j : ℕ) → chunk_done cs j ≡ true)
    → all (λ (c : PurgeChunk). c.deleted) cs ≡ true
all-chunk_done [] h = refl
all-chunk_done (c ∷ cs) h = rw (h 0, all-chunk_done cs (λ j. h (suc j))) refl

-- An entry before and after a round: the id stays, and where all sites confirm it is finished.
abbrev pub IsCleared : List Text → Deleter → PurgeEntry → PurgeEntry → Type 0
IsCleared clients del e e' = (e'.id ≡ e.id) × (ConfirmsAll clients del e → all_deleted e' ≡ true)

cleared :
    (clients : List Text) (del : Deleter) (found es ps : List PurgeEntry)
    → All₂ (IsMarkedEntry clients del found) es ps
    → ((i : ℕ) (e : PurgeEntry)
        → get_elem? es i ≡ some e
        → ConfirmsAll clients del e
        → (j : ℕ) → is_done ps i j ≡ true)
    → All₂ (IsCleared clients del) es ps
unfolding all_deleted
cleared clients del found [] [] marked h = tt
cleared clients del found [] (p ∷ ps) marked h = absurd marked
cleared clients del found (e ∷ es) [] marked h = absurd marked
cleared clients del found (e ∷ es) (p ∷ ps) ((cs, same, _), marked) h = (
  (ap (λ (x : PurgeEntry). x.id) same, λ confirms. all-chunk_done p.chunks (h 0 e refl confirms)),
  cleared clients del found es ps marked (λ i. h (suc i)),
)

pub process_entries-IsCleared :
    (clients : List Text) (del : Deleter) (now : ℕ) (found : List PurgeEntry)
    → All₂ (IsCleared clients del) (map (attempt now) found) (process_entries clients del now found)
process_entries-IsCleared clients del now found =
    cleared clients del (map (attempt now) found) (map (attempt now) found)
      (process_entries clients del now found) (process_entries-IsMarkedEntry clients del now found)
      (process_entries-all clients del now found)
