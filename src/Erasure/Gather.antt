-- ===== src/Erasure/Gather.antt =====
-- What the loops of src/erasure_coding/decoder.rs do with shards of one encoding.
use s3prism.Base.{
  ℕ, zero, suc, ◌+◌, ◌-◌, ◌≤◌, ◌<◌, ◌≡◌, ◌≢◌, refl, sym, ap, ◌∙◌, Bool, true, false, ◌||◌, ◌⊎◌, inl,
  inr, List, [], ◌∷◌, ◌++◌, append_assoc, append-nil, map, Text, Option, none, some, arith, length,
  drop, replicate, set, concat, get_elem?, any, All, ok, ◌==◌, Bool-cases, lt→ltb, le→leb,
  get_elem?-total, drop_all, drop_cons, ==_iff, length-set, length-replicate, get_elem?-set_self,
  get_elem?-set_ne, lt-length_of_get_elem?,
}
use s3prism.Erasure.Codec.{Added, original, recovery, slot, is_original, IsGenuine}
use s3prism.Erasure.Decoder.{
  ShardInput, Gathered, gathered_none, recovery_index, gather_one, gather, choose_shard, assemble,
}

-- A shard of the encoding of `originals` with the recovery shards `parity`.
abbrev pub IsShardOf : List Text → List Text → ℕ → ShardInput → Type 0
IsShardOf originals parity k s =
    ((s.is_parity ≡ false) × (s.index < k) × (get_elem? originals s.index ≡ some s.content))
    ⊎ ((s.is_parity ≡ true) × (k ≤ s.index) × (get_elem? parity (s.index - k) ≡ some s.content))

-- The call that the loop makes for a shard.
abbrev pub added_for : ℕ → ShardInput → Added
added_for k s = elim s.is_parity [
  | true ↦ recovery (recovery_index k s.index) s.content
  | false ↦ original s.index s.content
]

ne_of_==_false : (a b : ℕ) → (a == b) ≡ false → a ≢ b
ne_of_==_false a b h = ground arith

any-append {ℓ} :
    {A : Type ℓ} (p : A → Bool) (xs ys : List A) → any p (xs ++ ys) ≡ (any p xs || any p ys)
any-append p [] ys = refl
any-append p (x ∷ xs) ys = ground (arith, any-append p xs ys)

module _ (originals parity : List Text) (k : ℕ) where
  -- The loop's variables agree with the originals.
  pub record IsFaithful (g : Gathered) : Type 0 where
    pub flags : length g.have_originals ≡ k
    pub slots : length g.original_data ≡ k
    pub have :
        (i : ℕ)
        → get_elem? g.have_originals i ≡ some true
        → (d : Text) × (get_elem? g.original_data i ≡ some (some d))
          × (get_elem? originals i ≡ some d)
    pub missing :
        (i : ℕ) → get_elem? g.have_originals i ≡ some false → any (is_original i) g.added ≡ false

  gather_one-added :
      (g : Gathered) (s : ShardInput) → (gather_one k g s).added ≡ g.added ++ added_for k s ∷ []
  unfolding gather_one
  gather_one-added g s = ground arith

  module _ (g : Gathered) (s : ShardInput) (inv : IsFaithful g) where
    have_set :
        s.index < k
        → get_elem? originals s.index ≡ some s.content
        → (i : ℕ) → get_elem? (set g.have_originals s.index true) i ≡ some true
        → (d : Text) × (get_elem? (set g.original_data s.index (some s.content)) i ≡ some (some d))
          × (get_elem? originals i ≡ some d)
    have_set below here i e = elim (Bool-cases (s.index == i)) [
      | inl same ↦
          let p = (==_iff s.index i).0 same in
          rw (← p) (
            s.content,
            get_elem?-set_self g.original_data s.index _ (omega (arith, inv.slots)),
            here,
          )
      | inr other ↦
          let ne : s.index ≢ i = omega (arith, ne_of_==_false s.index i other) in
          let (d, at, same) =
            inv.have i (sym (get_elem?-set_ne g.have_originals s.index i true ne) ∙ e) in
          (d, get_elem?-set_ne g.original_data s.index i _ ne ∙ at, same)
    ]

    missing_set :
        s.index < k
        → (i : ℕ) → get_elem? (set g.have_originals s.index true) i ≡ some false
        → any (is_original i) (g.added ++ original s.index s.content ∷ []) ≡ false
    missing_set below i e = elim (Bool-cases (s.index == i)) [
      | inl same ↦
          let p = (==_iff s.index i).0 same in
          cc (get_elem?-set_self g.have_originals s.index true (omega (arith, inv.flags)), p, e)
      | inr other ↦
          let ne : s.index ≢ i = ne_of_==_false s.index i other in
          let old = inv.missing i (sym (get_elem?-set_ne g.have_originals s.index i true ne) ∙ e) in
          ground (arith, any-append (is_original i) g.added (original s.index s.content ∷ []))
    ]

    gather_one-IsFaithful : IsShardOf originals parity k s → IsFaithful (gather_one k g s)
    unfolding gather_one
    gather_one-IsFaithful (inl (data_shard, below, here)) = rw data_shard (
        rw (lt→ltb s.index k below) (record {
          flags = length-set g.have_originals s.index true ∙ inv.flags;
          slots = length-set g.original_data s.index (some s.content) ∙ inv.slots;
          have = have_set below here;
          missing = missing_set below;
        }))
    gather_one-IsFaithful (inr (parity_shard, above, here)) = rw parity_shard (record {
      flags = inv.flags;
      slots = inv.slots;
      have = inv.have;
      missing = λ i e. ground (
        arith,
        inv.missing i e,
        any-append (is_original i) g.added (recovery (recovery_index k s.index) s.content ∷ []),
      );
    })

  pub gather-IsFaithful :
      (shards : List ShardInput) (g : Gathered)
      → IsFaithful g
      → All (IsShardOf originals parity k) shards
      → IsFaithful (gather k g shards)
  unfolding gather
  gather-IsFaithful [] g inv h = inv
  gather-IsFaithful (s ∷ shards) g inv (here, h) =
      gather-IsFaithful shards (gather_one k g s) (gather_one-IsFaithful g s inv here) h

  pub gather-added :
      (shards : List ShardInput) (g : Gathered)
      → (gather k g shards).added ≡ g.added ++ map (added_for k) shards
  unfolding gather
  gather-added [] g = sym (append-nil g.added)
  gather-added (s ∷ shards) g =
      gather-added shards (gather_one k g s)
      ∙ ap (λ a. a ++ map (added_for k) shards) (gather_one-added g s)
      ∙ append_assoc g.added (added_for k s ∷ []) (map (added_for k) shards)

  -- Each call is for a genuine shard, at the place that the shard's index says.
  pub added_for-IsGenuine :
      (s : ShardInput)
      → IsShardOf originals parity k s
      → IsGenuine originals parity (added_for k s) × (slot k (added_for k s) ≡ s.index)
  unfolding recovery_index
  added_for-IsGenuine s (inl (data_shard, below, here)) = rw data_shard (here, refl)
  added_for-IsGenuine s (inr (parity_shard, above, here)) =
      rw parity_shard (rw (le→leb k s.index above) (here, omega arith))

  -- From a faithful state the reassembly yields the originals that are left.
  module _ (g : Gathered) (inv : IsFaithful g) (restored : ℕ → Option Text)
      (full : length originals ≡ k)
      (restores : (i : ℕ)
        → i < k
        → any (is_original i) g.added ≡ false
        → restored i ≡ get_elem? originals i) where
    choose_shard_lem :
        (i : ℕ) (d : Text)
        → get_elem? originals i ≡ some d
        → choose_shard (get_elem? g.have_originals i) g restored i ≡ ok d
    choose_shard_lem i d here = split (get_elem? g.have_originals i) refl
      where
        split :
            (o : Option Bool)
            → get_elem? g.have_originals i ≡ o
            → choose_shard o g restored i ≡ ok d
        split none e =
            let (b, at) =
              get_elem?-total g.have_originals i
                (omega (arith, inv.flags, lt-length_of_get_elem? originals i here)) in
            cc (at, e)
        split (some true) e = let (c, at, same) = inv.have i e in rw at (cc (same, here))
        split (some false) e = rw (
            restores i (omega (arith, lt-length_of_get_elem? originals i here)) (inv.missing i e)
            ∙ here)

    pub assemble_lem :
        (n i : ℕ) → i + n ≡ k → assemble g restored i n ≡ ok (concat (drop i originals))
    unfolding assemble
    assemble_lem zero i e = rw (drop_all i originals (omega arith))
    assemble_lem (suc n) i e =
        let (d, here) = get_elem?-total originals i (omega arith) in
        rw (choose_shard_lem i d here) (
          rw (assemble_lem n (i + 1) (omega arith)) (
            let next : i + 1 ≡ suc i = omega arith in
            rw next (ap (λ t. ok (concat t)) (sym (drop_cons originals i here)))))

pub gathered_none-IsFaithful :
    (originals parity : List Text) (k : ℕ) → IsFaithful originals parity k (gathered_none k)
gathered_none-IsFaithful originals parity k = record {
  flags = length-replicate {A = Bool} k false;
  slots = length-replicate {A = Option Text} k none;
  have = λ i e. absurd (never k i e);
  missing = λ i e. refl;
}
  where
    never : (n i : ℕ) → get_elem? (replicate n false) i ≢ some true
    never zero i e = cc
    never (suc n) zero e = cc
    never (suc n) (suc i) e = never n i e
