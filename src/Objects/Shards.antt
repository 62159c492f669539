-- ===== src/Objects/Shards.antt =====
-- src/api/handlers/object.rs: the loop of `get_erasure_coded` over the answers.
use s3prism.Base.{
  ℕ, zero, suc, ◌+◌, ◌≡◌, ◌≢◌, refl, sym, ap, ◌∙◌, subst, ◌⊎◌, inl, inr, false, List, [], ◌∷◌, map,
  Text, Option, none, some, get_elem?, find, All, Distinct, length, text_eq, Result, ok, err,
  some_injective, arith,
}
use s3prism.Fault.{Fault}
use s3prism.Metadata.Models.{ChunkInfo}
use s3prism.Erasure.Encoder.{EncodedChunk}
use s3prism.Erasure.Decoder.{ShardInput}
use s3prism.Erasure.RoundTrip.{shard_input}
use s3prism.Erasure.Layout.{IsLaidOut}
use s3prism.Fanout.{FanoutResult, PutTarget, has_data}
use s3prism.Fanout.Quorum.{successes_of}
use s3prism.Objects.{is_parity_chunk, collect_shards}
use s3prism.Objects.Reading.{IsCarried, IsKept, IsFound, HasSent-IsFound}

abbrev pub Answers : Type 0
Answers = List (FanoutResult (Option Text))

-- One of the answers comes from the site.
abbrev pub HasAnswer : Text → Answers → Type 0
HasAnswer site [] = ⊥
HasAnswer site (r ∷ rs) = (r.site ≡ site) ⊎ HasAnswer site rs

HasAnswer-All :
    (site : Text) (rs : Answers)
    → HasAnswer site rs
    → All (λ s. site ≢ s) (map (λ (r : FanoutResult (Option Text)). r.site) rs)
    → ⊥
HasAnswer-All site [] h a = h
HasAnswer-All site (r ∷ rs) (inl here) (ne, a) = ne (sym here)
HasAnswer-All site (r ∷ rs) (inr later) (ne, a) = HasAnswer-All site rs later a

-- The shard is the encoded chunk of its index, and that chunk's site has answered.
abbrev pub IsShard : List EncodedChunk → List ChunkInfo → Answers → ShardInput → Type 0
IsShard es cs rs s =
    (get_elem? (map shard_input es) s.index ≡ some s)
    × ((info : ChunkInfo) × (get_elem? cs s.index ≡ some info) × HasAnswer info.site rs)

IsShard-later :
    (es : List EncodedChunk) (cs : List ChunkInfo) (r : FanoutResult (Option Text)) (rs : Answers)
    (shards : List ShardInput)
    → All (IsShard es cs rs) shards
    → All (IsShard es cs (r ∷ rs)) shards
IsShard-later es cs r rs [] h = tt
IsShard-later es cs r rs (s ∷ shards) ((taken, (info, at, answered)), h) =
    ((taken, (info, at, inr answered)), IsShard-later es cs r rs shards h)

-- The index of a chunk is not that of a shard from another site.
index-All :
    (es : List EncodedChunk) (cs : List ChunkInfo) (rs : Answers) (info : ChunkInfo) (i : ℕ)
    (shards : List ShardInput)
    → get_elem? cs i ≡ some info
    → All (λ s. info.site ≢ s) (map (λ (r : FanoutResult (Option Text)). r.site) rs)
    → All (IsShard es cs rs) shards
    → All (λ j. i ≢ j) (map (λ (s : ShardInput). s.index) shards)
index-All es cs rs info i [] at ne h = tt
index-All es cs rs info i (s ∷ shards) at ne ((taken, (other, other_at, answered)), h) = (
  (λ same.
      HasAnswer-All info.site rs
        (subst (λ (c : ChunkInfo). HasAnswer c.site rs)
          (some_injective (sym other_at ∙ ap (get_elem? cs) (sym same) ∙ at)) answered)
        ne),
  index-All es cs rs info i shards at ne h,
)

get_elem?-map :
    {A B : Type 0} (f : A → B) (xs : List A) (i : ℕ) {x : A}
    → get_elem? xs i ≡ some x
    → get_elem? (map f xs) i ≡ some (f x)
get_elem?-map f [] i h = cc
get_elem?-map f (x ∷ xs) zero h = ap (λ y. some (f y)) (some_injective h)
get_elem?-map f (x ∷ xs) (suc i) h = get_elem?-map f xs i h

IsLaidOut-length :
    (size i j : ℕ) (es : List EncodedChunk) {e : EncodedChunk}
    → IsLaidOut size i es
    → get_elem? es j ≡ some e
    → length e.content ≡ size
IsLaidOut-length size i j [] l h = cc
IsLaidOut-length size i zero (x ∷ es) (at, long, l) h =
    ap (λ (y : EncodedChunk). length y.content) (sym (some_injective h)) ∙ long
IsLaidOut-length size i (suc j) (x ∷ es) (at, long, l) h = IsLaidOut-length size (i + 1) j es l h

abbrev shard_of : ChunkInfo → Text → ShardInput
shard_of info t = record {
  index = info.index;
  is_parity = is_parity_chunk info.chunk_type;
  content = t;
}

-- The two steps of the loop.
collect_shards-skip :
    (cs : List ChunkInfo) (r : FanoutResult (Option Text)) (rs : Answers) (sz : ℕ)
    (x : Result Fault (Option Text))
    → r.result ≡ x
    → has_data x ≡ false
    → collect_shards cs (r ∷ rs) sz ≡ collect_shards cs rs sz
unfolding collect_shards
collect_shards-skip cs r rs sz (ok (some t)) is h = cc
collect_shards-skip cs r rs sz (ok none) is h = rw is refl
collect_shards-skip cs r rs sz (err e) is h = rw is refl

collect_shards-data :
    (cs : List ChunkInfo) (r : FanoutResult (Option Text)) (rs : Answers) (sz sz' : ℕ) (t : Text)
    (info : ChunkInfo) (shards : List ShardInput)
    → r.result ≡ ok (some t)
    → find (λ (c : ChunkInfo). text_eq c.site r.site) cs ≡ some info
    → collect_shards cs rs (length t) ≡ ok (shards, sz')
    → collect_shards cs (r ∷ rs) sz ≡ ok (shard_of info t ∷ shards, sz')
unfolding collect_shards
collect_shards-data cs r rs sz sz' t info shards is found later = rw (is, found, later) refl

has_data-cases :
    (x : Result Fault (Option Text)) → ((t : Text) × (x ≡ ok (some t))) ⊎ (has_data x ≡ false)
has_data-cases (ok (some t)) = inl (t, refl)
has_data-cases (ok none) = inr refl
has_data-cases (err e) = inr refl

successes_of-skip :
    (r : FanoutResult (Option Text)) (rs : Answers)
    → has_data r.result ≡ false
    → successes_of has_data (r ∷ rs) ≡ successes_of has_data rs
unfolding successes_of
successes_of-skip r rs h = rw h (omega arith)

successes_of-data :
    (r : FanoutResult (Option Text)) (rs : Answers) (t : Text)
    → r.result ≡ ok (some t)
    → successes_of has_data (r ∷ rs) ≡ suc (successes_of has_data rs)
unfolding successes_of
successes_of-data r rs t h = rw h (omega arith)

shard_is :
    (e : EncodedChunk) (info : ChunkInfo) (t : Text)
    → info.index ≡ e.index
    → is_parity_chunk info.chunk_type ≡ e.is_parity
    → e.content ≡ t
    → shard_input e ≡ shard_of info t
shard_is e info t index parity content =
    ap (λ i. record { index = i; is_parity = e.is_parity; content = e.content }) (sym index)
    ∙ ap (λ b. record { index = info.index; is_parity = b; content = e.content }) (sym parity)
    ∙ ap
        (λ c. record {
          index = info.index;
          is_parity = is_parity_chunk info.chunk_type;
          content = c;
        })
        content

found_shard :
    (es : List EncodedChunk) (cs : List ChunkInfo) (site t : Text) (f : IsFound es cs 0 site t)
    → get_elem? (map shard_input es) f.info.index ≡ some (shard_of f.info t)
found_shard es cs site t f =
    let place_is : f.info.index ≡ f.place = omega (arith, f.index) in
    get_elem?-map shard_input es f.info.index (ap (get_elem? es) place_is ∙ f.chunk_at)
    ∙ ap some (shard_is f.chunk f.info t f.same_index f.same_parity f.same_content)

module _ (size : ℕ) (es : List EncodedChunk) (ts : List PutTarget) (cs : List ChunkInfo)
    (laid : IsLaidOut size 0 es) (carried : IsCarried es ts cs)
    (apart : Distinct (map (λ (c : ChunkInfo). c.site) cs)) where
  -- What the loop returns: shards of different indices, one for each answer with data, and the
  -- shards' length if there is one.
  pub record IsCollected (rs : Answers) (start : ℕ) (shards : List ShardInput) (last : ℕ)
      : Type 0 where
    pub are_shards : All (IsShard es cs rs) shards
    pub different : Distinct (map (λ (s : ShardInput). s.index) shards)
    pub counted : length shards ≡ successes_of has_data rs
    pub sized : (last ≡ size) ⊎ ((last ≡ start) × (length shards ≡ 0))

  sized_next :
      (start n t last : ℕ) → t ≡ size → (last ≡ size) ⊎ ((last ≡ t) × (n ≡ 0)) → last ≡ size
  sized_next start n t last long (inl done) = done
  sized_next start n t last long (inr (same, no_more)) = same ∙ long

  pub collect_shards-IsCollected :
      (rs : Answers) (start : ℕ)
      → All (IsKept ts) rs
      → Distinct (map (λ (r : FanoutResult (Option Text)). r.site) rs)
      → (shards : List ShardInput) × (last : ℕ) × (collect_shards cs rs start ≡ ok (shards, last))
        × IsCollected rs start shards last
  unfolding collect_shards successes_of
  collect_shards-IsCollected [] start kept once = (
    [],
    start,
    refl,
    record { are_shards = tt; different = tt; counted = refl; sized = inr (refl, refl) },
  )
  collect_shards-IsCollected (r ∷ rs) start (kept_r, kept) (ne, once) =
      elim (has_data-cases r.result) [
        | inr nothing ↦
            let (shards, last, collected, c) = collect_shards-IsCollected rs start kept once in
            (
              shards,
              last,
              collect_shards-skip cs r rs start r.result refl nothing ∙ collected,
              record {
                are_shards = IsShard-later es cs r rs shards c.are_shards;
                different = c.different;
                counted = c.counted ∙ sym (successes_of-skip r rs nothing);
                sized = c.sized;
              },
            )
        | inl (t, is) ↦
            let (shards, last, collected, c) = collect_shards-IsCollected rs (length t) kept once in
            let f = HasSent-IsFound size 0 es ts cs r.site t laid carried apart (kept_r t is) in
            let place_is : f.info.index ≡ f.place = omega (arith, f.index) in
            let long : length t ≡ size =
              ap length (sym f.same_content) ∙ IsLaidOut-length size 0 f.place es laid f.chunk_at in
            let info_at : get_elem? cs f.info.index ≡ some f.info =
              ap (get_elem? cs) place_is ∙ f.info_at in
            (
              shard_of f.info t ∷ shards,
              last,
              collect_shards-data cs r rs start last t f.info shards is f.found collected,
              record {
                are_shards = (
                  (found_shard es cs r.site t f, (f.info, info_at, inl (sym f.at_site))),
                  IsShard-later es cs r rs shards c.are_shards,
                );
                different = (
                  index-All es cs rs f.info f.info.index shards info_at
                      (subst
                        (λ x.
                          All (λ s. x ≢ s) (map (λ (r : FanoutResult (Option Text)). r.site) rs))
                        (sym f.at_site) ne)
                      c.are_shards,
                  c.different,
                );
                counted = ap suc c.counted ∙ sym (successes_of-data r rs t is);
                sized = inl (sized_next start (length shards) (length t) last long c.sized);
              },
            )
      ]
