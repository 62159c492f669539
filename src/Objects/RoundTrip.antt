-- ===== src/Objects/RoundTrip.antt =====
-- src/api/handlers/object.rs: `get_erasure_coded` after `put_erasure_coded`.
use s3prism.Base.{
  ℕ, zero, suc, ◌+◌, ◌≤◌, ◌<◌, ◌≡◌, ◌≢◌, refl, sym, ap, ◌∙◌, subst, inl, inr, Bool, true, false,
  List, [], ◌∷◌, map, Text, Option, take, All, All-take, Distinct, length, leb, if◌then◌else◌, ok,
  >>=-eq-ok, ensure-eq-ok, ok_injective, arith,
}
use s3prism.Base.Word.{word, add64}
use s3prism.Fault.{too_few_sites}
use s3prism.Config.{WriteDistribution}
use s3prism.Metadata.Models.{
  ObjectMeta, BucketMeta, ChunkInfo, data_chunk, parity_chunk, ObjectStorageMode,
}
use s3prism.Erasure.Codec.{ReedSolomon}
use s3prism.Erasure.Encoder.{EncodedChunk, EncodeOutput, encode}
use s3prism.Erasure.Decoder.{ShardInput, decode}
use s3prism.Erasure.RoundTrip.{encode-IsEncoding, decode-encode, encode_total, IsTakenFrom}
use s3prism.Erasure.Layout.{encode-IsLaidOut}
use s3prism.Fanout.{FanoutResult, PutTarget, GetTarget, has_data, can_send, fanout_put}
use s3prism.Fanout.Quorum.{successes_of, fanout_get_total}
use s3prism.Objects.{
  PutAnswers, GetAnswers, site_for, site_order, erasure_targets, erasure_chunks, put_erasure_coded,
  get_target, is_parity_chunk, collect_shards, get_erasure_coded,
}
use s3prism.Objects.Apart.{erasure_chunks-Distinct}
use s3prism.Objects.Reading.{IsCarried, IsKept}
use s3prism.Objects.Shards.{Answers, IsShard, IsCollected, collect_shards-IsCollected}

abbrev Answer : Type 0
Answer = FanoutResult (Option Text)

abbrev site_of : Answer → Text
site_of r = r.site

All-map-take :
    (P : Text → Type 0) (n : ℕ) (rs : List Answer)
    → All P (map site_of rs)
    → All P (map site_of (take n rs))
All-map-take P zero rs h = tt
All-map-take P (suc n) [] h = tt
All-map-take P (suc n) (r ∷ rs) (pr, h) = (pr, All-map-take P n rs h)

Distinct-map-take :
    (n : ℕ) (rs : List Answer) → Distinct (map site_of rs) → Distinct (map site_of (take n rs))
Distinct-map-take zero rs h = tt
Distinct-map-take (suc n) [] h = tt
Distinct-map-take (suc n) (r ∷ rs) (ne, h) =
    (All-map-take (λ s. r.site ≢ s) n rs ne, Distinct-map-take n rs h)

parity_type : (b : Bool) → is_parity_chunk (if b then parity_chunk else data_chunk) ≡ b
parity_type true = refl
parity_type false = refl

IsCarried-subst :
    (es : List EncodedChunk) {ts ts' : List PutTarget} {cs cs' : List ChunkInfo}
    → ts ≡ ts'
    → cs ≡ cs'
    → IsCarried es ts cs
    → IsCarried es ts' cs'
IsCarried-subst es {ts} {ts'} {cs} {cs'} et ec h =
    subst (λ us. IsCarried es us cs') et (subst (IsCarried es ts) ec h)

All-IsTakenFrom :
    (out : EncodeOutput) (cs : List ChunkInfo) (rs : Answers) (shards : List ShardInput)
    → All (IsShard out.chunks cs rs) shards
    → IsTakenFrom out shards
All-IsTakenFrom out cs rs [] h = tt
All-IsTakenFrom out cs rs (s ∷ shards) ((taken, there), h) =
    (taken, All-IsTakenFrom out cs rs shards h)

module _ (clients : List Text) (bucket_meta : BucketMeta) (content_type : Text) (keys : ℕ → Text)
    (order : List ℕ) (results : List (FanoutResult (Unit {0}))) where
  erasure_chunks-IsCarried :
      (i : ℕ) (es : List EncodedChunk) (targets : List PutTarget) (chunks : List ChunkInfo)
      → erasure_targets clients bucket_meta content_type keys order i es ≡ ok targets
      → erasure_chunks clients bucket_meta content_type keys order results i es ≡ ok chunks
      → IsCarried es targets chunks
  unfolding erasure_targets erasure_chunks
  erasure_chunks-IsCarried i [] targets chunks ht hc =
      subst (λ ts. IsCarried [] ts chunks) (ok_injective ht)
        (subst (λ cs. IsCarried [] [] cs) (ok_injective hc) tt)
  erasure_chunks-IsCarried i (e ∷ es) targets chunks ht hc =
      let (site, at, ht1) = >>=-eq-ok (site_for clients order i) _ ht in
      let (site', at', hc1) = >>=-eq-ok (site_for clients order i) _ hc in
      let (ts, rest, ht2) =
        >>=-eq-ok (erasure_targets clients bucket_meta content_type keys order (i + 1) es) _ ht1 in
      let (cs, rest', hc2) =
        >>=-eq-ok (erasure_chunks clients bucket_meta content_type keys order results (i + 1) es) _
          hc1 in
      let same : site ≡ site' = ok_injective (sym at ∙ at') in
      IsCarried-subst (e ∷ es) (ok_injective ht2) (ok_injective hc2) (
        (refl, parity_type e.is_parity, same, refl),
        erasure_chunks-IsCarried (i + 1) es ts cs rest rest',
      )

encode-length :
    (sha : Text → Text) (rs : ReedSolomon) (content : Text) (k p : ℕ) (out : EncodeOutput)
    → rs.supports k p ≡ true
    → length content + k + k + k < word
    → encode sha rs content k p ≡ ok out
    → length out.chunks ≡ k + p
encode-length sha rs content k p out supported fits encoded =
    let e = encode-IsEncoding sha rs content k p out encoded in
    let (out', again, counted, original, even, positive, bounded) =
      encode_total sha rs content k p fits e.k_pos e.p_pos e.non_empty supported in
    ap (λ (o : EncodeOutput). length o.chunks) (ok_injective (sym encoded ∙ again)) ∙ counted

-- Enough shards of one encoding, as the loop has collected them.
module _ (sha : Text → Text) (rs : ReedSolomon) (content : Text) (k p : ℕ) (out : EncodeOutput)
    (supported : rs.supports k p ≡ true) (fits : length content + k + k + k < word)
    (encoded : encode sha rs content k p ≡ ok out) (targets : List PutTarget)
    (chunks : List ChunkInfo) (carried : IsCarried out.chunks targets chunks)
    (apart : Distinct (map (λ (c : ChunkInfo). c.site) chunks)) where
  collected_decode :
      (results : List Answer) (shards : List ShardInput) (last size : ℕ)
      → IsCollected out.shard_size out.chunks targets chunks
          (encode-IsLaidOut sha rs content k p out supported fits encoded)
          carried
          apart
          results
          0
          shards
          last
      → k ≤ successes_of has_data results
      → size ≡ length content
      → decode rs shards k p last size ≡ ok content
  collected_decode results shards last size c enough whole =
      let e = encode-IsEncoding sha rs content k p out encoded in
      let counted = c.counted in
      let k_pos = e.k_pos in
      let last_is : last ≡ out.shard_size = elim c.sized [
        | inl same ↦ same
        | inr (start, no_shards) ↦ absurd (omega (arith, counted, no_shards, enough, k_pos))
      ] in
      let decoded =
        decode-encode sha rs content k p out fits encoded shards
          (All-IsTakenFrom out chunks results shards c.are_shards) c.different
          (omega (arith, counted, enough)) in
      ap (λ l. decode rs shards k p l size) last_is
      ∙ ap (decode rs shards k p out.shard_size) (whole ∙ sym e.original_size)
      ∙ decoded

  -- The chunks are asked for, enough sites return what was written to them, and each answers once.
  abbrev pub IsAnswered : List Text → ObjectMeta → List Answer → Type 0
  IsAnswered readers meta arrivals =
      (can_send readers (map (λ (t : GetTarget). t.site) (map get_target meta.chunks)) ≡ true)
      × All (IsKept targets) arrivals
      × Distinct (map site_of arrivals)
      × (k ≤ successes_of has_data arrivals)

  get_erasure_coded_lem :
      (readers : List Text) (answers : GetAnswers) (late : ℕ) (meta : ObjectMeta)
      → meta.chunks ≡ chunks
      → meta.size ≡ length content
      → IsAnswered readers meta (answers (map get_target meta.chunks))
      → get_erasure_coded rs readers answers late meta k p ≡ ok content
  unfolding get_erasure_coded
  get_erasure_coded_lem readers answers late meta held whole (can, kept, once, enough) =
      let arrivals = answers (map get_target meta.chunks) in
      let (results, got, still, n, first) =
        fanout_get_total readers (map (λ (t : GetTarget). t.site) (map get_target meta.chunks)) late
          k arrivals can enough in
      let laid = encode-IsLaidOut sha rs content k p out supported fits encoded in
      let (shards, last, collected, c) =
        collect_shards-IsCollected out.shard_size out.chunks targets chunks laid carried apart
          results 0
          (subst (All (IsKept targets)) (sym first) (All-take (IsKept targets) n arrivals kept))
          (subst (λ rs. Distinct (map site_of rs)) (sym first)
            (Distinct-map-take n arrivals once)) in
      rw (got, ap (λ cs. collect_shards cs results 0) held ∙ collected)
        (collected_decode results shards last meta.size c still whole)

module _ (clients : List Text) (bucket_meta : BucketMeta) (content_type : Text) (sha : Text → Text)
    (rs : ReedSolomon) (keys : ℕ → Text) (distribution : WriteDistribution)
    (shuffled : List ℕ → List ℕ) (content : Text) (k p : ℕ) where
  -- What a write with erasure coding has sent to the sites.
  abbrev pub IsSent : List PutTarget → Type 0
  IsSent targets =
      (out : EncodeOutput) × (encode sha rs content k p ≡ ok out)
      × (erasure_targets clients bucket_meta content_type keys
            (site_order distribution shuffled (length clients)) 0 out.chunks
          ≡ ok targets)

  -- An object that has been written with erasure coding is read back as it was: whichever sites
  -- answer, and in whatever order, if at least `k` of them return what was written to them and no site
  -- answers twice. The clients of the write have different names, there are at least `k + p` of them,
  -- their order has no index twice, the sites of the chunks have a client when they are read, the
  -- crate supports the counts, and the object's length plus three times `k` stays below 2 ^ 64.
  pub get_erasure_coded-put_erasure_coded :
      (put_answers : PutAnswers) (put_late : ℕ) (chunks : List ChunkInfo) (mode : ObjectStorageMode)
      (targets : List PutTarget) (readers : List Text) (get_answers : GetAnswers) (get_late : ℕ)
      (meta : ObjectMeta)
      → rs.supports k p ≡ true
      → length content + k + k + k < word
      → put_erasure_coded clients bucket_meta content_type sha rs put_answers put_late keys
          distribution shuffled content k p
        ≡ ok (chunks, mode)
      → IsSent targets
      → meta.chunks ≡ chunks
      → meta.size ≡ length content
      → Distinct clients
      → Distinct (site_order distribution shuffled (length clients))
      → k + p ≤ length clients
      → can_send readers (map (λ (t : GetTarget). t.site) (map get_target meta.chunks)) ≡ true
      → All (IsKept targets) (get_answers (map get_target meta.chunks))
      → Distinct (
          map
            (λ (r : FanoutResult (Option Text)). r.site)
            (get_answers (map get_target meta.chunks)))
      → k ≤ successes_of has_data (get_answers (map get_target meta.chunks))
      → get_erasure_coded rs readers get_answers get_late meta k p ≡ ok content
  unfolding put_erasure_coded
  get_erasure_coded-put_erasure_coded put_answers put_late chunks mode targets readers get_answers
        get_late meta supported fits h (out, encoded, aimed) held whole names indices_once room can
        kept once enough =
      let order = site_order distribution shuffled (length clients) in
      let (checked, h1) =
        ensure-eq-ok (leb (add64 k p) (length clients)) (too_few_sites (add64 k p) (length clients))
          _ h in
      let (out', encoded', h2) = >>=-eq-ok (encode sha rs content k p) _ h1 in
      let (targets', aimed', h3) =
        >>=-eq-ok (erasure_targets clients bucket_meta content_type keys order 0 out'.chunks) _
          h2 in
      let (results, sent, h4) =
        >>=-eq-ok
          (fanout_put clients (map (λ (t : PutTarget). t.site) targets') (put_answers targets')
            put_late k)
          _ h3 in
      let (cs, recorded, h5) =
        >>=-eq-ok (erasure_chunks clients bucket_meta content_type keys order results 0 out'.chunks)
          _ h4 in
      let same_out : out' ≡ out = ok_injective (sym encoded' ∙ encoded) in
      let cs_is : cs ≡ chunks =
        ap (λ (x : List ChunkInfo × ObjectStorageMode). x.0) (ok_injective h5) in
      let counted : 0 + length out.chunks ≤ length clients =
        omega (arith, room, encode-length sha rs content k p out supported fits encoded) in
      let recorded_out : erasure_chunks clients bucket_meta content_type keys order results 0
            out.chunks
          ≡ ok chunks =
        ap
          (λ (o : EncodeOutput).
            erasure_chunks clients bucket_meta content_type keys order results 0 o.chunks)
          (sym same_out)
        ∙ recorded
        ∙ ap ok cs_is in
      let apart =
        (erasure_chunks-Distinct clients order names indices_once bucket_meta content_type keys
          results 0 out.chunks chunks counted recorded_out).1 in
      let carried : IsCarried out.chunks targets chunks =
        erasure_chunks-IsCarried clients bucket_meta content_type keys order results 0 out.chunks
          targets chunks aimed recorded_out in
      get_erasure_coded_lem sha rs content k p out supported fits encoded targets chunks carried
        apart readers get_answers get_late meta held whole (can, kept, once, enough)
