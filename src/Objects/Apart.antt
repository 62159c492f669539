-- ===== src/Objects/Apart.antt =====
-- src/api/handlers/object.rs: the chunks of an object with erasure coding stand on different sites.
use native.Mathlib.Nat.{mod-eq_of_lt}
use s3prism.Base.{
  ℕ, zero, suc, ◌+◌, ◌%◌, ◌≤◌, ◌<◌, ◌≡◌, ◌≢◌, refl, sym, ap, ◌∙◌, subst, List, [], ◌∷◌, map, Text,
  Option, none, some, get_elem?, All, Distinct, length, ok, ok_or, >>=-eq-ok, ok_injective,
  some_injective, arith,
}
use s3prism.Fault.{panicked}
use s3prism.Metadata.Models.{BucketMeta, ChunkInfo}
use s3prism.Erasure.Encoder.{EncodedChunk}
use s3prism.Fanout.{FanoutResult}
use s3prism.Objects.{site_for, erasure_chunks}

module _ {A : Type 0} where
  All-get_elem? :
      (P : A → Type 0) (xs : List A) (i : ℕ) {a : A} → All P xs → get_elem? xs i ≡ some a → P a
  All-get_elem? P [] i h e = cc
  All-get_elem? P (x ∷ xs) zero (px, h) e = subst P (some_injective e) px
  All-get_elem? P (x ∷ xs) (suc i) (px, h) e = All-get_elem? P xs i h e

  -- Where no item occurs twice, an item has one position.
  Distinct-get_elem? :
      (xs : List A) (i j : ℕ) {a : A}
      → Distinct xs
      → get_elem? xs i ≡ some a
      → get_elem? xs j ≡ some a
      → i ≡ j
  Distinct-get_elem? [] i j d hi hj = cc
  Distinct-get_elem? (x ∷ xs) zero zero d hi hj = refl
  Distinct-get_elem? (x ∷ xs) zero (suc j) (ne, d) hi hj =
      absurd (All-get_elem? (λ y. x ≢ y) xs j ne hj (some_injective hi))
  Distinct-get_elem? (x ∷ xs) (suc i) zero (ne, d) hi hj =
      absurd (All-get_elem? (λ y. x ≢ y) xs i ne hi (some_injective hj))
  Distinct-get_elem? (x ∷ xs) (suc i) (suc j) (ne, d) hi hj =
      ap suc (Distinct-get_elem? xs i j d hi hj)

  ok_or-eq-ok : (o : Option A) {a : A} → ok_or panicked o ≡ ok a → o ≡ some a
  ok_or-eq-ok none h = cc
  ok_or-eq-ok (some a) h = ap some (ok_injective h)

module _ (clients : List Text) (order : List ℕ) (names : Distinct clients)
    (once : Distinct order) where
  site_for_injective :
      (i j : ℕ) {site : Text}
      → i < length clients
      → j < length clients
      → site_for clients order i ≡ ok site
      → site_for clients order j ≡ ok site
      → i ≡ j
  unfolding site_for
  site_for_injective i j li lj hi hj =
      let (x, at_i, named_i) =
        >>=-eq-ok (ok_or panicked (get_elem? order (i % length clients))) _ hi in
      let (y, at_j, named_j) =
        >>=-eq-ok (ok_or panicked (get_elem? order (j % length clients))) _ hj in
      let same : x ≡ y =
        Distinct-get_elem? clients x y names (ok_or-eq-ok (get_elem? clients x) named_i)
          (ok_or-eq-ok (get_elem? clients y) named_j) in
      let mods : i % length clients ≡ j % length clients =
        Distinct-get_elem? order (i % length clients) (j % length clients) once
          (ok_or-eq-ok (get_elem? order (i % length clients)) at_i)
          (ok_or-eq-ok (get_elem? order (j % length clients)) at_j ∙ ap some (sym same)) in
      sym (mod-eq_of_lt li) ∙ mods ∙ mod-eq_of_lt lj

  -- The site of a chunk is the one for an index from `i` on.
  abbrev IsFrom : ℕ → Text → Type 0
  IsFrom i site = (j : ℕ) × (i ≤ j) × (j < length clients) × (site_for clients order j ≡ ok site)

  IsFrom-All :
      (i : ℕ) (site : Text) (sites : List Text)
      → i < length clients
      → site_for clients order i ≡ ok site
      → All (IsFrom (i + 1)) sites
      → All (λ s. site ≢ s) sites
  IsFrom-All i site [] li h a = tt
  IsFrom-All i site (s ∷ sites) li h ((j, le, lj, there), a) = (
    (λ e. absurd (omega (arith, le, site_for_injective i j li lj h (there ∙ ap ok (sym e))))),
    IsFrom-All i site sites li h a,
  )

  IsFrom-earlier : (i : ℕ) (sites : List Text) → All (IsFrom (i + 1)) sites → All (IsFrom i) sites
  IsFrom-earlier i [] a = tt
  IsFrom-earlier i (s ∷ sites) ((j, le, lj, there), a) =
      ((j, omega arith, lj, there), IsFrom-earlier i sites a)

  module _ (bucket_meta : BucketMeta) (content_type : Text) (keys : ℕ → Text)
      (results : List (FanoutResult (Unit {0}))) where
    pub erasure_chunks-Distinct :
        (i : ℕ) (es : List EncodedChunk) (chunks : List ChunkInfo)
        → i + length es ≤ length clients
        → erasure_chunks clients bucket_meta content_type keys order results i es ≡ ok chunks
        → All (IsFrom i) (map (λ (c : ChunkInfo). c.site) chunks)
          × Distinct (map (λ (c : ChunkInfo). c.site) chunks)
    unfolding erasure_chunks
    erasure_chunks-Distinct i [] chunks room h =
        subst
          (λ cs.
            All (IsFrom i) (map (λ (c : ChunkInfo). c.site) cs)
            × Distinct (map (λ (c : ChunkInfo). c.site) cs))
          (ok_injective h) (tt, tt)
    erasure_chunks-Distinct i (e ∷ es) chunks room h =
        let (site, at, h1) = >>=-eq-ok (site_for clients order i) _ h in
        let (cs, rest, h2) =
          >>=-eq-ok (erasure_chunks clients bucket_meta content_type keys order results (i + 1) es)
            _ h1 in
        let (from, apart) = erasure_chunks-Distinct (i + 1) es cs (omega (arith, room)) rest in
        let inside : i < length clients = omega (arith, room) in
        let sites = map (λ (c : ChunkInfo). c.site) cs in
        subst
          (λ cs.
            All (IsFrom i) (map (λ (c : ChunkInfo). c.site) cs)
            × Distinct (map (λ (c : ChunkInfo). c.site) cs))
          (ok_injective h2)
          (
            ((i, omega arith, inside, at), IsFrom-earlier i sites from),
            (IsFrom-All i site sites inside at from, apart),
          )
