-- ===== src/Objects/Reading.antt =====
-- src/api/handlers/object.rs: an object with erasure coding that is read back.
use s3prism.Base.{
  ℕ, suc, ◌+◌, ◌≡◌, ◌≢◌, refl, sym, ◌∙◌, subst, ◌⊎◌, inl, inr, Bool, false, List, [], ◌∷◌, map,
  Text, Option, some, get_elem?, find, All, Distinct, text_eq, text_eq_iff, Bool-cases, ok, arith,
}
use s3prism.Metadata.Models.{ChunkInfo}
use s3prism.Erasure.Encoder.{EncodedChunk}
use s3prism.Erasure.Layout.{IsLaidOut}
use s3prism.Fanout.{FanoutResult, PutTarget}
use s3prism.Objects.{is_parity_chunk}

-- The target and the recorded chunk for each encoded one.
abbrev pub IsCarried : List EncodedChunk → List PutTarget → List ChunkInfo → Type 0
IsCarried [] [] [] = Unit
IsCarried (e ∷ es) (t ∷ ts) (c ∷ cs) =
    ((c.index ≡ e.index)
      × (is_parity_chunk c.chunk_type ≡ e.is_parity)
      × (t.site ≡ c.site)
      × (t.content ≡ e.content))
    × IsCarried es ts cs
IsCarried _ _ _ = ⊥

-- One of the write requests took these bytes to the site.
abbrev pub HasSent : List PutTarget → Text → Text → Type 0
HasSent [] site content = ⊥
HasSent (t ∷ ts) site content = ((t.site ≡ site) × (t.content ≡ content)) ⊎ HasSent ts site content

-- Data that a site returns is what was written to it.
abbrev pub IsKept : List PutTarget → FanoutResult (Option Text) → Type 0
IsKept targets r = (content : Text) → r.result ≡ ok (some content) → HasSent targets r.site content

abbrev site_test : Text → ChunkInfo → Bool
site_test site c = text_eq c.site site

sites_of : List ChunkInfo → List Text
sites_of cs = map (λ (c : ChunkInfo). c.site) cs

-- A site that has been sent something has a chunk.
HasSent-All :
    (es : List EncodedChunk) (ts : List PutTarget) (cs : List ChunkInfo) (site content : Text)
    → IsCarried es ts cs
    → HasSent ts site content
    → All (λ s. site ≢ s) (map (λ (c : ChunkInfo). c.site) cs)
    → ⊥
HasSent-All [] [] [] site content k sent a = absurd sent
HasSent-All [] [] (c ∷ cs) site content k sent a = absurd k
HasSent-All [] (t ∷ ts) cs site content k sent a = absurd k
HasSent-All (e ∷ es) [] cs site content k sent a = absurd k
HasSent-All (e ∷ es) (t ∷ ts) [] site content k sent a = absurd k
HasSent-All (e ∷ es) (t ∷ ts) (c ∷ cs) site content ((i, p, s, d), k) (inl (here, is)) (ne, a) =
    ne (sym here ∙ s)
HasSent-All (e ∷ es) (t ∷ ts) (c ∷ cs) site content ((i, p, s, d), k) (inr later) (ne, a) =
    HasSent-All es ts cs site content k later a

-- The chunk that stands for the bytes a site returned, and its place among the encoded ones.
pub record IsFound (es : List EncodedChunk) (cs : List ChunkInfo) (i : ℕ) (site content : Text)
    : Type 0 where
  pub place : ℕ
  pub info : ChunkInfo
  pub chunk : EncodedChunk
  pub found : find (λ (c : ChunkInfo). text_eq c.site site) cs ≡ some info
  pub info_at : get_elem? cs place ≡ some info
  pub chunk_at : get_elem? es place ≡ some chunk
  pub at_site : info.site ≡ site
  pub index : info.index ≡ i + place
  pub same_index : info.index ≡ chunk.index
  pub same_parity : is_parity_chunk info.chunk_type ≡ chunk.is_parity
  pub same_content : chunk.content ≡ content

pub HasSent-IsFound :
    (size i : ℕ) (es : List EncodedChunk) (ts : List PutTarget) (cs : List ChunkInfo)
    (site content : Text)
    → IsLaidOut size i es
    → IsCarried es ts cs
    → Distinct (map (λ (c : ChunkInfo). c.site) cs)
    → HasSent ts site content
    → IsFound es cs i site content
HasSent-IsFound size i [] [] [] site content l k d sent = absurd sent
HasSent-IsFound size i [] [] (c ∷ cs) site content l k d sent = absurd k
HasSent-IsFound size i [] (t ∷ ts) cs site content l k d sent = absurd k
HasSent-IsFound size i (e ∷ es) [] cs site content l k d sent = absurd k
HasSent-IsFound size i (e ∷ es) (t ∷ ts) [] site content l k d sent = absurd k
HasSent-IsFound size i (e ∷ es) (t ∷ ts) (c ∷ cs) site content (at, long, l) ((ix, par, s, con), k)
      (ne, d) (inl (here, is)) =
    record {
      place = 0;
      info = c;
      chunk = e;
      found = rw (find, (text_eq_iff c.site site).1 (sym s ∙ here)) refl;
      info_at = refl;
      chunk_at = refl;
      at_site = sym s ∙ here;
      index = omega (arith, ix, at);
      same_index = ix;
      same_parity = par;
      same_content = sym con ∙ is;
    }
HasSent-IsFound size i (e ∷ es) (t ∷ ts) (c ∷ cs) site content (at, long, l) ((ix, par, s, con), k)
      (ne, d) (inr later) =
    let f = HasSent-IsFound size (i + 1) es ts cs site content l k d later in
    let other : text_eq c.site site ≡ false = elim (Bool-cases (text_eq c.site site)) [
      | inr o ↦ o
      | inl same ↦ absurd (
          HasSent-All es ts cs site content k later (
            subst (λ x. All (λ y. x ≢ y) (map (λ (c : ChunkInfo). c.site) cs))
              ((text_eq_iff c.site site).0 same) ne))
    ] in
    record {
      place = suc f.place;
      info = f.info;
      chunk = f.chunk;
      found = rw (find, other) f.found;
      info_at = f.info_at;
      chunk_at = f.chunk_at;
      at_site = f.at_site;
      index = omega (arith, f.index);
      same_index = f.same_index;
      same_parity = f.same_parity;
      same_content = f.same_content;
    }
