-- ===== src/Chunked/Laws.antt =====
-- Decoding framed bodies, and what every body gives: src/api/chunked.rs.
use s3prism.Base.{
  ℕ, zero, suc, ◌+◌, ◌-◌, ◌≤◌, ◌<◌, ◌≡◌, refl, sym, ap, ◌∙◌, subst, inl, inr, true, false, List, [],
  ◌∷◌, ◌++◌, append_assoc, append-nil, Text, some, arith, length, length-append, All, Result, ok,
  err, Bool-cases, Option-cases, ltb, leb, ltb→lt, leb→le, leb-false→lt, ltb-false→le, ◌==◌, lt→ltb,
  ◌>>=◌,
}
use s3prism.Base.Word.{word, add64, add64_lem}
use s3prism.Fault.{Fault, panicked}
use s3prism.Slice.{slice, slice_middle, slice_reversed, slice_at, slice-length}
use s3prism.Chunked.{
  Headers, is_chunked, find_crlf, chunk_size_of, decode_from, capacity_of, capacity_limit,
  decode_aws_chunked,
}
use s3prism.Chunked.Framing.{
  crlf, IsHeader, Frame, render, IsFrame, payload, render_all, find_crlf-line, find_crlf-bounds,
}

not_0 : (n : ℕ) → 0 < n → (n == 0) ≡ false
not_0 n h = ground arith

not_past : (a b : ℕ) → b ≤ a → ltb a b ≡ false
not_past a b h = ground arith

-- One round at a header line that announces `n` bytes.
module _ (fuel : ℕ) (raw : Text) (pos header_end n : ℕ) (output line : Text)
    (inside : pos < length raw) (found : find_crlf raw pos ≡ some header_end)
    (read : slice raw pos header_end ≡ ok line) (announced : chunk_size_of line ≡ some n)
    (some_bytes : (n == 0) ≡ false)
    (fits : ltb (length raw) (add64 (header_end + 2) n) ≡ false) where
  decode_from-round : decode_from (suc fuel) raw pos output ≡ (
      slice raw (header_end + 2) (add64 (header_end + 2) n) >>= λ chunk.
      decode_from fuel raw (add64 (header_end + 2) n + 2) (output ++ chunk))
  unfolding decode_from
  decode_from-round =
      rw (lt→ltb pos (length raw) inside)
        (rw found (rw (read, ◌>>=◌) (rw announced (rw some_bytes (rw fits)))))

regroup_frame :
    (before : Text) (f : Frame) (rest : Text)
    → before ++ (render f ++ rest) ≡ before ++ (f.line ++ (crlf ++ (f.chunk ++ (crlf ++ rest))))
regroup_frame before f rest = simp append_assoc

decode_from-frame :
    (fuel : ℕ) (before output : Text) (f : Frame) (rest : Text)
    → IsFrame f
    → length (before ++ (render f ++ rest)) < word
    → decode_from (suc fuel) (before ++ (render f ++ rest)) (length before) output
      ≡ decode_from fuel
          (before ++ (render f ++ rest))
          (length before + length (render f))
          (output ++ f.chunk)
decode_from-frame fuel before output f rest (header, pos) fits =
    let n = length f.chunk in
    let raw = before ++ (f.line ++ (crlf ++ (f.chunk ++ (crlf ++ rest)))) in
    let in_raw = length-append before (f.line ++ (crlf ++ (f.chunk ++ (crlf ++ rest)))) in
    let in_line = length-append f.line (crlf ++ (f.chunk ++ (crlf ++ rest))) in
    let in_chunk = length-append f.chunk (crlf ++ rest) in
    let in_render = length-append f.line (crlf ++ (f.chunk ++ crlf)) in
    let in_render' = length-append f.chunk crlf in
    let short : length raw < word = rw (regroup_frame before f rest) at fits in
    let start = length before + length f.line + 2 in
    let end : start + n + 2 ≡ length before + length (render f) = omega arith in
    let in_before = slice_middle before f.line (crlf ++ (f.chunk ++ (crlf ++ rest))) _ refl in
    let fits' : ltb (length raw) (add64 start n) ≡ false =
      rw (add64_lem start n (omega arith)) (not_past (length raw) (start + n) (omega arith)) in
    let taken : slice raw start (start + n) ≡ ok f.chunk =
      slice_at raw (before ++ (f.line ++ crlf)) f.chunk (crlf ++ rest) start (start + n)
        (simp append_assoc)
        (omega (arith, length-append before (f.line ++ crlf), length-append f.line crlf)) refl in
    rw (regroup_frame before f rest) (
      decode_from-round fuel raw (length before) (length before + length f.line) n output f.line
        (omega arith) (find_crlf-line before f.line (f.chunk ++ (crlf ++ rest)) header.no_return)
        in_before header.announces (not_0 n pos) fits'
      ∙ rw (add64_lem start n (omega arith))
          (rw taken (ap (λ p. decode_from fuel raw p (output ++ f.chunk)) end)))

decode_from-last :
    (fuel : ℕ) (before output line rest : Text)
    → IsHeader line 0
    → decode_from (suc fuel) (before ++ (line ++ (crlf ++ rest))) (length before) output ≡ ok output
unfolding decode_from
decode_from-last fuel before output line rest header =
    let size = length-append before (line ++ (crlf ++ rest)) in
    let size' = length-append line (crlf ++ rest) in
    rw (lt→ltb (length before) (length (before ++ (line ++ (crlf ++ rest)))) (omega arith)) (
      rw (find_crlf-line before line rest header.no_return) (
        rw (slice_middle before line (crlf ++ rest) (length before + length line) refl, ◌>>=◌)
          (rw header.announces)))

-- All frames, then a line that announces nothing; what follows it is not read.
decode_from-frames :
    (fs : List Frame) (fuel : ℕ) (before output line rest : Text)
    → All IsFrame fs
    → IsHeader line 0
    → length (before ++ render_all fs (line ++ (crlf ++ rest))) < word
    → length fs < fuel
    → decode_from fuel (before ++ render_all fs (line ++ (crlf ++ rest))) (length before) output
      ≡ ok (output ++ payload fs)
decode_from-frames fs zero before output line rest h last fits enough = absurd (omega arith)
decode_from-frames [] (suc fuel) before output line rest h last fits enough =
    rw (append-nil output) (decode_from-last fuel before output line rest last)
decode_from-frames (f ∷ fs) (suc fuel) before output line rest (here, h) last fits enough =
    let tail = render_all fs (line ++ (crlf ++ rest)) in
    let again : before ++ (render f ++ tail) ≡ (before ++ render f) ++ tail =
      sym (append_assoc before (render f) tail) in
    decode_from-frame fuel before output f tail here fits
    ∙ ap (λ r. decode_from fuel r (length before + length (render f)) (output ++ f.chunk)) again
    ∙ ap (λ p. decode_from fuel ((before ++ render f) ++ tail) p (output ++ f.chunk))
        (sym (length-append before (render f)))
    ∙ decode_from-frames fs fuel (before ++ render f) (output ++ f.chunk) line rest h last
        (rw again at fits) (omega arith)
    ∙ ap ok (append_assoc output f.chunk (payload fs))

length-render_all :
    (fs : List Frame) (tail : Text) → length fs + length tail ≤ length (render_all fs tail)
length-render_all [] tail = omega arith
length-render_all (f ∷ fs) tail = omega (
  arith,
  length-render_all fs tail,
  length-append (render f) (render_all fs tail),
  length-append f.line (crlf ++ (f.chunk ++ crlf)),
)

-- In a request that says it is chunked, a body of fewer than 2 ^ 64 bytes that is made of frames and
-- ends in a frame of size 0 decodes to the data of the frames in order, if the capacity that the
-- request asks for is below 2 ^ 63.
pub decode_aws_chunked-frames :
    (headers : Headers) (fs : List Frame) (line rest : Text)
    → is_chunked headers ≡ true
    → All IsFrame fs
    → IsHeader line 0
    → length (render_all fs (line ++ (crlf ++ rest))) < word
    → capacity_of headers (length (render_all fs (line ++ (crlf ++ rest)))) < capacity_limit
    → decode_aws_chunked headers (render_all fs (line ++ (crlf ++ rest))) ≡ ok (payload fs)
unfolding decode_aws_chunked
decode_aws_chunked-frames headers fs line rest chunked h last fits space =
    let raw = render_all fs (line ++ (crlf ++ rest)) in
    rw (chunked, lt→ltb (capacity_of headers (length raw)) capacity_limit space)
      (decode_from-frames fs (length (render_all fs (line ++ (crlf ++ rest))) + 1) [] [] line rest h
        last fits (omega (arith, length-render_all fs (line ++ (crlf ++ rest)))))

-- A result that the loop reaches: an output that is no longer than what was read, or a panic.
abbrev pub EndsWithin : ℕ → Result Fault Text → Type 0
EndsWithin n (ok output) = length output ≤ n
EndsWithin n (err panicked) = Unit
EndsWithin n (err _) = ⊥

-- The rest of a round, for the induction hypothesis of the next.
decode_from-rest :
    (fuel : ℕ) (raw : Text) (start end : ℕ) (output : Text)
    → end ≤ length raw
    → length output ≤ start
    → ((out : Text)
        → start ≤ end
        → length out ≤ end + 2
        → length out ≤ length raw
        → EndsWithin (length raw) (decode_from fuel raw (end + 2) out))
    → EndsWithin
        (length raw)
        (slice raw start end >>= λ chunk. decode_from fuel raw (end + 2) (output ++ chunk))
decode_from-rest fuel raw start end output below le next = elim (Bool-cases (leb start end)) [
  | inr reversed ↦
      subst
        (λ r.
          EndsWithin (length raw) (r >>= λ chunk. decode_from fuel raw (end + 2) (output ++ chunk)))
        (sym (slice_reversed raw start end (leb-false→lt start end reversed))) tt
  | inl ordered ↦
      let above = leb→le start end ordered in
      let (chunk, taken, sized) = slice-length raw start end above below in
      let size = length-append output chunk in
      subst
        (λ r.
          EndsWithin (length raw) (r >>= λ chunk. decode_from fuel raw (end + 2) (output ++ chunk)))
        (sym taken) (next (output ++ chunk) above (omega arith) (omega arith))
]

decode_from-EndsWithin :
    (fuel : ℕ) (raw : Text) (pos : ℕ) (output : Text)
    → length raw - pos < fuel
    → length output ≤ pos
    → length output ≤ length raw
    → EndsWithin (length raw) (decode_from fuel raw pos output)
unfolding decode_from
decode_from-EndsWithin zero raw pos output enough le le' = absurd (omega arith)
decode_from-EndsWithin (suc fuel) raw pos output enough le le' =
    elim (Bool-cases (ltb pos (length raw))) [
      | inr past ↦ rw past le'
      | inl inside ↦ elim (Option-cases (find_crlf raw pos)) [
        | inl lost ↦ rw inside (rw lost le')
        | inr (header_end, found) ↦
            let lt = ltb→lt pos (length raw) inside in
            let (above, below) = find_crlf-bounds raw pos header_end (omega arith) found in
            let (line, read, _) = slice-length raw pos header_end above (omega arith) in
            elim (Option-cases (chunk_size_of line)) [
              | inl silent ↦ rw inside (rw found (rw (read, ◌>>=◌) (rw silent le')))
              | inr (n, announced) ↦ elim (Bool-cases (n == 0)) [
                | inl done ↦ rw inside (rw found (rw (read, ◌>>=◌) (rw announced (rw done le'))))
                | inr more ↦ elim (Bool-cases (ltb (length raw) (add64 (header_end + 2) n))) [
                  | inl over ↦
                      rw inside (rw found (rw (read, ◌>>=◌) (rw announced (rw more (rw over le')))))
                  | inr fits ↦
                      subst (EndsWithin (length raw))
                        (sym (
                          decode_from-round fuel raw pos header_end n output line lt found read
                            announced more fits))
                        (decode_from-rest fuel raw (header_end + 2) (add64 (header_end + 2) n)
                          output (ltb-false→le _ _ fits) (omega arith)
                          (λ out on le1 le2.
                            decode_from-EndsWithin fuel raw (add64 (header_end + 2) n + 2) out
                              (omega arith) le1 le2))
                ]
              ]
            ]
      ]
    ]

-- Every body is decoded to an output no longer than itself, or panics: the loop ends, and nothing
-- is made up.
pub decode_aws_chunked-EndsWithin :
    (headers : Headers) (body : Text) → EndsWithin (length body) (decode_aws_chunked headers body)
unfolding decode_aws_chunked
decode_aws_chunked-EndsWithin headers body = elim (Bool-cases (is_chunked headers)) [
  | inr plain ↦ rw plain (omega arith)
  | inl chunked ↦ elim (Bool-cases (ltb (capacity_of headers (length body)) capacity_limit)) [
    | inr large ↦ rw (chunked, large) tt
    | inl small ↦
        rw (chunked, small)
          (decode_from-EndsWithin (length body + 1) body 0 [] (omega arith) (omega arith)
            (omega arith))
  ]
]

add64_wrap : (a b : ℕ) → b < word → word ≤ a + b → a + b < word + word → add64 a b < a
unfolding add64
add64_wrap a b h k l = omega arith

-- A chunked body of fewer than 2 ^ 64 bytes whose first line announces so many bytes that the end of
-- its data passes 64 bits makes the decoder panic: the sum wraps, so the guard lets it through, and
-- the slice ends before it starts.
pub decode_aws_chunked-oversized :
    (headers : Headers) (line rest : Text) (n : ℕ)
    → is_chunked headers ≡ true
    → IsHeader line n
    → n < word
    → word ≤ length line + 2 + n
    → length (line ++ (crlf ++ rest)) < word
    → decode_aws_chunked headers (line ++ (crlf ++ rest)) ≡ err panicked
unfolding decode_aws_chunked
decode_aws_chunked-oversized headers line rest n chunked header n_fits passes fits =
    let raw = line ++ (crlf ++ rest) in
    let size = length-append line (crlf ++ rest) in
    let start = length line + 2 in
    let low : add64 start n < start = add64_wrap start n n_fits passes (omega arith) in
    let one : length raw + 1 ≡ suc (length raw) = omega arith in
    let loop : decode_from (length raw + 1) raw 0 [] ≡ err panicked = rw one (
      decode_from-round (length raw) raw 0 (length line) n [] line (omega arith)
        (find_crlf-line [] line rest header.no_return ∙ ap some (omega arith))
        (slice_middle [] line (crlf ++ rest) (length line) (omega arith)) header.announces
        (not_0 n (omega arith)) (not_past (length raw) (add64 start n) (omega arith))
      ∙ ap (λ r. r >>= λ chunk. decode_from (length raw) raw (add64 start n + 2) ([] ++ chunk))
          (slice_reversed raw start (add64 start n) low)) in
    elim (Bool-cases (ltb (capacity_of headers (length raw)) capacity_limit)) [
      | inr large ↦ rw (chunked, large) refl
      | inl small ↦ rw (chunked, small) loop
    ]
