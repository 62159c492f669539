-- ===== src/Chunked/Framing.antt =====
-- Bodies that clients send, written out from the format in src/api/chunked.rs:4: frames of a header
-- line, the line end, the data and a line end.
use s3prism.Base.{
  ℕ, ◌+◌, ◌≤◌, ◌<◌, ◌≡◌, ◌≢◌, ap, ◌∙◌, List, [], ◌∷◌, ◌++◌, Text, some, arith, length, length-drop,
  All, concat, drop-append_length, map, drop,
}
use s3prism.Chunked.{find_crlf, find_crlf_from, chunk_size_of}

abbrev pub crlf : Text
crlf = 13 ∷ 10 ∷ []

-- A header line that announces `n` bytes; it holds no carriage return.
pub record IsHeader (line : Text) (n : ℕ) : Type 0 where
  pub no_return : All (λ c. c ≢ 13) line
  pub announces : chunk_size_of line ≡ some n

-- A header line with its data.
pub record Frame : Type 0 where
  pub line : Text
  pub chunk : Text

abbrev pub render : Frame → Text
render f = f.line ++ (crlf ++ (f.chunk ++ crlf))

abbrev pub IsFrame : Frame → Type 0
IsFrame f = IsHeader f.line (length f.chunk) × (0 < length f.chunk)

abbrev pub payload : List Frame → Text
payload fs = concat (map (λ (f : Frame). f.chunk) fs)

abbrev pub render_all : List Frame → Text → Text
render_all [] tail = tail
render_all (f ∷ fs) tail = render f ++ render_all fs tail

find_crlf_from-line :
    (i : ℕ) (line rest : Text)
    → All (λ c. c ≢ 13) line
    → find_crlf_from i (line ++ (crlf ++ rest)) ≡ some (i + length line)
unfolding find_crlf_from
find_crlf_from-line i [] rest h = ap some (omega arith)
find_crlf_from-line i (c ∷ []) rest (ne, _) = ground (arith, find_crlf_from-line (i + 1) [] rest tt)
find_crlf_from-line i (c ∷ d ∷ line) rest (ne, h) =
    ground (arith, find_crlf_from-line (i + 1) (d ∷ line) rest h)

-- From the start of a line, the search finds its end.
pub find_crlf-line :
    (before line rest : Text)
    → All (λ c. c ≢ 13) line
    → find_crlf (before ++ (line ++ (crlf ++ rest))) (length before)
      ≡ some (length before + length line)
unfolding find_crlf
find_crlf-line before line rest h =
    ap (find_crlf_from (length before)) (drop-append_length before (line ++ (crlf ++ rest)))
    ∙ find_crlf_from-line (length before) line rest h

-- A line end that is found lies inside the bytes, at or after the start.
find_crlf_from-bounds :
    (i : ℕ) (s : Text) (j : ℕ) → find_crlf_from i s ≡ some j → (i ≤ j) × (j + 2 ≤ i + length s)
unfolding find_crlf_from
find_crlf_from-bounds i [] j h = cc
find_crlf_from-bounds i (c ∷ []) j h = cc
find_crlf_from-bounds i (c ∷ d ∷ s) j h = ground (arith, find_crlf_from-bounds (i + 1) (d ∷ s) j)

pub find_crlf-bounds :
    (raw : Text) (pos j : ℕ)
    → pos ≤ length raw
    → find_crlf raw pos ≡ some j
    → (pos ≤ j) × (j + 2 ≤ length raw)
unfolding find_crlf
find_crlf-bounds raw pos j le h =
    omega (arith, find_crlf_from-bounds pos (drop pos raw) j h, length-drop pos raw)
