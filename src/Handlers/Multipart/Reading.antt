-- ===== src/Handlers/Multipart/Reading.antt =====
-- The body of a completion as S3 documents it, and what the parser of src/api/handlers/multipart.rs:365
-- reads from it.
use s3prism.Base.{
  ℕ, ◌≡◌, ◌<◌, refl, ap, ◌∙◌, true, List, [], ◌∷◌, ◌++◌, map, Text, bytes, starts_with, Option,
  none, some, All, ◌==◌, ltb, length, not, if◌then◌else◌, ok, arith,
}
use s3prism.Base.Decimal.{decimal}
use s3prism.Base.Search.{split, split_from, before}
use s3prism.Xml.Pieces.{IsClean, onto, onto_cons, split_from-clean, before-clean}
use s3prism.Chunked.{trim}
use s3prism.Chunked.Numerals.{IsDigit, decimal-All, parse_decimal-decimal}
use s3prism.Handlers.Multipart.{parse_u16, part_numbers, sort_by_key, parse_complete_multipart_xml}
use s3prism.Handlers.Multipart.Order.{IsSorted, count, sort_by_key-IsSorted, count-sort_by_key}

-- A part of the request: its number and its ETag.
abbrev pub Requested : Type 0
Requested = ℕ × Text

abbrev pub parts_body : List Requested → Text
parts_body [] = bytes "</CompleteMultipartUpload>"
parts_body ((n, etag) ∷ parts) =
    bytes "<Part><PartNumber>"
    ++ (decimal n
        ++ (bytes "</PartNumber><ETag>" ++ (etag ++ (bytes "</ETag></Part>" ++ parts_body parts))))

abbrev pub request_body : List Requested → Text
request_body parts = bytes "<CompleteMultipartUpload>" ++ parts_body parts

-- The number is a `u16`, and the ETag has no `<`.
abbrev pub IsPlainPart : Requested → Type 0
IsPlainPart (n, etag) = (n < 65_536) × IsClean etag

digits-IsClean : (s : Text) → All IsDigit s → IsClean s
digits-IsClean [] h = tt
digits-IsClean (c ∷ s) ((low, high), h) = (ground (arith, high), digits-IsClean s h)

parse_u16-decimal : (n : ℕ) → n < 65_536 → parse_u16 (trim (decimal n)) ≡ some n
unfolding parse_u16
parse_u16-decimal n below =
    let test : ltb n 65_536 ≡ true = ground (arith, below) in
    ap (λ (o : Option ℕ). elim o [ some m ↦ if ltb m 65_536 then some m else none | none ↦ none ])
      (parse_decimal-decimal n (omega (arith, below)))
    ∙ ap (λ b. if b then some n else none) test

abbrev pieces : List Requested → List Text
pieces parts = split_from 0 (bytes "<PartNumber>") (parts_body parts)

-- The pieces from the number of a part on.
abbrev pieces_from : Requested → List Requested → List Text
pieces_from (n, etag) parts =
    onto (decimal n) (
      onto (bytes "</PartNumber><ETag>") (onto etag (onto (bytes "</ETag></Part>") (pieces parts))))

pieces_cons :
    (part : Requested) (parts : List Requested)
    → IsPlainPart part
    → pieces (part ∷ parts) ≡ bytes "<Part>" ∷ pieces_from part parts
unfolding starts_with
pieces_cons (n, etag) parts (below, clean) =
    ap (λ ps. bytes "<Part>" ∷ ps)
      (split_from-clean (bytes "PartNumber>") (decimal n)
          (bytes "</PartNumber><ETag>" ++ (etag ++ (bytes "</ETag></Part>" ++ parts_body parts)))
          (digits-IsClean (decimal n) (decimal-All n))
        ∙ ap (λ ps. onto (decimal n) (onto (bytes "</PartNumber><ETag>") ps))
            (split_from-clean (bytes "PartNumber>") etag
              (bytes "</ETag></Part>" ++ parts_body parts) clean))

abbrev pub numbers : List Requested → List ℕ
numbers = map (λ (p : Requested). p.0)

-- The piece behind the opening tag of a number, whatever follows the closing one.
part_numbers-cons :
    (n : ℕ) (rest : Text) (ps : List Text) {ns : List ℕ}
    → n < 65_536
    → part_numbers ps ≡ ok ns
    → part_numbers ((decimal n ++ (bytes "</PartNumber>" ++ rest)) ∷ ps) ≡ ok (n ∷ ns)
unfolding part_numbers
part_numbers-cons n rest ps {ns} below later =
    let found =
      before-clean (bytes "/PartNumber>") (decimal n) rest
        (digits-IsClean (decimal n) (decimal-All n)) in
    rw (part_numbers, found, parse_u16-decimal n below, later) refl

-- A piece that goes on with the next one.
onto_piece :
    (n : ℕ) (etag q : Text) (qs : List Text)
    → onto
        (decimal n)
        (onto (bytes "</PartNumber><ETag>") (onto etag (onto (bytes "</ETag></Part>") (q ∷ qs))))
      ≡ (decimal n
          ++ (bytes "</PartNumber>" ++ (bytes "<ETag>" ++ (etag ++ (bytes "</ETag></Part>" ++ q)))))
        ∷ qs
onto_piece n etag q qs =
    ap (λ ps. onto (decimal n) (onto (bytes "</PartNumber><ETag>") ps))
      (onto_cons etag (bytes "</ETag></Part>" ++ q) qs)
    ∙ onto_cons (decimal n) (bytes "</PartNumber><ETag>" ++ (etag ++ (bytes "</ETag></Part>" ++ q)))
        qs

part_numbers-nil : part_numbers [] ≡ ok []
unfolding part_numbers
part_numbers-nil = refl

part_numbers-pieces_from :
    (part : Requested) (parts : List Requested)
    → All IsPlainPart (part ∷ parts)
    → part_numbers (pieces_from part parts) ≡ ok (numbers (part ∷ parts))
unfolding starts_with
part_numbers-pieces_from (n, etag) [] ((below, clean), h) =
    ap part_numbers (onto_piece n etag (bytes "</CompleteMultipartUpload>") [])
    ∙ part_numbers-cons n _ [] below part_numbers-nil
part_numbers-pieces_from (n, etag) (next ∷ parts) ((below, clean), h) =
    ap
      (λ ps. part_numbers (
        onto (decimal n)
          (onto (bytes "</PartNumber><ETag>") (onto etag (onto (bytes "</ETag></Part>") ps)))))
      (pieces_cons next parts h.0)
    ∙ ap part_numbers (onto_piece n etag (bytes "<Part>") (pieces_from next parts))
    ∙ part_numbers-cons n _ (pieces_from next parts) below (part_numbers-pieces_from next parts h)

split-request_body :
    (part : Requested) (parts : List Requested)
    → All IsPlainPart (part ∷ parts)
    → part_numbers (split (bytes "<PartNumber>") (request_body (part ∷ parts)))
      ≡ ok (numbers (part ∷ parts))
unfolding split part_numbers before starts_with
split-request_body part parts h =
    ap (λ ps. part_numbers (onto (bytes "<CompleteMultipartUpload>") ps))
      (pieces_cons part parts h.0)
    ∙ part_numbers-pieces_from part parts h

-- From the body of a completion that lists at least one part, with numbers of 16 bits and ETags without
-- `<`, the parser reads the listed numbers, each as often, in ascending order, in whatever order the
-- body lists them.
pub parse_complete_multipart_xml-request_body :
    (part : Requested) (parts : List Requested)
    → All IsPlainPart (part ∷ parts)
    → (ns : List ℕ) × (parse_complete_multipart_xml (request_body (part ∷ parts)) ≡ ok ns)
      × IsSorted ns
      × ((k : ℕ) → count k ns ≡ count k (numbers (part ∷ parts)))
unfolding parse_complete_multipart_xml
parse_complete_multipart_xml-request_body part parts h =
    let raw = numbers (part ∷ parts) in
    let some_parts : not (length raw == 0) ≡ true = ground arith in
    (
      sort_by_key raw,
      rw (split-request_body part parts h, some_parts) refl,
      sort_by_key-IsSorted raw,
      λ k. count-sort_by_key k raw,
    )
