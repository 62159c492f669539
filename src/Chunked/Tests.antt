-- ===== src/Chunked/Tests.antt =====
-- The theorems on `aws-chunked` bodies at concrete inputs.
use s3prism.Base.{
  ◌-◌, ◌^◌, ◌≡◌, ◌<◌, refl, List, [], ◌∷◌, ◌++◌, bytes, some, arith, ok, err, true, strip_prefix,
  starts_with, text_eq, length,
}
use s3prism.Fault.{panicked}
use s3prism.Chunked.{
  Headers, capacity_of, capacity_limit, decode_aws_chunked, chunk_size_of, is_chunked,
}
use s3prism.Chunked.Framing.{IsHeader, Frame, crlf, render_all}
use s3prism.Chunked.Laws.{
  decode_aws_chunked-frames, EndsWithin, decode_aws_chunked-EndsWithin,
  decode_aws_chunked-oversized,
}

abbrev chunked : Headers
chunked = (bytes "content-encoding", some (bytes "aws-chunked")) ∷ []

chunked-is_chunked : is_chunked chunked ≡ true
unfolding is_chunked starts_with text_eq
chunked-is_chunked = refl

five-IsHeader : IsHeader (bytes "5;chunk-signature=a") 5
unfolding chunk_size_of strip_prefix
five-IsHeader = record { no_return = omega arith; announces = refl }

zero-IsHeader : IsHeader (bytes "0;chunk-signature=b") 0
unfolding chunk_size_of strip_prefix
zero-IsHeader = record { no_return = omega arith; announces = refl }

huge-IsHeader : IsHeader (bytes "ffffffffffffffff") (2 ^ 64 - 1)
unfolding chunk_size_of strip_prefix
huge-IsHeader = record { no_return = omega arith; announces = refl }

abbrev hello : List Frame
hello = record { line = bytes "5;chunk-signature=a"; chunk = bytes "hello" } ∷ []

small :
    capacity_of chunked (length (render_all hello (bytes "0;chunk-signature=b" ++ (crlf ++ crlf))))
    < capacity_limit
unfolding capacity_of text_eq
small = omega arith

decode_aws_chunked-frames_example :
    decode_aws_chunked chunked (render_all hello (bytes "0;chunk-signature=b" ++ (crlf ++ crlf)))
    ≡ ok (bytes "hello")
decode_aws_chunked-frames_example =
    decode_aws_chunked-frames chunked hello (bytes "0;chunk-signature=b") crlf chunked-is_chunked
      ((five-IsHeader, omega arith), tt) zero-IsHeader (omega arith) small

decode_aws_chunked-EndsWithin_example : EndsWithin 2 (decode_aws_chunked chunked (bytes "zz"))
decode_aws_chunked-EndsWithin_example = decode_aws_chunked-EndsWithin chunked (bytes "zz")

decode_aws_chunked-oversized_example :
    decode_aws_chunked chunked (bytes "ffffffffffffffff" ++ (crlf ++ bytes "hello")) ≡ err panicked
decode_aws_chunked-oversized_example =
    decode_aws_chunked-oversized chunked (bytes "ffffffffffffffff") (bytes "hello") (2 ^ 64 - 1)
      chunked-is_chunked huge-IsHeader (omega arith) (omega arith) (omega arith)
