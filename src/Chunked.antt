-- ===== src/Chunked.antt =====
-- src/api/chunked.rs: bodies in the `aws-chunked` content encoding.
pub mod Numerals
mod Framing
pub mod Laws
mod Tests
use mathlib.Core.List.{reverse}
use s3prism.Base.{
  ℕ, zero, suc, ◌+◌, ◌-◌, ◌*◌, Bool, true, false, ◌&&◌, ◌||◌, List, [], ◌∷◌, ◌++◌, map, Text, bytes,
  starts_with, text_eq, Option, none, some, length, ◌==◌, ltb, leb, if◌then◌else◌, Result, ok, err,
  ◌>>=◌, drop, strip_prefix,
}
use s3prism.Base.Word.{word, add64}
use s3prism.Fault.{Fault, out_of_fuel, panicked}
use s3prism.Slice.{slice}

-- The headers of a request in order; the value is `None` where `to_str` fails.
abbrev pub Headers : Type 0
Headers = List (Text × Option Text)

-- `headers.get(name).and_then(|v| v.to_str().ok())`.
unfoldable pub header_str : Text → Headers → Option Text
header_str name [] = none
header_str name ((n, v) ∷ rest) = if text_eq n name then v else header_str name rest

-- `s.contains(needle)`.
unfoldable pub contains : Text → Text → Bool
contains needle [] = starts_with needle []
contains needle (c ∷ s) = starts_with needle (c ∷ s) || contains needle s

abbrev holds : (Text → Bool) → Option Text → Bool
holds test none = false
holds test (some v) = test v

unfoldable pub is_chunked : Headers → Bool
unfolding contains header_str
is_chunked headers =
    holds (contains (bytes "aws-chunked")) (header_str (bytes "content-encoding") headers)
    || holds (starts_with (bytes "STREAMING-")) (header_str (bytes "x-amz-content-sha256") headers)

find_crlf_from : ℕ → Text → Option ℕ
find_crlf_from i [] = none
find_crlf_from i (c ∷ []) = none
find_crlf_from i (c ∷ d ∷ rest) =
    let later = find_crlf_from (i + 1) (d ∷ rest) in if c == 13 && d == 10 then some i else later

unfoldable pub find_crlf : Text → ℕ → Option ℕ
unfolding find_crlf_from
find_crlf bytes start = find_crlf_from start (drop start bytes)

-- The characters that `str::trim` removes, in UTF-8.
abbrev pub whitespace : List Text
whitespace =
    (0x09 ∷ [])
    ∷ (0x0a ∷ [])
    ∷ (0x0b ∷ [])
    ∷ (0x0c ∷ [])
    ∷ (0x0d ∷ [])
    ∷ (0x20 ∷ [])
    ∷ (0xc2 ∷ 0x85 ∷ [])
    ∷ (0xc2 ∷ 0xa0 ∷ [])
    ∷ (0xe1 ∷ 0x9a ∷ 0x80 ∷ [])
    ∷ (0xe2 ∷ 0x80 ∷ 0x80 ∷ [])
    ∷ (0xe2 ∷ 0x80 ∷ 0x81 ∷ [])
    ∷ (0xe2 ∷ 0x80 ∷ 0x82 ∷ [])
    ∷ (0xe2 ∷ 0x80 ∷ 0x83 ∷ [])
    ∷ (0xe2 ∷ 0x80 ∷ 0x84 ∷ [])
    ∷ (0xe2 ∷ 0x80 ∷ 0x85 ∷ [])
    ∷ (0xe2 ∷ 0x80 ∷ 0x86 ∷ [])
    ∷ (0xe2 ∷ 0x80 ∷ 0x87 ∷ [])
    ∷ (0xe2 ∷ 0x80 ∷ 0x88 ∷ [])
    ∷ (0xe2 ∷ 0x80 ∷ 0x89 ∷ [])
    ∷ (0xe2 ∷ 0x80 ∷ 0x8a ∷ [])
    ∷ (0xe2 ∷ 0x80 ∷ 0xa8 ∷ [])
    ∷ (0xe2 ∷ 0x80 ∷ 0xa9 ∷ [])
    ∷ (0xe2 ∷ 0x80 ∷ 0xaf ∷ [])
    ∷ (0xe2 ∷ 0x81 ∷ 0x9f ∷ [])
    ∷ (0xe3 ∷ 0x80 ∷ 0x80 ∷ [])
    ∷ []

unfoldable pub strip_any : List Text → Text → Option Text
strip_any [] s = none
strip_any (p ∷ ps) s = elim (strip_prefix p s) [ some rest ↦ some rest | none ↦ strip_any ps s ]

-- At most as many characters as there are bytes.
unfoldable pub strip_all : ℕ → List Text → Text → Text
strip_all zero ps s = s
strip_all (suc n) ps s = elim (strip_any ps s) [ some rest ↦ strip_all n ps rest | none ↦ s ]

unfoldable pub trim : Text → Text
unfolding strip_all strip_any strip_prefix
trim s =
    let front = strip_all (length s) whitespace s in
    reverse (strip_all (length s) (map reverse whitespace) (reverse front))

hex_digit : ℕ → Option ℕ
hex_digit c =
    if leb b'0' c && leb c b'9'
    then some (c - b'0')
    else if leb b'a' c && leb c b'f'
    then some (c - b'a' + 10)
    else if leb b'A' c && leb c b'F'
    then some (c - b'A' + 10)
    else none

-- The digits after `acc`; `None` past 64 bits.
hex_digits : ℕ → Text → Option ℕ
hex_digits acc [] = some acc
hex_digits acc (c ∷ s) = elim (hex_digit c) [
  | none ↦ none
  | some d ↦
      let rest = hex_digits (acc * 16 + d) s in if ltb (acc * 16 + d) word then rest else none
]

-- `usize::from_str_radix(s, 16).ok()`: one leading `+` is allowed, and the digits are not empty.
unfoldable pub parse_hex : Text → Option ℕ
unfolding hex_digits hex_digit
parse_hex [] = none
parse_hex (c ∷ []) = hex_digits 0 (c ∷ [])
parse_hex (c ∷ d ∷ s) = if c == b'+' then hex_digits 0 (d ∷ s) else hex_digits 0 (c ∷ d ∷ s)

-- Everything before the first `;`.
unfoldable pub before_semicolon : Text → Text
before_semicolon [] = []
before_semicolon (c ∷ s) = let rest = c ∷ before_semicolon s in if c == b';' then [] else rest

-- A size that is not UTF-8 fails here too, as no digit is left in place of the wrong bytes.
unfoldable pub chunk_size_of : Text → Option ℕ
unfolding parse_hex trim before_semicolon
chunk_size_of header_line = parse_hex (trim (before_semicolon header_line))

-- The `while` loop; a `break` returns the output.
unfoldable pub decode_from : ℕ → Text → ℕ → Text → Result Fault Text
unfolding slice
decode_from zero raw pos output = err out_of_fuel
decode_from (suc fuel) raw pos output =
    let round : Result Fault Text = elim (find_crlf raw pos) [
      | none ↦ ok output
      | some header_end ↦ do
        header_line ← slice raw pos header_end
        elim (chunk_size_of header_line) [
          | none ↦ ok output
          | some chunk_size ↦
              let data_start = header_end + 2 in
              let data_end = add64 data_start chunk_size in
              let next : Result Fault Text = (do
                chunk ← slice raw data_start data_end
                decode_from fuel raw (data_end + 2) (output ++ chunk)) in
              if chunk_size == 0
              then ok output
              else if ltb (length raw) data_end
              then ok output
              else next
        ]
    ] in
    if ltb pos (length raw) then round else ok output

unfoldable pub decimal_digits : ℕ → Text → Option ℕ
decimal_digits acc [] = some acc
decimal_digits acc (c ∷ s) =
    let next = acc * 10 + (c - b'0') in
    let rest = decimal_digits next s in
    if leb b'0' c && (leb c b'9' && ltb next word) then rest else none

-- `v.parse::<usize>().ok()`.
unfoldable pub parse_decimal : Text → Option ℕ
unfolding decimal_digits
parse_decimal [] = none
parse_decimal (c ∷ []) = decimal_digits 0 (c ∷ [])
parse_decimal (c ∷ d ∷ s) =
    if c == b'+' then decimal_digits 0 (d ∷ s) else decimal_digits 0 (c ∷ d ∷ s)

-- The capacity that is asked for the output; `len` is the length of the body.
unfoldable pub capacity_of : Headers → ℕ → ℕ
unfolding parse_decimal header_str
capacity_of headers len = elim (header_str (bytes "x-amz-decoded-content-length") headers) [
  | none ↦ len
  | some v ↦ elim (parse_decimal v) [ some n ↦ n | none ↦ len ]
]

-- 2 ^ 63: from here on `Vec::with_capacity` panics. That less memory is there is not modelled.
abbrev pub capacity_limit : ℕ
capacity_limit = 9_223_372_036_854_775_808

unfoldable pub decode_aws_chunked : Headers → Text → Result Fault Text
decode_aws_chunked headers body =
    let output =
      if ltb (capacity_of headers (length body)) capacity_limit
      then decode_from (length body + 1) body 0 []
      else err panicked in
    if is_chunked headers then output else ok body
