-- ===== src/Chunked/Numerals.antt =====
-- The number parser of src/api/chunked.rs, which src/api/handlers/multipart.rs uses too, on the digits of
-- a number.
use mathlib.Core.List.{reverse, reverse_aux, reverse-reverse}
use s3prism.Base.{
  ℕ, zero, suc, ◌≡◌, ◌≤◌, ◌<◌, ◌+◌, ◌*◌, ◌/◌, ◌%◌, ◌-◌, ◌≢◌, refl, ap, ◌∙◌, inl, inr, Bool, true,
  false, ◌&&◌, ◌||◌, List, [], ◌∷◌, map, Text, none, some, All, all, length, ◌==◌, leb, ltb,
  if◌then◌else◌, strip_prefix, Bool-cases, arith,
}
use s3prism.Base.Word.{word}
use s3prism.Base.Decimal.{digits, decimal}
use s3prism.Chunked.{whitespace, strip_any, strip_all, trim, decimal_digits, parse_decimal}

abbrev pub IsDigit : ℕ → Type 0
IsDigit c = (48 ≤ c) × (c ≤ 57)

-- A text that begins with something else than a digit.
abbrev is_off : Text → Bool
is_off [] = false
is_off (x ∷ p) = ltb x 48 || ltb 57 x

strip_any-nil : (ps : List Text) → all is_off ps ≡ true → strip_any ps [] ≡ none
unfolding strip_any strip_prefix
strip_any-nil [] h = refl
strip_any-nil ([] ∷ ps) h = absurd (ground (arith, h))
strip_any-nil ((x ∷ p) ∷ ps) h = strip_any-nil ps (ground (arith, h))

strip_any-none :
    (ps : List Text) (c : ℕ) (s : Text)
    → all is_off ps ≡ true
    → IsDigit c
    → strip_any ps (c ∷ s) ≡ none
unfolding strip_any strip_prefix
strip_any-none [] c s h d = refl
strip_any-none ([] ∷ ps) c s h d = absurd (ground (arith, h))
strip_any-none ((x ∷ p) ∷ ps) c s h (low, high) =
    let other : (x == c) ≡ false = ground (arith, h, low, high) in
    rw (strip_any, strip_prefix, other) (strip_any-none ps c s (ground (arith, h)) (low, high))

strip_all-digits :
    (n : ℕ) (ps : List Text) (s : Text)
    → all is_off ps ≡ true
    → All IsDigit s
    → strip_all n ps s ≡ s
unfolding strip_all
strip_all-digits zero ps s h d = refl
strip_all-digits (suc n) ps [] h d = rw (strip_all, strip_any-nil ps h) refl
strip_all-digits (suc n) ps (c ∷ s) h (dc, d) = rw (strip_all, strip_any-none ps c s h dc) refl

All-reverse_aux : (s t : Text) → All IsDigit s → All IsDigit t → All IsDigit (reverse_aux s t)
All-reverse_aux [] t hs ht = ht
All-reverse_aux (c ∷ s) t (hc, hs) ht = All-reverse_aux s (c ∷ t) hs (hc, ht)

trim-digits : (s : Text) → All IsDigit s → trim s ≡ s
unfolding trim
trim-digits s h =
    ap (λ t. reverse (strip_all (length s) (map reverse whitespace) (reverse t)))
      (strip_all-digits (length s) whitespace s refl h)
    ∙ ap reverse (
        strip_all-digits (length s) (map reverse whitespace) (reverse s) refl
          (All-reverse_aux s [] h tt))
    ∙ reverse-reverse s

-- The digits of a number end a text of digits.
digits-All : (fuel n : ℕ) (rest : Text) → All IsDigit rest → All IsDigit (digits fuel n rest)
unfolding digits
digits-All zero n rest h = h
digits-All (suc fuel) n rest h = elim (Bool-cases (ltb n 10)) [
  | inl one ↦ rw one ((omega arith, ground (arith, one)), h)
  | inr more ↦
      rw more (digits-All fuel (n / 10) ((48 + n % 10) ∷ rest) ((omega arith, omega arith), h))
]

decimal_digits-cons :
    (acc c n : ℕ) (s : Text)
    → IsDigit c
    → acc * 10 + (c - 48) ≡ n
    → n < word
    → decimal_digits acc (c ∷ s) ≡ decimal_digits n s
unfolding decimal_digits
decimal_digits-cons acc c n s (low, high) is below =
    let test : (leb 48 c && (leb c 57 && ltb n word)) ≡ true = ground (arith, low, high, below) in
    ap (λ m. if leb 48 c && (leb c 57 && ltb m word) then decimal_digits m s else none) is
    ∙ ap (λ b. if b then decimal_digits n s else none) test

decimal_digits-digits :
    (fuel n : ℕ) (rest : Text)
    → n < fuel
    → n < word
    → decimal_digits 0 (digits fuel n rest) ≡ decimal_digits n rest
unfolding digits
decimal_digits-digits zero n rest h w = absurd (omega arith)
decimal_digits-digits (suc fuel) n rest h w = elim (Bool-cases (ltb n 10)) [
  | inl one ↦
      let small : n < 10 = ground (arith, one) in
      rw (digits, one)
        (decimal_digits-cons 0 (48 + n) n rest (omega arith, omega (arith, small)) (omega arith) w)
  | inr more ↦
      let big : 10 ≤ n = ground (arith, more) in
      rw (digits, more)
        (decimal_digits-digits fuel (n / 10) ((48 + n % 10) ∷ rest) (omega (arith, big, h))
            (omega (arith, w))
          ∙ decimal_digits-cons (n / 10) (48 + n % 10) n rest (omega arith, omega arith)
              (omega arith) w)
]

pub decimal-All : (n : ℕ) → All IsDigit (decimal n)
unfolding decimal
decimal-All n = digits-All (n + 1) n [] tt

-- A text of digits has no sign.
parse_decimal-digits :
    (s : Text) {n : ℕ}
    → All IsDigit s
    → decimal_digits 0 s ≡ some n
    → length s ≢ 0
    → parse_decimal s ≡ some n
unfolding parse_decimal
parse_decimal-digits [] d h ne = absurd (ne refl)
parse_decimal-digits (c ∷ []) d h ne = h
parse_decimal-digits (c ∷ x ∷ s) ((low, high), d) h ne =
    let digit : (c == 43) ≡ false = ground (arith, low) in rw (parse_decimal, digit) h

digits_ne : (fuel n : ℕ) (rest : Text) → 0 < fuel → length rest < length (digits fuel n rest)
unfolding digits
digits_ne zero n rest h = absurd (omega (arith, h))
digits_ne (suc zero) n rest h = elim (Bool-cases (ltb n 10)) [
  | inl one ↦ rw one (omega arith)
  | inr more ↦ rw more (omega arith)
]
digits_ne (suc (suc fuel)) n rest h = elim (Bool-cases (ltb n 10)) [
  | inl one ↦ rw (digits, one) (omega arith)
  | inr more ↦
      rw (digits, more)
        (omega (arith, digits_ne (suc fuel) (n / 10) ((48 + n % 10) ∷ rest) (omega arith)))
]

-- A number that is printed and trimmed is read back.
pub parse_decimal-decimal : (n : ℕ) → n < word → parse_decimal (trim (decimal n)) ≡ some n
unfolding decimal decimal_digits
parse_decimal-decimal n below =
    let long : 0 < length (decimal n) = digits_ne (n + 1) n [] (omega arith) in
    ap parse_decimal (trim-digits (decimal n) (decimal-All n))
    ∙ parse_decimal-digits (decimal n) (decimal-All n)
        (decimal_digits-digits (n + 1) n [] (omega arith) below)
        (λ e. absurd (omega (arith, long, e)))
