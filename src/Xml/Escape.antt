-- ===== src/Xml/Escape.antt =====
-- `escape_xml` of src/api/xml.rs.
use s3prism.Base.{
  ℕ, zero, suc, ◌≡◌, refl, sym, ap, ◌∙◌, subst, inl, inr, false, List, [], ◌∷◌, ◌++◌, Text, bytes,
  strip_prefix, Option, none, some, length, ◌==◌, ==_iff, if◌then◌else◌, Bool-cases,
}
use s3prism.Base.Search.{each, replace, each-append}
use s3prism.Xml.{escape_xml}

-- What stands for one character.
abbrev pub escape_char : ℕ → Text
escape_char c =
    if c == b'&'
    then bytes "&amp;"
    else if c == b'<'
    then bytes "&lt;"
    else if c == b'>'
    then bytes "&gt;"
    else if c == b'"'
    then bytes "&quot;"
    else if c == b'\''
    then bytes "&apos;"
    else c ∷ []

replace-append : (c : ℕ) (w s t : Text) → replace c w (s ++ t) ≡ replace c w s ++ replace c w t
unfolding replace
replace-append c w s t = each-append (λ d. if d == c then w else d ∷ []) s t

escape_xml-append : (s t : Text) → escape_xml (s ++ t) ≡ escape_xml s ++ escape_xml t
unfolding escape_xml
escape_xml-append s t =
    let amp = replace b'&' (bytes "&amp;") in
    let lt = replace b'<' (bytes "&lt;") in
    let gt = replace b'>' (bytes "&gt;") in
    let quot = replace b'"' (bytes "&quot;") in
    let apos = replace b'\'' (bytes "&apos;") in
    ap (λ x. apos (quot (gt (lt x)))) (replace-append b'&' (bytes "&amp;") s t)
    ∙ ap (λ x. apos (quot (gt x))) (replace-append b'<' (bytes "&lt;") (amp s) (amp t))
    ∙ ap (λ x. apos (quot x)) (replace-append b'>' (bytes "&gt;") (lt (amp s)) (lt (amp t)))
    ∙ ap apos (replace-append b'"' (bytes "&quot;") (gt (lt (amp s))) (gt (lt (amp t))))
    ∙ replace-append b'\'' (bytes "&apos;") (quot (gt (lt (amp s)))) (quot (gt (lt (amp t))))

-- The split on the five characters.
data CharCase : ℕ → Type 0 where
  special_amp : CharCase b'&'
  special_lt : CharCase b'<'
  special_gt : CharCase b'>'
  special_quot : CharCase b'"'
  special_apos : CharCase b'\''
  plain :
      {c : ℕ}
      → (c == b'&') ≡ false
      → (c == b'<') ≡ false
      → (c == b'>') ≡ false
      → (c == b'"') ≡ false
      → (c == b'\'') ≡ false
      → CharCase c

char_case : (c : ℕ) → CharCase c
char_case c = elim (Bool-cases (c == b'&')) [
  | inl e ↦ subst CharCase (sym ((==_iff c b'&').0 e)) special_amp
  | inr e1 ↦ elim (Bool-cases (c == b'<')) [
    | inl e ↦ subst CharCase (sym ((==_iff c b'<').0 e)) special_lt
    | inr e2 ↦ elim (Bool-cases (c == b'>')) [
      | inl e ↦ subst CharCase (sym ((==_iff c b'>').0 e)) special_gt
      | inr e3 ↦ elim (Bool-cases (c == b'"')) [
        | inl e ↦ subst CharCase (sym ((==_iff c b'"').0 e)) special_quot
        | inr e4 ↦ elim (Bool-cases (c == b'\'')) [
          | inl e ↦ subst CharCase (sym ((==_iff c b'\'').0 e)) special_apos
          | inr e5 ↦ plain e1 e2 e3 e4 e5
        ]
      ]
    ]
  ]
]

escape_xml-one : (c : ℕ) → CharCase c → escape_xml (c ∷ []) ≡ escape_char c
unfolding escape_xml replace
escape_xml-one _ special_amp = refl
escape_xml-one _ special_lt = refl
escape_xml-one _ special_gt = refl
escape_xml-one _ special_quot = refl
escape_xml-one _ special_apos = refl
escape_xml-one c (plain e1 e2 e3 e4 e5) = rw (e1, e2, e3, e4, e5) refl

-- The five replacements, one after the other, escape each character of the text once: what an
-- earlier one puts in is not escaped again.
pub escape_xml-each : (s : Text) → escape_xml s ≡ each escape_char s
unfolding escape_xml replace
escape_xml-each [] = refl
escape_xml-each (c ∷ s) =
    escape_xml-append (c ∷ []) s
    ∙ ap (λ w. w ++ escape_xml s) (escape_xml-one c (char_case c))
    ∙ ap (λ t. escape_char c ++ t) (escape_xml-each s)

-- A reader of XML: the first character of a text, where an entity stands for one.
abbrev entity : Text → List (Text × ℕ) → Option (ℕ × Text)
entity s [] = none
entity s ((name, c) ∷ table) =
    let later = entity s table in
    elim (strip_prefix name s) [ some rest ↦ some (c, rest) | none ↦ later ]

abbrev entities : List (Text × ℕ)
entities =
    (bytes "amp;", b'&')
    ∷ (bytes "lt;", b'<')
    ∷ (bytes "gt;", b'>')
    ∷ (bytes "quot;", b'"')
    ∷ (bytes "apos;", b'\'')
    ∷ []

abbrev read_char : Text → Option (ℕ × Text)
read_char [] = none
read_char (c ∷ s) =
    let named = entity s entities in
    if c == b'&' then named else if c == b'<' then none else some (c, s)

abbrev then_char : ℕ → Option Text → Option Text
then_char c none = none
then_char c (some w) = some (c ∷ w)

abbrev then_read : (Text → Option Text) → Option (ℕ × Text) → Option Text
then_read read none = none
then_read read (some (c, rest)) = then_char c (read rest)

-- The text that character data stands for; `none` where it is not well-formed. Each round takes at
-- least one character.
abbrev pub read_text : ℕ → Text → Option Text
read_text zero [] = some []
read_text zero (c ∷ s) = none
read_text (suc fuel) [] = some []
read_text (suc fuel) (c ∷ s) = then_read (read_text fuel) (read_char (c ∷ s))

read_char-escape_char :
    (c : ℕ) (rest : Text) → CharCase c → read_char (escape_char c ++ rest) ≡ some (c, rest)
unfolding strip_prefix
read_char-escape_char _ rest special_amp = refl
read_char-escape_char _ rest special_lt = refl
read_char-escape_char _ rest special_gt = refl
read_char-escape_char _ rest special_quot = refl
read_char-escape_char _ rest special_apos = refl
read_char-escape_char c rest (plain e1 e2 e3 e4 e5) = rw (e1, e2, e3, e4, e5, e1, e2) refl

read_text-step :
    (fuel c : ℕ) (s rest : Text)
    → read_char s ≡ some (c, rest)
    → read_text (suc fuel) s ≡ then_char c (read_text fuel rest)
read_text-step fuel c [] rest h = cc
read_text-step fuel c (d ∷ s) rest h = ap (then_read (read_text fuel)) h

read_text-each : (s : Text) → read_text (length s) (each escape_char s) ≡ some s
read_text-each [] = refl
read_text-each (c ∷ s) =
    read_text-step (length s) c (escape_char c ++ each escape_char s) (each escape_char s)
      (read_char-escape_char c (each escape_char s) (char_case c))
    ∙ ap (then_char c) (read_text-each s)

-- A reader of XML gets every text back from what it is escaped to.
pub read_text-escape_xml : (s : Text) → read_text (length s) (escape_xml s) ≡ some s
read_text-escape_xml s = ap (read_text (length s)) (escape_xml-each s) ∙ read_text-each s
