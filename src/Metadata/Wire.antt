-- ===== src/Metadata/Wire.antt =====
-- A concrete serialization for tests: a value is a list of numbers that can be read back whatever
-- follows it. It stands for `serde_json`, whose own format is not part of the repository.
use s3prism.Base.{
  ℕ, zero, suc, ◌≡◌, refl, ap, ◌∙◌, List, [], ◌∷◌, ◌++◌, length, append-nil, append_assoc, Text,
  Option, none, some, Result, ok, err, ok_injective, sym,
}
use s3prism.Fault.{Fault, external}
use s3prism.Metadata.Rocks.{Serde}

pub record Wire (A : Type 0) : Type 0 where
  pub enc : A → Text
  pub dec : Text → Option (A × Text)
  pub dec-enc : (a : A) (rest : Text) → dec (enc a ++ rest) ≡ some (a, rest)

abbrev pub then_some : {A B : Type 0} → Option A → (A → Option B) → Option B
then_some none f = none
then_some (some a) f = f a

abbrev pub number_dec : Text → Option (ℕ × Text)
number_dec [] = none
number_dec (n ∷ rest) = some (n, rest)

abbrev pub number : Wire ℕ
number = record { enc = λ n. n ∷ []; dec = number_dec; dec-enc = λ n rest. refl }

module _ {A B : Type 0} where
  abbrev pub pair_enc : Wire A → Wire B → A × B → Text
  pair_enc a b p = a.enc p.0 ++ b.enc p.1

  abbrev pub pair_read : Wire A → Wire B → Text → Option ((A × B) × Text)
  pair_read a b t = then_some (a.dec t) (λ x. then_some (b.dec x.1) (λ y. some ((x.0, y.0), y.1)))

  pub pair_read-enc :
      (a : Wire A) (b : Wire B) (p : A × B) (rest : Text)
      → pair_read a b (pair_enc a b p ++ rest) ≡ some (p, rest)
  pair_read-enc a b p rest =
      rw
        (
          append_assoc (a.enc p.0) (b.enc p.1) rest,
          a.dec-enc p.0 (b.enc p.1 ++ rest),
          b.dec-enc p.1 rest,
        )
        refl

  abbrev pub pair : Wire A → Wire B → Wire (A × B)
  pair a b = record { enc = pair_enc a b; dec = pair_read a b; dec-enc = pair_read-enc a b }

  -- A type that another one carries.
  abbrev pub via_dec : (B → A) → Wire B → Text → Option (A × Text)
  via_dec back b t = then_some (b.dec t) (λ x. some (back x.0, x.1))

  pub via_dec-enc :
      (into : A → B) (back : B → A) (same : (x : A) → back (into x) ≡ x) (b : Wire B) (x : A)
      (rest : Text)
      → via_dec back b (b.enc (into x) ++ rest) ≡ some (x, rest)
  via_dec-enc into back same b x rest =
      rw (b.dec-enc (into x) rest) (ap (λ y. some (y, rest)) (same x))

  abbrev pub via : (into : A → B) (back : B → A) → ((x : A) → back (into x) ≡ x) → Wire B → Wire A
  via into back same b = record {
    enc = λ x. b.enc (into x);
    dec = via_dec back b;
    dec-enc = via_dec-enc into back same b;
  }

module _ {A : Type 0} (a : Wire A) where
  abbrev pub items_enc : List A → Text
  items_enc [] = []
  items_enc (x ∷ xs) = a.enc x ++ items_enc xs

  abbrev pub items_dec : ℕ → Text → Option (List A × Text)
  items_dec zero t = some ([], t)
  items_dec (suc n) t =
      then_some (a.dec t) (λ x. then_some (items_dec n x.1) (λ xs. some (x.0 ∷ xs.0, xs.1)))

  pub items_dec-enc :
      (xs : List A) (rest : Text) → items_dec (length xs) (items_enc xs ++ rest) ≡ some (xs, rest)
  items_dec-enc [] rest = refl
  items_dec-enc (x ∷ xs) rest =
      rw
        (
          append_assoc (a.enc x) (items_enc xs) rest,
          a.dec-enc x (items_enc xs ++ rest),
          items_dec-enc xs rest,
        )
        refl

  abbrev pub list_dec : Text → Option (List A × Text)
  list_dec [] = none
  list_dec (n ∷ t) = items_dec n t

  abbrev pub list : Wire (List A)
  list = record { enc = λ xs. length xs ∷ items_enc xs; dec = list_dec; dec-enc = items_dec-enc }

abbrev pub text : Wire Text
text = list number

-- A serialization from a wire format: what follows the value is ignored.
abbrev pub read_result : {A : Type 0} → Option (A × Text) → Result Fault A
read_result none = err (external 0)
read_result (some x) = ok x.0

abbrev pub read_all : {A : Type 0} → Wire A → Text → Result Fault A
read_all w t = read_result (w.dec t)

pub read_all-enc :
    {A : Type 0} (w : Wire A) (a : A) {v : Text}
    → ◌≡◌ {A = Result Fault Text} (ok (w.enc a)) (ok v)
    → read_all w v ≡ ok a
read_all-enc w a h =
    ap read_result (ap w.dec (sym (ok_injective h) ∙ sym (append-nil (w.enc a))) ∙ w.dec-enc a [])

abbrev pub serde : {A : Type 0} → Wire A → Serde A
serde w = record {
  to_vec = λ a. ok (w.enc a);
  from_slice = read_all w;
  from_slice-to_vec = read_all-enc w;
}
