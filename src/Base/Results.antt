-- ===== src/Base/Results.antt =====
-- `Result<A, E>`: `?` is the bind of a `do` block.
use mathlib.Core.Bool.{Bool, true, false}
use mathlib.Core.Logic.{◌⊎◌, inl, inr}
use mathlib.Core.Option.{Option, none, some}
use mathlib.Core.Path.{◌≡◌, refl}

pub data Result {ε α} (E : Type ε) (A : Type α) : Type (ε ⊔ α) where
  ok : A → Result E A
  err : E → Result E A

-- `o.ok_or(e)`.
abbrev pub ok_or {ε α} : {E : Type ε} {A : Type α} → E → Option A → Result E A
ok_or fault (some x) = ok x
ok_or fault none = err fault

infixl 5 ◌>>=◌
abbrev pub ◌>>=◌ {ε α β} :
    {E : Type ε} {A : Type α} {B : Type β} → Result E A → (A → Result E B) → Result E B
ok x >>= continue = continue x
err fault >>= continue = err fault

-- `?` into another error type, by its `From`.
abbrev pub map_err {ε φ α} :
    {E : Type ε} {F : Type φ} {A : Type α} → (E → F) → Result E A → Result F A
map_err from (err fault) = err (from fault)
map_err from (ok x) = ok x

-- A statement with `?` whose value is not used.
infixl 5 ◌>>◌
abbrev pub ◌>>◌ {ε β} : {E : Type ε} {B : Type β} → Result E (Unit {0}) → Result E B → Result E B
first >> second = first >>= λ unused. second

-- `if !b { bail!(e) }`.
abbrev pub ensure {ε} : {E : Type ε} → Bool → E → Result E (Unit {0})
ensure false fault = err fault
ensure true fault = ok tt

pub ok_injective {ε α} :
    {E : Type ε} {A : Type α} {x y : A} → ◌≡◌ {A = Result E A} (ok x) (ok y) → x ≡ y
ok_injective same = cc

pub ensure-eq-ok {ε β} :
    {E : Type ε} {B : Type β} (test : Bool) (fault : E) (after : Result E B) {y : B}
    → (ensure test fault >> after) ≡ ok y
    → (test ≡ true) × (after ≡ ok y)
ensure-eq-ok false fault after returned = cc
ensure-eq-ok true fault after returned = (refl, returned)

-- What a chain that returns has gone through.
pub >>=-eq-ok {ε α β} :
    {E : Type ε} {A : Type α} {B : Type β} (start : Result E A) (continue : A → Result E B) {y : B}
    → (start >>= continue) ≡ ok y
    → (x : A) × (start ≡ ok x) × (continue x ≡ ok y)
>>=-eq-ok (err fault) continue returned = cc
>>=-eq-ok (ok x) continue returned = (x, refl, returned)

-- To split on a computed result and keep the equation.
pub Result-cases {ε α} :
    {E : Type ε} {A : Type α} (r : Result E A)
    → ((x : A) × (r ≡ ok x)) ⊎ ((fault : E) × (r ≡ err fault))
Result-cases (ok x) = inl (x, refl)
Result-cases (err fault) = inr (fault, refl)
