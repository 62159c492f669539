-- ===== src/Metadata/Shelf.antt =====
-- A database in memory for tests: each family is a list in the order of its keys, and an iterator
-- walks along it.
use s3prism.Base.{
  ◌≡◌, refl, sym, ap, ap₂, subst, ◌∙◌, inl, inr, Bool, true, false, not, ◌&&◌, List, [], ◌∷◌, map,
  Text, text_eq, text_eq_iff, text_le, none, some, All, all, if◌then◌else◌, Result, ok, err,
  ok_injective, Bool-cases, arith,
}
use s3prism.Fault.{Fault, external}
use s3prism.Metadata.Rocks.{
  Rocks, Family, family_eq, Write, put, delete, Contents, apply_write, apply_writes, at,
  IsAscending, item_at,
}
use s3prism.Metadata.Memory.{iterator_fails}

abbrev Items : Type 0
Items = List (Text × Text)

abbrev pub insert : Text → Text → Items → Items
insert k v [] = (k, v) ∷ []
insert k v ((k', v') ∷ xs) =
    let later = insert k v xs in
    if text_eq k' k
    then (k, v) ∷ xs
    else if text_le k k'
    then (k, v) ∷ (k', v') ∷ xs
    else (k', v') ∷ later

abbrev pub remove : Text → Items → Items
remove k [] = []
remove k ((k', v') ∷ xs) =
    let later = remove k xs in if text_eq k' k then later else (k', v') ∷ later

abbrev pub from : Text → Items → Items
from start [] = []
from start ((k, v) ∷ xs) =
    let later = from start xs in if text_le start k then (k, v) ∷ later else later

abbrev pub ascending : Items → Bool
ascending [] = true
ascending ((k, v) ∷ xs) = all (λ (x : Text × Text). not (text_le x.0 k)) xs && ascending xs

-- Keys that agree compare alike.
text_eq-ap : (k l m : Text) → text_eq k l ≡ true → text_eq k m ≡ text_eq l m
text_eq-ap k l m h = ap (λ t. text_eq t m) ((text_eq_iff k l).0 h)

differ : (k k' k0 : Text) → text_eq k' k0 ≡ true → text_eq k' k ≡ false → text_eq k k0 ≡ false
differ k k' k0 found other = elim (Bool-cases (text_eq k k0)) [
  | inr differs ↦ differs
  | inl agrees ↦ cc (
    other,
    (text_eq_iff k' k).1 ((text_eq_iff k' k0).0 found ∙ sym ((text_eq_iff k k0).0 agrees)),
  )
]

item_at-insert :
    (k v k0 : Text) (xs : Items)
    → item_at k0 (insert k v xs) ≡ (if text_eq k k0 then some v else item_at k0 xs)
item_at-insert k v k0 [] = refl
item_at-insert k v k0 ((k', v') ∷ xs) = elim (Bool-cases (text_eq k' k)) [
  | inl same ↦ rw (same, text_eq-ap k' k k0 same) (go (text_eq k k0))
  | inr other ↦ elim (Bool-cases (text_le k k')) [
    | inl before ↦ rw (other, before) refl
    | inr after ↦ elim (Bool-cases (text_eq k' k0)) [
      | inl found ↦ rw (other, after, found, differ k k' k0 found other) refl
      | inr differs ↦ rw (other, after, differs) (item_at-insert k v k0 xs)
    ]
  ]
]
  where
    go :
        (b : Bool)
        → (if b then some v else item_at k0 xs)
          ≡ (if b then some v else if b then some v' else item_at k0 xs)
    go true = refl
    go false = refl

item_at-remove :
    (k k0 : Text) (xs : Items)
    → item_at k0 (remove k xs) ≡ (if text_eq k k0 then none else item_at k0 xs)
item_at-remove k k0 [] = elim (Bool-cases (text_eq k k0)) [
  | inl same ↦ rw same refl
  | inr other ↦ rw other refl
]
item_at-remove k k0 ((k', v') ∷ xs) = elim (Bool-cases (text_eq k' k)) [
  | inl same ↦ rw (same, text_eq-ap k' k k0 same) (item_at-remove k k0 xs ∙ go (text_eq k k0))
  | inr other ↦ elim (Bool-cases (text_eq k' k0)) [
    | inl found ↦ rw (other, found, differ k k' k0 found other) refl
    | inr differs ↦ rw (other, differs) (item_at-remove k k0 xs)
  ]
]
  where
    go :
        (b : Bool)
        → (if b then none else item_at k0 xs)
          ≡ (if b then none else if b then some v' else item_at k0 xs)
    go true = refl
    go false = refl

item_at-from :
    (start k0 : Text) (xs : Items)
    → item_at k0 (from start xs) ≡ (if text_le start k0 then item_at k0 xs else none)
item_at-from start k0 [] = elim (Bool-cases (text_le start k0)) [
  | inl agrees ↦ rw agrees refl
  | inr differs ↦ rw differs refl
]
item_at-from start k0 ((k, v) ∷ xs) = elim (Bool-cases (text_eq k k0)) [
  | inl same ↦ elim (Bool-cases (text_le start k)) [
    | inl inside ↦ rw (inside, same, ← ap (text_le start) ((text_eq_iff k k0).0 same), inside) refl
    | inr before ↦
        let outside : text_le start k0 ≡ false =
          sym (ap (text_le start) ((text_eq_iff k k0).0 same)) ∙ before in
        rw (before, outside) (item_at-from start k0 xs ∙ rw outside refl)
  ]
  | inr other ↦ elim (Bool-cases (text_le start k)) [
    | inl inside ↦ rw (inside, other) (item_at-from start k0 xs)
    | inr before ↦ rw (before, other) (item_at-from start k0 xs)
  ]
]

ascending-IsAscending : (xs : Items) → ascending xs ≡ true → IsAscending xs
ascending-IsAscending [] h = tt
ascending-IsAscending ((k, v) ∷ xs) h =
    (go xs (ground (arith, h)), ascending-IsAscending xs (ground (arith, h)))
  where
    go :
        (ys : Items)
        → all (λ (x : Text × Text). not (text_le x.0 k)) ys ≡ true
        → All (λ kv. text_le kv.0 k ≡ false) ys
    go [] h = tt
    go (y ∷ ys) h = (ground (arith, h), go ys (ground (arith, h)))

abbrev pub Shelves : Type 0
Shelves = Family → Items

abbrev pub step : Write → Shelves → Shelves
step (put cf k v) d cf' = if family_eq cf cf' then insert k v (d cf') else d cf'
step (delete cf k) d cf' = if family_eq cf cf' then remove k (d cf') else d cf'

abbrev pub steps : List Write → Shelves → Shelves
steps [] d = d
steps (w ∷ ws) d = steps ws (step w d)

abbrev pub held : Shelves → Contents
held d cf k = item_at k (d cf)

pub held-step :
    (w : Write) (d : Shelves) (cf : Family) (k : Text)
    → held (step w d) cf k ≡ apply_write w (held d) cf k
held-step (put cf k v) d cf' k' = elim (Bool-cases (family_eq cf cf')) [
  | inl same ↦ rw same (item_at-insert k v k' (d cf'))
  | inr other ↦ rw other refl
]
held-step (delete cf k) d cf' k' = elim (Bool-cases (family_eq cf cf')) [
  | inl same ↦ rw same (item_at-remove k k' (d cf'))
  | inr other ↦ rw other refl
]

-- The writes go through families of texts that agree.
apply_write-ap :
    (w : Write) (c c' : Contents)
    → ((cf : Family) (k : Text) → c cf k ≡ c' cf k)
    → (cf : Family) (k : Text) → apply_write w c cf k ≡ apply_write w c' cf k
apply_write-ap (put cf k v) c c' h cf' k' =
    ap (λ o. if at cf k cf' k' then some v else o) (h cf' k')
apply_write-ap (delete cf k) c c' h cf' k' = ap (λ o. if at cf k cf' k' then none else o) (h cf' k')

apply_writes-ap :
    (ws : List Write) (c c' : Contents)
    → ((cf : Family) (k : Text) → c cf k ≡ c' cf k)
    → (cf : Family) (k : Text) → apply_writes ws c cf k ≡ apply_writes ws c' cf k
unfolding apply_writes
apply_writes-ap [] c c' h cf k = h cf k
apply_writes-ap (w ∷ ws) c c' h cf k =
    apply_writes-ap ws (apply_write w c) (apply_write w c') (apply_write-ap w c c' h) cf k

pub held-steps :
    (ws : List Write) (d : Shelves) (cf : Family) (k : Text)
    → held (steps ws d) cf k ≡ apply_writes ws (held d) cf k
unfolding apply_writes
held-steps [] d cf k = refl
held-steps (w ∷ ws) d cf k =
    held-steps ws (step w d) cf k
    ∙ apply_writes-ap ws (held (step w d)) (apply_write w (held d)) (held-step w d) cf k

map-ok-injective :
    (xs ys : Items) → ◌≡◌ {A = List (Result Fault (Text × Text))} (map ok xs) (map ok ys) → xs ≡ ys
map-ok-injective [] [] e = refl
map-ok-injective [] (y ∷ ys) e = cc
map-ok-injective (x ∷ xs) [] e = cc
map-ok-injective (x ∷ xs) (y ∷ ys) e =
    let here : x ≡ y = cc e in ap₂ (λ z zs. z ∷ zs) here (map-ok-injective xs ys (cc e))

-- A family out of order cannot be walked along.
abbrev pub walk : Bool → Items → List (Result Fault (Text × Text))
walk true xs = map ok xs
walk false xs = err (external 1) ∷ []

pub walk-items :
    (start : Text) (xs items : Items) (b : Bool)
    → ascending (from start xs) ≡ b
    → walk b (from start xs) ≡ map ok items
    → IsAscending items
      × ((k : Text) → item_at k items ≡ (if text_le start k then item_at k xs else none))
walk-items start xs items false up e = absurd (iterator_fails items e)
walk-items start xs items true up e =
    let is = map-ok-injective (from start xs) items e in
    subst
      (λ zs.
        IsAscending zs
        × ((k : Text) → item_at k zs ≡ (if text_le start k then item_at k xs else none)))
      is (ascending-IsAscending (from start xs) up, λ k. item_at-from start k xs)

abbrev pub shelf : Rocks
shelf = record {
  Db = Shelves;
  contents = held;
  get_cf = λ cf k d. ok (held d cf k);
  write = λ ws d. ok (steps ws d);
  iterator_cf = λ cf start d. walk (ascending (from start (d cf))) (from start (d cf));
  get_cf-contents = λ cf k d e. sym (ok_injective e);
  write-contents =
      λ ws d e cf k. ap (λ x. held x cf k) (sym (ok_injective e)) ∙ held-steps ws d cf k;
  iterator_cf-items =
      λ cf start d items e. walk-items start (d cf) items (ascending (from start (d cf))) refl e;
}
