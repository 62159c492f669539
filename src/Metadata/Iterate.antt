-- ===== src/Metadata/Iterate.antt =====
-- What a loop over a whole family of src/metadata/rocksdb_backend.rs has read.
use s3prism.Base.{
  ◌≡◌, refl, sym, ap, ap₂, ◌∙◌, subst, inl, inr, Bool, true, List, [], ◌∷◌, map, Text, text_eq,
  some, any, Result, ok, >>=-eq-ok, ok_injective, some_injective, Bool-cases, arith,
}
use s3prism.Fault.{Fault}
use s3prism.Metadata.Rocks.{Serde, item_at}
use s3prism.Metadata.Buckets.{collect_values}

-- The values, one for each item.
abbrev pub Decodes : {A : Type 0} → Serde A → List (Text × Text) → List A → Type 0
Decodes s [] [] = Unit
Decodes s [] (x ∷ xs) = ⊥
Decodes s (kv ∷ items) [] = ⊥
Decodes s (kv ∷ items) (x ∷ xs) = (s.from_slice kv.1 ≡ ok x) × Decodes s items xs

module _ {A : Type 0} (s : Serde A) where
  pub collect_values-Decodes :
      (its : List (Result Fault (Text × Text))) (xs : List A)
      → collect_values s its ≡ ok xs
      → (items : List (Text × Text)) × (its ≡ map ok items) × Decodes s items xs
  unfolding collect_values
  collect_values-Decodes [] [] h = ([], refl, tt)
  collect_values-Decodes [] (x ∷ xs) h = cc
  collect_values-Decodes (it ∷ its) xs h =
      let (kv, here, h1) = >>=-eq-ok it _ h in
      let (a, decoded, h2) = >>=-eq-ok (s.from_slice kv.1) _ h1 in
      let (rest, later, h3) = >>=-eq-ok (collect_values s its) _ h2 in
      let (items, same, all) = collect_values-Decodes its rest later in
      (
        kv ∷ items,
        ap₂ (λ i is. i ∷ is) here same,
        subst (Decodes s (kv ∷ items)) (ok_injective h3) (decoded, all),
      )

  -- The value at a key is among them.
  pub any-Decodes :
      (p : A → Bool) (k : Text) (items : List (Text × Text)) (xs : List A) {v : Text} {a : A}
      → Decodes s items xs
      → item_at k items ≡ some v
      → s.from_slice v ≡ ok a
      → p a ≡ true
      → any p xs ≡ true
  any-Decodes p k [] [] d at e h = cc
  any-Decodes p k [] (x ∷ xs) d at e h = absurd d
  any-Decodes p k (kv ∷ items) [] d at e h = absurd d
  any-Decodes p k ((k', w) ∷ items) (x ∷ xs) {v} {a} (here, d) at e h =
      elim (Bool-cases (text_eq k' k)) [
        | inl same ↦
            let is : w ≡ v = some_injective (rw same at at) in
            let x_is : x ≡ a = ok_injective (sym here ∙ ap s.from_slice is ∙ e) in rw (x_is, h) refl
        | inr other ↦
            ground (arith, any-Decodes p k items xs {v = v} {a = a} d (rw other at at) e h)
      ]
