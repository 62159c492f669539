-- ===== src/Metadata/Keys.antt =====
-- The keys of the `objects` family, src/metadata/rocksdb_backend.rs:58.
use s3prism.Base.{
  ◌≡◌, ◌≢◌, refl, ◌&&◌, [], ◌∷◌, ◌++◌, Text, All, arith, text_eq, text_eq_iff, text_eq_refl, inl,
  inr, Bool-cases,
}

-- `format!("{bucket}\0{key}")`.
unfoldable pub object_key : Text → Text → Text
object_key bucket key = bucket ++ 0 ∷ key

-- A bucket's name holds no NUL.
abbrev pub NoNul : Text → Type 0
NoNul = All (λ c. c ≢ 0)

-- Two keys of the family are equal only if the buckets and the keys of the objects are, where the
-- buckets' names hold no NUL.
pub object_key_injective :
    (b b' k k' : Text)
    → NoNul b
    → NoNul b'
    → object_key b k ≡ object_key b' k'
    → (b ≡ b') × (k ≡ k')
unfolding object_key
object_key_injective [] [] k k' h h' e = (refl, ground arith)
object_key_injective [] (c ∷ b') k k' h (ne, h') e = absurd (ne (ground arith))
object_key_injective (c ∷ b) [] k k' (ne, h) h' e = absurd (ne (ground arith))
object_key_injective (c ∷ b) (c' ∷ b') k k' (ne, h) (ne', h') e =
    let (same, rest) = object_key_injective b b' k k' h h' (ground arith) in (ground arith, rest)

-- Two keys of the family are the same exactly when bucket and key are.
pub text_eq-object_key :
    (b b' k k' : Text)
    → NoNul b
    → NoNul b'
    → text_eq (object_key b k) (object_key b' k') ≡ (text_eq b b' && text_eq k k')
text_eq-object_key b b' k k' h h' =
    elim (Bool-cases (text_eq (object_key b k) (object_key b' k'))) [
      | inl same ↦
          let (eb, ek) =
            object_key_injective b b' k k' h h'
              ((text_eq_iff (object_key b k) (object_key b' k')).0 same) in
          cc (same, (text_eq_iff b b').1 eb, (text_eq_iff k k').1 ek)
      | inr differ ↦ elim (Bool-cases (text_eq b b')) [
        | inr other ↦ cc (differ, other)
        | inl sb ↦ elim (Bool-cases (text_eq k k')) [
          | inr other ↦ cc (differ, sb, other)
          | inl sk ↦
              let eb = (text_eq_iff b b').0 sb in
              let ek = (text_eq_iff k k').0 sk in cc (eb, ek, text_eq_refl (object_key b' k'))
        ]
      ]
    ]
