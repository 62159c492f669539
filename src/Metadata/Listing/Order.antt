-- ===== src/Metadata/Listing/Order.antt =====
-- The order of the keys, byte by byte, which the listing of src/metadata/rocksdb_backend.rs follows.
use s3prism.Base.{◌≡◌, refl, true, false, [], ◌∷◌, ◌++◌, Text, text_le, arith}

pub text_le-append : (p s t : Text) → text_le (p ++ s) (p ++ t) ≡ text_le s t
unfolding text_le
text_le-append [] s t = refl
text_le-append (c ∷ p) s t = ground (arith, text_le-append p s t)

pub text_le_trans : (s t u : Text) → text_le s t ≡ true → text_le t u ≡ true → text_le s u ≡ true
unfolding text_le
text_le_trans [] t u h h' = refl
text_le_trans (c ∷ s) [] u h h' = cc
text_le_trans (c ∷ s) (d ∷ t) [] h h' = cc
text_le_trans (c ∷ s) (d ∷ t) (e ∷ u) h h' = ground (arith, text_le_trans s t u)

pub text_le_total : (s t : Text) → text_le s t ≡ false → text_le t s ≡ true
unfolding text_le
text_le_total [] t h = cc
text_le_total (c ∷ s) [] h = refl
text_le_total (c ∷ s) (d ∷ t) h = ground (arith, text_le_total s t)
