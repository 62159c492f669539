-- ===== src/Erasure/Mirror.antt =====
-- A concrete code for tests: one data shard, whose recovery shards are copies of it.
use s3prism.Base.{
  ℕ, zero, suc, ◌≤◌, ◌<◌, ◌%◌, ◌≡◌, refl, true, false, List, [], ◌∷◌, Text, Option, some, arith,
  length, replicate, get_elem?, any, map, All, Distinct, Result, ok, err, ◌==◌, if◌then◌else◌,
  length-replicate,
}
use s3prism.Fault.{Fault, external}
use s3prism.Erasure.Codec.{ReedSolomon, Added, original, recovery, slot, is_original, IsGenuine}

abbrev pub bytes_of : Added → Text
bytes_of (original i d) = d
bytes_of (recovery j d) = d

abbrev pub mirror_encode : ℕ → ℕ → ℕ → List Text → Result Fault (List Text)
mirror_encode k p size [] = err (external 1)
mirror_encode k p size (d ∷ []) = if k == 1 then ok (replicate p d) else err (external 1)
mirror_encode k p size (d ∷ e ∷ rest) = err (external 1)

abbrev pub mirror_decode : ℕ → ℕ → ℕ → List Added → Result Fault (ℕ → Option Text)
mirror_decode k p size [] = err (external 2)
mirror_decode k p size (a ∷ rest) = ok (λ i. some (bytes_of a))

pub replicate-All :
    (size p : ℕ) (d : Text) → length d ≡ size → All (λ e. length e ≡ size) (replicate p d)
replicate-All size zero d h = tt
replicate-All size (suc p) d h = (h, replicate-All size p d h)

pub get_elem?-replicate : (p j : ℕ) (d e : Text) → get_elem? (replicate p d) j ≡ some e → d ≡ e
get_elem?-replicate zero j d e h = cc
get_elem?-replicate (suc p) zero d e h = ground arith
get_elem?-replicate (suc p) (suc j) d e h = get_elem?-replicate p j d e h

pub mirror_encode_total :
    (k p size : ℕ) (originals : List Text)
    → (k == 1) ≡ true
    → 0 < size
    → size % 2 ≡ 0
    → length originals ≡ k
    → All (λ d. length d ≡ size) originals
    → (parity : List Text) × (mirror_encode k p size originals ≡ ok parity)
      × (length parity ≡ p)
      × All (λ d. length d ≡ size) parity
mirror_encode_total k p size [] one pos even len sized = absurd (ground arith)
mirror_encode_total k p size (d ∷ []) one pos even len (here, _) =
    (replicate p d, rw one, length-replicate {A = Text} p d, replicate-All size p d here)
mirror_encode_total k p size (d ∷ e ∷ rest) one pos even len sized = absurd (ground arith)

pub bytes_of_lem :
    (p : ℕ) (d : Text) (a : Added) → IsGenuine (d ∷ []) (replicate p d) a → d ≡ bytes_of a
bytes_of_lem p d (original zero e) h = ground arith
bytes_of_lem p d (original (suc i) e) h = cc
bytes_of_lem p d (recovery j e) h = get_elem?-replicate p j d e h

pub mirror_restores :
    (k p size : ℕ) (originals parity : List Text) (added : List Added)
    → length originals ≡ k
    → mirror_encode k p size originals ≡ ok parity
    → All (IsGenuine originals parity) added
    → Distinct (map (slot k) added)
    → k ≤ length added
    → (restored : ℕ → Option Text) × (mirror_decode k p size added ≡ ok restored)
      × ((i : ℕ) → i < k → any (is_original i) added ≡ false → restored i ≡ get_elem? originals i)
mirror_restores k p size [] parity added len e g d enough = cc
mirror_restores k p size (x ∷ y ∷ rest) parity added len e g d enough = cc
mirror_restores k p size (x ∷ []) parity [] len e g d enough = absurd (omega arith)
mirror_restores k p size (x ∷ []) parity (a ∷ added) len e (genuine, _) d enough =
    let one : (k == 1) ≡ true = ground arith in
    let copies : replicate p x ≡ parity = ground arith in
    let same = bytes_of_lem p x a (rw copies genuine) in
    (λ i. some (bytes_of a), refl, restored same)
  where
    restored :
        x ≡ bytes_of a
        → (i : ℕ) → i < k
        → any (is_original i) (a ∷ added) ≡ false
        → some (bytes_of a) ≡ get_elem? (x ∷ []) i
    restored same zero lt h = cc
    restored same (suc i) lt h = absurd (omega arith)

abbrev pub mirror : ReedSolomon
mirror = record {
  supports = λ k p. k == 1;
  encode = mirror_encode;
  decode = mirror_decode;
  encode_total = mirror_encode_total;
  restores = mirror_restores;
}
