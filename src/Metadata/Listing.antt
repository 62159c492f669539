-- ===== src/Metadata/Listing.antt =====
-- `list_objects` of src/metadata/rocksdb_backend.rs:186.
pub mod Order
pub mod Pages
pub mod Joined
pub mod Continued
use s3prism.Base.{
  ℕ, ◌+◌, Bool, true, false, not, List, [], ◌∷◌, ◌++◌, Text, Option, none, some, length, take, drop,
  any, leb, if◌then◌else◌, text_eq, text_le, starts_with, strip_prefix, Result, ok, err, ◌>>=◌,
}
use s3prism.Fault.{Fault}
use s3prism.Metadata.Models.{ObjectMeta, ListEntry, list_entry}
use s3prism.Metadata.Rocks.{Rocks, Serde, objects}

pub record ListObjectsResult : Type 0 where
  pub entries : List ListEntry
  pub common_prefixes : List Text
  pub truncated : Bool

-- `s.find(needle)`, counted from `i`.
unfoldable pub find_text_from : ℕ → Text → Text → Option ℕ
find_text_from i needle [] = if starts_with needle [] then some i else none
find_text_from i needle (c ∷ s) =
    let later = find_text_from (i + 1) needle s in
    if starts_with needle (c ∷ s) then some i else later

-- The request: the variables that the loop only reads.
pub record Listing : Type 0 where
  pub bucket : Text
  pub prefix : Text
  pub delimiter : Option Text
  pub start_after : Option Text
  pub max_keys : ℕ

-- `object_key <= start`: such a key is passed over.
unfoldable pub is_skipped : Option Text → Text → Bool
is_skipped none key = false
is_skipped (some start) key = text_le key start

-- The common prefix that a key is folded into, if the delimiter stands behind the prefix.
unfoldable pub common_prefix_of : Option Text → Text → Text → Option Text
unfolding find_text_from
common_prefix_of none prefix key = none
common_prefix_of (some delim) prefix key =
    let after_prefix = drop (length prefix) key in
    elim (find_text_from 0 delim after_prefix) [
      | none ↦ none
      | some pos ↦ some (prefix ++ (take pos after_prefix ++ delim))
    ]

unfoldable pub add_prefix : Text → ListObjectsResult → ListObjectsResult
add_prefix p st =
    if any (λ q. text_eq q p) st.common_prefixes
    then st
    else record st { common_prefixes = st.common_prefixes ++ p ∷ [] }

module _ (object : Serde ObjectMeta) (l : Listing) where
  -- The `for` loop over the iterator; a `break` returns the state.
  unfoldable pub list_from :
      List (Result Fault (Text × Text)) → ListObjectsResult → Result Fault ListObjectsResult
  list_from [] st = ok st
  list_from (err e ∷ items) st = err e
  list_from (ok (db_key, value) ∷ items) st = elim (strip_prefix (l.bucket ++ 0 ∷ []) db_key) [
    | none ↦ ok st
    | some key ↦
        let continued = list_from items st in
        let taken : Result Fault ListObjectsResult = (do
          meta ← object.from_slice value
          list_from items (record st { entries = st.entries ++ list_entry meta ∷ [] })) in
        let kept : Result Fault ListObjectsResult =
          elim (common_prefix_of l.delimiter l.prefix key) [
            | some p ↦ list_from items (add_prefix p st)
            | none ↦
                if leb l.max_keys (length st.entries)
                then ok (record st { truncated = true })
                else taken
          ] in
        if not (starts_with l.prefix key)
        then ok st
        else if is_skipped l.start_after key
        then continued
        else kept
  ]

  unfoldable pub list_objects : (r : Rocks) → r.Db → Result Fault ListObjectsResult
  list_objects r d =
      list_from (r.iterator_cf objects (l.bucket ++ 0 ∷ l.prefix) d)
        (record { entries = []; common_prefixes = []; truncated = false })
