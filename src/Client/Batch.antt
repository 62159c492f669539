-- ===== src/Client/Batch.antt =====
-- The body of a batch deletion that src/backend/client.rs sends, as src/api/xml.rs reads one.
use s3prism.Base.{
  ℕ, ◌≡◌, refl, ap, ◌∙◌, Bool, true, false, List, [], ◌∷◌, ◌++◌, map, Text, bytes, starts_with,
  ◌==◌, if◌then◌else◌, ok, arith,
}
use s3prism.Base.Search.{replace, split, split_from, before}
use s3prism.Xml.Pieces.{IsClean, IsClean-append, onto, onto_cons, split_from-clean, before-clean}
use s3prism.Xml.{keys_of, push_key, some_keys, parse_delete_objects_request}
use s3prism.Client.{escape_key, delete_items, delete_body}

IsClean-one :
    (b : Bool) (c : ℕ) (w : Text)
    → IsClean w
    → (b ≡ false → (60 == c) ≡ false)
    → IsClean (if b then w else c ∷ [])
IsClean-one true c w hw h = hw
IsClean-one false c w hw h = (h refl, tt)

replace-IsClean : (c : ℕ) (w s : Text) → IsClean w → IsClean s → IsClean (replace c w s)
unfolding replace
replace-IsClean c w [] hw hs = tt
replace-IsClean c w (d ∷ s) hw (hd, hs) =
    IsClean-append (if d == c then w else d ∷ []) (replace c w s)
      (IsClean-one (d == c) d w hw (λ e. hd)) (replace-IsClean c w s hw hs)

replace_lt-IsClean : (w s : Text) → IsClean w → IsClean (replace 60 w s)
unfolding replace
replace_lt-IsClean w [] hw = tt
replace_lt-IsClean w (d ∷ s) hw =
    IsClean-append (if d == 60 then w else d ∷ []) (replace 60 w s)
      (IsClean-one (d == 60) d w hw (λ e. ground (arith, e))) (replace_lt-IsClean w s hw)

escape_key-IsClean : (key : Text) → IsClean (escape_key key)
unfolding escape_key
escape_key-IsClean key =
    replace-IsClean b'>' (bytes "&gt;")
      (replace b'<' (bytes "&lt;") (replace b'&' (bytes "&amp;") key))
      (refl, (refl, (refl, (refl, tt))))
      (replace_lt-IsClean (bytes "&lt;") (replace b'&' (bytes "&amp;") key)
        (refl, (refl, (refl, (refl, tt)))))

-- The pieces behind `<Key>` of the items `<Object><Key>..</Key></Object>`.
abbrev pieces : List Text → List Text
pieces keys = split_from 0 (bytes "<Key>") (delete_items keys)

abbrev pieces_from : Text → List Text → List Text
pieces_from key keys = onto (escape_key key) (onto (bytes "</Key></Object>") (pieces keys))

pieces_nil : pieces [] ≡ bytes "</Delete>" ∷ []
unfolding delete_items starts_with
pieces_nil = refl

pieces_cons :
    (key : Text) (keys : List Text) → pieces (key ∷ keys) ≡ bytes "<Object>" ∷ pieces_from key keys
unfolding delete_items starts_with
pieces_cons key keys =
    ap (λ ps. bytes "<Object>" ∷ ps)
      (split_from-clean (bytes "Key>") (escape_key key)
        (bytes "</Key></Object>" ++ delete_items keys) (escape_key-IsClean key))

keys_of-cons :
    (s rest : Text) (ps : List Text)
    → IsClean s
    → keys_of ((s ++ (bytes "</Key>" ++ rest)) ∷ ps) ≡ s ∷ keys_of ps
unfolding keys_of
keys_of-cons s rest ps h = ap (λ o. push_key o (keys_of ps)) (before-clean (bytes "/Key>") s rest h)

keys_of-pieces_from :
    (key : Text) (keys : List Text)
    → keys_of (pieces_from key keys) ≡ escape_key key ∷ map escape_key keys
unfolding keys_of
keys_of-pieces_from key [] =
    ap (λ ps. keys_of (onto (escape_key key) (onto (bytes "</Key></Object>") ps))) pieces_nil
    ∙ ap keys_of (onto_cons (escape_key key) (bytes "</Key></Object></Delete>") [])
    ∙ keys_of-cons (escape_key key) (bytes "</Object></Delete>") [] (escape_key-IsClean key)
keys_of-pieces_from key (next ∷ keys) =
    ap (λ ps. keys_of (onto (escape_key key) (onto (bytes "</Key></Object>") ps)))
      (pieces_cons next keys)
    ∙ ap keys_of
        (onto_cons (escape_key key) (bytes "</Key></Object><Object>") (pieces_from next keys))
    ∙ keys_of-cons (escape_key key) (bytes "</Object><Object>") (pieces_from next keys)
        (escape_key-IsClean key)
    ∙ ap (λ ks. escape_key key ∷ ks) (keys_of-pieces_from next keys)

split-delete_body :
    (key : Text) (keys : List Text)
    → keys_of (split (bytes "<Key>") (delete_body (key ∷ keys))) ≡ map escape_key (key ∷ keys)
unfolding split delete_body keys_of before starts_with
split-delete_body key keys =
    ap
      (λ ps.
        keys_of
          (onto (bytes "<?xml version=\"1.0\" encoding=\"UTF-8\"?><Delete><Quiet>true</Quiet>") ps))
      (pieces_cons key keys)
    ∙ keys_of-pieces_from key keys

-- The parser of the proxy reads, from the body that its own client sends for at least one key, every
-- key in its order, as it is escaped there.
pub parse_delete_objects_request-delete_body :
    (key : Text) (keys : List Text)
    → parse_delete_objects_request (delete_body (key ∷ keys)) ≡ ok (map escape_key (key ∷ keys))
unfolding parse_delete_objects_request
parse_delete_objects_request-delete_body key keys =
    ap some_keys (split-delete_body key keys) ∙ ground arith
