-- ===== src/Xml.antt =====
-- src/api/xml.rs: the XML texts of the S3 interface.
pub mod Pieces
pub mod Escape
mod Tests
use s3prism.Base.{
  ℕ, Bool, true, false, List, [], ◌∷◌, ◌++◌, Text, bytes, Option, none, some, last, length, ◌==◌,
  if◌then◌else◌, Result, ok, err,
}
use s3prism.Base.Decimal.{decimal}
use s3prism.Base.Search.{replace, split, before}
use s3prism.Metadata.Models.{BucketMeta, ListEntry}
use s3prism.Metadata.Listing.{ListObjectsResult}
use s3prism.Errors.{S3Error, malformed_xml}

unfoldable pub escape_xml : Text → Text
unfolding replace
escape_xml s = replace b'\'' (bytes "&apos;") (
    replace b'"' (bytes "&quot;")
      (replace b'>' (bytes "&gt;") (replace b'<' (bytes "&lt;") (replace b'&' (bytes "&amp;") s))))

-- `<name>text</name>`.
abbrev pub element : Text → Text → Text
element name text =
    bytes "<" ++ (name ++ (bytes ">" ++ (text ++ (bytes "</" ++ (name ++ bytes ">")))))

-- A loop that pushes one text for each item.
abbrev pub each_item : {A : Type 0} → (A → Text) → List A → Text
each_item f [] = []
each_item f (x ∷ xs) = f x ++ each_item f xs

abbrev pub xml_header : Text
xml_header = bytes "<?xml version=\"1.0\" encoding=\"UTF-8\"?>"

abbrev bool_text : Bool → Text
bool_text true = bytes "true"
bool_text false = bytes "false"

-- The last key, where the listing goes on behind it.
unfoldable pub continuation : ListObjectsResult → Text
unfolding escape_xml
continuation result =
    if result.truncated
    then elim (last result.entries) [
      | some e ↦ element (bytes "NextContinuationToken") (escape_xml e.key)
      | none ↦ []
    ]
    else []

unfoldable pub delimiter_text : Option Text → Text
unfolding escape_xml
delimiter_text none = []
delimiter_text (some d) = element (bytes "Delimiter") (escape_xml d)

module _ (to_rfc3339 : ℕ → Text) where
  unfoldable pub entry_text : ListEntry → Text
  unfolding escape_xml decimal
  entry_text e = element (bytes "Contents") (
      element (bytes "Key") (escape_xml e.key)
      ++ (element (bytes "LastModified") (to_rfc3339 e.last_modified)
          ++ (element (bytes "ETag") (b'"' ∷ (escape_xml e.etag ++ bytes "\""))
              ++ (element (bytes "Size") (decimal e.size)
                  ++ element (bytes "StorageClass") e.storage_class))))

  unfoldable pub list_objects_v2_response : Text → Text → Option Text → ℕ → ListObjectsResult → Text
  unfolding escape_xml continuation delimiter_text entry_text decimal
  list_objects_v2_response bucket prefix delimiter max_keys result =
      xml_header
      ++ (bytes "<ListBucketResult xmlns=\"http://s3.amazonaws.com/doc/2006-03-01/\">"
          ++ (element (bytes "Name") (escape_xml bucket)
              ++ (element (bytes "Prefix") (escape_xml prefix)
                  ++ (element (bytes "MaxKeys") (decimal max_keys)
                      ++ (element (bytes "IsTruncated") (bool_text result.truncated)
                          ++ (element (bytes "KeyCount") (decimal (length result.entries))
                              ++ (continuation result
                                  ++ (delimiter_text delimiter
                                      ++ (each_item entry_text result.entries
                                          ++ (each_item
                                                (λ p.
                                                  element (bytes "CommonPrefixes")
                                                    (element (bytes "Prefix") (escape_xml p)))
                                                result.common_prefixes
                                              ++ bytes "</ListBucketResult>"))))))))))

  unfoldable pub list_buckets_response : List BucketMeta → Text
  unfolding escape_xml
  list_buckets_response buckets =
      xml_header
      ++ (bytes "<ListAllMyBucketsResult xmlns=\"http://s3.amazonaws.com/doc/2006-03-01/\">"
          ++ (bytes "<Owner><ID>s3prism</ID><DisplayName>s3prism</DisplayName></Owner>"
              ++ (bytes "<Buckets>"
                  ++ (each_item
                        (λ (b : BucketMeta). element (bytes "Bucket") (
                          element (bytes "Name") (escape_xml b.name)
                          ++ element (bytes "CreationDate") (to_rfc3339 b.created)))
                        buckets
                      ++ (bytes "</Buckets>" ++ bytes "</ListAllMyBucketsResult>")))))

unfoldable pub deleted_text : Text × Bool → Text
unfolding escape_xml
deleted_text (key, true) = element (bytes "Deleted") (element (bytes "Key") (escape_xml key))
deleted_text (key, false) = element (bytes "Error") (
    element (bytes "Key") (escape_xml key)
    ++ bytes "<Code>InternalError</Code><Message>Failed to delete</Message>")

unfoldable pub delete_result_response : List (Text × Bool) → Text
unfolding deleted_text
delete_result_response deleted =
    xml_header
    ++ (bytes "<DeleteResult xmlns=\"http://s3.amazonaws.com/doc/2006-03-01/\">"
        ++ (each_item deleted_text deleted ++ bytes "</DeleteResult>"))

-- `if let Some(end) = line.find(..) { keys.push(..) }`, before the keys of the later pieces.
abbrev pub push_key : Option Text → List Text → List Text
push_key none keys = keys
push_key (some key) keys = key ∷ keys

-- The loop over the pieces.
unfoldable pub keys_of : List Text → List Text
unfolding before
keys_of [] = []
keys_of (piece ∷ pieces) = push_key (before (bytes "</Key>") piece) (keys_of pieces)

abbrev pub some_keys : List Text → Result S3Error (List Text)
some_keys keys = if length keys == 0 then err malformed_xml else ok keys

unfoldable pub parse_delete_objects_request : Text → Result S3Error (List Text)
unfolding split keys_of
parse_delete_objects_request body = some_keys (keys_of (split (bytes "<Key>") body))
