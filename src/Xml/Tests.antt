-- ===== src/Xml/Tests.antt =====
-- Runs of src/api/xml.rs.
use s3prism.Base.{◌≡◌, refl, Text, bytes, some, length}
use s3prism.Base.Search.{each, replace, split, before}
use s3prism.Base.{ok, err, [], ◌∷◌, starts_with}
use s3prism.Errors.{malformed_xml}
use s3prism.Xml.{escape_xml, keys_of, parse_delete_objects_request}
use s3prism.Xml.Escape.{escape_char, escape_xml-each, read_text, read_text-escape_xml}

abbrev sample : Text
sample = bytes "a&lt;<\"b\">'"

escape_sample : escape_xml sample ≡ bytes "a&amp;lt;&lt;&quot;b&quot;&gt;&apos;"
unfolding escape_xml replace
escape_sample = refl

escape_xml-each_example : escape_xml sample ≡ each escape_char sample
escape_xml-each_example = escape_xml-each sample

read_text-escape_xml_example : read_text (length sample) (escape_xml sample) ≡ some sample
read_text-escape_xml_example = read_text-escape_xml sample

-- The entities stay in the keys.
parse_sample :
    parse_delete_objects_request
      (bytes "<Delete><Object><Key>a&amp;b</Key></Object><Key>c</Key></Delete>")
    ≡ ok (bytes "a&amp;b" ∷ bytes "c" ∷ [])
unfolding parse_delete_objects_request split keys_of before starts_with
parse_sample = refl

parse_none : parse_delete_objects_request (bytes "<Delete></Delete>") ≡ err malformed_xml
unfolding parse_delete_objects_request split keys_of before starts_with
parse_none = refl
