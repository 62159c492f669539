-- ===== src/Client/Tests.antt =====
-- Runs of src/backend/client.rs.
use s3prism.Base.{◌≡◌, refl, inl, [], ◌∷◌, ◌++◌, map, bytes, ok}
use s3prism.Config.{virtual_host}
use s3prism.Xml.{parse_delete_objects_request}
use s3prism.Client.{SiteClient, url, host_for_bucket, escape_key, delete_body}
use s3prism.Client.Hosts.{bucket_path, url-host_for_bucket}
use s3prism.Client.Batch.{parse_delete_objects_request-delete_body}

abbrev site : SiteClient
site = record {
  site_name = bytes "a";
  region = bytes "r";
  endpoint = bytes "https://s3.example.com";
  url_style = virtual_host;
}

url-host_for_bucket_example :
    url site (bytes "b") (bytes "k")
    ≡ bytes "https"
      ++ (bytes "://"
          ++ (host_for_bucket site (bytes "b")
              ++ (bucket_path virtual_host (bytes "b") ++ (bytes "/" ++ bytes "k"))))
url-host_for_bucket_example =
    url-host_for_bucket site (bytes "https") (bytes "s3.example.com") (bytes "b") (bytes "k")
      (inl refl, refl)

parse_delete_objects_request-delete_body_example :
    parse_delete_objects_request (delete_body (bytes "a<b" ∷ bytes "c" ∷ []))
    ≡ ok (map escape_key (bytes "a<b" ∷ bytes "c" ∷ []))
parse_delete_objects_request-delete_body_example =
    parse_delete_objects_request-delete_body (bytes "a<b") (bytes "c" ∷ [])
