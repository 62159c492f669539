-- ===== src/Client.antt =====
-- src/backend/client.rs: the requests to a site and the reading of its responses. The HTTP client and
-- the signer are one function from a request to a response or an error.
pub mod Batch
pub mod Hosts
mod Tests
use s3prism.Base.{
  ℕ, Bool, true, false, ◌&&◌, ◌||◌, not, List, [], ◌∷◌, ◌++◌, Text, bytes, strip_prefix,
  starts_with, Option, none, some, length, ◌==◌, leb, ltb, if◌then◌else◌, Result, ok, err, ◌>>=◌,
  ◌>>◌, ensure,
}
use s3prism.Base.Search.{replace}
use s3prism.Fault.{Fault, http_status}
use s3prism.Config.{SiteConfig, UrlStyle, path, virtual_host}

pub record SiteClient : Type 0 where
  pub site_name : Text
  pub region : Text
  pub endpoint : Text
  pub url_style : UrlStyle

pub data Method : Type 0 where
  put get head delete post : Method

pub record HttpRequest : Type 0 where
  pub method : Method
  pub url : Text
  pub host : Text
  pub body : Text

pub record ListObjectEntry : Type 0 where
  pub key : Text
  pub size : ℕ
  pub etag : Text

-- The headers that the code reads, where they are there and text.
pub record HttpResponse : Type 0 where
  pub status : ℕ
  pub etag : Option Text
  pub content_type : Option Text
  pub content_length : Option ℕ
  pub content : Result Fault Text

unfoldable pub new_client : SiteConfig → SiteClient
new_client c = record {
  site_name = c.name;
  region = c.region;
  endpoint = c.endpoint;
  url_style = c.url_style;
}

abbrev pub or_else : Option Text → Text → Text
or_else none other = other
or_else (some t) other = t

unfoldable pub scheme : SiteClient → Text
scheme c = if starts_with (bytes "https://") c.endpoint then bytes "https" else bytes "http"

unfoldable pub host_base : SiteClient → Text
host_base c =
    or_else (strip_prefix (bytes "https://") c.endpoint)
      (or_else (strip_prefix (bytes "http://") c.endpoint) c.endpoint)

-- The `match` on the style, for the endpoint, the scheme and the base.
abbrev pub bucket_url_in : UrlStyle → Text → Text → Text → Text → Text
bucket_url_in path endpoint s base bucket = endpoint ++ (bytes "/" ++ bucket)
bucket_url_in virtual_host endpoint s base bucket =
    s ++ (bytes "://" ++ (bucket ++ (bytes "." ++ base)))

unfoldable pub bucket_url : SiteClient → Text → Text
unfolding scheme host_base
bucket_url c bucket = bucket_url_in c.url_style c.endpoint (scheme c) (host_base c) bucket

abbrev pub url_in : UrlStyle → Text → Text → Text → Text → Text → Text
url_in path endpoint s base bucket key = endpoint ++ (bytes "/" ++ (bucket ++ (bytes "/" ++ key)))
url_in virtual_host endpoint s base bucket key =
    s ++ (bytes "://" ++ (bucket ++ (bytes "." ++ (base ++ (bytes "/" ++ key)))))

unfoldable pub url : SiteClient → Text → Text → Text
unfolding scheme host_base
url c bucket key = url_in c.url_style c.endpoint (scheme c) (host_base c) bucket key

abbrev pub host_in : UrlStyle → Text → Text → Text
host_in path base bucket = base
host_in virtual_host base bucket = bucket ++ (bytes "." ++ base)

unfoldable pub host_for_bucket : SiteClient → Text → Text
unfolding host_base
host_for_bucket c bucket = host_in c.url_style (host_base c) bucket

-- The `match` on the style in `list_objects`.
abbrev pub list_url_in : UrlStyle → Text → Text → Text → Text → Text → Text
list_url_in path endpoint s base bucket prefix =
    endpoint ++ (bytes "/" ++ (bucket ++ (bytes "?list-type=2&prefix=" ++ prefix)))
list_url_in virtual_host endpoint s base bucket prefix =
    s
    ++ (bytes "://"
        ++ (bucket ++ (bytes "." ++ (base ++ (bytes "?list-type=2&prefix=" ++ prefix)))))

unfoldable pub is_success : ℕ → Bool
is_success status = leb 200 status && ltb status 300

-- `trim_matches('"')`.
abbrev trim_start : Text → Text
trim_start [] = []
trim_start (c ∷ s) = let rest = trim_start s in if c == b'"' then rest else c ∷ s

abbrev trim_end : Text → Text
trim_end [] = []
trim_end (c ∷ s) = let rest = trim_end s in if c == b'"' && (length rest == 0) then [] else c ∷ rest

unfoldable pub etag_of : HttpResponse → Text
etag_of resp = trim_end (trim_start (or_else resp.etag []))

-- The escape of a key in the body of a batch deletion.
unfoldable pub escape_key : Text → Text
unfolding replace
escape_key key =
    replace b'>' (bytes "&gt;") (replace b'<' (bytes "&lt;") (replace b'&' (bytes "&amp;") key))

-- The loop over the keys, and the end of the body.
unfoldable pub delete_items : List Text → Text
unfolding escape_key
delete_items [] = bytes "</Delete>"
delete_items (key ∷ keys) =
    bytes "<Object><Key>" ++ (escape_key key ++ (bytes "</Key></Object>" ++ delete_items keys))

unfoldable pub delete_body : List Text → Text
unfolding delete_items
delete_body keys =
    bytes "<?xml version=\"1.0\" encoding=\"UTF-8\"?><Delete><Quiet>true</Quiet>"
    ++ delete_items keys

pub record GetObjectOutput : Type 0 where
  pub content : Option Text
  pub etag : Text
  pub content_type : Text
  pub content_length : ℕ

pub record HeadObjectOutput : Type 0 where
  pub etag : Text
  pub content_length : ℕ

abbrev length_of : HttpResponse → ℕ
length_of resp = elim resp.content_length [ some n ↦ n | none ↦ 0 ]

module _ (send : HttpRequest → Result Fault HttpResponse) (c : SiteClient) where
  -- The answer with the ETag.
  unfoldable pub put_object : Text → Text → Text → Result Fault Text
  unfolding url host_for_bucket etag_of is_success
  put_object bucket key content = do
    resp ← send (record {
      method = put;
      url = url c bucket key;
      host = host_for_bucket c bucket;
      body = content;
    })
    ensure (is_success resp.status) (http_status resp.status)
    ok (etag_of resp)

  unfoldable pub get_object : Text → Text → Result Fault GetObjectOutput
  unfolding url host_for_bucket etag_of is_success
  get_object bucket key = do
    resp ← send (record {
      method = get;
      url = url c bucket key;
      host = host_for_bucket c bucket;
      body = [];
    })
    if resp.status == 404
        then ok (record { content = none; etag = []; content_type = []; content_length = 0 })
        else ensure (is_success resp.status) (http_status resp.status)
          >> (resp.content >>= λ content. ok (record {
            content = some content;
            etag = etag_of resp;
            content_type = or_else resp.content_type (bytes "application/octet-stream");
            content_length = length_of resp;
          }))

  unfoldable pub head_object : Text → Text → Result Fault (Option HeadObjectOutput)
  unfolding url host_for_bucket etag_of is_success
  head_object bucket key = do
    resp ← send (record {
      method = head;
      url = url c bucket key;
      host = host_for_bucket c bucket;
      body = [];
    })
    if resp.status == 404
        then ok none
        else ensure (is_success resp.status) (http_status resp.status)
          >> ok (some (record { etag = etag_of resp; content_length = length_of resp }))

  unfoldable pub delete_object : Text → Text → Result Fault (Unit {0})
  unfolding url host_for_bucket is_success
  delete_object bucket key = do
    resp ← send (record {
      method = delete;
      url = url c bucket key;
      host = host_for_bucket c bucket;
      body = [];
    })
    ensure (is_success resp.status || (resp.status == 404)) (http_status resp.status)

  -- The keys that count as deleted.
  unfoldable pub delete_objects : Text → List Text → Result Fault (List Text)
  unfolding bucket_url host_for_bucket delete_body is_success
  delete_objects bucket [] = ok []
  delete_objects bucket (key ∷ keys) = do
    resp ← send (record {
      method = post;
      url = bucket_url c bucket ++ bytes "?delete";
      host = host_for_bucket c bucket;
      body = delete_body (key ∷ keys);
    })
    ensure (is_success resp.status) (http_status resp.status)
    ok (key ∷ keys)

  unfoldable pub create_bucket : Text → Result Fault (Unit {0})
  unfolding bucket_url host_for_bucket is_success
  create_bucket bucket = do
    resp ← send (record {
      method = put;
      url = bucket_url c bucket;
      host = host_for_bucket c bucket;
      body = [];
    })
    ensure (is_success resp.status) (http_status resp.status)

  unfoldable pub delete_bucket : Text → Result Fault (Unit {0})
  unfolding bucket_url host_for_bucket is_success
  delete_bucket bucket = do
    resp ← send (record {
      method = delete;
      url = bucket_url c bucket;
      host = host_for_bucket c bucket;
      body = [];
    })
    ensure (is_success resp.status) (http_status resp.status)

  -- The body is read and not parsed.
  unfoldable pub list_objects : Text → Text → Result Fault (List ListObjectEntry)
  unfolding scheme host_base host_for_bucket is_success
  list_objects bucket prefix = do
    resp ← send (record {
      method = get;
      url = list_url_in c.url_style c.endpoint (scheme c) (host_base c) bucket prefix;
      host = host_for_bucket c bucket;
      body = [];
    })
    ensure (is_success resp.status) (http_status resp.status)
    resp.content >>= λ unread. ok []
