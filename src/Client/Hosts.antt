-- ===== src/Client/Hosts.antt =====
-- The addresses of src/backend/client.rs.
use s3prism.Base.{
  ◌≡◌, sym, ap, ◌∙◌, ◌⊎◌, inl, inr, [], ◌++◌, append_assoc, Text, bytes, strip_prefix, starts_with,
  if◌then◌else◌,
}
use s3prism.Config.{UrlStyle, path, virtual_host}
use s3prism.Client.{SiteClient, or_else, scheme, host_base, url, url_in, host_in, host_for_bucket}

-- The path of the bucket in the address, where it is not part of the host.
abbrev pub bucket_path : UrlStyle → Text → Text
bucket_path path bucket = bytes "/" ++ bucket
bucket_path virtual_host bucket = []

-- An endpoint with a scheme.
abbrev pub HasScheme : SiteClient → Text → Text → Type 0
HasScheme c s host =
    ((s ≡ bytes "https") ⊎ (s ≡ bytes "http")) × (c.endpoint ≡ s ++ (bytes "://" ++ host))

scheme-HasScheme : (c : SiteClient) (s host : Text) → HasScheme c s host → scheme c ≡ s
unfolding scheme starts_with
scheme-HasScheme c s host (inl is, e) =
    ap (λ t. if starts_with (bytes "https://") t then bytes "https" else bytes "http")
      (e ∙ ap (λ t. t ++ (bytes "://" ++ host)) is)
    ∙ sym is
scheme-HasScheme c s host (inr is, e) =
    ap (λ t. if starts_with (bytes "https://") t then bytes "https" else bytes "http")
      (e ∙ ap (λ t. t ++ (bytes "://" ++ host)) is)
    ∙ sym is

host_base-HasScheme : (c : SiteClient) (s host : Text) → HasScheme c s host → host_base c ≡ host
unfolding host_base strip_prefix
host_base-HasScheme c s host (inl is, e) =
    ap
      (λ t.
        or_else (strip_prefix (bytes "https://") t) (or_else (strip_prefix (bytes "http://") t) t))
      (e ∙ ap (λ t. t ++ (bytes "://" ++ host)) is)
host_base-HasScheme c s host (inr is, e) =
    ap
      (λ t.
        or_else (strip_prefix (bytes "https://") t) (or_else (strip_prefix (bytes "http://") t) t))
      (e ∙ ap (λ t. t ++ (bytes "://" ++ host)) is)

url_in-host_in :
    (style : UrlStyle) (s host bucket key : Text)
    → url_in style (s ++ (bytes "://" ++ host)) s host bucket key
      ≡ s
        ++ (bytes "://"
            ++ (host_in style host bucket ++ (bucket_path style bucket ++ (bytes "/" ++ key))))
url_in-host_in path s host bucket key =
    append_assoc s (bytes "://" ++ host) (bytes "/" ++ (bucket ++ (bytes "/" ++ key)))
url_in-host_in virtual_host s host bucket key =
    ap (λ t. s ++ (bytes "://" ++ t))
      (sym (append_assoc bucket (bytes "." ++ host) (bytes "/" ++ key)))

-- If the endpoint of a site has a scheme, the address of an object in either style is that scheme,
-- the host that the request is signed for, the bucket unless it is in the host, and the key.
pub url-host_for_bucket :
    (c : SiteClient) (s host bucket key : Text)
    → HasScheme c s host
    → url c bucket key
      ≡ s
        ++ (bytes "://"
            ++ (host_for_bucket c bucket ++ (bucket_path c.url_style bucket ++ (bytes "/" ++ key))))
unfolding url host_for_bucket
url-host_for_bucket c s host bucket key h =
    let base = host_base-HasScheme c s host h in
    ap (λ e. url_in c.url_style e (scheme c) (host_base c) bucket key) h.1
    ∙ ap (λ x. url_in c.url_style (s ++ (bytes "://" ++ host)) x (host_base c) bucket key)
        (scheme-HasScheme c s host h)
    ∙ ap (λ x. url_in c.url_style (s ++ (bytes "://" ++ host)) s x bucket key) base
    ∙ url_in-host_in c.url_style s host bucket key
    ∙ ap
        (λ x.
          s
          ++ (bytes "://"
              ++ (host_in c.url_style x bucket
                  ++ (bucket_path c.url_style bucket ++ (bytes "/" ++ key)))))
        (sym base)
