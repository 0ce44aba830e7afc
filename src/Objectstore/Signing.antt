-- ===== src/Objectstore/Signing.antt =====
-- objectstore/s3.go: `newRequest`, `newBucketRequest`, and `sign`, the signature of a request.
use acat_go_common.Objectstore.Escape.{escape_path}
use acat_go_common.Common.{ℕ, Option, none, some, List, [], ◌∷◌, ◌++◌, ◌==◌, nat_eq, if◌then◌else◌}
use Prim.Native.String.{String}
use acat_go_common.Objectstore.{bytes, empty_payload_hash, Client}

-- A request, with the path as it is sent: the bucket and the endpoint's path are taken to need no
-- escaping, and the URL to be one that `http.NewRequest` takes.
pub record Request : Type 0 where
  pub method : String
  pub host : String
  pub raw_path : List ℕ
  pub body : Option (List ℕ)
  pub headers : List (String × List ℕ)

-- what `time.Now` is in UTC, formatted in the two ways of `sign`
pub record Clock : Type 0 where
  pub date_stamp : String
  pub amz_date : String

-- SHA-256 and HMAC-SHA-256 in hexadecimal and as bytes
pub record Crypto : Type 0 where
  pub sha256_hex : List ℕ → List ℕ
  pub hmac_sha256 : List ℕ → List ℕ → List ℕ
  pub hex : List ℕ → List ℕ

-- `strings.Join`
unfoldable pub join : List ℕ → List (List ℕ) → List ℕ
join sep [] = []
join sep (s ∷ []) = s
join sep (s ∷ t ∷ ts) = s ++ (sep ++ join sep (t ∷ ts))

module _ (crypto : Crypto) (clock : Clock) where
  unfoldable pub signing_key : String → List ℕ
  unfolding bytes
  signing_key secret =
      let date_key = crypto.hmac_sha256 (bytes "AWS4" ++ bytes secret) (bytes clock.date_stamp) in
      let region_key = crypto.hmac_sha256 date_key (bytes "us-east-1") in
      let service_key = crypto.hmac_sha256 region_key (bytes "s3") in
      crypto.hmac_sha256 service_key (bytes "aws4_request")

  -- `canonicalHeaders` and `signedHeaders`
  unfoldable pub canonical_headers : String → List ℕ → String → List ℕ
  unfolding bytes
  canonical_headers host payload_hash content_type =
      (if content_type == ""
        then []
        else bytes "content-type:" ++ (bytes content_type ++ bytes "\n"))
      ++ ((bytes "host:" ++ (bytes host ++ bytes "\n"))
          ++ (bytes "x-amz-content-sha256:"
              ++ (payload_hash
                  ++ (bytes "\n"
                      ++ (bytes "x-amz-date:" ++ (bytes clock.amz_date ++ bytes "\n"))))))

  unfoldable pub signed_headers : String → List ℕ
  unfolding bytes
  signed_headers content_type =
      (if content_type == "" then bytes "host" else bytes "content-type" ++ bytes ";host")
      ++ bytes ";x-amz-content-sha256;x-amz-date"

  unfoldable pub scope : List ℕ
  unfolding bytes join
  scope =
      join (bytes "/")
        (bytes clock.date_stamp ∷ bytes "us-east-1" ∷ bytes "s3" ∷ bytes "aws4_request" ∷ [])

  unfoldable pub string_to_sign : String → List ℕ → String → List ℕ → String → List ℕ
  unfolding canonical_headers signed_headers scope bytes join
  string_to_sign method canonical_uri host payload_hash content_type =
      let request = join (bytes "\n") (
        bytes method
        ∷ canonical_uri
        ∷ []
        ∷ canonical_headers host payload_hash content_type
        ∷ signed_headers content_type
        ∷ payload_hash
        ∷ []) in
      join (bytes "\n")
        (bytes "AWS4-HMAC-SHA256" ∷ bytes clock.amz_date ∷ scope ∷ crypto.sha256_hex request ∷ [])

  unfoldable pub authorization : Client → List ℕ → String → List ℕ
  unfolding signing_key scope signed_headers bytes
  authorization c to_sign content_type =
      bytes "AWS4-HMAC-SHA256 Credential="
      ++ (bytes c.access_key
          ++ (bytes "/"
              ++ (scope
                  ++ (bytes ", SignedHeaders="
                      ++ (signed_headers content_type
                          ++ (bytes ", Signature="
                              ++ crypto.hex
                                  (crypto.hmac_sha256 (signing_key c.secret_key) to_sign)))))))

  -- The headers that `sign` sets; no request here has a query.
  unfoldable pub sign : Client → String → List ℕ → List ℕ → String → List (String × List ℕ)
  unfolding string_to_sign authorization bytes
  sign c method canonical_uri payload_hash content_type =
      let to_sign = string_to_sign method canonical_uri c.endpoint.host payload_hash content_type in
      (if content_type == "" then [] else ("Content-Type", bytes content_type) ∷ [])
      ++ (("x-amz-date", bytes clock.amz_date)
          ∷ ("x-amz-content-sha256", payload_hash)
          ∷ ("Authorization", authorization c to_sign content_type)
          ∷ [])

  abbrev hash_of : Option (List ℕ) → List ℕ
  hash_of none = bytes empty_payload_hash
  hash_of (some body) = crypto.sha256_hex body

  -- the endpoint's path without its last slash
  unfoldable pub path_prefix : List ℕ → List ℕ
  path_prefix [] = []
  path_prefix (b ∷ []) = if nat_eq b b'/' then [] else b ∷ []
  path_prefix (b ∷ c ∷ bs) = b ∷ path_prefix (c ∷ bs)

  unfoldable pub new_request : Client → String → List ℕ → Option (List ℕ) → String → Request
  unfolding sign escape_path path_prefix bytes
  new_request c method object_name body content_type =
      let canonical_uri = bytes "/" ++ (bytes c.bucket ++ (bytes "/" ++ escape_path object_name)) in
      record {
        method = method;
        host = c.endpoint.host;
        raw_path = path_prefix (bytes c.endpoint.path) ++ canonical_uri;
        body = body;
        headers = sign c method canonical_uri (hash_of body) content_type;
      }

  unfoldable pub new_bucket_request : Client → String → Request
  unfolding sign path_prefix bytes
  new_bucket_request c method =
      let canonical_uri = bytes "/" ++ bytes c.bucket in
      record {
        method = method;
        host = c.endpoint.host;
        raw_path = path_prefix (bytes c.endpoint.path) ++ canonical_uri;
        body = none;
        headers = sign c method canonical_uri (bytes empty_payload_hash) "";
      }
