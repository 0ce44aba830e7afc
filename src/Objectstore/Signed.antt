-- ===== src/Objectstore/Signed.antt =====
-- objectstore/s3.go: what the signature covers.
use mathlib.Core.List.{append_assoc}
use acat_go_common.Common.{
  ◌≡◌, refl, ap, ℕ, String, Bool, true, false, ◌&&◌, ◌||◌, Option, none, some, List, [], ◌∷◌, ◌++◌,
  map, ltb, nat_eq, ◌==◌, if◌then◌else◌, Bool-cases, inl, inr,
}
use acat_go_common.Common.Assoc.{lookup}
use acat_go_common.Objectstore.{Client, bytes}
use acat_go_common.Objectstore.Escape.{escape_path}
use acat_go_common.Objectstore.Signing.{
  Crypto, Clock, Request, join, canonical_headers, signed_headers, scope, signing_key,
  string_to_sign, authorization, sign, new_request, new_bucket_request,
}

-- a header's name, in lower case, and its value
abbrev pub Header : Type 0
Header = List ℕ × List ℕ

-- one line for each header
unfoldable pub lines : List Header → List ℕ
unfolding bytes
lines [] = []
lines (h ∷ hs) = h.0 ++ (bytes ":" ++ (h.1 ++ (bytes "\n" ++ lines hs)))

-- Does a text come before another in the order of their bytes?
unfoldable pub before : List ℕ → List ℕ → Bool
before [] [] = false
before [] (c ∷ cs) = true
before (b ∷ bs) [] = false
before (b ∷ bs) (c ∷ cs) = ltb b c || nat_eq b c && before bs cs

unfoldable pub ascending : List Header → Bool
unfolding before
ascending [] = true
ascending (h ∷ []) = true
ascending (h ∷ k ∷ hs) = before h.0 k.0 && ascending (k ∷ hs)

-- the headers that a request has when it is signed
abbrev pub covered : Clock → String → List ℕ → String → List Header
covered clock host payload_hash content_type =
    (if content_type == "" then [] else (bytes "content-type", bytes content_type) ∷ [])
    ++ ((bytes "host", bytes host)
        ∷ (bytes "x-amz-content-sha256", payload_hash)
        ∷ (bytes "x-amz-date", bytes clock.amz_date)
        ∷ [])

-- The signature of a request after the scheme of AWS (SigV4), for any list of headers: what is signed
-- is the method, the path, an empty query, the headers, their names and the hash of the body.
module _ (crypto : Crypto) (clock : Clock) (c : Client) where
  abbrev names : List Header → List ℕ
  names headers = join (bytes ";") (map (λ h. h.0) headers)

  unfoldable described : String → List ℕ → List Header → List ℕ → List ℕ
  unfolding lines join bytes
  described method uri headers hash =
      join (bytes "\n") (bytes method ∷ uri ∷ [] ∷ lines headers ∷ names headers ∷ hash ∷ [])

  -- day, region, service and a fixed end
  abbrev key_scope : List (List ℕ)
  key_scope = bytes clock.date_stamp ∷ bytes "us-east-1" ∷ bytes "s3" ∷ bytes "aws4_request" ∷ []

  -- a key is made for each part from the key before
  unfoldable derived : List ℕ → List (List ℕ) → List ℕ
  derived key [] = key
  derived key (part ∷ parts) = derived (crypto.hmac_sha256 key part) parts

  unfoldable pub authorized : String → List ℕ → List Header → List ℕ → List ℕ
  unfolding described derived join bytes
  authorized method uri headers hash =
      let where_signed = join (bytes "/") key_scope in
      let signed = join (bytes "\n") (
        bytes "AWS4-HMAC-SHA256"
        ∷ bytes clock.amz_date
        ∷ where_signed
        ∷ crypto.sha256_hex (described method uri headers hash)
        ∷ []) in
      let key = derived (bytes "AWS4" ++ bytes c.secret_key) key_scope in
      bytes "AWS4-HMAC-SHA256 Credential="
      ++ (bytes c.access_key
          ++ (bytes "/"
              ++ (where_signed
                  ++ (bytes ", SignedHeaders="
                      ++ (names headers
                          ++ (bytes ", Signature="
                              ++ crypto.hex (crypto.hmac_sha256 key signed)))))))

  -- A request that is signed for a path, a hash of its body and a content type: its Authorization is
  -- the signature over its host and its headers, whose names ascend, and it sends these headers.
  unfoldable pub IsSigned : List ℕ → List ℕ → String → Request → Type 0
  unfolding authorized ascending lookup bytes
  IsSigned uri hash content_type r =
      let headers = covered clock r.host hash content_type in
      (lookup "Authorization" r.headers ≡ some (authorized r.method uri headers hash))
      × (ascending headers ≡ true)
      × (lookup "x-amz-date" r.headers ≡ some (bytes clock.amz_date))
      × (lookup "x-amz-content-sha256" r.headers ≡ some hash)
      × (lookup "Content-Type" r.headers
          ≡ (if content_type == "" then none else some (bytes content_type)))

  headers_lined :
      (host : String) (hash : List ℕ) (content_type : String)
      → canonical_headers crypto clock host hash content_type
        ≡ lines (covered clock host hash content_type)
  unfolding canonical_headers lines bytes
  headers_lined host hash content_type = elim (Bool-cases (content_type == "")) [
    | inl e ↦ rw e (simp append_assoc)
    | inr e ↦ rw e (simp append_assoc)
  ]

  headers_named :
      (host : String) (hash : List ℕ) (content_type : String)
      → signed_headers crypto clock content_type ≡ names (covered clock host hash content_type)
  unfolding signed_headers join bytes
  headers_named host hash content_type = elim (Bool-cases (content_type == "")) [
    | inl e ↦ rw e refl
    | inr e ↦ rw e refl
  ]

  authorization-authorized :
      (method : String) (uri : List ℕ) (host : String) (hash : List ℕ) (content_type : String)
      → authorization crypto clock c
          (string_to_sign crypto clock method uri host hash content_type)
          content_type
        ≡ authorized method uri (covered clock host hash content_type) hash
  unfolding authorization string_to_sign scope signing_key authorized described derived
  authorization-authorized method uri host hash content_type =
      rw
        (
          authorization,
          string_to_sign,
          headers_named host hash content_type,
          headers_lined host hash content_type,
        )
        refl

  -- `sign` gives any request these headers.
  sign-IsSigned :
      (r : Request) (uri hash : List ℕ) (content_type : String)
      → r.headers ≡ sign crypto clock c r.method uri hash content_type
      → r.host ≡ c.endpoint.host
      → IsSigned uri hash content_type r
  unfolding IsSigned sign ascending lookup before bytes
  sign-IsSigned r uri hash content_type e o =
      let auth = authorization-authorized r.method uri c.endpoint.host hash content_type in
      elim (Bool-cases (content_type == "")) [
        | inl b ↦ let auth' = rw b at auth in rw (e, o, b) (ap some auth', refl, refl, refl, refl)
        | inr b ↦ let auth' = rw b at auth in rw (e, o, b) (ap some auth', refl, refl, refl, refl)
      ]

  -- what `x-amz-content-sha256` says of a body, with the hash of no bytes for none
  abbrev pub hash_for : Option (List ℕ) → List ℕ
  hash_for none = bytes "e3b0c44298fc1c149afbf4c8996fb92427ae41e4649b934ca495991b7852b855"
  hash_for (some body) = crypto.sha256_hex body

  -- The requests that the client builds, for an object and for the bucket, are signed as AWS
  -- describes: the Authorization header is the signature, under the key derived from the secret, over
  -- the method, the escaped path without the endpoint's own, the hash of the body, and the host and
  -- the headers, whose names ascend; and these headers are sent, a content type if there is one.
  pub signature_covers :
      (method : String) (object_name : List ℕ) (body : Option (List ℕ)) (content_type : String)
      → IsSigned
          (bytes "/" ++ (bytes c.bucket ++ (bytes "/" ++ escape_path object_name)))
          (hash_for body)
          content_type
          (new_request crypto clock c method object_name body content_type)
        × IsSigned
            (bytes "/" ++ bytes c.bucket)
            (hash_for none)
            ""
            (new_bucket_request crypto clock c method)
  unfolding new_request new_bucket_request
  signature_covers method object_name none content_type =
      (sign-IsSigned _ _ _ content_type refl refl, sign-IsSigned _ _ _ "" refl refl)
  signature_covers method object_name (some body) content_type =
      (sign-IsSigned _ _ _ content_type refl refl, sign-IsSigned _ _ _ "" refl refl)
