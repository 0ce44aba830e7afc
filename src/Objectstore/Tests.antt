-- ===== src/Objectstore/Tests.antt =====
-- Requests to an object store at concrete inputs.
use acat_go_common.Common.{
  ◌≡◌, refl, ℕ, none, ◌++◌, Bool, true, false, some, List, [], ◌∷◌, ◌==◌, if◌then◌else◌, arith,
}
use acat_go_common.Common.Int.{pos}
use acat_go_common.Exec.{Exec, ok}
use acat_go_common.Objectstore.{Client, bytes, object_name_from_path}
use acat_go_common.Objectstore.Signing.{Crypto, Clock, Request, new_request, new_bucket_request}
use acat_go_common.Objectstore.Calls.{Response, ensure_bucket}
use acat_go_common.Objectstore.Escape.{escape_path}
use acat_go_common.Objectstore.Escape.Reversible.{plain, unescape, unescape-escape_path}
use acat_go_common.Objectstore.Signed.{IsSigned, hash_for, signature_covers}
use acat_go_common.Objectstore.Buckets.{ServesBucket, ensure_bucket_there}

abbrev crypto : Crypto
crypto = record { sha256_hex = λ b. b; hmac_sha256 = λ k v. k ++ v; hex = λ b. b }

abbrev clock : Clock
clock = record { date_stamp = "20260731"; amz_date = "20260731T080000Z" }

abbrev client : Client
client = record {
  endpoint = record { scheme = "http"; host = "minio:9000"; path = "" };
  access_key = "ak";
  secret_key = "sk";
  bucket = "acat-read-files";
  timeout = pos 30_000_000_000;
}

-- a server that has the bucket, or not
abbrev http : Request → Exec Bool Response
http request there =
    if request.method == "HEAD"
    then (ok record { status_code = if there then 200 else 404; body = [] }, there)
    else (ok record { status_code = 200; body = [] }, true)

server :
    ServesBucket http
      (new_bucket_request crypto clock client "HEAD")
      (new_bucket_request crypto clock client "PUT")
      (λ there. there)
unfolding new_bucket_request
server = record {
  created = 200;
  created_success = (omega arith, omega arith);
  head_answer = λ s. ([], refl);
  head_keeps = λ s. refl;
  put_answer = λ s. ([], refl);
  put_creates = λ s. refl;
}

ensure_bucket_there_example :
    ((ensure_bucket http crypto clock (some client) false).0 ≡ ok tt)
    × ((ensure_bucket http crypto clock (some client) false).1 ≡ true)
ensure_bucket_there_example =
    ensure_bucket_there http crypto clock client (λ there. there) server false

-- `a b/ü`
abbrev name : List ℕ
name = 97 ∷ 32 ∷ 98 ∷ 47 ∷ 195 ∷ 188 ∷ []

escapes : escape_path name ≡ bytes "a%20b/%C3%BC"
unfolding escape_path bytes
escapes = refl

unescape-escape_path_example : unescape plain (escape_path name) ≡ name
unescape-escape_path_example =
    unescape-escape_path name
      (omega arith, (omega arith, (omega arith, (omega arith, (omega arith, (omega arith, tt))))))

names_objects : object_name_from_path "acat-read-files/a/b.png" ≡ ok "a/b.png"
unfolding object_name_from_path
names_objects = refl

signature_covers_example :
    IsSigned crypto clock client
      (bytes "/" ++ (bytes "acat-read-files" ++ (bytes "/" ++ escape_path name)))
      (104 ∷ 105 ∷ [])
      "image/png"
      (new_request crypto clock client "PUT" name (some (104 ∷ 105 ∷ [])) "image/png")
    × IsSigned crypto clock client
        (bytes "/" ++ bytes "acat-read-files")
        (hash_for crypto clock client none)
        ""
        (new_bucket_request crypto clock client "PUT")
signature_covers_example =
    signature_covers crypto clock client "PUT" name (some (104 ∷ 105 ∷ [])) "image/png"
