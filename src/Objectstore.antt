-- ===== src/Objectstore.antt =====
-- objectstore/s3.go: requests to an S3 object store. SHA-256, HMAC, the clock and HTTP are outside; a
-- Go string stands here as its bytes where it is put into a request.
pub mod Signing
pub mod Calls
pub mod Escape
pub mod Signed
pub mod Buckets
mod Tests
use acat_go_common.Common.{
  ℕ, ◌+◌, ◌/◌, ◌%◌, Option, none, some, List, [], ◌∷◌, ◌++◌, leb, ◌==◌, if◌then◌else◌,
}
use acat_go_common.Common.Int.{ℤ, pos, leb_ℤ}
use acat_go_common.Common.Text.{trim_space}
use acat_go_common.Common.Text.Cut.{cut}
use acat_go_common.Apperr.{plain, wrapped}
use acat_go_common.Exec.{Return, ok, err}
use Prim.Native.Char.{Char, code}
use Prim.Native.String
use Prim.Native.String.{String}

-- the bytes of a character, and of a text
unfoldable pub utf8 : Char → List ℕ
utf8 c =
    let n = code c in
    if leb n 0x7f
    then n ∷ []
    else if leb n 0x7ff
    then (n / 64 + 192) ∷ (n % 64 + 128) ∷ []
    else if leb n 0xffff
    then (n / 4096 + 224) ∷ (n / 64 % 64 + 128) ∷ (n % 64 + 128) ∷ []
    else (n / 262144 + 240) ∷ (n / 4096 % 64 + 128) ∷ (n / 64 % 64 + 128) ∷ (n % 64 + 128) ∷ []

unfoldable pub bytes : String → List ℕ
unfolding utf8
bytes String.[] = []
bytes (String.◌∷◌ c s) = utf8 c ++ bytes s

abbrev pub empty_payload_hash : String
empty_payload_hash = "e3b0c44298fc1c149afbf4c8996fb92427ae41e4649b934ca495991b7852b855"

-- What `url.Parse` finds in an endpoint.
pub record Url : Type 0 where
  pub scheme : String
  pub host : String
  pub path : String

pub record Client : Type 0 where
  pub endpoint : Url
  pub access_key : String
  pub secret_key : String
  pub bucket : String
  pub timeout : ℤ

pub record Config : Type 0 where
  pub endpoint : String
  pub access_key : String
  pub secret_key : String
  pub bucket : String
  pub timeout : ℤ

-- `New`: no client, and no error, where there is no endpoint.
unfoldable pub new_client : (String → Return Url) → Config → Return (Option Client)
unfolding trim_space
new_client parse cfg =
    let endpoint = trim_space cfg.endpoint in
    if endpoint == "" then ok none else elim (parse endpoint) [
      | err e ↦ err (wrapped "解析对象存储 endpoint 失败: " e "")
      | ok url ↦
          if url.scheme == ""
          then err (plain (String.◌++◌ "对象存储 endpoint 非法: " cfg.endpoint))
          else if url.host == ""
          then err (plain (String.◌++◌ "对象存储 endpoint 非法: " cfg.endpoint))
          else ok (
              some record {
                endpoint = url;
                access_key = cfg.access_key;
                secret_key = cfg.secret_key;
                bucket = cfg.bucket;
                timeout = if leb_ℤ cfg.timeout (pos 0) then pos 30_000_000_000 else cfg.timeout;
              })
    ]

-- `Bucket`
abbrev pub bucket_of : Option Client → String
bucket_of none = ""
bucket_of (some c) = c.bucket

-- `ObjectNameFromPath`
unfoldable pub object_name_from_path : String → Return String
unfolding trim_space cut
object_name_from_path path =
    if trim_space path == ""
    then err (plain "对象存储路径为空")
    else elim (cut "/" path) [ none ↦ ok path | some parts ↦ ok parts.1 ]
