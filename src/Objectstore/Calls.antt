-- ===== src/Objectstore/Calls.antt =====
-- objectstore/s3.go: the calls for objects and buckets, over HTTP.
use acat_go_common.Common.{ℕ, Bool, Option, none, some, List, leb, ltb, nat_eq, if◌then◌else◌, ◌&&◌}
use acat_go_common.Common.Text.{show_nat}
use acat_go_common.Apperr.{GoError, plain, wrapped, sentinel, bucket_missing, is}
use acat_go_common.Exec.{Exec, pure, raise, try, ◌>>=◌}
use Prim.Native.String
use Prim.Native.String.{String}
use acat_go_common.Objectstore.{Client}
use acat_go_common.Objectstore.Signing.{Request, Clock, Crypto, new_request, new_bucket_request}

-- The answer of an HTTP request; its body is read to its end or closed.
pub record Response : Type 0 where
  pub status_code : ℕ
  pub body : List ℕ

abbrev pub not_configured : GoError
not_configured = plain "对象存储客户端未配置"

abbrev pub is_success : ℕ → Bool
is_success status = leb 200 status && ltb status 300

abbrev unexpected : ℕ → GoError
unexpected status = plain (String.◌++◌ "对象存储返回 " (show_nat status))

module _ {S : Type 0} (http : Request → Exec S Response) (crypto : Crypto) (clock : Clock) where
  abbrev send : Request → Exec S Response
  send request = try (http request) pure (λ e. raise (wrapped "请求对象存储失败: " e ""))

  unfoldable pub do_object :
      Option Client → String → List ℕ → Option (List ℕ) → String → Exec S Response
  unfolding try new_request
  do_object none method object_name body content_type = raise not_configured
  do_object (some c) method object_name body content_type =
      send (new_request crypto clock c method object_name body content_type)

  unfoldable pub do_bucket : Option Client → String → Exec S Response
  unfolding try new_bucket_request
  do_bucket none method = raise not_configured
  do_bucket (some c) method = send (new_bucket_request crypto clock c method)

  -- `if StatusCode < 200 || StatusCode >= 300`
  abbrev expect_success : {A : Type 0} → (Response → A) → Response → Exec S A
  expect_success value response =
      if is_success response.status_code
      then pure (value response)
      else raise (unexpected response.status_code)

  unfoldable pub get_object : Option Client → List ℕ → Exec S (List ℕ)
  unfolding do_object ◌>>=◌
  get_object c object_name = do
    response ← do_object c "GET" object_name none ""
    expect_success (λ r. r.body) response

  -- The body is not a nil slice.
  unfoldable pub put_object : Option Client → List ℕ → String → List ℕ → Exec S (Unit {0})
  unfolding do_object ◌>>=◌
  put_object c object_name content_type body = do
    response ← do_object c "PUT" object_name (some body) content_type
    expect_success (λ _. tt) response

  unfoldable pub delete_object : Option Client → List ℕ → Exec S (Unit {0})
  unfolding do_object ◌>>=◌
  delete_object c object_name = do
    response ← do_object c "DELETE" object_name none ""
    expect_success (λ _. tt) response

  unfoldable pub head_bucket : Option Client → Exec S (Unit {0})
  unfolding do_bucket ◌>>=◌
  head_bucket c = do
    response ← do_bucket c "HEAD"
    (if nat_eq response.status_code 404
        then raise (sentinel bucket_missing)
        else expect_success (λ _. tt) response)

  unfoldable pub create_bucket : Option Client → Exec S (Unit {0})
  unfolding do_bucket ◌>>=◌
  create_bucket c = do response ← do_bucket c "PUT"; expect_success (λ _. tt) response

  unfoldable pub ensure_bucket : Option Client → Exec S (Unit {0})
  unfolding head_bucket create_bucket try is
  ensure_bucket none = raise not_configured
  ensure_bucket (some c) =
      try (head_bucket (some c)) (λ _. pure tt)
        (λ e. if is e bucket_missing then create_bucket (some c) else raise e)
