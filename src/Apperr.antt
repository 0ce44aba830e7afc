-- ===== src/Apperr.antt =====
-- apperr/apperr.go and apperr/business.go: error values, their chains, and the two kinds of error
-- that a response is built from. A chain is a value: `%w`, `WithCause` and `errors.Join` nest it.
pub mod Chain
mod Tests
use acat_go_common.Common.{ℕ, String, Bool, true, false, Option, none, some, [], ◌||◌}
use acat_go_common.Common.Int.{ℤ, pos}
use acat_go_common.Common.Text.{show_int, show_nat}
use Prim.Native.String.{◌++◌}

-- `Error` without its cause.
pub record Error : Type 0 where
  pub http_status : ℤ
  pub code : ℤ
  pub message : String

-- `Business` without its cause.
pub record Business : Type 0 where
  pub code : ℤ
  pub message : String

-- The package variables that callers compare with `errors.Is`.
pub data Sentinel : Type 0 where
  not_found handle_uninitialized write_not_applied bucket_missing no_rows tx_done : Sentinel
  canceled deadline_exceeded : Sentinel

-- A non-nil error. `plain` is an `errors.New` that nothing compares with; `wrapped pre e post` is
-- `fmt.Errorf(pre + "%w" + post, e)`; `joined` is `errors.Join`; a cause is `nil` or an error.
pub data GoError : Type 0 where
  sentinel : Sentinel → GoError
  plain : String → GoError
  wrapped : String → GoError → String → GoError
  joined : GoError → GoError → GoError
  mysql : ℕ → String → GoError
  error : Error → GoError
  error_caused : Error → GoError → GoError
  business : Business → GoError
  business_caused : Business → GoError → GoError

unfoldable pub same_sentinel : Sentinel → Sentinel → Bool
same_sentinel not_found not_found = true
same_sentinel handle_uninitialized handle_uninitialized = true
same_sentinel write_not_applied write_not_applied = true
same_sentinel bucket_missing bucket_missing = true
same_sentinel no_rows no_rows = true
same_sentinel tx_done tx_done = true
same_sentinel canceled canceled = true
same_sentinel deadline_exceeded deadline_exceeded = true
same_sentinel _ _ = false

-- `errors.Is(err, target)` for a package variable.
unfoldable pub is : GoError → Sentinel → Bool
unfolding same_sentinel
is (sentinel s) t = same_sentinel s t
is (plain m) t = false
is (wrapped pre e post) t = is e t
is (joined a b) t = is a t || is b t
is (mysql n m) t = false
is (error e) t = false
is (error_caused e c) t = is c t
is (business b) t = false
is (business_caused b c) t = is c t

abbrev pub or_else {ℓ} : {A : Type ℓ} → Option A → Option A → Option A
or_else none o = o
or_else (some a) o = some a

-- `As`: the first `*Error` of the chain, depth first.
unfoldable pub as_error : GoError → Option Error
as_error (wrapped pre e post) = as_error e
as_error (joined a b) = or_else (as_error a) (as_error b)
as_error (error e) = some e
as_error (error_caused e c) = some e
as_error (business_caused b c) = as_error c
as_error _ = none

-- `IsBusiness` of a non-nil error: the first `*Business` of the chain.
unfoldable pub is_business : GoError → Option Business
is_business (wrapped pre e post) = is_business e
is_business (joined a b) = or_else (is_business a) (is_business b)
is_business (error_caused e c) = is_business c
is_business (business b) = some b
is_business (business_caused b c) = some b
is_business _ = none

abbrev sentinel_text : Sentinel → String
sentinel_text not_found = "satoken: 键不存在"
sentinel_text handle_uninitialized = "db: 数据库句柄未初始化"
sentinel_text write_not_applied = "db: 写操作未命中任何行"
sentinel_text bucket_missing = "对象存储桶不存在"
sentinel_text no_rows = "sql: no rows in result set"
sentinel_text tx_done = "sql: transaction has already been committed or rolled back"
sentinel_text canceled = "context canceled"
sentinel_text deadline_exceeded = "context deadline exceeded"

-- `(*Error).Error` with no cause
abbrev error_head : Error → String
error_head e =
    "apperr: http="
    ++ (show_int e.http_status ++ (" code=" ++ (show_int e.code ++ (" message=" ++ e.message))))

-- The `Error` methods.
unfoldable pub text : GoError → String
unfolding show_int show_nat
text (sentinel s) = sentinel_text s
text (plain m) = m
text (wrapped pre e post) = pre ++ (text e ++ post)
text (joined a b) = text a ++ ("\n" ++ text b)
text (mysql n m) = "Error " ++ (show_nat n ++ (": " ++ m))
text (error e) = error_head e
text (error_caused e c) = error_head e ++ (": " ++ text c)
text (business b) = b.message
text (business_caused b c) = b.message ++ (" (code=" ++ (show_int b.code ++ ("): " ++ text c)))

-- `WithCause` of the two types, on an error that it applies to; the old cause is replaced.
unfoldable pub with_cause : Error → Option GoError → GoError
with_cause e none = error e
with_cause e (some c) = error_caused e c

unfoldable pub business_with_cause : Business → Option GoError → GoError
business_with_cause b none = business b
business_with_cause b (some c) = business_caused b c

-- `newf`, whose message is already formatted.
unfoldable pub newf : ℕ → ℕ → String → Error
newf status code message = record { http_status = pos status; code = pos code; message = message }

unfoldable pub unauthorized : String → GoError
unfolding newf
unauthorized m = error (newf 401 401 m)

unfoldable pub forbidden : String → GoError
unfolding newf
forbidden m = error (newf 403 403 m)

unfoldable pub not_found_error : String → GoError
unfolding newf
not_found_error m = error (newf 404 404 m)

unfoldable pub conflict : String → GoError
unfolding newf
conflict m = error (newf 409 409 m)

unfoldable pub bad_request : String → GoError
unfolding newf
bad_request m = error (newf 400 400 m)

unfoldable pub unprocessable : String → GoError
unfolding newf
unprocessable m = error (newf 422 422 m)

unfoldable pub rate_limited : String → GoError
unfolding newf
rate_limited m = error (newf 429 429 m)

unfoldable pub unavailable : String → GoError
unfolding newf
unavailable m = error (newf 503 503 m)

unfoldable pub internal : Option GoError → String → GoError
unfolding newf with_cause
internal cause m = with_cause (newf 500 500 m) cause

unfoldable pub new_business : String → GoError
new_business m = business (record { code = pos 1; message = m })

unfoldable pub new_business_code : ℤ → String → GoError
new_business_code code m = business (record { code = code; message = m })

unfoldable pub state_changed : String → GoError
unfolding new_business_code
state_changed m = new_business_code (pos 40901) m

unfoldable pub optimistic_lock : String → GoError
unfolding new_business_code
optimistic_lock m = new_business_code (pos 40902) m

unfoldable pub target_missing : String → GoError
unfolding new_business_code
target_missing m = new_business_code (pos 40401) m

unfoldable pub operation_completed : String → GoError
unfolding new_business_code
operation_completed m = new_business_code (pos 40903) m

abbrev status_or_internal : Option Error → ℤ
status_or_internal none = pos 500
status_or_internal (some e) = e.http_status

-- `none` is a nil error.
unfoldable pub http_status_of : Option GoError → ℤ
unfolding as_error
http_status_of none = pos 200
http_status_of (some err) = status_or_internal (as_error err)

abbrev code_or : Option Error → Option Business → ℤ
code_or (some e) b = e.code
code_or none (some b) = b.code
code_or none none = pos 500

unfoldable pub code_of : Option GoError → ℤ
unfolding as_error is_business
code_of none = pos 0
code_of (some err) = code_or (as_error err) (is_business err)

unfoldable pub is_http_semantic : GoError → Bool
unfolding as_error
is_http_semantic err = elim (as_error err) [ none ↦ false | some e ↦ true ]
