-- ===== src/Middleware/Http.antt =====
-- What middleware/middleware.go uses of net/http: requests, response writers and handlers. Contexts
-- hold the values that this library writes to them.
use acat_go_common.Common.{String, Option, none, some, List, [], ◌∷◌, ◌++◌}
use acat_go_common.Common.Int.{ℤ, pos}
use acat_go_common.Common.Assoc.{lookup, insert}
use acat_go_common.Result.{Result}
use acat_go_common.Satoken.Session.{Session}

pub record Context : Type 0 where
  pub session : Option Session
  pub token : String
  pub trace_id : String

-- A cookie that is missing is `none`; a header that is missing is empty.
pub record Request : Type 0 where
  pub cookie : String → Option String
  pub header : String → String
  pub method : String
  pub context : Context

-- a JSON body: an envelope of `FailCode`, or a value of the caller
pub data Payload : Type 0 where
  envelope : Result String → Payload
  other : String → Payload

-- The status is `none` until it is written; a key has its values in order.
pub record Writer : Type 0 where
  pub headers : List (String × List String)
  pub status : Option ℤ
  pub body : List Payload

abbrev pub fresh_writer : Writer
fresh_writer = record { headers = []; status = none; body = [] }

abbrev before_status : Option ℤ → Writer → Writer → Writer
before_status none change same = change
before_status (some code) change same = same

-- Headers that are changed behind `WriteHeader` are not sent.
unfoldable pub set_header : String → String → Writer → Writer
unfolding insert
set_header key value w =
    before_status w.status (record w { headers = insert key (value ∷ []) w.headers }) w

abbrev values_of : Option (List String) → List String
values_of none = []
values_of (some values) = values

unfoldable pub add_header : String → String → Writer → Writer
unfolding insert lookup
add_header key value w =
    before_status w.status
      (record w { headers = insert key (values_of (lookup key w.headers) ++ value ∷ []) w.headers })
      w

-- the first status counts
unfoldable pub write_header : ℤ → Writer → Writer
write_header code w = before_status w.status (record w { status = some code }) w

-- `Write`, which writes the status 200 first where there is none
unfoldable pub write_body : Payload → Writer → Writer
unfolding write_header
write_body payload w = record (write_header (pos 200) w) { body = w.body ++ payload ∷ [] }

pub data Served (S : Type 0) : Type 0 where
  returned panicked : Writer → S → Served S

abbrev pub Handler : Type 0 → Type 0
Handler S = Request → Writer → S → Served S

-- `req.WithContext`
unfoldable pub with_context : Request → Context → Request
with_context req ctx = record req { context = ctx }
