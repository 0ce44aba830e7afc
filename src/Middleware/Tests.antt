-- ===== src/Middleware/Tests.antt =====
-- The middleware at concrete requests.
use mathlib.Core.Bool.{false≢true}
use acat_go_common.Common.{
  ◌⊎◌, ◌≡◌, ◌≢◌, refl, ap, sym, ◌∙◌, if◌then◌else◌, inl, String, true, false, Option, none, some,
  [], ◌∷◌, ◌++◌, ◌==◌, contains,
}
use acat_go_common.Common.Int.{pos, negsuc}
use acat_go_common.Common.Text.{trim_space}
use acat_go_common.Apperr.{
  plain, is, not_found, Error, Business, error, business, as_error, http_status_of, internal,
}
use acat_go_common.Apperr.Chain.{wrap_all}
use acat_go_common.Result.{fail_code}
use acat_go_common.Exec.{ok, err}
use acat_go_common.Satoken.Session.{new_session}
use acat_go_common.Satoken.Keys.{Config}
use acat_go_common.Satoken.Token.{Rng}
use acat_go_common.Satoken.Memory.{MemoryStore, memory_at}
use acat_go_common.Satoken.Memory.Refinement.{memory-IsHealthy}
use acat_go_common.Satoken.Logic.{Deps, logout}
use acat_go_common.Middleware.{
  AuthConfig, SessionProvider, extract_token, write_error, recover, auth, cors_headers,
}
use acat_go_common.Middleware.Http.{
  Request, envelope, Writer, fresh_writer, returned, panicked, Handler,
}
use acat_go_common.Middleware.Errors.{
  write_error-wrap_all, recover_answers, internal_business_is_200,
}
use acat_go_common.Middleware.Gate.{Agree, auth_lets_through}
use acat_go_common.Middleware.Guard.{logic_provider, token_of, logged_out_is_401, outage_is_503}
use acat_go_common.Middleware.Cors.{Denied, Wildcard, Echoed, cors_decides}

abbrev config : Config
config = record {
  token_name = "satoken";
  login_type = "login";
  timeout = pos 3600;
  active_timeout = negsuc 0;
  is_concurrent = true;
  is_share = true;
  token_style = "uuid";
}

abbrev rng_example : Rng
rng_example = record {
  uuid_new_random = ok "token-b";
  uuid_new_string = "token-b";
  read = λ i n. ok [];
}

abbrev deps : Deps MemoryStore
deps = record {
  store = memory_at (λ d. d) none (pos 0);
  marshal_session = λ s. ok s.id;
  unmarshal_session = λ raw. ok (new_session raw);
  format_value = λ v. "";
  cfg = config;
  now_ms = pos 0;
  rng = rng_example;
  new_session_id = "s1";
}

abbrev auth_config : AuthConfig MemoryStore
auth_config = record {
  provider = some (logic_provider deps);
  logic = none;
  cookie_name = "";
  cookie_only = false;
  context_hook = none;
}

abbrev cookies : String → Option String
cookies name = none

abbrev headers : String → String
headers name = if name == "satoken" then " token-a " else ""

abbrev request : Request
request = record {
  cookie = cookies;
  header = headers;
  method = "GET";
  context = record { session = none; token = ""; trace_id = "" };
}

abbrev quiet : Handler MemoryStore
quiet req w s = returned w s

-- panics where there is no session
abbrev gated : Handler MemoryStore
gated req w s = elim req.context.session [ none ↦ panicked w s | some session ↦ returned w s ]

gated_agrees : Agree quiet gated
gated_agrees req w s a = rw a.signed_in.1 refl

abbrev broken : Handler MemoryStore
broken req w s = panicked w s

takes_token : token_of auth_config (logic_provider deps) request ≡ "token-a"
unfolding extract_token trim_space
takes_token = refl

logged_out_is_401_example :
    (w : Writer) × (s : MemoryStore) × (w.status ≡ some (pos 401))
    × (w.body ≡ envelope (fail_code (pos 401) "未登录或登录已过期，请重新登录") ∷ [])
    × ((next : Handler MemoryStore)
        → auth auth_config next request fresh_writer
            (logout deps (token_of auth_config (logic_provider deps) request) []).1
          ≡ returned w s)
logged_out_is_401_example =
    logged_out_is_401 deps (memory-IsHealthy (λ d. d) (pos 0)) auth_config request [] refl
      (λ e. false≢true (ap (λ t. t == "") (sym takes_token ∙ e)))

auth_lets_through_example :
    auth auth_config quiet request fresh_writer [] ≡ auth auth_config gated request fresh_writer []
auth_lets_through_example =
    auth_lets_through auth_config quiet gated request fresh_writer [] refl gated_agrees

abbrev conflict_error : Error
conflict_error = record { http_status = pos 409; code = pos 409; message = "taken" }

write_error-wrap_all_test :
    write_error fresh_writer (wrap_all (("save: ", "") ∷ []) (error conflict_error))
    ≡ write_error fresh_writer (error conflict_error)
unfolding as_error
write_error-wrap_all_test =
    write_error-wrap_all fresh_writer (("save: ", "") ∷ []) (error conflict_error)
      (inl (conflict_error, refl))

recover_answers_test :
    (w : Writer) × (recover broken request fresh_writer [] ≡ returned w [])
    × (w.status ≡ some (pos 500))
    × (w.body ≡ [] ++ envelope (fail_code (pos 500) "服务内部错误") ∷ [])
recover_answers_test = recover_answers broken request fresh_writer fresh_writer [] [] refl refl

abbrev closed : Business
closed = record { code = pos 40901; message = "closed" }

internal_business_is_200_test :
    ((write_error fresh_writer (internal (some (business closed)) "save")).status ≡ some (pos 200))
    × (http_status_of (some (internal (some (business closed)) "save")) ≡ pos 500)
internal_business_is_200_test = internal_business_is_200 closed "save"

cors_decides_test :
    Denied (cors_headers ("*" ∷ "https://a.example" ∷ []) true "https://a.example" fresh_writer)
    ⊎ ((Wildcard
            (cors_headers ("*" ∷ "https://a.example" ∷ []) true "https://a.example" fresh_writer)
          × (contains ("*" ∷ "https://a.example" ∷ []) "*" ≡ true)
          × (true ≡ false))
        ⊎ (Echoed true "https://a.example"
              (cors_headers ("*" ∷ "https://a.example" ∷ []) true "https://a.example" fresh_writer)
            × (contains ("*" ∷ "https://a.example" ∷ []) "https://a.example" ≡ true)
            × (◌≢◌ {A = String} "https://a.example" "*")))
cors_decides_test = cors_decides ("*" ∷ "https://a.example" ∷ []) true "https://a.example"

-- a provider over a store that does not answer
abbrev unreachable : SessionProvider MemoryStore
unreachable = record {
  check_login = λ token s. (err (plain "dial tcp: refused"), s);
  get_session = λ id s. (ok none, s);
  token_name = "satoken";
}

abbrev unreachable_config : AuthConfig MemoryStore
unreachable_config = record auth_config { provider = some unreachable }

takes_token_too : token_of unreachable_config unreachable request ≡ "token-a"
unfolding extract_token trim_space
takes_token_too = refl

refused_is_other : is (plain "dial tcp: refused") not_found ≡ false
unfolding is
refused_is_other = refl

outage_is_503_test :
    (w : Writer) × (w.status ≡ some (pos 503))
    × ((next : Handler MemoryStore)
        → auth unreachable_config next request fresh_writer [] ≡ returned w [])
outage_is_503_test =
    outage_is_503 unreachable_config request unreachable [] (plain "dial tcp: refused") refl
      (λ e. false≢true (ap (λ t. t == "") (sym takes_token_too ∙ e))) refl refused_is_other
