-- ===== src/Satoken/Codec/Stored.antt =====
-- satoken/logic.go over satoken/session_codec.go: `SaveSession`, then `GetSession`.
use acat_go_common.Common.{◌≡◌, refl, String, Option, some}
use acat_go_common.Common.Int.{ℤ}
use acat_go_common.Exec.{Return, ok}
use acat_go_common.Satoken.Session.{Session}
use acat_go_common.Satoken.Store.Healthy.{IsHealthy}
use acat_go_common.Satoken.Json.{Json, ◌>>=◌}
use acat_go_common.Satoken.Codec.{marshal_session}
use acat_go_common.Satoken.Codec.Decode.{unmarshal_session}
use acat_go_common.Satoken.Codec.RoundTrip.{KeptSession, unmarshal_session-marshal_session}
use acat_go_common.Satoken.Logic.{Deps, login_id_of, get_session, save_session}
use acat_go_common.Satoken.Logic.Stored.{completed, get_session-save_session}

-- The operations with the codec of session_codec.go: `print` and `parse` are the text of a JSON
-- value and the value of a text.
abbrev pub with_codec :
    {S : Type 0}
    → (Json → String)
    → (String → Return Json)
    → (String → Option String)
    → Deps S
    → Deps S
with_codec print parse float64 d = record d {
  marshal_session = λ s. ok (print (marshal_session s));
  unmarshal_session = λ raw. parse raw >>= unmarshal_session float64;
}

module _ {S : Type 0} (print : Json → String) (parse : String → Return Json)
    (float64 : String → Option String) (d : Deps S) {view : S → String → Option String}
    {Fits : ℤ → Type 0} (h : IsHealthy d.store view Fits) (fits : Fits d.cfg.timeout) where
  -- Where the text that is printed for the session parses back, the store answers and the timeout
  -- fits it, `GetSession` after `SaveSession` returns the session that was saved, with its empty
  -- id, login type and type filled in, if that session is one that the codec keeps.
  pub saved_session_is_read :
      (session : Session) (s : S)
      → let j = marshal_session (completed d session) in
        parse (print j) ≡ ok j
        → KeptSession float64 (completed d session)
        → let e = with_codec print parse float64 d in
          (get_session e (login_id_of d.format_value session) (save_session e session s).1).0
          ≡ ok (some (completed d session))
  saved_session_is_read session s parses kept =
      let done = completed d session in
      get_session-save_session (with_codec print parse float64 d) h fits session
        (print (marshal_session done)) done refl
        (rw (parses, unmarshal_session-marshal_session float64 done kept)) s
