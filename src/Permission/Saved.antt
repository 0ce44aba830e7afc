-- ===== src/Permission/Saved.antt =====
-- permission/permission.go over satoken/logic.go and satoken/session_codec.go: codes that a service
-- puts into a session, saves, and checks when the session is read again.
use acat_go_common.Common.{
  ◌≡◌, ◌≢◌, ◌↔◌, ◌⊎◌, inl, inr, refl, sym, ap, ◌∙◌, String, true, Option, some, List, contains,
}
use acat_go_common.Common.Int.{ℤ}
use acat_go_common.Exec.{Return, ok}
use acat_go_common.Satoken.Value.{Value, strings}
use acat_go_common.Satoken.Session.{Session, get, set, string_list}
use acat_go_common.Satoken.Store.Healthy.{IsHealthy}
use acat_go_common.Satoken.Json.{Json}
use acat_go_common.Satoken.Codec.{marshal_session}
use acat_go_common.Satoken.Codec.RoundTrip.{KeptSession}
use acat_go_common.Satoken.Codec.Forms.{string_list-strings}
use acat_go_common.Satoken.Codec.Stored.{with_codec, saved_session_is_read}
use acat_go_common.Satoken.Logic.{Deps, login_id_of, get_session, save_session}
use acat_go_common.Satoken.Logic.Stored.{completed}
use acat_go_common.Permission.{Checker, Actor, is_root_session, actor_from, require_permission}
use acat_go_common.Permission.Decision.{
  Lists, lists, Grants, as_root, by_list, require_permission-Grants,
}

-- the session of a root role, or a code that is listed
abbrev pub Allows : Session → List String → String → Type 0
Allows s codes code =
    (is_root_session (some s) ≡ true) ⊎ ((code ≢ "") × (contains codes code ≡ true))

Allows-of_Lists :
    {c : Checker} {s : Session} {code : String}
    → Lists (some c) (some s) code
    → (code ≢ "") × (contains (string_list s "permissions") code ≡ true)
Allows-of_Lists (lists logic filled listed) = (filled, listed)

module _ (format : Value → String) (c : Checker) (logic : c.has_logic ≡ true) (s : Session)
    (codes : List String) (code : String) (held : string_list s "permissions" ≡ codes) where
  abbrev caller : Actor
  caller = actor_from format (some s) (some c)

  Allows-of_Grants : Grants (some caller) code → Allows s codes code
  unfolding actor_from
  Allows-of_Grants (as_root root) = inl root
  Allows-of_Grants (by_list l) =
      let (filled, listed) = Allows-of_Lists l in
      inr (filled, ap (λ held. contains held code) (sym held) ∙ listed)

  Grants-of_Allows : Allows s codes code → Grants (some caller) code
  unfolding actor_from
  Grants-of_Allows (inl root) = as_root root
  Grants-of_Allows (inr (filled, listed)) =
      by_list (lists logic filled (ap (λ held. contains held code) held ∙ listed))

  decides : require_permission (some caller) code ≡ ok tt ↔ Allows s codes code
  decides =
      let (to, from) = (require_permission-Grants (some caller) code).0 in
      ((λ e. Allows-of_Grants (to e)), (λ a. from (Grants-of_Allows a)))

-- What `SaveSession` fills in leaves the data map alone.
string_list-completed :
    {S : Type 0} (d : Deps S) (s : Session) (key : String)
    → string_list (completed d s) key ≡ string_list s key
unfolding string_list get
string_list-completed d s key = refl

is_root_session-completed :
    {S : Type 0} (d : Deps S) (s : Session)
    → is_root_session (some (completed d s)) ≡ is_root_session (some s)
unfolding is_root_session string_list get
is_root_session-completed d s = refl

module _ {S : Type 0} (print : Json → String) (parse : String → Return Json)
    (float64 : String → Option String) (d : Deps S) {view : S → String → Option String}
    {Fits : ℤ → Type 0} (h : IsHealthy d.store view Fits) (fits : Fits d.cfg.timeout) (c : Checker)
    (logic : c.has_logic ≡ true) where
  -- Codes that are set as the permissions of a session and saved decide, once `GetSession` has read
  -- the session back, what `RequirePermission` of its actor passes: a code that is not empty and is
  -- one of them, or every code if a role of the session is root. The store answers, the text of the
  -- session parses back, and the session is one that the codec keeps.
  pub saved_codes_decide :
      (base : Session) (codes : List String) (code : String) (s : S)
      → let session = set base "permissions" (strings codes) in
        let j = marshal_session (completed d session) in
        let e = with_codec print parse float64 d in
        parse (print j) ≡ ok j
        → KeptSession float64 (completed d session)
        → (read : Session) × ((get_session e
              (login_id_of d.format_value session)
              (save_session e session s).1).0
            ≡ ok (some read))
          × (require_permission (some (actor_from d.format_value (some read) (some c))) code ≡ ok tt
              ↔ Allows session codes code)
  unfolding is_root_session string_list get
  saved_codes_decide base codes code s parses kept =
      let session = set base "permissions" (strings codes) in
      let read = completed d session in
      let held =
        string_list-completed d session "permissions"
        ∙ string_list-strings base "permissions" codes in
      let (to, from) = decides d.format_value c logic read codes code held in
      (
        read,
        saved_session_is_read print parse float64 d h fits session s parses kept,
        ((λ e. to e), (λ a. from a)),
      )
