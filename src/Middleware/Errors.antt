-- ===== src/Middleware/Errors.antt =====
-- What `WriteError` and `Recover` of middleware/middleware.go answer.
use acat_go_common.Common.{
  ◌≡◌, ◌⊎◌, inl, inr, refl, String, Option, none, some, List, [], ◌∷◌, ◌++◌, Option-cases,
}
use acat_go_common.Common.Int.{ℤ, pos}
use acat_go_common.Apperr.{
  GoError, not_found, Error, Business, as_error, is_business, http_status_of, code_of, internal,
  business,
}
use acat_go_common.Apperr.Chain.{
  wrap_all, as_error-wrap_all, is_business-wrap_all, wrap_all_classification,
}
use acat_go_common.Result.{Result, fail_code}
use acat_go_common.Middleware.{
  write_error, write_error_of, write_semantic, write_result, recover, message_of,
}
use acat_go_common.Middleware.Http.{
  Request, envelope, Writer, set_header, write_header, write_body, fresh_writer, returned, panicked,
  Handler,
}

-- The response says what the errors of the package carry, and not the text of a chain.
abbrev pub IsTyped : GoError → Type 0
IsTyped e = ((a : Error) × (as_error e ≡ some a)) ⊎ ((b : Business) × (is_business e ≡ some b))

semantic-wrap_all :
    (w : Writer) (layers : List (String × String)) (e : GoError) (a : Error)
    → as_error e ≡ some a
    → write_semantic w (wrap_all layers e) ≡ write_semantic w e
semantic-wrap_all w layers e a h =
    let same = wrap_all_classification layers e not_found in
    rw (same.1, same.0, as_error-wrap_all, h)

-- Wrapping an error of the package in any number of `%w` layers leaves the response as it was:
-- status, headers and body.
pub write_error-wrap_all :
    (w : Writer) (layers : List (String × String)) (e : GoError)
    → IsTyped e
    → write_error w (wrap_all layers e) ≡ write_error w e
unfolding write_error
write_error-wrap_all w layers e t = rw is_business-wrap_all (elim (Option-cases (is_business e)) [
  | inr (b, of_business) ↦ rw of_business
  | inl other ↦ rw other (elim t [
    | inl (a, of_error) ↦ semantic-wrap_all w layers e a of_error
    | inr (b, of_business) ↦ absurd (cc (other, of_business))
  ])
])

-- the envelope that `WriteError` writes
abbrev envelope_of : GoError → Option Business → Result String
envelope_of e none = fail_code (code_of (some e)) (message_of e (as_error e))
envelope_of e (some b) = fail_code b.code b.message

abbrev status_of : GoError → Option Business → ℤ
status_of e none = http_status_of (some e)
status_of e (some b) = pos 200

writes_of :
    (w : Writer) (e : GoError) (b : Option Business)
    → w.status ≡ none
    → ((write_error_of w e b).status ≡ some (status_of e b))
      × ((write_error_of w e b).body ≡ w.body ++ envelope (envelope_of e b) ∷ [])
unfolding write_result write_body write_header set_header
writes_of w e none h = (rw h, rw h)
writes_of w e (some b) h = (rw h, rw h)

-- Where nothing is written yet, `Recover` answers a panic with status 500 and one envelope, keeps
-- what the handler did to the state, and never panics itself.
pub recover_answers :
    {S : Type 0} (next : Handler S) (req : Request) (w w' : Writer) (s s' : S)
    → next req w s ≡ panicked w' s'
    → w'.status ≡ none
    → (w'' : Writer) × (recover next req w s ≡ returned w'' s')
      × (w''.status ≡ some (pos 500))
      × (w''.body ≡ w'.body ++ envelope (fail_code (pos 500) "服务内部错误") ∷ [])
unfolding recover
recover_answers next req w w' s s' fails fresh =
    let e = internal none "服务内部错误" in
    let written = writes_of w' e none fresh in
    (
      write_error w' e,
      rw (recover, fails),
      unfold write_error internal in written.0,
      unfold write_error internal in written.1,
    )

-- `WriteError` of a business error that is the cause of an `Internal` answers HTTP 200, while the
-- status of that error is 500.
pub internal_business_is_200 :
    (b : Business) (m : String)
    → ((write_error fresh_writer (internal (some (business b)) m)).status ≡ some (pos 200))
      × (http_status_of (some (internal (some (business b)) m)) ≡ pos 500)
unfolding write_error internal http_status_of
internal_business_is_200 b m = (refl, refl)
