-- ===== src/Result/Envelope.antt =====
-- The envelopes of result/result.go: what `success` says of the code.
use acat_go_common.Common.{◌≡◌, ◌≢◌, ◌↔◌, refl, String, arith}
use acat_go_common.Common.Int.{ℤ, pos}
use acat_go_common.Result.{Result, ok_result, ok_message, fail, fail_code, is_success}

-- `success` is `is_success`.
abbrev pub IsConsistent {ℓ} : {T : Type ℓ} → Result T → Type 0
IsConsistent r = r.success ≡ is_success r

-- `OK`, `OKMessage` and `Fail` keep `success` equal to the code being 0.
constructors-IsConsistent {ℓ} :
    {T : Type ℓ} (x : T) (message : String)
    → IsConsistent (ok_result x)
      × IsConsistent (ok_message message x)
      × IsConsistent (fail {T = T} message)
unfolding ok_result ok_message fail is_success
constructors-IsConsistent x message = (refl, refl, refl)

-- `FailCode` keeps `success` equal to the code being 0 exactly for the codes other than 0: a
-- failure with code 0 says `success=false` while `IsSuccess` holds.
pub fail_code-IsConsistent {ℓ} :
    (T : Type ℓ) (code : ℤ) (message : String)
    → IsConsistent (fail_code {T = T} code message) ↔ (code ≢ pos 0)
unfolding fail_code is_success
fail_code-IsConsistent T code message = ground arith
