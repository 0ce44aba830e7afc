-- ===== src/Apperr/Tests.antt =====
-- Error chains at concrete inputs.
use acat_go_common.Common.{◌≡◌, ◌⊎◌, refl, String, none, some, List, [], ◌∷◌}
use acat_go_common.Common.Int.{pos}
use acat_go_common.Apperr.{
  GoError, Error, sentinel, not_found, wrapped, joined, error_caused, as_error, is, http_status_of,
  code_of,
}
use acat_go_common.Apperr.Chain.{
  Visits, Carries, wrap_all, wrap_all_classification, as_error_decides,
}

abbrev conflict_error : Error
conflict_error = record { http_status = pos 409; code = pos 409; message = "taken" }

abbrev deep_error : GoError
deep_error =
    joined (sentinel not_found)
      (wrapped "save: " (error_caused conflict_error (sentinel not_found)) "")

abbrev two_layers : List (String × String)
two_layers = ("outer: ", "") ∷ ("inner: ", " (retry)") ∷ []

wrap_all_classification_test :
    (http_status_of (some (wrap_all two_layers deep_error)) ≡ http_status_of (some deep_error))
    × (code_of (some (wrap_all two_layers deep_error)) ≡ code_of (some deep_error))
    × (is (wrap_all two_layers deep_error) not_found ≡ is deep_error not_found)
wrap_all_classification_test = wrap_all_classification two_layers deep_error not_found

as_error_decides_example :
    ((e : Error) × (as_error deep_error ≡ some e)
      × ((t : GoError) × Visits deep_error t × Carries t e))
    ⊎ ((as_error deep_error ≡ none)
        × ((t : GoError) (e : Error) → ¬ (Visits deep_error t × Carries t e)))
as_error_decides_example = as_error_decides deep_error

finds_conflict : as_error deep_error ≡ some conflict_error
unfolding as_error
finds_conflict = refl
