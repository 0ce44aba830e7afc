-- ===== src/Db/Strict.antt =====
-- The strict mode of db/affected.go, and the error that it makes of the caller's.
use acat_go_common.Common.{
  ◌≡◌, ◌⊎◌, inl, inr, refl, String, Option, none, some, [], ◌∷◌, arith, Bool-cases,
}
use acat_go_common.Common.Int.{ℤ, pos, ltb_ℤ, ◌<ℤ◌, ◌≤ℤ◌}
use acat_go_common.Common.Text.{show_int}
use Prim.Native.String.{◌++◌}
use acat_go_common.Apperr.{
  GoError, Sentinel, is, http_status_of, code_of, wrapped, sentinel, write_not_applied,
}
use acat_go_common.Apperr.Chain.{wrap_all_classification}
use acat_go_common.Db.Affected.{
  WriteFact, semantic_or, target, require_write, require_affected, require_updated,
}

wrapped_same :
    (e : GoError) (post : String) (t : Sentinel)
    → (http_status_of (some (wrapped "" e post)) ≡ http_status_of (some e))
      × (code_of (some (wrapped "" e post)) ≡ code_of (some e))
      × (is (wrapped "" e post) t ≡ is e t)
wrapped_same e post t = wrap_all_classification (("", post) ∷ []) e t

-- An answer to the number of affected rows: none if there are some, and otherwise an error that is
-- classified as another one.
abbrev pub Answers : ℤ → GoError → Sentinel → Option GoError → Type 0
Answers affected semantic t answer =
    ((pos 0 <ℤ affected) × (answer ≡ none))
    ⊎ ((affected ≤ℤ pos 0)
        × ((e : GoError) × (answer ≡ some e)
            × (http_status_of (some e) ≡ http_status_of (some semantic))
            × (code_of (some e) ≡ code_of (some semantic))
            × (is e t ≡ is semantic t)))

require_write-Answers :
    (fact : WriteFact) (semantic : Option GoError) (t : Sentinel)
    → Answers fact.affected (semantic_or semantic) t (require_write fact semantic)
unfolding require_write
require_write-Answers fact semantic t = elim (Bool-cases (ltb_ℤ (pos 0) fact.affected)) [
  | inl hit ↦ inl (ground (arith, hit), rw hit refl)
  | inr missed ↦
      let post = ": " ++ (target fact ++ (" affected=" ++ show_int fact.affected)) in
      let same = wrapped_same (semantic_or semantic) post t in
      inr (
        ground (arith, missed),
        (wrapped "" (semantic_or semantic) post, rw missed refl, same.0, same.1, same.2),
      )
]

-- Both strict checks, `RequireAffected` and `RequireUpdated`, pass exactly if a row was affected.
-- Otherwise they give an error with the HTTP status, the code and the identity under `errors.Is` of
-- the caller's error, or of `ErrWriteNotApplied` where the caller gave none.
pub strict_checks :
    (fact : WriteFact) (semantic : GoError) (t : Sentinel)
    → Answers fact.affected semantic t (require_affected fact (some semantic))
      × Answers fact.affected semantic t (require_updated fact (some semantic))
      × Answers fact.affected (sentinel write_not_applied) t (require_affected fact none)
      × Answers fact.affected (sentinel write_not_applied) t (require_updated fact none)
unfolding require_affected require_updated
strict_checks fact semantic t = (
  require_write-Answers fact (some semantic) t,
  require_write-Answers fact (some semantic) t,
  require_write-Answers fact none t,
  require_write-Answers fact none t,
)
