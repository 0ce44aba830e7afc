-- ===== src/Mysqlx/Arity.antt =====
-- mysqlx/mysqlx.go: a statement has as many question marks as arguments.
use acat_go_common.Common.{
  List-cases, ◌≡◌, refl, sym, ap, ◌∙◌, ℕ, zero, suc, ◌+◌, String, false, Option, none, some, List,
  [], ◌∷◌, ◌++◌, map, length, length-append, All, ◌==◌, ◌||◌, Bool-cases, Option-cases, inl, inr,
  arith,
}
use acat_go_common.Common.Int.{ℤ, pos, leb_ℤ}
use acat_go_common.Mysqlx.{
  SqlValue, repeat, placeholders, placeholders_compact, append_limit_args, append_limit_comma, text,
}
use acat_go_common.Mysqlx.Statements.{
  Field, inserted, updated, columns, values, Statement, insert_statement, assignments, update_text,
  version_args, update_statement,
}
use acat_go_common.Mysqlx.Marks.{
  marks, marks-append, marks-repeat, marks-trim_suffix, total, marks-join,
}
use Prim.Native.String as S

-- As many marks as arguments, where there is a statement.
abbrev pub IsFitting : Option Statement → Type 0
IsFitting none = Unit
IsFitting (some (query, args)) = marks query ≡ length args

-- a column's name holds no mark
abbrev pub IsPlain : Field → Type 0
IsPlain f = marks f.column ≡ 0

abbrev PlainColumn : String × SqlValue → Type 0
PlainColumn e = marks e.0 ≡ 0

-- neither the key nor the flag of logical deletion
abbrev pub IsWritable : String × SqlValue → Type 0
IsWritable e = ((e.0 == "id") ≡ false) × ((e.0 == "is_deleted") ≡ false)

inserted-Plain : (fields : List Field) → All IsPlain fields → All PlainColumn (inserted fields)
unfolding inserted
inserted-Plain [] h = tt
inserted-Plain (f ∷ fs) h = elim (Option-cases f.value) [
  | inl e ↦ rw (inserted, e) (inserted-Plain fs h.1)
  | inr (v, e) ↦ rw (inserted, e) (h.0, inserted-Plain fs h.1)
]

updated-Plain : (fields : List Field) → All IsPlain fields → All PlainColumn (updated fields)
unfolding updated
updated-Plain [] h = tt
updated-Plain (f ∷ fs) h = elim (Option-cases f.value) [
  | inl e ↦ rw (updated, e) (updated-Plain fs h.1)
  | inr (v, e) ↦ elim (Bool-cases (f.column == "id" || f.column == "is_deleted")) [
    | inl q ↦ rw (updated, e, q) (updated-Plain fs h.1)
    | inr q ↦ rw (updated, e, q) (h.0, updated-Plain fs h.1)
  ]
]

updated-IsWritable : (fields : List Field) → All IsWritable (updated fields)
unfolding updated
updated-IsWritable [] = tt
updated-IsWritable (f ∷ fs) = elim (Option-cases f.value) [
  | inl e ↦ rw (updated, e) (updated-IsWritable fs)
  | inr (v, e) ↦ elim (Bool-cases (f.column == "id" || f.column == "is_deleted")) [
    | inl q ↦ rw (updated, e, q) (updated-IsWritable fs)
    | inr q ↦ rw (updated, e, q) ((ground (arith, q), ground (arith, q)), updated-IsWritable fs)
  ]
]

total-columns : (kept : List (String × SqlValue)) → All PlainColumn kept → total (columns kept) ≡ 0
total-columns [] h = refl
total-columns (e ∷ es) h = omega (arith, h.0, total-columns es h.1)

total_marks : (kept : List (String × SqlValue)) → total (map (λ _. "?") kept) ≡ length kept
total_marks [] = refl
total_marks (e ∷ es) = omega (arith, total_marks es)

length-values : (kept : List (String × SqlValue)) → length (values kept) ≡ length kept
length-values [] = refl
length-values (e ∷ es) = ap suc (length-values es)

insert_fits :
    (table : String) (kept : List (String × SqlValue))
    → marks table ≡ 0
    → All PlainColumn kept
    → IsFitting (insert_statement table kept)
unfolding insert_statement
insert_fits table [] t h = tt
insert_fits table (e ∷ es) t h =
    let kept = e ∷ es in
    simp
      (
        marks-append,
        t,
        marks-join ", " (columns kept) refl,
        marks-join ", " (map (λ _. "?") kept) refl,
        total-columns kept h,
        total_marks kept,
        length-values kept,
      )
      (omega arith)

total-append : (xs ys : List String) → total (xs ++ ys) ≡ total xs + total ys
total-append [] ys = omega arith
total-append (x ∷ xs) ys = omega (arith, total-append xs ys)

total_set :
    (kept : List (String × SqlValue))
    → All PlainColumn kept
    → total (map (λ e. S.◌++◌ e.0 " = ?") kept) ≡ length kept
total_set [] h = refl
total_set (e ∷ es) h = omega (arith, marks-append e.0 " = ?", h.0, total_set es h.1)

total-assignments :
    (kept : List (String × SqlValue)) (version : Option ℤ)
    → All PlainColumn kept
    → total (assignments kept version) ≡ length kept
unfolding assignments
total-assignments kept none h =
    omega (arith, total-append (map (λ e. S.◌++◌ e.0 " = ?") kept) [], total_set kept h)
total-assignments kept (some v) h = omega (
  arith,
  total-append (map (λ e. S.◌++◌ e.0 " = ?") kept) ("version = version + 1" ∷ []),
  total_set kept h,
)

update_fits :
    (table id : String) (kept : List (String × SqlValue)) (version : Option ℤ)
    → marks table ≡ 0
    → All PlainColumn kept
    → IsFitting (update_statement table id kept version)
unfolding update_statement
update_fits table id kept version t h = elim (List-cases (assignments kept version)) [
  | inl e ↦ rw (update_statement, e) tt
  | inr (s, ss, e) ↦
      rw (update_statement, e)
        (arguments s ss version (ap total (sym e) ∙ total-assignments kept version h))
]
  where
    arguments :
        (s : String) (ss : List String) (version : Option ℤ)
        → total (s ∷ ss) ≡ length kept
        → marks (update_text table (s ∷ ss) version)
          ≡ length (values kept ++ some (text id) ∷ version_args version)
    arguments s ss none k =
        simp (marks-append, t, marks-join ", " (s ∷ ss) refl, k, length-append, length-values kept)
          (omega arith)
    arguments s ss (some v) k =
        simp (marks-append, t, marks-join ", " (s ∷ ss) refl, k, length-append, length-values kept)
          (omega arith)

limit_args :
    (query : String) (limit offset : ℤ)
    → marks (append_limit_args query limit offset).0
      ≡ marks query + length (append_limit_args query limit offset).1
unfolding append_limit_args
limit_args query limit offset = ground (arith, marks-append query " LIMIT ? OFFSET ?")

limit_comma :
    (query : String) (limit offset : ℤ)
    → marks (append_limit_comma query limit offset).0
      ≡ marks query + length (append_limit_comma query limit offset).1
unfolding append_limit_comma
limit_comma query limit offset =
    ground (arith, marks-append query " LIMIT ?", marks-append query " LIMIT ?, ?")

-- Where the table's and the columns' names hold no question mark, the statements of `Insert` and
-- `Update` have as many as they have arguments, and `Update` sets neither the key nor the flag of
-- logical deletion.
pub statements_fit :
    (table id : String) (fields : List Field) (version : Option ℤ)
    → marks table ≡ 0
    → All IsPlain fields
    → IsFitting (insert_statement table (inserted fields))
      × IsFitting (update_statement table id (updated fields) version)
      × All IsWritable (updated fields)
statements_fit table id fields version t h = (
  insert_fits table (inserted fields) t (inserted-Plain fields h),
  update_fits table id (updated fields) version t (updated-Plain fields h),
  updated-IsWritable fields,
)

over_zero : (n : ℕ) → leb_ℤ (pos (suc n)) (pos 0) ≡ false
over_zero n = ground arith

spaced : (n : ℕ) → marks (placeholders (pos n)) ≡ n
unfolding placeholders
spaced zero = refl
spaced (suc n) =
    rw (placeholders, over_zero n)
      (marks-trim_suffix (repeat "?, " (suc n)) ", " refl ∙ marks-repeat "?, " (suc n) refl)

compact : (n : ℕ) → marks (placeholders_compact (pos n)) ≡ n
unfolding placeholders_compact
compact zero = refl
compact (suc n) =
    rw (placeholders_compact, over_zero n)
      (marks-trim_suffix (repeat "?," (suc n)) "," refl ∙ marks-repeat "?," (suc n) refl)

-- A list of placeholders has as many question marks as it is asked for, in both spellings, and a
-- limit adds as many marks as arguments.
pub placeholders_fit :
    (n : ℕ) (query : String) (limit offset : ℤ)
    → (marks (placeholders (pos n)) ≡ n)
      × (marks (placeholders_compact (pos n)) ≡ n)
      × (marks (append_limit_args query limit offset).0
          ≡ marks query + length (append_limit_args query limit offset).1)
      × (marks (append_limit_comma query limit offset).0
          ≡ marks query + length (append_limit_comma query limit offset).1)
placeholders_fit n query limit offset =
    (spaced n, compact n, limit_args query limit offset, limit_comma query limit offset)
