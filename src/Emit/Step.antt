-- ===== src/Emit/Step.antt =====
-- One call of `Error` in a state whose filters are signed: which fields it changes, and how.
use deft_rpc.Base.{
  ℕ, ◌+◌, ◌≡◌, refl, inl, inr, Bool, true, false, not, ◌&&◌, some, List, [], ◌∷◌, ◌++◌, append-nil,
  arith, leb, if◌then◌else◌, Bool-cases,
}
use deft_rpc.Text.{Text, codes, eq, one_of}
use deft_rpc.Dict.{get, get_zero, sum_values, sum_values-bump, get-bump}
use deft_rpc.Lint.{
  Lint, Report, increment_error_count, top_level, print_error, write_stderr, add_junit_failure,
}
use deft_rpc.Lint.Filters.{AllSigned}
use deft_rpc.Emit.{output, error, error_all}
use deft_rpc.Emit.Verdict.{should_print_lem, last_verdict}
use deft_rpc.Suppress.{is_error_suppressed}

-- The errors by category sum up to all the errors, where these are counted by category.
abbrev pub counts_categories : Lint → Bool
counts_categories s = one_of s.counting (codes "toplevel" ∷ codes "detailed" ∷ [])

abbrev pub Adds : Lint → Type 0
Adds s =
    (if counts_categories s then sum_values s.errors_by_category else s.error_count) ≡ s.error_count

-- A report is printed: the test of `should_print_lem`.
abbrev pub printed : Lint → Report → Bool
printed s r =
    not (is_error_suppressed s r.category r.linenum)
    && (leb s.verbose_level r.confidence && not (last_verdict s.filters r.category false))

pub emit : Report → Lint → Lint
emit r s = if printed s r then output r (increment_error_count r.category s) else s

abbrev pub emit_all : List Report → Lint → Lint
emit_all [] s = s
emit_all (r ∷ rs) s = emit_all rs (emit r s)

pub error-emit : (r : Report) (s : Lint) → AllSigned s.filters → error r s ≡ some (emit r s)
unfolding error emit
error-emit r s h = ground (arith, should_print_lem s r.category r.confidence r.linenum h)

-- What `Error` leaves as it is.
pub filters-emit : (r : Report) (s : Lint) → (emit r s).filters ≡ s.filters
unfolding emit output print_error write_stderr add_junit_failure increment_error_count
filters-emit r s = ground arith

pub printed-emit : (r q : Report) (s : Lint) → printed (emit r s) q ≡ printed s q
unfolding emit output print_error write_stderr add_junit_failure increment_error_count
    is_error_suppressed
printed-emit r q s = ground arith

pub counting-emit : (r : Report) (s : Lint) → (emit r s).counting ≡ s.counting
unfolding emit output print_error write_stderr add_junit_failure increment_error_count
counting-emit r s = ground arith

pub output_format-emit : (r : Report) (s : Lint) → (emit r s).output_format ≡ s.output_format
unfolding emit output print_error write_stderr add_junit_failure increment_error_count
output_format-emit r s = ground arith

pub error_all-emit_all :
    (rs : List Report) (s : Lint) → AllSigned s.filters → error_all rs s ≡ some (emit_all rs s)
unfolding error_all
error_all-emit_all [] s h = refl
error_all-emit_all (r ∷ rs) s h =
    rw (error-emit r s h) (error_all-emit_all rs (emit r s) (rw (filters-emit r s) h))

-- One report.
pub error_count-emit :
    (r : Report) (s : Lint)
    → (emit r s).error_count ≡ s.error_count + (if printed s r then 1 else 0)
unfolding emit output print_error write_stderr add_junit_failure increment_error_count
error_count-emit r s = ground arith

-- What the setting makes of the tests on it.
junit_tests :
    (c : Text)
    → c ≡ codes "junit"
    → (eq c (codes "vs7") ≡ false)
      × (eq c (codes "eclipse") ≡ false)
      × (eq c (codes "junit") ≡ true)
unfolding eq
junit_tests c h = rw h (refl, refl, refl)

pub junit_failures-emit :
    (r : Report) (s : Lint)
    → s.output_format ≡ codes "junit"
    → (emit r s).junit_failures ≡ s.junit_failures ++ (if printed s r then r ∷ [] else [])
unfolding emit output add_junit_failure increment_error_count
junit_failures-emit r s h =
    ground (arith, junit_tests s.output_format h, append-nil s.junit_failures)

errors_by_category-output :
    (r : Report) (s : Lint) → (output r s).errors_by_category ≡ s.errors_by_category
unfolding output print_error write_stderr add_junit_failure
errors_by_category-output r s = ground arith

-- What one counted error of a category adds to the count under `j`, in a style of counting.
abbrev pub tally : Text → Text → Text → ℕ
tally counting category j =
    if eq counting (codes "detailed")
    then (if eq category j then 1 else 0)
    else if eq counting (codes "toplevel")
    then (if eq (top_level category) j then 1 else 0)
    else 0

get-increment :
    (category j : Text) (s : Lint)
    → get_zero (get (increment_error_count category s).errors_by_category j)
      ≡ get_zero (get s.errors_by_category j) + tally s.counting category j
unfolding increment_error_count one_of
get-increment category j s = ground (
  arith,
  get-bump s.errors_by_category category j,
  get-bump s.errors_by_category (top_level category) j,
)

pub get-emit :
    (r : Report) (s : Lint) (j : Text)
    → get_zero (get (emit r s).errors_by_category j)
      ≡ get_zero (get s.errors_by_category j)
        + (if printed s r then tally s.counting r.category j else 0)
unfolding emit
get-emit r s j = ground (
  arith,
  errors_by_category-output r (increment_error_count r.category s),
  get-increment r.category j s,
)

Adds-increment : (category : Text) (s : Lint) → Adds s → Adds (increment_error_count category s)
unfolding increment_error_count
Adds-increment category s h = ground (
  arith,
  sum_values-bump s.errors_by_category category,
  sum_values-bump s.errors_by_category (top_level category),
)

Adds-output : (r : Report) (s : Lint) → Adds s → Adds (output r s)
unfolding output print_error write_stderr add_junit_failure
Adds-output r s h = ground arith

pub Adds-emit : (r : Report) (s : Lint) → Adds s → Adds (emit r s)
unfolding emit
Adds-emit r s h = elim (Bool-cases (printed s r)) [
  | inl e ↦ rw e (Adds-output r _ (Adds-increment r.category s h))
  | inr e ↦ rw e h
]
