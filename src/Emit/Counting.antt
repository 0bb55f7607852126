-- ===== src/Emit/Counting.antt =====
-- The counters of errors while the reports of a check are emitted.
use deft_rpc.Base.{
  ℕ, ◌+◌, ◌≡◌, refl, sym, ap, ◌∙◌, some, List, [], ◌∷◌, ◌++◌, append-nil, append_assoc, arith,
  if◌then◌else◌, length,
}
use deft_rpc.Text.{Text, codes}
use deft_rpc.Dict.{get, get_zero}
use deft_rpc.Lint.{Lint, Report}
use deft_rpc.Lint.Filters.{AllSigned}
use deft_rpc.Emit.{error_all}
use deft_rpc.Emit.Step.{
  printed, emit, emit_all, Adds, printed-emit, counting-emit, output_format-emit,
  error_all-emit_all, error_count-emit, junit_failures-emit, get-emit, Adds-emit, tally,
}

-- The reports that are printed.
abbrev pub shown : Lint → List Report → List Report
shown s [] = []
shown s (r ∷ rs) = (if printed s r then r ∷ [] else []) ++ shown s rs

shown-emit : (r : Report) (s : Lint) (rs : List Report) → shown (emit r s) rs ≡ shown s rs
shown-emit r s [] = refl
shown-emit r s (q ∷ rs) = rw (printed-emit r q s, shown-emit r s rs)

-- What the reports add to the count under `j`, in a style of counting.
abbrev pub tallies : Text → Text → List Report → ℕ
tallies counting j [] = 0
tallies counting j (r ∷ rs) = tally counting r.category j + tallies counting j rs

error_count-emit_all :
    (rs : List Report) (s : Lint)
    → (emit_all rs s).error_count ≡ s.error_count + length (shown s rs)
error_count-emit_all [] s = omega arith
error_count-emit_all (r ∷ rs) s = ground (
  arith,
  error_count-emit_all rs (emit r s),
  error_count-emit r s,
  shown-emit r s rs,
  ap length (shown-emit r s rs),
)

junit_failures-emit_all :
    (rs : List Report) (s : Lint)
    → s.output_format ≡ codes "junit"
    → (emit_all rs s).junit_failures ≡ s.junit_failures ++ shown s rs
junit_failures-emit_all [] s h = sym (append-nil s.junit_failures)
junit_failures-emit_all (r ∷ rs) s h =
    junit_failures-emit_all rs (emit r s) (output_format-emit r s ∙ h)
    ∙ rw (shown-emit r s rs, junit_failures-emit r s h) (append_assoc s.junit_failures _ _)

get-emit_all :
    (rs : List Report) (s : Lint) (j : Text)
    → get_zero (get (emit_all rs s).errors_by_category j)
      ≡ get_zero (get s.errors_by_category j) + tallies s.counting j (shown s rs)
get-emit_all [] s j = omega arith
get-emit_all (r ∷ rs) s j = ground (
  arith,
  get-emit_all rs (emit r s) j,
  counting-emit r s,
  get-emit r s j,
  ap (tallies s.counting j) (shown-emit r s rs),
)

Adds-emit_all : (rs : List Report) (s : Lint) → Adds s → Adds (emit_all rs s)
Adds-emit_all [] s h = h
Adds-emit_all (r ∷ rs) s h = Adds-emit_all rs (emit r s) (Adds-emit r s h)

-- From a state with signed filters, whatever the style of counting, every list of reports is emitted
-- with no AssertionError, the error count grows by the number of the reports that are printed, and
-- the count under a text by the number of those of which the style counts it: under `detailed` the
-- category, under `toplevel` its first part, under any other style nothing.
pub error_all_counts :
    (rs : List Report) (s : Lint) (j : Text)
    → AllSigned s.filters
    → (t : Lint) × (error_all rs s ≡ some t)
      × (t.error_count ≡ s.error_count + length (shown s rs))
      × (get_zero (get t.errors_by_category j)
          ≡ get_zero (get s.errors_by_category j) + tallies s.counting j (shown s rs))
error_all_counts rs s j signed =
    (emit_all rs s, error_all-emit_all rs s signed, error_count-emit_all rs s, get-emit_all rs s j)

-- Counted by category or by its first part, the categories always sum up to the error count.
pub error_all-Adds :
    (rs : List Report) (s : Lint)
    → AllSigned s.filters
    → Adds s
    → (t : Lint) × (error_all rs s ≡ some t) × Adds t
error_all-Adds rs s signed h = (emit_all rs s, error_all-emit_all rs s signed, Adds-emit_all rs s h)

-- For JUnit exactly the printed reports are saved, in the order of the calls.
pub error_all_junit :
    (rs : List Report) (s : Lint)
    → AllSigned s.filters
    → s.output_format ≡ codes "junit"
    → (t : Lint) × (error_all rs s ≡ some t) × (t.junit_failures ≡ s.junit_failures ++ shown s rs)
error_all_junit rs s signed h =
    (emit_all rs s, error_all-emit_all rs s signed, junit_failures-emit_all rs s h)
