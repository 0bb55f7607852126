-- ===== src/Emit.antt =====
-- `_ShouldPrintError` and `Error` of scripts/tools/cpplint.py: whether a report is printed, and what
-- it does to the state of the linter.
pub mod Verdict
pub mod Step
pub mod Counting
use deft_rpc.Base.{
  ℕ, zero, suc, ◌+◌, ◌-◌, ◌*◌, ◌/◌, ◌%◌, ◌^◌, ◌≤◌, ◌<◌, min, max, ◌≡◌, refl, sym, ap, ◌∙◌, ◌≢◌, ◌↔◌,
  ◌⊎◌, inl, inr, Bool, true, false, not, ◌&&◌, ◌||◌, Option, none, some, List, [], ◌∷◌, ◌++◌, map,
  reverse, append-nil, append_assoc, arith, ltb, leb, ◌==◌, if◌then◌else◌, ltb→lt, lt→ltb, leb→le,
  ==_iff, tests, Bool-cases, Option-cases, is_some, length, get_elem?, get_or, take, drop, all, any,
  keep_if, length-append, length-take, length-drop, take-append-drop, length-map, All, All-append,
}
use deft_rpc.Text.{Text, codes, eq, one_of, starts_with}
use deft_rpc.Text.Number.{decimal}
use deft_rpc.Lint.{
  Lint, Report, increment_error_count, print_error, write_stderr, add_junit_failure,
}
use deft_rpc.Suppress.{is_error_suppressed}

-- The filter with its sign cut off stands at the beginning of the category.
abbrev pub applies : Text → Text → Bool
applies f category = starts_with (drop 1 f) category

-- The loop over the filters; `none` is the AssertionError.
filter_verdict : List Text → Text → Bool → Option Bool
filter_verdict [] category is_filtered = some is_filtered
filter_verdict (f ∷ fs) category is_filtered =
    let after_minus =
      filter_verdict fs category (if applies f category then true else is_filtered) in
    let after_plus =
      filter_verdict fs category (if applies f category then false else is_filtered) in
    if starts_with (codes "-") f
    then after_minus
    else if starts_with (codes "+") f
    then after_plus
    else none

negate : Option Bool → Option Bool
negate none = none
negate (some b) = some (not b)

-- _ShouldPrintError
unfoldable pub should_print_error : Lint → Text → ℕ → ℕ → Option Bool
unfolding filter_verdict negate
should_print_error s category confidence linenum =
    if is_error_suppressed s category linenum
    then some false
    else if ltb confidence s.verbose_level
    then some false
    else negate (filter_verdict s.filters category false)

-- The line for each output format.
vs7_line : Report → Text
vs7_line r =
    r.filename
    ++ (codes "("
        ++ (decimal r.linenum
            ++ (codes "): error cpplint: ["
                ++ (r.category
                    ++ (codes "] "
                        ++ (r.message ++ (codes " [" ++ (decimal r.confidence ++ codes "]\n"))))))))

eclipse_line : Report → Text
eclipse_line r =
    r.filename
    ++ (codes ":"
        ++ (decimal r.linenum
            ++ (codes ": warning: "
                ++ (r.message
                    ++ (codes "  ["
                        ++ (r.category
                            ++ (codes "] [" ++ (decimal r.confidence ++ codes "]\n"))))))))

emacs_line : Report → Text
emacs_line r =
    r.filename
    ++ (codes ":"
        ++ (decimal r.linenum
            ++ (codes ":  "
                ++ (r.message
                    ++ (codes "  ["
                        ++ (r.category
                            ++ (codes "] [" ++ (decimal r.confidence ++ codes "]\n"))))))))

-- What `Error` does with a report that it prints.
output : Report → Lint → Lint
unfolding vs7_line eclipse_line emacs_line
output r s =
    if eq s.output_format (codes "vs7")
    then print_error (vs7_line r) s
    else if eq s.output_format (codes "eclipse")
    then write_stderr (eclipse_line r) s
    else if eq s.output_format (codes "junit")
    then add_junit_failure r s
    else write_stderr (emacs_line r) s

print_if : Option Bool → Report → Lint → Option Lint
unfolding output
print_if none r s = none
print_if (some true) r s = some (output r (increment_error_count r.category s))
print_if (some false) r s = some s

-- Error; `none` is the AssertionError.
unfoldable pub error : Report → Lint → Option Lint
unfolding print_if should_print_error
error r s = print_if (should_print_error s r.category r.confidence r.linenum) r s

after : Option Lint → (Lint → Option Lint) → Option Lint
after none f = none
after (some s) f = f s

-- The reports of a check, in the order of its calls of `error`.
unfoldable pub error_all : List Report → Lint → Option Lint
unfolding error after
error_all [] s = some s
error_all (r ∷ rs) s = after (error r s) (error_all rs)
