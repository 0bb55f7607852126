-- ===== src/Tests/Emission.antt =====
-- The state of the linter, NOLINT comments and the matcher.
use deft_rpc.Base.{
  ℕ, ◌+◌, ◌≡◌, refl, ◌↔◌, true, false, not, ◌&&◌, ◌||◌, none, some, List, [], ◌∷◌, ◌++◌, arith, leb,
  length,
}
use deft_rpc.Text.{Text, codes, eq, starts_with, ends_with, one_of, strip, split}
use deft_rpc.Dict.{has_line, add_line, get, get_zero}
use deft_rpc.Lint.{
  Lint, Report, init, add_filters, increment_error_count, print_error, write_stderr,
}
use deft_rpc.Lint.Filters.{AllSigned, entries, add_filters_lem}
use deft_rpc.Regex.{search}
use deft_rpc.Suppress.{parse_nolint_suppressions, is_error_suppressed, nolint_pattern}
use deft_rpc.Suppress.Laws.{parse_nolint_lem, comment}
use deft_rpc.Emit.{should_print_error, error_all}
use deft_rpc.Emit.Verdict.{should_print_last_filter, should_print_lem, last_verdict}
use deft_rpc.Emit.Step.{Adds}
use deft_rpc.Emit.Counting.{shown, tallies, error_all_counts, error_all-Adds, error_all_junit}
use deft_rpc.Text.Number.{decimal}

abbrev nolint_line : Text
nolint_line = codes "int x;  // NOLINT(runtime/int)"

-- NOLINT on line 3 suppresses its category there, and nothing on line 4.
nolint_run :
    (is_error_suppressed
        (parse_nolint_suppressions (codes "a.cc") nolint_line 3 init).0
        (codes "runtime/int")
        3
      ≡ true)
    × (is_error_suppressed
          (parse_nolint_suppressions (codes "a.cc") nolint_line 3 init).0
          (codes "runtime/int")
          4
        ≡ false)
unfolding parse_nolint_suppressions search is_error_suppressed eq starts_with ends_with one_of
    has_line add_line
nolint_run = (refl, refl)

parse_nolint_lem_example :
    is_error_suppressed
      (parse_nolint_suppressions (codes "a.cc") nolint_line 3 init).0
      (codes "runtime/int")
      3
    ≡ (comment (search nolint_pattern nolint_line) 3 (codes "runtime/int") 3
        || is_error_suppressed init (codes "runtime/int") 3)
parse_nolint_lem_example =
    parse_nolint_lem (codes "a.cc") nolint_line 3 init (codes "runtime/int") 3

abbrev detailed : Lint
detailed = record init { counting = codes "detailed" }

abbrev junit : Lint
junit = record init { output_format = codes "junit" }

abbrev report : Text → ℕ → Report
report category linenum = record {
  filename = codes "a.cc";
  linenum = linenum;
  category = category;
  confidence = 5;
  message = codes "m";
}

-- The default filter excludes the second report.
abbrev reports : List Report
reports = report (codes "build/include") 1 ∷ report (codes "build/include_alpha") 2 ∷ []

init-AllSigned : AllSigned init.filters
unfolding starts_with
init-AllSigned = (refl, tt)

shown-reports : shown detailed reports ≡ report (codes "build/include") 1 ∷ []
unfolding starts_with is_error_suppressed has_line one_of
shown-reports = refl

emitted : error_all reports init ≡ error_all (report (codes "build/include") 1 ∷ []) init
unfolding error_all starts_with is_error_suppressed has_line one_of eq decimal increment_error_count
    print_error write_stderr
emitted = refl

error_all_counts_example :
    (t : Lint) × (error_all reports detailed ≡ some t)
    × (t.error_count ≡ detailed.error_count + length (shown detailed reports))
    × (get_zero (get t.errors_by_category (codes "build/include"))
        ≡ get_zero (get detailed.errors_by_category (codes "build/include"))
          + tallies detailed.counting (codes "build/include") (shown detailed reports))
error_all_counts_example = error_all_counts reports detailed (codes "build/include") init-AllSigned

init-Adds : Adds detailed
unfolding one_of
init-Adds = refl

error_all-Adds_example : (t : Lint) × (error_all reports detailed ≡ some t) × Adds t
error_all-Adds_example = error_all-Adds reports detailed init-AllSigned init-Adds

error_all_junit_example :
    (t : Lint) × (error_all reports junit ≡ some t)
    × (t.junit_failures ≡ junit.junit_failures ++ shown junit reports)
error_all_junit_example = error_all_junit reports junit init-AllSigned refl

should_print_lem_example :
    should_print_error init (codes "build/include_alpha") 5 1
    ≡ some (
        not (is_error_suppressed init (codes "build/include_alpha") 1)
        && (leb init.verbose_level 5
            && not (last_verdict init.filters (codes "build/include_alpha") false)))
should_print_lem_example = should_print_lem init (codes "build/include_alpha") 5 1 init-AllSigned

abbrev overriding : Lint
overriding = record init {
  filters = codes "-build" ∷ codes "+build/include" ∷ codes "-whitespace" ∷ [];
}

overriding-AllSigned : AllSigned overriding.filters
unfolding starts_with
overriding-AllSigned = (refl, (refl, (refl, tt)))

should_print_last_filter_example :
    should_print_error overriding (codes "build/include") 1 7
    ≡ some (not (starts_with (codes "-") (codes "+build/include")))
unfolding starts_with is_error_suppressed has_line one_of
should_print_last_filter_example =
    should_print_last_filter overriding (codes "build/include") 1 7 (codes "-build" ∷ [])
      (codes "-whitespace" ∷ []) (codes "+build/include") overriding-AllSigned refl refl (refl, tt)
      refl (omega arith)

add_filters_lem_example :
    ((add_filters (codes "+a, -b,,c") init).0.filters
      ≡ init.filters ++ entries (split b',' (codes "+a, -b,,c")))
    × ((add_filters (codes "+a, -b,,c") init).1 ≡ none
        ↔ AllSigned (add_filters (codes "+a, -b,,c") init).0.filters)
add_filters_lem_example = add_filters_lem (codes "+a, -b,,c") init

add_filters_run : (add_filters (codes "+a, -b,,c") init).1 ≡ some (codes "c")
unfolding add_filters starts_with strip split
add_filters_run = refl
