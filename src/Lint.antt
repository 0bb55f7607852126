-- ===== src/Lint.antt =====
-- `_CppLintState` of scripts/tools/cpplint.py: the filters, the counters and the output of the
-- linter. A method returns the new state. Standard output and standard error are the lists of the
-- texts written, the last one first. The globals `_error_suppressions` and
-- `_global_error_suppressions` are fields here: the entry of the former under `None` is
-- `suppressed_lines`, those under a category are `suppressed`.
pub mod Filters
pub mod Junit
use deft_rpc.Base.{
  ℕ, zero, suc, ◌+◌, ◌-◌, ◌*◌, ◌/◌, ◌%◌, ◌^◌, ◌≤◌, ◌<◌, min, max, ◌≡◌, refl, sym, ap, ◌∙◌, ◌≢◌, ◌↔◌,
  ◌⊎◌, inl, inr, Bool, true, false, not, ◌&&◌, ◌||◌, Option, none, some, List, [], ◌∷◌, ◌++◌, map,
  reverse, append-nil, append_assoc, arith, ltb, leb, ◌==◌, if◌then◌else◌, ltb→lt, lt→ltb, leb→le,
  ==_iff, tests, Bool-cases, Option-cases, is_some, length, get_elem?, get_or, take, drop, all, any,
  keep_if, length-append, length-take, length-drop, take-append-drop, length-map, All, All-append,
}
use Prim.Native.String.{String}
use deft_rpc.Text.{Text, codes, eq, one_of, starts_with, strip, split, less}
use deft_rpc.Text.Number.{decimal}
use deft_rpc.Dict
use deft_rpc.Dict.{Dict, bump}
use deft_rpc.Categories.{default_filters}

-- The arguments of a call of `error`, and what JUnit output saves of them.
pub record Report : Type 0 where
  pub filename : Text
  pub linenum : ℕ
  pub category : Text
  pub confidence : ℕ
  pub message : Text

pub record Lint : Type 0 where
  pub verbose_level : ℕ
  pub error_count : ℕ
  pub filters : List Text
  pub filters_backup : List Text
  pub counting : Text
  pub errors_by_category : Dict ℕ
  pub quiet : Bool
  pub output_format : Text
  pub junit_errors : List Text
  pub junit_failures : List Report
  pub suppressed : Dict (List ℕ)
  pub suppressed_lines : List ℕ
  pub global_suppressed : List Text
  pub stdout : List Text
  pub stderr : List Text

-- __init__
abbrev pub init : Lint
init = record {
  verbose_level = 1;
  error_count = 0;
  filters = default_filters;
  filters_backup = default_filters;
  counting = codes "total";
  errors_by_category = [];
  quiet = false;
  output_format = codes "emacs";
  junit_errors = [];
  junit_failures = [];
  suppressed = [];
  suppressed_lines = [];
  global_suppressed = [];
  stdout = [];
  stderr = [];
}

-- The setters; three of them return the previous setting too.
unfoldable pub set_output_format : Text → Lint → Lint
set_output_format format s = record s { output_format = format }

unfoldable pub set_quiet : Bool → Lint → Lint × Bool
set_quiet quiet s = (record s { quiet = quiet }, s.quiet)

unfoldable pub set_verbose_level : ℕ → Lint → Lint × ℕ
set_verbose_level level s = (record s { verbose_level = level }, s.verbose_level)

unfoldable pub set_counting_style : Text → Lint → Lint
set_counting_style style s = record s { counting = style }

-- filt.startswith('+') or filt.startswith('-')
abbrev pub is_signed : Text → Bool
is_signed f = starts_with (codes "+") f || starts_with (codes "-") f

-- `if clean_filt: self.filters.append(clean_filt)`
append_entry : List Text → Text → List Text
append_entry fs [] = fs
append_entry fs (c ∷ w) = fs ++ (c ∷ w) ∷ []

-- The first loop of AddFilters.
append_filters : List Text → List Text → List Text
unfolding append_entry
append_filters fs [] = fs
append_filters fs (f ∷ rest) = append_filters (append_entry fs (strip f)) rest

-- The second loop: the filter that is in the ValueError it raises, if it does.
first_unsigned : List Text → Option Text
first_unsigned [] = none
first_unsigned (f ∷ fs) = if not (is_signed f) then some f else first_unsigned fs

-- AddFilters. The filters stay in the list when it raises.
unfoldable pub add_filters : Text → Lint → Lint × Option Text
unfolding append_filters first_unsigned
add_filters text s =
    let fs = append_filters s.filters (split b',' text) in
    (record s { filters = fs }, first_unsigned fs)

-- SetFilters
unfoldable pub set_filters : Text → Lint → Lint × Option Text
unfolding add_filters
set_filters text s = add_filters text (record s { filters = default_filters })

unfoldable pub backup_filters : Lint → Lint
backup_filters s = record s { filters_backup = s.filters }

unfoldable pub restore_filters : Lint → Lint
restore_filters s = record s { filters = s.filters_backup }

unfoldable pub reset_error_counts : Lint → Lint
reset_error_counts s = record s { error_count = 0; errors_by_category = [] }

-- category.split('/')[0]
head_or_empty : List Text → Text
head_or_empty [] = []
head_or_empty (w ∷ ws) = w

unfoldable pub top_level : Text → Text
unfolding head_or_empty
top_level category = head_or_empty (split b'/' category)

-- IncrementErrorCount
unfoldable pub increment_error_count : Text → Lint → Lint
unfolding top_level
increment_error_count category s =
    let counted = if eq s.counting (codes "detailed") then category else top_level category in
    let by_category =
      if one_of s.counting (codes "toplevel" ∷ codes "detailed" ∷ [])
      then bump s.errors_by_category counted
      else s.errors_by_category in
    record s { error_count = s.error_count + 1; errors_by_category = by_category }

-- The global `_quiet`, to which nothing assigns.
abbrev module_quiet : Bool
module_quiet = false

-- PrintInfo
unfoldable pub print_info : Text → Lint → Lint
print_info message s =
    if not module_quiet && not (eq s.output_format (codes "junit"))
    then record s { stdout = message ∷ s.stdout }
    else s

-- sys.stderr.write
unfoldable pub write_stderr : Text → Lint → Lint
write_stderr message s = record s { stderr = message ∷ s.stderr }

-- PrintError
unfoldable pub print_error : Text → Lint → Lint
unfolding write_stderr
print_error message s =
    if eq s.output_format (codes "junit")
    then record s { junit_errors = s.junit_errors ++ message ∷ [] }
    else write_stderr message s

-- AddJUnitFailure
unfoldable pub add_junit_failure : Report → Lint → Lint
add_junit_failure r s = record s { junit_failures = s.junit_failures ++ r ∷ [] }

-- sorted(iteritems(d)): insertion into a list that is sorted by its keys
insert_sorted : Text × ℕ → Dict ℕ → Dict ℕ
insert_sorted e [] = e ∷ []
insert_sorted e (f ∷ d) = if less f.0 e.0 then f ∷ insert_sorted e d else e ∷ f ∷ d

unfoldable pub sorted_items : Dict ℕ → Dict ℕ
unfolding insert_sorted
sorted_items [] = []
sorted_items (e ∷ d) = insert_sorted e (sorted_items d)

count_line : Text × ℕ → Text
count_line (category, n) =
    codes "Category '" ++ (category ++ (codes "' errors found: " ++ (decimal n ++ codes "\n")))

print_counts : Dict ℕ → Lint → Lint
print_counts [] s = s
print_counts (e ∷ d) s = print_counts d (print_info (count_line e) s)

-- PrintErrorCounts
unfoldable pub print_error_counts : Lint → Lint
unfolding print_counts count_line
print_error_counts s =
    let listed = print_counts (sorted_items s.errors_by_category) s in
    if ltb 0 s.error_count
    then print_info (codes "Total errors found: " ++ (decimal s.error_count ++ codes "\n")) listed
    else listed
