-- ===== src/Suppress/Laws.antt =====
-- What a NOLINT comment suppresses.
use deft_rpc.Base.{
  ℕ, ◌≡◌, refl, inl, inr, Bool, false, ◌&&◌, ◌||◌, Option, none, some, arith, ◌==◌, Bool-cases,
}
use deft_rpc.Text.{Text, codes, eq, one_of, starts_with, ends_with}
use deft_rpc.Dict.{has_line, mem, has_line-add_line, mem_known}
use deft_rpc.Categories.{error_categories}
use deft_rpc.Lint.{Lint}
use deft_rpc.Regex.{search, Found, group_of}
use deft_rpc.Suppress.{
  nolint_pattern, suppress_line, suppress, inner, suppress_matched, is_error_suppressed,
  reset_nolint_suppressions, parse_nolint_suppressions, suppressed_line, parse_found,
}

-- What the second group of a NOLINT comment about line `line` covers: with no category, or `(*)`,
-- every category; with a known one, that one.
abbrev pub covers : Option Text → ℕ → Text → ℕ → Bool
covers none line category linenum = linenum == line
covers (some w) line category linenum =
    linenum == line
    && (eq w (codes "(*)")
        || (starts_with (codes "(") w
            && (ends_with (codes ")") w
                && (one_of (inner w) error_categories && eq (inner w) category))))

suppress_line_lem :
    (line m : ℕ) (category : Text) (s : Lint)
    → is_error_suppressed (suppress_line line s) category m
      ≡ (m == line || is_error_suppressed s category m)
unfolding is_error_suppressed suppress_line
suppress_line_lem line m category s = elim (Bool-cases (mem line s.suppressed_lines)) [
  | inl old ↦ rw old (ground (arith, mem_known line m s.suppressed_lines old))
  | inr new ↦ rw new (ground arith)
]

suppress_lem :
    (known category : Text) (line m : ℕ) (s : Lint)
    → is_error_suppressed (suppress known line s) category m
      ≡ ((eq known category && m == line) || is_error_suppressed s category m)
unfolding is_error_suppressed suppress
suppress_lem known category line m s =
    ground (arith, has_line-add_line s.suppressed known category line m)

-- After a NOLINT comment an error is suppressed exactly if the comment covers it or it was before.
pub suppress_matched_lem :
    (filename : Text) (linenum line : ℕ) (w : Option Text) (s : Lint) (category : Text) (m : ℕ)
    → is_error_suppressed (suppress_matched filename linenum line w s).0 category m
      ≡ (covers w line category m || is_error_suppressed s category m)
unfolding suppress_matched
suppress_matched_lem filename linenum line none s category m = suppress_line_lem line m category s
suppress_matched_lem filename linenum line (some w) s category m =
    ground (arith, suppress_line_lem line m category s, suppress_lem (inner w) category line m s)

-- What the NOLINT comment of a raw line covers.
abbrev pub comment : Option Found → ℕ → Text → ℕ → Bool
comment none linenum category m = false
comment (some f) linenum category m =
    covers (group_of f 2) (suppressed_line (group_of f 1) linenum) category m

-- Once a raw line has been parsed, an error is suppressed exactly if the line's NOLINT comment
-- covers it (NEXTLINE: on the line after) or if it was suppressed before.
pub parse_nolint_lem :
    (filename raw_line : Text) (linenum : ℕ) (s : Lint) (category : Text) (m : ℕ)
    → is_error_suppressed (parse_nolint_suppressions filename raw_line linenum s).0 category m ≡ (
        comment (search nolint_pattern raw_line) linenum category m
        || is_error_suppressed s category m)
unfolding parse_nolint_suppressions
parse_nolint_lem filename raw_line linenum s category m = at_search (search nolint_pattern raw_line)
  where
    at_search :
        (o : Option Found)
        → is_error_suppressed (parse_found filename linenum o s).0 category m
          ≡ (comment o linenum category m || is_error_suppressed s category m)
    at_search none = refl
    at_search (some f) =
        suppress_matched_lem filename linenum (suppressed_line (group_of f 1) linenum)
          (group_of f 2) s category m

-- After the reset nothing is suppressed.
pub reset_nolint_lem :
    (s : Lint) (category : Text) (m : ℕ)
    → is_error_suppressed (reset_nolint_suppressions s) category m ≡ false
unfolding is_error_suppressed reset_nolint_suppressions one_of has_line
reset_nolint_lem s category m = refl
