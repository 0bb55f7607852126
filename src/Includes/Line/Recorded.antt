-- ===== src/Includes/Line/Recorded.antt =====
-- What `CheckIncludeLine` puts into the list of headers.
use deft_rpc.Base.{
  ℕ, ◌≡◌, ap, inl, inr, Bool, not, ◌&&◌, Option, none, some, [], arith, if◌then◌else◌, Option-cases,
  is_some, get_or,
}
use deft_rpc.Text.{Text, codes, eq}
use deft_rpc.Text.Compare.{eq_iff}
use deft_rpc.Regex.{search, group_text}
use deft_rpc.Settings.{Settings, get_non_header_extensions}
use deft_rpc.Paths.{Disk}
use deft_rpc.Lines.{CleansedLines}
use deft_rpc.Lines.Collapse.{include_pattern}
use deft_rpc.Includes.{
  IncludeState, find_header, add_header, set_last_header, check_next_include_order, HeaderType,
  find_in_lists,
}
use deft_rpc.Includes.Classify.{classify_include}
use deft_rpc.Includes.Headers.{IsOpen, find_header-add_header}
use deft_rpc.Includes.Line.{
  foreign_source, is_listed, place_include, check_include, check_include_line,
}

-- The list of headers is left alone by the check of the order.
check_next_include_order-include_list :
    (header_type : HeaderType) (s : IncludeState)
    → (check_next_include_order header_type s).0.include_list ≡ s.include_list
unfolding check_next_include_order
check_next_include_order-include_list header_type s = ground arith

module _ (settings : Settings) (disk : Disk) (filename : Text) where
  -- A header that is not of another package's sources and is not left out.
  unfoldable pub is_recorded : Text → Bool
  is_recorded include =
      not (
        is_some
          (foreign_source settings disk filename include (get_non_header_extensions settings)))
      && is_listed settings disk filename include

  place_include-find_header :
      (clean_lines : CleansedLines) (linenum : ℕ) (include : Text) (is_system : Bool)
      (s : IncludeState) (header : Text)
      → find_header header
          (place_include settings disk filename clean_lines linenum include is_system s).0
        ≡ find_header header (add_header include linenum s)
  unfolding place_include find_header set_last_header
  place_include-find_header clean_lines linenum include is_system s header =
      ap (find_in_lists header) (
        check_next_include_order-include_list
          (classify_include settings disk filename include is_system)
          (add_header include linenum s))

  check_include-find_header :
      (clean_lines : CleansedLines) (linenum : ℕ) (include : Text) (is_system : Bool)
      (s : IncludeState) (header : Text)
      → IsOpen s
      → find_header header
          (check_include settings disk filename clean_lines linenum include is_system s).0
        ≡ elim (find_header header s) [
          | some found ↦ some found
          | none ↦ if is_recorded include && eq include header then some linenum else none
        ]
  unfolding check_include is_recorded
  check_include-find_header clean_lines linenum include is_system s header nonempty = ground (
    arith,
    eq_iff include header,
    place_include-find_header clean_lines linenum include is_system s header,
    find_header-add_header include linenum header s nonempty,
  )

  -- The header that the line includes, if it goes into the list.
  unfoldable pub recorded_on : CleansedLines → ℕ → Option Text
  recorded_on clean_lines linenum =
      elim (search include_pattern (get_or clean_lines.lines linenum [])) [
        | none ↦ none
        | some m ↦ if is_recorded (group_text m 2) then some (group_text m 2) else none
      ]

  -- When the check of a line is done, a header is found where it was found before; a header that
  -- was not found is found on this line if the line includes it and it goes into the list, and
  -- otherwise still not.
  pub check_include_line-find_header :
      (clean_lines : CleansedLines) (linenum : ℕ) (s : IncludeState) (header : Text)
      → IsOpen s
      → find_header header (check_include_line settings disk filename clean_lines linenum s).0
        ≡ elim (find_header header s) [
          | some found ↦ some found
          | none ↦ elim (recorded_on clean_lines linenum) [
            | none ↦ none
            | some include ↦ if eq include header then some linenum else none
          ]
        ]
  unfolding check_include_line recorded_on
  check_include_line-find_header clean_lines linenum s header nonempty =
      elim (Option-cases (search include_pattern (get_or clean_lines.lines linenum []))) [
        | inl e ↦ ground (arith, e)
        | inr (m, e) ↦ ground (
          arith,
          e,
          check_include-find_header clean_lines linenum (group_text m 2)
              (eq (group_text m 1) (codes "<")) s header nonempty,
        )
      ]
