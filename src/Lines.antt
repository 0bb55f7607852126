-- ===== src/Lines.antt =====
-- `CleansedLines` of scripts/tools/cpplint.py, and the functions that it is made with: raw strings,
-- comments and quoted strings are taken out of the lines.
pub mod RawStrings
pub mod Comments
pub mod Collapse
pub mod Lengths
use deft_rpc.Base.{
  ℕ, zero, suc, ◌+◌, ◌-◌, ◌*◌, ◌/◌, ◌%◌, ◌^◌, ◌≤◌, ◌<◌, min, max, ◌≡◌, refl, sym, ap, ◌∙◌, ◌≢◌, ◌↔◌,
  ◌⊎◌, inl, inr, Bool, true, false, not, ◌&&◌, ◌||◌, Option, none, some, List, [], ◌∷◌, ◌++◌, map,
  reverse, append-nil, append_assoc, arith, ltb, leb, ◌==◌, if◌then◌else◌, ltb→lt, lt→ltb, leb→le,
  ==_iff, tests, Bool-cases, Option-cases, is_some, length, get_elem?, get_or, take, drop, all, any,
  keep_if, length-append, length-take, length-drop, take-append-drop, length-map, All, All-append,
}
use deft_rpc.Text.{Text}
use RawStrings.{cleanse_raw_strings}
use Comments.{cleanse_comments}
use Collapse.{collapse_strings}

pub record CleansedLines : Type 0 where
  pub elided : List Text
  pub lines : List Text
  pub raw_lines : List Text
  pub lines_without_raw_strings : List Text
  pub num_lines : ℕ

-- __init__
unfoldable pub cleansed_lines : List Text → CleansedLines
cleansed_lines lines =
    let plain = cleanse_raw_strings lines in
    record {
      elided = map (λ line. cleanse_comments (collapse_strings line)) plain;
      lines = map cleanse_comments plain;
      raw_lines = lines;
      lines_without_raw_strings = plain;
      num_lines = length lines;
    }
