-- ===== src/Checks.antt =====
-- The checks of scripts/tools/cpplint.py: each is a function that returns the list of its calls of
-- `error`, in their order.
pub mod WholeFile
pub mod Calls
pub mod Comments
pub mod Spacing
pub mod Operators
pub mod Constructs
pub mod Macros
pub mod Tokens
pub mod Braces
pub mod Types
pub mod Semicolons
pub mod Bodies
pub mod Inheritance
pub mod Features
pub mod CStyle
pub mod Casts
pub mod References
pub mod Style
use deft_rpc.Base.{
  ℕ, zero, suc, ◌+◌, ◌-◌, ◌*◌, ◌/◌, ◌%◌, ◌^◌, ◌≤◌, ◌<◌, min, max, ◌≡◌, refl, sym, ap, ◌∙◌, ◌≢◌, ◌↔◌,
  ◌⊎◌, inl, inr, Bool, true, false, not, ◌&&◌, ◌||◌, Option, none, some, List, [], ◌∷◌, ◌++◌, map,
  reverse, append-nil, append_assoc, arith, ltb, leb, ◌==◌, if◌then◌else◌, ltb→lt, lt→ltb, leb→le,
  leb_false→lt, ==_iff, tests, Bool-cases, Option-cases, is_some, length, get_elem?, get_or, take,
  drop, all, any, keep_if, length-append, length-take, length-drop, take-append-drop, length-map,
  All, All-append,
}
use deft_rpc.Text.{Text}
use deft_rpc.Lint.{Report}

-- The arguments of `error`.
unfoldable pub report : Text → ℕ → Text → ℕ → Text → Report
report filename linenum category confidence message = record {
  filename = filename;
  linenum = linenum;
  category = category;
  confidence = confidence;
  message = message;
}

-- `if test: error(…)`
abbrev pub when : Bool → Report → List Report
when true r = r ∷ []
when false r = []
