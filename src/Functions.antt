-- ===== src/Functions.antt =====
-- `_FunctionState` and `CheckForFunctionLengths` of scripts/tools/cpplint.py.
pub mod Size
pub mod Counting
use deft_rpc.Base.{
  ℕ, zero, suc, ◌+◌, ◌-◌, ◌*◌, ◌/◌, ◌%◌, ◌^◌, ◌≤◌, ◌<◌, min, max, ◌≡◌, refl, sym, ap, ◌∙◌, ◌≢◌, ◌↔◌,
  ◌⊎◌, inl, inr, Bool, true, false, not, ◌&&◌, ◌||◌, Option, none, some, List, [], ◌∷◌, ◌++◌, map,
  reverse, append-nil, append_assoc, arith, ltb, leb, ◌==◌, if◌then◌else◌, ltb→lt, lt→ltb, leb→le,
  leb_false→lt, ==_iff, tests, Bool-cases, Option-cases, is_some, length, get_elem?, get_or, take,
  drop, all, any, keep_if, length-append, length-take, length-drop, take-append-drop, length-map,
  All, All-append,
}
use deft_rpc.Text.{Text, codes, eq, lstrip, rstrip, is_space}
use deft_rpc.Text.Number.{decimal}
use deft_rpc.Regex.{
  Regex, empty, ◌▹◌, ◌│◌, star, plus, group, line_start, line_end, word, space, dot, lit, char,
  in_set, in_range, char_if, match, search, matches, searches, group_text, Found,
}
use deft_rpc.Lint.{Report}
use deft_rpc.Lines.{CleansedLines}

pub record FunctionState : Type 0 where
  pub in_a_function : Bool
  pub lines_in_function : ℕ
  pub current_function : Text

-- __init__
abbrev pub init : FunctionState
init = record { in_a_function = false; lines_in_function = 0; current_function = [] }

unfoldable pub begin : Text → FunctionState → FunctionState
begin function_name s = record {
  in_a_function = true;
  lines_in_function = 0;
  current_function = function_name;
}

unfoldable pub count : FunctionState → FunctionState
count s = record s {
  lines_in_function = if s.in_a_function then s.lines_in_function + 1 else s.lines_in_function;
}

unfoldable pub end : FunctionState → FunctionState
end s = record s { in_a_function = false }

abbrev normal_trigger : ℕ
normal_trigger = 250

abbrev test_trigger : ℕ
test_trigger = 400

-- T(EST|est)
abbrev test_name : Regex
test_name = char b'T' ▹ group 1 (lit "EST" │ lit "est")

unfoldable pub base_trigger : Text → ℕ
base_trigger name = if matches test_name name then test_trigger else normal_trigger

-- int(math.log(lines / base, 2)) for `base ≤ lines`, as the number of times that the base can be
-- doubled. The quotient of the source is a float; its logarithm is exact at the powers of two that
-- matter, those up to 2 ** 5.
unfoldable pub doublings : ℕ → ℕ → ℕ → ℕ
doublings zero base lines = 0
doublings (suc fuel) base lines =
    let more = suc (doublings fuel (2 * base) lines) in if leb (2 * base) lines then more else 0

unfoldable pub error_level : ℕ → ℕ → ℕ
unfolding doublings
error_level base lines = min 5 (doublings lines base lines)

too_long : Text → ℕ → FunctionState → ℕ → ℕ → Report
too_long filename linenum s base trigger = record {
  filename = filename;
  linenum = linenum;
  category = codes "readability/fn_size";
  confidence = error_level base s.lines_in_function;
  message =
      codes "Small and focused functions are preferred: "
      ++ (s.current_function
          ++ (codes " has "
              ++ (decimal s.lines_in_function
                  ++ (codes " non-comment lines (error triggered by exceeding "
                      ++ (decimal trigger ++ codes " lines).")))));
}

-- Check, with the verbosity of the linter
unfoldable pub check : ℕ → Text → ℕ → FunctionState → List Report
unfolding base_trigger error_level too_long
check verbosity filename linenum s =
    if not s.in_a_function
    then []
    else (let base = base_trigger s.current_function in
        let trigger = base * 2 ^ verbosity in
        if ltb trigger s.lines_in_function
        then too_long filename linenum s base trigger ∷ []
        else [])

-- (\w(\w|::|\*|\&|\s)*)\(
abbrev declaration : Regex
declaration =
    group 1 (word ▹ star (group 2 (word │ lit "::" │ char b'*' │ char b'&' │ space))) ▹ char b'('

-- [A-Z_]+$
abbrev all_caps : Regex
all_caps = plus (char_if (λ c. in_range b'A' b'Z' c || c == b'_')) ▹ line_end

-- the characters up to the first white space
take_word : Text → Text
take_word [] = []
take_word (c ∷ s) = if is_space c then [] else c ∷ take_word s

-- text.split()[-1], for a text that is not all white space
unfoldable pub last_word : Text → Text
unfolding take_word
last_word s = reverse (take_word (reverse (rstrip s)))

-- starting_func
unfoldable pub starting_func : Text → Bool
unfolding last_word
starting_func line = elim (match declaration line) [
  | none ↦ false
  | some m ↦
      let function_name = last_word (group_text m 1) in
      eq function_name (codes "TEST")
      || eq function_name (codes "TEST_F")
      || not (matches all_caps function_name)
]

-- ((\w|:)*)\(
abbrev function_pattern : Regex
function_pattern = group 1 (star (group 2 (word │ char b':'))) ▹ char b'('

-- (\(.*\))
abbrev parameters : Regex
parameters = group 1 (char b'(' ▹ star dot ▹ char b')')

first_group : Option Found → Text
first_group none = []
first_group (some m) = group_text m 1

-- The name that is given to Begin. The second search is of a text in which `(` has been found.
unfoldable pub function_of : Text → Text → Text
unfolding first_group
function_of line joined_line =
    let function = first_group (search function_pattern line) in
    if matches (lit "TEST") function
    then function ++ first_group (search parameters joined_line)
    else function ++ codes "()"

-- What the loop for the start of the body finds: nothing, a declaration or a trivial function, or a
-- body.
pub data Body : Type 0 where
  not_found : Body
  ignored : Body
  opened : Text → Body

-- The loop over the lines from the one that starts the function on.
unfoldable pub find_body : Text → Text → List Text → Body
unfolding function_of
find_body line joined_line [] = not_found
find_body line joined_line (start_line ∷ rest) =
    let joined = joined_line ++ (b' ' ∷ lstrip start_line) in
    let further = find_body line joined rest in
    if searches (in_set ";}") start_line
    then ignored
    else if searches (char b'{') start_line
    then opened (function_of line joined)
    else further

no_body : Text → ℕ → Report
no_body filename linenum = record {
  filename = filename;
  linenum = linenum;
  category = codes "readability/fn_size";
  confidence = 5;
  message = codes "Lint failed to find start of function body.";
}

unfoldable pub start_body : Text → ℕ → Body → FunctionState → FunctionState × List Report
unfolding begin no_body
start_body filename linenum not_found s = (s, no_body filename linenum ∷ [])
start_body filename linenum ignored s = (s, [])
start_body filename linenum (opened function) s = (begin function s, [])

-- ^\}\s*$
abbrev function_end : Regex
function_end = line_start ▹ char b'}' ▹ star space ▹ line_end

-- ^\s*$
abbrev blank : Regex
blank = line_start ▹ star space ▹ line_end

-- CheckForFunctionLengths, with the verbosity of the linter
unfoldable pub check_for_function_lengths :
    ℕ → Text → CleansedLines → ℕ → FunctionState → FunctionState × List Report
unfolding starting_func find_body start_body check end count
check_for_function_lengths verbosity filename clean_lines linenum s =
    let line = get_or clean_lines.lines linenum [] in
    if starting_func line
    then start_body filename linenum (find_body line [] (drop linenum clean_lines.lines)) s
    else if matches function_end line
    then (end s, check verbosity filename linenum s)
    else if not (matches blank line)
    then (count s, [])
    else (s, [])
