-- ===== src/Guards/Variable.antt =====
-- The letters of the variable of a header guard.
use mathlib.Core.Path.{subst}
use deft_rpc.Base.{
  ℕ, ◌-◌, ◌≡◌, refl, sym, Bool, true, not, ◌&&◌, ◌||◌, [], ◌∷◌, map, arith, leb, ◌==◌,
  if◌then◌else◌, All, All-append,
}
use deft_rpc.Text.{Text, codes, upper}
use deft_rpc.Regex.{in_range, char_if, replace_all}
use deft_rpc.Regex.Replace.{replace_all-char_if}
use deft_rpc.Settings.{Settings}
use deft_rpc.Paths.{Disk}
use deft_rpc.Guards.{is_alphanumeric, to_variable, get_header_guard_cpp_variable}

-- [A-Z0-9_]
abbrev pub is_variable : ℕ → Bool
is_variable c = in_range b'A' b'Z' c || (in_range b'0' b'9' c || c == b'_')

abbrev pub IsVariable : Text → Type 0
IsVariable = All (λ c. is_variable c ≡ true)

abbrev changed : ℕ → ℕ
changed c = if not (is_alphanumeric c) then b'_' else c

abbrev raised : ℕ → ℕ
raised c = if leb b'a' c && leb c b'z' then c - 32 else c

changed-is_variable : (c : ℕ) → is_variable (raised (changed c)) ≡ true
unfolding is_alphanumeric
changed-is_variable c = ground arith

upper-IsVariable : (s : Text) → IsVariable (upper (map changed s))
unfolding upper
upper-IsVariable [] = tt
upper-IsVariable (c ∷ s) = (changed-is_variable c, upper-IsVariable s)

pub to_variable-IsVariable : (path : Text) → IsVariable (to_variable path)
unfolding to_variable
to_variable-IsVariable path =
    let e = replace_all-char_if (λ c. not (is_alphanumeric c)) b'_' path in
    All-append (λ c. is_variable c ≡ true)
      (upper (replace_all (char_if (λ c. not (is_alphanumeric c))) (codes "_") path)) (codes "_")
      (subst (λ s. IsVariable (upper s)) (sym e) (upper-IsVariable path)) (refl, tt)

-- Whatever the file name, the options and the disk are, the variable that is suggested consists of
-- upper case letters, digits and underscores.
pub get_header_guard_cpp_variable-IsVariable :
    (settings : Settings) (disk : Disk) (filename : Text)
    → IsVariable (get_header_guard_cpp_variable settings disk filename)
unfolding get_header_guard_cpp_variable
get_header_guard_cpp_variable-IsVariable settings disk filename = to_variable-IsVariable _
