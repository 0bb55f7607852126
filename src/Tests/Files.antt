-- ===== src/Tests/Files.antt =====
-- Paths and files.
use deft_rpc.Base.{
  any, ◌≡◌, refl, Bool, true, false, ◌||◌, Option, none, some, List, [], ◌∷◌, map, arith,
  if◌then◌else◌,
}
use deft_rpc.Text.{Text, codes, eq, starts_with, ends_with, split, join}
use deft_rpc.Paths.{Disk, split_path, splitext, normpath, join_list, relpath}
use deft_rpc.Lint.{init}
use deft_rpc.Lines.{CleansedLines, cleansed_lines}
use deft_rpc.Settings.{Settings, default_settings}
use deft_rpc.FileInfo.{repository_name, base_name, extension, top_checkout}
use deft_rpc.FileInfo.Loops.{LastCheckout, otherwise, top_checkout-LastCheckout}
use deft_rpc.Guards.{
  path_split_to_list, get_header_guard_cpp_variable, find_guard, Guard, check_for_header_guard,
  guard_nolint, pragma_once, parse_nolint,
}
use deft_rpc.Guards.PathList.{path_split_to_list-join_list}
use deft_rpc.Guards.Accepted.{IsSuggested, check_for_header_guard-IsSuggested}
use deft_rpc.Regex.{searches}
use deft_rpc.Guards.Variable.{IsVariable, get_header_guard_cpp_variable-IsVariable}
use deft_rpc.Guards.First.{first_named, last_endif, text_of, linenum_of, find_guard-first}
use deft_rpc.Includes.{
  HeaderType, c_sys_header, cpp_sys_header, likely_my_header, possible_my_header, other_header,
  find_header, IncludeState,
}
use deft_rpc.Regex
use deft_rpc.Paths
use deft_rpc.Guards
use deft_rpc.Emit
use deft_rpc.Suppress
use deft_rpc.Text
use deft_rpc.Settings
use deft_rpc.Lines
use deft_rpc.Includes
use deft_rpc.Includes.Headers.{IsOpen}
use deft_rpc.Includes.Classify.{classify_include}
use deft_rpc.Includes.Line.{check_include_line}
use deft_rpc.Includes.Line.Recorded.{recorded_on, check_include_line-find_header}

abbrev home : Disk
home = record { cwd = codes "/w"; exists = λ p. false }

splits :
    map (λ p. (split_path p).0) (codes "/a//b" ∷ codes "b" ∷ codes "//b" ∷ codes "a/" ∷ [])
    ≡ codes "/a" ∷ [] ∷ codes "//" ∷ codes "a" ∷ []
unfolding split_path
splits = refl

extensions :
    map
      (λ p. (splitext p).1)
      (codes "a.b/c" ∷ codes "a/b.cc" ∷ codes ".x" ∷ codes "a.b.h" ∷ codes "..x.h" ∷ [])
    ≡ [] ∷ codes ".cc" ∷ [] ∷ codes ".h" ∷ codes ".h" ∷ []
unfolding splitext
extensions = refl

normal :
    map normpath
      (codes "a/../public" ∷ codes "//x/./y//z" ∷ codes "/../a" ∷ codes "../a/.." ∷ [] ∷ [])
    ≡ codes "public" ∷ codes "//x/y/z" ∷ codes "/a" ∷ codes ".." ∷ codes "." ∷ []
unfolding normpath
normal = refl

relative : relpath home (codes "a/b") (codes "/w/c") ≡ codes "../a/b"
unfolding relpath
relative = refl

-- A checkout at /w.
abbrev checkout : Disk
checkout = record {
  cwd = codes "/w";
  exists =
      λ p. eq p (codes "/w/.git") || (eq p (codes "/w/net/rpc.h") || eq p (codes "/w/net/rpc.cc"));
}

named : repository_name default_settings checkout (codes "net/rpc.cc") ≡ codes "net/rpc.cc"
unfolding repository_name eq Paths.abspath Paths.dirname Paths.commonprefix
named = refl

-- For `net/rpc-c++.h` the disk is asked for `net/rpc-cpp.h`, which does not exist.
variables :
    map
      (get_header_guard_cpp_variable default_settings checkout)
      (codes "net/rpc.h" ∷ codes "net/rpc-c++.h" ∷ [])
    ≡ codes "NET_RPC_H_" ∷ codes "_W_NET_RPC_CPP_H_" ∷ []
unfolding get_header_guard_cpp_variable Text.upper Regex.replace_all repository_name Paths.abspath
    Regex.search Paths.dirname Paths.commonprefix
variables = refl

get_header_guard_cpp_variable-IsVariable_example :
    IsVariable (get_header_guard_cpp_variable default_settings checkout (codes "net/rpc.h"))
get_header_guard_cpp_variable-IsVariable_example =
    get_header_guard_cpp_variable-IsVariable default_settings checkout (codes "net/rpc.h")

path_split_to_list-join_list_example :
    path_split_to_list (join_list (codes "net" ∷ codes "rpc" ∷ codes "a.h" ∷ []))
    ≡ codes "net" ∷ codes "rpc" ∷ codes "a.h" ∷ []
path_split_to_list-join_list_example =
    path_split_to_list-join_list (codes "net") (codes "rpc" ∷ codes "a.h" ∷ [])
      (record { no_slash = (refl, (refl, (refl, tt))); nonempty = omega arith })
      (
        record { no_slash = (refl, (refl, (refl, tt))); nonempty = omega arith },
        (record { no_slash = (refl, (refl, (refl, tt))); nonempty = omega arith }, tt),
      )

abbrev guarded : List Text
guarded =
    codes "// a comment"
    ∷ codes "#ifndef NET_RPC_H_"
    ∷ codes "#define NET_RPC_H_"
    ∷ codes "#ifndef X"
    ∷ codes "#endif"
    ∷ codes "#endif  // NET_RPC_H_"
    ∷ []

find_guard-first_example : find_guard guarded ≡ record {
  ifndef = text_of (first_named (codes "#ifndef") 0 guarded) [];
  ifndef_linenum = linenum_of (first_named (codes "#ifndef") 0 guarded) 0;
  define = text_of (first_named (codes "#define") 0 guarded) [];
  endif = text_of (last_endif 0 guarded) [];
  endif_linenum = linenum_of (last_endif 0 guarded) 0;
}
find_guard-first_example = find_guard-first guarded

found_guard : find_guard guarded ≡ record {
  ifndef = codes "NET_RPC_H_";
  ifndef_linenum = 1;
  define = codes "NET_RPC_H_";
  endif = codes "#endif  // NET_RPC_H_";
  endif_linenum = 5;
}
unfolding find_guard Guards.words
found_guard = refl

-- A file with the right guard and the right comment behind it.
accepted :
    check_for_header_guard default_settings checkout
      (codes "net/rpc.h")
      (cleansed_lines guarded)
      init
    ≡ some init
unfolding check_for_header_guard cleansed_lines Lines.RawStrings.cleanse_raw_strings Regex.search
    Regex.match Guards.check_guard Guards.has_guard find_guard Guards.words Guards.check_ifndef
    Text.upper Regex.replace_all repository_name Paths.abspath Guards.parse_nolint Emit.error_all
    Suppress.parse_nolint_suppressions Guards.check_endif get_header_guard_cpp_variable
    Paths.dirname Paths.commonprefix
accepted = refl

guarded-IsSuggested :
    IsSuggested
      (get_header_guard_cpp_variable default_settings checkout (codes "net/rpc.h"))
      (find_guard (cleansed_lines guarded).lines_without_raw_strings)
unfolding cleansed_lines Lines.RawStrings.cleanse_raw_strings Regex.search Regex.match find_guard
    Guards.words Text.upper Regex.replace_all repository_name Paths.abspath
    get_header_guard_cpp_variable Paths.dirname Paths.commonprefix
guarded-IsSuggested = record { named = refl; defined = refl; ended = refl }

check_for_header_guard-IsSuggested_example :
    check_for_header_guard default_settings checkout
      (codes "net/rpc.h")
      (cleansed_lines guarded)
      init
    ≡ (if any (searches guard_nolint) (cleansed_lines guarded).lines_without_raw_strings
          || any (searches pragma_once) (cleansed_lines guarded).lines_without_raw_strings
        then some init
        else parse_nolint
            (codes "net/rpc.h")
            (cleansed_lines guarded).lines_without_raw_strings
            (find_guard (cleansed_lines guarded).lines_without_raw_strings).endif_linenum
            init)
check_for_header_guard-IsSuggested_example =
    check_for_header_guard-IsSuggested default_settings checkout (codes "net/rpc.h")
      (cleansed_lines guarded) init guarded-IsSuggested

classified :
    map
      (λ (include : Text × Bool).
        classify_include default_settings checkout (codes "net/rpc.cc") include.0 include.1)
      ((codes "vector", true)
        ∷ (codes "stdio.h", true)
        ∷ (codes "net/rpc.h", false)
        ∷ (codes "net/rpc_impl.h", false)
        ∷ (codes "base/log.h", false)
        ∷ [])
    ≡ cpp_sys_header ∷ c_sys_header ∷ likely_my_header ∷ possible_my_header ∷ other_header ∷ []
unfolding classify_include repository_name Paths.abspath base_name extension Paths.dirname
    Paths.commonprefix
classified = refl

abbrev including : CleansedLines
including = cleansed_lines (codes "#include \"net/rpc.h\"" ∷ codes "#include <vector>" ∷ [])

abbrev nothing_included : IncludeState
nothing_included = Includes.init

nothing_included-IsOpen : IsOpen nothing_included
unfolding Includes.init
nothing_included-IsOpen = omega arith

check_include_line-find_header_example :
    find_header
      (codes "vector")
      (check_include_line default_settings checkout
        (codes "net/rpc.cc")
        including
        1
        nothing_included).0
    ≡ elim (find_header (codes "vector") nothing_included) [
      | some found ↦ some found
      | none ↦ elim (recorded_on default_settings checkout (codes "net/rpc.cc") including 1) [
        | none ↦ none
        | some include ↦ if eq include (codes "vector") then some 1 else none
      ]
    ]
check_include_line-find_header_example =
    check_include_line-find_header default_settings checkout (codes "net/rpc.cc") including 1
      nothing_included (codes "vector") nothing_included-IsOpen

found_line :
    find_header
      (codes "vector")
      (check_include_line default_settings checkout
        (codes "net/rpc.cc")
        including
        1
        nothing_included).0
    ≡ some 1
unfolding find_header check_include_line cleansed_lines Includes.init Regex.search
    Lines.RawStrings.cleanse_raw_strings Lines.Comments.cleanse_comments Regex.replace_all
    Regex.match Settings.get_non_header_extensions Regex.group_text repository_name Paths.abspath
    extension Includes.set_last_header Includes.check_next_include_order classify_include
    Includes.Line.check_include Includes.Line.place_include Includes.Line.is_listed
    Includes.canonicalize Text.is_space Paths.dirname Paths.commonprefix Includes.add_header
found_line = refl

top_checkout-LastCheckout_example :
    (o : Option Text) × LastCheckout checkout (codes "/w/net") o
    × (top_checkout 9 checkout (codes "/w/net") (codes "/w/net") ≡ otherwise (codes "/w/net") o)
top_checkout-LastCheckout_example =
    top_checkout-LastCheckout 9 checkout (codes "/w/net") (codes "/w/net") (omega arith)

found_checkout : top_checkout 9 checkout (codes "/w/net") (codes "/w/net") ≡ codes "/w"
unfolding top_checkout eq Paths.dirname Paths.join_path
found_checkout = refl
