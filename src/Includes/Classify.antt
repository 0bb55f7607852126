-- ===== src/Includes/Classify.antt =====
-- `_DropCommonSuffixes` and `_ClassifyInclude` of scripts/tools/cpplint.py.
use deft_rpc.Base.{
  ℕ, ◌-◌, Bool, false, not, ◌&&◌, ◌||◌, Option, none, some, List, [], ◌∷◌, ◌++◌, map, ltb, ◌==◌,
  if◌then◌else◌, length, get_elem?, take,
}
use deft_rpc.Text.{Text, codes, eq, one_of, ends_with, replace}
use deft_rpc.Regex.{Regex, ◌▹◌, plus, not_in, line_start, Found, match, group_text}
use deft_rpc.Settings.{Settings, get_header_extensions, get_non_header_extensions}
use deft_rpc.Paths.{Disk, split_path, splitext, normpath}
use deft_rpc.FileInfo.{repository_name}
use deft_rpc.Includes.{
  HeaderType, c_sys_header, cpp_sys_header, likely_my_header, possible_my_header, other_header,
}
use deft_rpc.Includes.Standard.{cpp_headers}

-- _test_suffixes
abbrev pub test_suffixes : List Text
test_suffixes = codes "_test" ∷ codes "_regtest" ∷ codes "_unittest" ∷ []

-- text.lstrip('_')
unfoldable pub strip_left : ℕ → Text → Text
strip_left d [] = []
strip_left d (c ∷ s) = if c == d then strip_left d s else c ∷ s

-- '%s.%s' of all pairs, as itertools.product goes through them
unfoldable pub dotted : List Text → List Text → List Text
dotted [] exts = []
dotted (s ∷ ss) exts = map (λ ext. s ++ (b'.' ∷ ext)) exts ++ dotted ss exts

abbrev inline_suffixes : List Text
inline_suffixes = codes "inl" ∷ codes "imp" ∷ codes "internal" ∷ []

unfoldable pub common_suffixes : Settings → List Text
unfolding dotted strip_left get_header_extensions get_non_header_extensions
common_suffixes settings =
    dotted (map (strip_left b'_') test_suffixes) (get_non_header_extensions settings)
    ++ dotted inline_suffixes (get_header_extensions settings)

-- The character in front of a suffix.
abbrev before_suffix : Text → Text → Option ℕ
before_suffix filename suffix = get_elem? filename (length filename - length suffix - 1)

-- A suffix behind a `-` or a `_`.
unfoldable pub has_suffix : Text → Text → Bool
unfolding ends_with
has_suffix filename suffix =
    ends_with suffix filename
    && (ltb (length suffix) (length filename)
        && elim (before_suffix filename suffix) [ none ↦ false | some c ↦ c == b'-' || c == b'_' ])

drop_first : Text → List Text → Option Text
unfolding has_suffix
drop_first filename [] = none
drop_first filename (suffix ∷ suffixes) =
    if has_suffix filename suffix
    then some (take (length filename - length suffix - 1) filename)
    else drop_first filename suffixes

-- _DropCommonSuffixes
unfoldable pub drop_common_suffixes : Settings → Text → Text
unfolding drop_first common_suffixes splitext
drop_common_suffixes settings filename = elim (drop_first filename (common_suffixes settings)) [
  | none ↦ (splitext filename).0
  | some name ↦ name
]

-- _RE_FIRST_COMPONENT: ^[^-_.]+
abbrev first_component : Regex
first_component = line_start ▹ plus (not_in "-_.")

abbrev same_group : Option Found → Option Found → Bool
same_group none o = false
same_group (some m) none = false
same_group (some m) (some n) = eq (group_text m 0) (group_text n 0)

abbrev cpp_suffixes : List Text
cpp_suffixes = codes ".hpp" ∷ codes ".hxx" ∷ codes ".h++" ∷ []

-- What is left of the classification for a header that is not of the system.
unfoldable pub classify_own : Text × Text → Text × Text → HeaderType
unfolding eq replace normpath match group_text
classify_own (target_dir, target_base) (include_dir, include_base) =
    let target_dir_pub =
      replace (codes "\\") (codes "/") (normpath (target_dir ++ codes "/../public")) in
    if eq target_base include_base && (eq include_dir target_dir || eq include_dir target_dir_pub)
    then likely_my_header
    else if same_group (match first_component target_base) (match first_component include_base)
    then possible_my_header
    else other_header

-- _ClassifyInclude
unfoldable pub classify_include : Settings → Disk → Text → Text → Bool → HeaderType
unfolding classify_own drop_common_suffixes split_path splitext one_of
classify_include settings disk filename include is_system =
    if is_system && not (one_of (splitext include).1 cpp_suffixes)
    then (if one_of include cpp_headers then cpp_sys_header else c_sys_header)
    else classify_own
        (split_path (drop_common_suffixes settings (repository_name settings disk filename)))
        (split_path (drop_common_suffixes settings include))
