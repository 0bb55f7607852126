-- ===== src/Paths.antt =====
-- Python's `os.path` for POSIX, as far as scripts/tools/cpplint.py calls it. What it asks the
-- operating system is a parameter.
pub mod Split
use deft_rpc.Base.{
  ℕ, zero, suc, ◌+◌, ◌-◌, ◌*◌, ◌/◌, ◌%◌, ◌^◌, ◌≤◌, ◌<◌, min, max, ◌≡◌, refl, sym, ap, ◌∙◌, ◌≢◌, ◌↔◌,
  ◌⊎◌, inl, inr, Bool, true, false, not, ◌&&◌, ◌||◌, Option, none, some, List, [], ◌∷◌, ◌++◌, map,
  reverse, append-nil, append_assoc, arith, ltb, leb, ◌==◌, if◌then◌else◌, ltb→lt, lt→ltb, leb→le,
  leb_false→lt, ==_iff, tests, Bool-cases, Option-cases, is_some, length, get_elem?, get_or, take,
  drop, all, any, keep_if, length-append, length-take, length-drop, take-append-drop, length-map,
  All, All-append,
}
use deft_rpc.Text.{Text, codes, eq, starts_with, ends_with, split, join}

-- the working directory, and which paths exist
pub record Disk : Type 0 where
  pub cwd : Text
  pub exists : Text → Bool

abbrev pub is_slash : ℕ → Bool
is_slash c = c == b'/'

-- the characters in front of the first slash, and those from it on
unfoldable pub before_slash : Text → Text
before_slash [] = []
before_slash (c ∷ s) = elim (is_slash c) [ true ↦ [] | false ↦ c ∷ before_slash s ]

unfoldable pub from_slash : Text → Text
from_slash [] = []
from_slash (c ∷ s) = elim (is_slash c) [ true ↦ c ∷ s | false ↦ from_slash s ]

unfoldable pub strip_slashes : Text → Text
strip_slashes [] = []
strip_slashes (c ∷ s) = elim (is_slash c) [ true ↦ strip_slashes s | false ↦ c ∷ s ]

-- os.path.split: the slashes between head and tail are dropped, unless the head has nothing else.
-- Both parts are read from the end of the path.
abbrev trim_head : Text → Text
trim_head h = if all is_slash h then h else strip_slashes h

unfoldable pub split_path : Text → Text × Text
unfolding before_slash from_slash strip_slashes
split_path p = (reverse (trim_head (from_slash (reverse p))), reverse (before_slash (reverse p)))

-- os.path.dirname and os.path.basename
unfoldable pub dirname : Text → Text
unfolding split_path
dirname p = (split_path p).0

unfoldable pub basename : Text → Text
unfolding split_path
basename p = (split_path p).1

-- The last component of a path read from its end, cut at its first dot; `none` if there is no dot, or
-- if only dots stand in front of it.
unfoldable pub cut_extension : Text → Text → Option (Text × Text)
cut_extension ext [] = none
cut_extension ext (c ∷ s) =
    let further = cut_extension (c ∷ ext) s in
    if is_slash c
    then none
    else if c == b'.'
    then (if all (λ d. d == b'.') (before_slash s) then none else some (reverse s, b'.' ∷ ext))
    else further

-- os.path.splitext: dots at the beginning of the last component begin no extension.
unfoldable pub splitext : Text → Text × Text
unfolding cut_extension before_slash
splitext p = elim (cut_extension [] (reverse p)) [ none ↦ (p, []) | some r ↦ r ]

-- os.path.join of two paths, and of a list of them that is not empty
unfoldable pub join_path : Text → Text → Text
unfolding starts_with ends_with
join_path path b =
    if starts_with (codes "/") b
    then b
    else if eq path [] || ends_with (codes "/") path
    then path ++ b
    else path ++ (b'/' ∷ b)

unfoldable pub join_all : Text → List Text → Text
unfolding join_path
join_all path [] = path
join_all path (b ∷ bs) = join_all (join_path path b) bs

unfoldable pub join_list : List Text → Text
unfolding join_all
join_list [] = []
join_list (p ∷ ps) = join_all p ps

-- The loop of os.path.normpath over the components; the result has its last component first.
abbrev normal_next : Bool → Text → List Text → List Text
normal_next rooted comp [] = if not (eq comp (codes "..")) || not rooted then comp ∷ [] else []
normal_next rooted comp (last ∷ comps) =
    if not (eq comp (codes "..")) || eq last (codes "..") then comp ∷ last ∷ comps else comps

normal_from : Bool → List Text → List Text → List Text
normal_from rooted new [] = new
normal_from rooted new (comp ∷ comps) =
    normal_from rooted
      (if eq comp [] || eq comp (codes ".") then new else normal_next rooted comp new) comps

abbrev or_dot : Text → Text
or_dot [] = codes "."
or_dot (c ∷ s) = c ∷ s

-- os.path.normpath: two leading slashes are kept, one and more than two are one.
unfoldable pub normpath : Text → Text
unfolding normal_from starts_with eq split join
normpath p =
    let rooted = starts_with (codes "/") p in
    let slashes =
      if not rooted
      then []
      else if starts_with (codes "//") p && not (starts_with (codes "///") p)
      then codes "//"
      else codes "/" in
    or_dot (slashes ++ join (codes "/") (reverse (normal_from rooted [] (split b'/' p))))

-- os.path.abspath
unfoldable pub abspath : Disk → Text → Text
unfolding normpath join_path
abspath disk p = normpath (join_path disk.cwd p)

-- os.path.commonprefix of two paths
unfoldable pub commonprefix : Text → Text → Text
commonprefix [] t = []
commonprefix (a ∷ s) [] = []
commonprefix (a ∷ s) (b ∷ t) = if a == b then a ∷ commonprefix s t else []

-- the same of two lists of components: its length
common_length : List Text → List Text → ℕ
common_length [] ts = 0
common_length (s ∷ ss) [] = 0
common_length (s ∷ ss) (t ∷ ts) = if eq s t then suc (common_length ss ts) else 0

abbrev is_empty : Text → Bool
is_empty [] = true
is_empty (c ∷ s) = false

abbrev components : Text → List Text
components p = keep_if (λ w. not (is_empty w)) (split b'/' p)

-- os.path.relpath
unfoldable pub relpath : Disk → Text → Text → Text
unfolding abspath join_list common_length split
relpath disk p start =
    let from = components (abspath disk start) in
    let to = components (abspath disk p) in
    let i = common_length from to in
    or_dot (join_list (map (λ w. codes "..") (drop i from) ++ drop i to))
