-- ===== src/FileInfo.antt =====
-- `FileInfo` of scripts/tools/cpplint.py: the name of a file relative to its project. An object is the
-- file name that it was made with.
pub mod Loops
use deft_rpc.Base.{
  ℕ, zero, suc, ◌+◌, ◌-◌, ◌*◌, ◌/◌, ◌%◌, ◌^◌, ◌≤◌, ◌<◌, min, max, ◌≡◌, refl, sym, ap, ◌∙◌, ◌≢◌, ◌↔◌,
  ◌⊎◌, inl, inr, Bool, true, false, not, ◌&&◌, ◌||◌, Option, none, some, List, [], ◌∷◌, ◌++◌, map,
  reverse, append-nil, append_assoc, arith, ltb, leb, ◌==◌, if◌then◌else◌, ltb→lt, lt→ltb, leb→le,
  leb_false→lt, ==_iff, tests, Bool-cases, Option-cases, is_some, length, get_elem?, get_or, take,
  drop, all, any, keep_if, length-append, length-take, length-drop, take-append-drop, length-map,
  All, All-append,
}
use deft_rpc.Text.{Text, codes, eq, replace}
use deft_rpc.Paths.{Disk, split_path, splitext, dirname, join_path, abspath, commonprefix, relpath}
use deft_rpc.Settings.{Settings, is_source_extension}

-- Make Windows paths like Unix.
unfoldable pub unix : Text → Text
unfolding replace
unix = replace (codes "\\") (codes "/")

-- FullName
unfoldable pub full_name : Disk → Text → Text
unfolding unix
full_name disk filename = unix (abspath disk filename)

-- The loop up the directories for the one that the user named; `os.path.normcase` changes nothing.
unfoldable pub find_repository : ℕ → Disk → Text → Text → Option Text
find_repository zero disk repo root_dir = none
find_repository (suc fuel) disk repo root_dir =
    let up = find_repository fuel disk repo (dirname root_dir) in
    if not (disk.exists root_dir)
    then none
    else if eq root_dir repo
    then some root_dir
    else if eq (dirname root_dir) root_dir
    then none
    else up

-- The loop up an SVN checkout.
unfoldable pub svn_root : ℕ → Disk → Text → Text → Text
svn_root zero disk root_dir one_up_dir = root_dir
svn_root (suc fuel) disk root_dir one_up_dir =
    let up = svn_root fuel disk (dirname root_dir) (dirname one_up_dir) in
    if disk.exists (join_path one_up_dir (codes ".svn")) then up else root_dir

unfoldable pub is_checkout : Disk → Text → Bool
is_checkout disk dir =
    disk.exists (join_path dir (codes ".git"))
    || (disk.exists (join_path dir (codes ".hg")) || disk.exists (join_path dir (codes ".svn")))

-- The loop up to the top of the file system: the last checkout on the way.
unfoldable pub top_checkout : ℕ → Disk → Text → Text → Text
unfolding is_checkout
top_checkout zero disk root_dir current_dir = root_dir
top_checkout (suc fuel) disk root_dir current_dir =
    let up =
      top_checkout fuel disk (if is_checkout disk current_dir then current_dir else root_dir)
        (dirname current_dir) in
    if eq current_dir (dirname current_dir) then root_dir else up

-- fullname[len(prefix) + 1:] of the common prefix
below : Text → Text → Text → Text
below fullname root_dir project_dir = drop (length (commonprefix root_dir project_dir) + 1) fullname

-- more rounds than a path has directories
abbrev pub rounds : Text → ℕ
rounds dir = length dir + 1

-- What the search for a checkout gives, after `_repository` has not helped.
in_checkout : Disk → Text → Text → Text
unfolding svn_root top_checkout below
in_checkout disk fullname project_dir =
    if disk.exists (join_path project_dir (codes ".svn"))
    then below fullname (svn_root (rounds project_dir) disk project_dir (dirname project_dir))
        project_dir
    else (let root_dir = top_checkout (rounds project_dir) disk project_dir project_dir in
        if is_checkout disk root_dir then below fullname root_dir project_dir else fullname)

-- The directory of the checkout that `_repository` names, where it is set.
named_repository : Settings → Disk → Text → Option Text
unfolding find_repository full_name
named_repository settings disk project_dir =
    if eq settings.repository []
    then none
    else find_repository (rounds project_dir) disk (full_name disk settings.repository) project_dir

-- RepositoryName
unfoldable pub repository_name : Settings → Disk → Text → Text
unfolding full_name named_repository in_checkout
repository_name settings disk filename =
    let fullname = full_name disk filename in
    let project_dir = dirname fullname in
    if not (disk.exists fullname)
    then fullname
    else elim (named_repository settings disk project_dir) [
      | some root_dir ↦ unix (relpath disk fullname root_dir)
      | none ↦ in_checkout disk fullname project_dir
    ]

-- Split: the directory, the base name and the extension
pub record Parts : Type 0 where
  pub project : Text
  pub base_name : Text
  pub extension : Text

unfoldable pub split_name : Settings → Disk → Text → Parts
unfolding repository_name split_path splitext
split_name settings disk filename =
    let (project, rest) = split_path (repository_name settings disk filename) in
    let (base, ext) = splitext rest in
    record { project = project; base_name = base; extension = ext }

-- BaseName and Extension
unfoldable pub base_name : Settings → Disk → Text → Text
unfolding split_name
base_name settings disk filename = (split_name settings disk filename).base_name

unfoldable pub extension : Settings → Disk → Text → Text
unfolding split_name
extension settings disk filename = (split_name settings disk filename).extension

-- NoExtension
unfoldable pub no_extension : Settings → Disk → Text → Text
unfolding split_name
no_extension settings disk filename =
    let parts = split_name settings disk filename in parts.project ++ (b'/' ∷ parts.base_name)

-- IsSource
unfoldable pub is_source : Settings → Disk → Text → Bool
unfolding extension is_source_extension
is_source settings disk filename =
    is_source_extension settings (drop 1 (extension settings disk filename))
