-- ===== src/FileInfo/Loops.antt =====
-- The loops of `RepositoryName` up the directories.
use deft_rpc.Base.{
  ℕ, zero, suc, ◌<◌, ◌≡◌, refl, sym, ap, ◌≢◌, Bool-cases, true, inl, inr, false, not, Option, none,
  some, arith, if◌then◌else◌, length,
}
use deft_rpc.Text.{Text, codes, eq}
use deft_rpc.Text.Compare.{eq_iff}
use deft_rpc.Paths.{Disk, dirname, join_path}
use deft_rpc.Paths.Split.{dirname-length}
use deft_rpc.FileInfo.{find_repository, svn_root, is_checkout, top_checkout}

-- The checkout nearest to the top of the file system among a directory and those above it, less the
-- top itself, which is its own parent.
pub data LastCheckout (disk : Disk) : Text → Option Text → Type 0 where
  top : (dir : Text) → dirname dir ≡ dir → LastCheckout disk dir none
  above :
      (dir root : Text)
      → dirname dir ≢ dir
      → LastCheckout disk (dirname dir) (some root)
      → LastCheckout disk dir (some root)
  here :
      (dir : Text)
      → dirname dir ≢ dir
      → is_checkout disk dir ≡ true
      → LastCheckout disk (dirname dir) none
      → LastCheckout disk dir (some dir)
  nowhere :
      (dir : Text)
      → dirname dir ≢ dir
      → is_checkout disk dir ≡ false
      → LastCheckout disk (dirname dir) none
      → LastCheckout disk dir none

abbrev pub otherwise : Text → Option Text → Text
otherwise default none = default
otherwise default (some root) = root

at_dir :
    (disk : Disk) (root_dir dir : Text)
    → dirname dir ≢ dir
    → (o : Option Text) → LastCheckout disk (dirname dir) o
    → (result : Text) → result ≡ otherwise (if is_checkout disk dir then dir else root_dir) o
    → (q : Option Text) × LastCheckout disk dir q × (result ≡ otherwise root_dir q)
at_dir disk root_dir dir moved (some root) last result r = (some root, above dir root moved last, r)
at_dir disk root_dir dir moved none last result r = elim (Bool-cases (is_checkout disk dir)) [
  | inl e ↦ (some dir, here dir moved e last, ground (arith, r, e))
  | inr e ↦ (none, nowhere dir moved e last, ground (arith, r, e))
]

-- The loop with more rounds than the directory has characters ends at the top, with the checkout
-- nearest to it, or with the root that it began with where there is none.
pub top_checkout-LastCheckout :
    (f : ℕ) (disk : Disk) (root_dir current_dir : Text)
    → length current_dir < f
    → (o : Option Text) × LastCheckout disk current_dir o
      × (top_checkout f disk root_dir current_dir ≡ otherwise root_dir o)
unfolding top_checkout
top_checkout-LastCheckout zero disk root_dir current_dir h = absurd (omega arith)
top_checkout-LastCheckout (suc f) disk root_dir current_dir h =
    elim (Bool-cases (eq current_dir (dirname current_dir))) [
      | inl e ↦ (
        none,
        top current_dir (sym ((eq_iff current_dir (dirname current_dir)).0 e)),
        rw (top_checkout, e) refl,
      )
      | inr e ↦
          let moved : dirname current_dir ≢ current_dir =
            λ p. ground (arith, e, (eq_iff current_dir (dirname current_dir)).1 (sym p)) in
          let l : length (dirname current_dir) < length current_dir =
            elim (dirname-length current_dir) [ inl p ↦ absurd (moved p) | inr l ↦ l ] in
          let root : Text = if is_checkout disk current_dir then current_dir else root_dir in
          let (o, last, r) =
            top_checkout-LastCheckout f disk root (dirname current_dir) (omega (arith, l)) in
          rw (top_checkout, e) (at_dir disk root_dir current_dir moved o last _ r)
    ]

-- Any two numbers of rounds above the length of the directory give the same result of the search for
-- the directory that `_repository` names.
pub find_repository_rounds :
    (f g : ℕ) (disk : Disk) (repo root_dir : Text)
    → length root_dir < f
    → length root_dir < g
    → find_repository f disk repo root_dir ≡ find_repository g disk repo root_dir
unfolding find_repository
find_repository_rounds zero g disk repo root_dir h k = absurd (omega arith)
find_repository_rounds (suc f) zero disk repo root_dir h k = absurd (omega arith)
find_repository_rounds (suc f) (suc g) disk repo root_dir h k =
    let around = λ (up : Option Text).
      if not (disk.exists root_dir)
      then none
      else if eq root_dir repo
      then some root_dir
      else if eq (dirname root_dir) root_dir
      then none
      else up in
    elim (dirname-length root_dir) [
      | inl e ↦
          let same = (eq_iff (dirname root_dir) root_dir).1 e in rw (find_repository, same) refl
      | inr l ↦ ap around (
          find_repository_rounds f g disk repo (dirname root_dir) (omega (arith, l))
            (omega (arith, l)))
    ]

-- No `.svn` stands in a directory that is its own parent.
abbrev pub NoSvnOnTop : Disk → Type 0
NoSvnOnTop disk =
    (dir : Text) → dirname dir ≡ dir → disk.exists (join_path dir (codes ".svn")) ≡ false

-- If no `.svn` stands at the top of the file system, any two numbers of rounds above the length of the
-- directory give the same root of the SVN checkout.
pub svn_root_rounds :
    (f g : ℕ) (disk : Disk) (root_dir one_up_dir : Text)
    → NoSvnOnTop disk
    → length one_up_dir < f
    → length one_up_dir < g
    → svn_root f disk root_dir one_up_dir ≡ svn_root g disk root_dir one_up_dir
unfolding svn_root
svn_root_rounds zero g disk root_dir one_up_dir no_svn h k = absurd (omega arith)
svn_root_rounds (suc f) zero disk root_dir one_up_dir no_svn h k = absurd (omega arith)
svn_root_rounds (suc f) (suc g) disk root_dir one_up_dir no_svn h k =
    elim (dirname-length one_up_dir) [
      | inl e ↦ rw (svn_root, no_svn one_up_dir e) refl
      | inr l ↦
          ap (λ up. if disk.exists (join_path one_up_dir (codes ".svn")) then up else root_dir)
            (svn_root_rounds f g disk (dirname root_dir) (dirname one_up_dir) no_svn
              (omega (arith, l)) (omega (arith, l)))
    ]
