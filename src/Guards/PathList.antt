-- ===== src/Guards/PathList.antt =====
-- `PathSplitToList` takes apart what `os.path.join` puts together.
use mathlib.Core.Path.{subst}
use deft_rpc.Base.{
  ℕ, zero, suc, ◌+◌, ◌<◌, ◌≡◌, refl, sym, ap, ◌∙◌, ◌≢◌, inl, inr, false, List, [], ◌∷◌, ◌++◌,
  reverse, arith, if◌then◌else◌, length, length-append, All,
}
use deft_rpc.Text.{Text, codes, eq, starts_with}
use deft_rpc.Text.Compare.{eq_iff, eq_refl, eq_ne}
use deft_rpc.Paths.{split_path, dirname, join_path, join_all, join_list}
use deft_rpc.Paths.Split.{
  length-reverse, NoSlash-reverse, reverse-join, dirname-length, IsName, NoSlash, IsSolid,
  split_path-join, split_path-NoSlash,
}
use deft_rpc.Guards.{path_split_from, path_split_to_list}

abbrev one_round : Text → List Text → List Text → List Text
one_round path list further =
    if eq (split_path path).0 path
    then (split_path path).0 ∷ list
    else if eq (split_path path).1 path
    then (split_path path).1 ∷ list
    else further

-- Any two numbers of rounds above the length of the path give the same list.
pub path_split_rounds :
    (f g : ℕ) (path : Text) (list : List Text)
    → length path < f
    → length path < g
    → path_split_from f path list ≡ path_split_from g path list
unfolding path_split_from dirname
path_split_rounds zero g path list h k = absurd (omega arith)
path_split_rounds (suc f) zero path list h k = absurd (omega arith)
path_split_rounds (suc f) (suc g) path list h k = elim (dirname-length path) [
  | inl e ↦ let same = (eq_iff (split_path path).0 path).1 e in rw (path_split_from, same) refl
  | inr l ↦ ap (one_round path list) (
      path_split_rounds f g (split_path path).0 ((split_path path).1 ∷ list) (omega (arith, l))
        (omega (arith, l)))
]

-- A name behind a path is its last component.
path_split_from-name :
    (fuel : ℕ) (path w : Text) (list : List Text)
    → IsSolid path
    → IsName w
    → path_split_from (suc fuel) (path ++ b'/' ∷ w) list ≡ path_split_from fuel path (w ∷ list)
unfolding path_split_from
path_split_from-name fuel path w list s n =
    let longer = length-append path (b'/' ∷ w) in
    let head = eq_ne path (path ++ b'/' ∷ w) (λ e. absurd (omega (arith, longer, ap length e))) in
    let tail = eq_ne w (path ++ b'/' ∷ w) (λ e. absurd (omega (arith, longer, ap length e))) in
    rw (path_split_from, split_path-join path w s n.no_slash, head, tail) refl

path_split_from-last :
    (fuel : ℕ) (w : Text) (list : List Text)
    → IsName w
    → path_split_from (suc fuel) w list ≡ w ∷ list
unfolding path_split_from
path_split_from-last fuel w list n =
    let head = eq_ne [] w (λ e. absurd (omega (arith, n.nonempty, ap length e))) in
    rw (path_split_from, split_path-NoSlash w n.no_slash, head, eq_refl w) refl

starts_with-NoSlash : (w : Text) → NoSlash w → starts_with (codes "/") w ≡ false
unfolding starts_with
starts_with-NoSlash [] h = refl
starts_with-NoSlash (c ∷ w) (x, h) = ground (arith, x)

nonempty_of : (path : Text) (c : ℕ) (s : Text) → reverse path ≡ c ∷ s → path ≢ []
nonempty_of [] c s e h = cc
nonempty_of (d ∷ path) c s e h = cc

of-IsSolid : (w r : Text) → reverse w ≡ r → NoSlash r → 0 < length r → IsSolid w
of-IsSolid w [] e h l = absurd (omega arith)
of-IsSolid w (c ∷ s) e (x, h) l = record { last = c; front = s; shape = e; solid = x }

-- Names do not begin or end with a slash.
join_path-name : (path w : Text) → IsSolid path → IsName w → join_path path w ≡ path ++ b'/' ∷ w
unfolding join_path
join_path-name path w s n =
    let inner = starts_with-NoSlash w n.no_slash in
    let outer : starts_with (codes "/") (reverse path) ≡ false =
      rw s.shape (ground (arith, s.solid)) in
    let full = eq_ne path [] (λ e. nonempty_of path s.last s.front s.shape e) in
    rw (join_path, inner, full, outer) refl

IsName-IsSolid : (w : Text) → IsName w → IsSolid w
IsName-IsSolid w n =
    of-IsSolid w (reverse w) refl (NoSlash-reverse w n.no_slash)
      (omega (arith, length-reverse w, n.nonempty))

IsSolid-join : (path w : Text) → IsName w → IsSolid (path ++ b'/' ∷ w)
IsSolid-join path w n =
    let s = IsName-IsSolid w n in
    record {
      last = s.last;
      front = s.front ++ b'/' ∷ reverse path;
      shape = reverse-join path w ∙ ap (λ r. r ++ b'/' ∷ reverse path) s.shape;
      solid = s.solid;
    }

path_split_from-join_all :
    (f g : ℕ) (path : Text) (names : List Text)
    → IsSolid path
    → All IsName names
    → length (join_all path names) < f
    → length path < g
    → path_split_from f (join_all path names) [] ≡ path_split_from g path names
unfolding join_all
path_split_from-join_all f g path [] s h p q = path_split_rounds f g path [] p q
path_split_from-join_all f g path (w ∷ names) s (n, h) p q =
    let longer = length-append path (b'/' ∷ w) in
    let joined = join_path-name path w s n in
    let further =
      path_split_from-join_all f (suc (length (path ++ b'/' ∷ w))) (path ++ b'/' ∷ w) names
        (IsSolid-join path w n) h (subst (λ x. length (join_all x names) < f) joined p)
        (omega arith) in
    subst (λ x. path_split_from f (join_all x names) [] ≡ path_split_from g path (w ∷ names))
      (sym joined)
      (further
        ∙ (path_split_from-name (length (path ++ b'/' ∷ w)) path w names s n
            ∙ path_split_rounds (length (path ++ b'/' ∷ w)) g path (w ∷ names)
                (omega (arith, longer)) q))

-- PathSplitToList gives back the names, not empty and without slashes, that os.path.join put together.
pub path_split_to_list-join_list :
    (name : Text) (names : List Text)
    → IsName name
    → All IsName names
    → path_split_to_list (join_list (name ∷ names)) ≡ name ∷ names
unfolding path_split_to_list join_list
path_split_to_list-join_list name names n h =
    path_split_from-join_all (length (join_all name names) + 1) (suc (length name)) name names
      (IsName-IsSolid name n) h (omega arith) (omega arith)
    ∙ path_split_from-last (length name) name names n
