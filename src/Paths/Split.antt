-- ===== src/Paths/Split.antt =====
-- `os.path.split`: how long its head is, and what it does at a last component.
use mathlib.Core.Path.{subst}
use mathlib.Core.List.{reverse-append, reverse-reverse, reverse-cons}
use deft_rpc.Base.{
  ℕ, ◌≤◌, ◌<◌, ◌≡◌, refl, sym, ap, ◌∙◌, ◌⊎◌, inl, inr, false, List, [], ◌∷◌, ◌++◌, reverse,
  append_assoc, arith, if◌then◌else◌, Bool-cases, length, all, length-append, All, All-append,
}
use deft_rpc.Text.{Text}
use deft_rpc.Paths.{is_slash, before_slash, from_slash, strip_slashes, split_path, dirname}

pub length-reverse {ℓ} : {A : Type ℓ} (xs : List A) → length (reverse xs) ≡ length xs
length-reverse [] = refl
length-reverse (x ∷ xs) =
    ap length (reverse-cons x xs)
    ∙ omega (arith, length-append (reverse xs) (x ∷ []), length-reverse xs)

strip_slashes-length : (s : Text) → length (strip_slashes s) ≤ length s
unfolding strip_slashes
strip_slashes-length [] = omega arith
strip_slashes-length (c ∷ s) = ground (arith, strip_slashes-length s)

from_slash-length : (s : Text) → length (from_slash s) ≤ length s
unfolding from_slash
from_slash-length [] = omega arith
from_slash-length (c ∷ s) = ground (arith, from_slash-length s)

abbrev trimmed : Text → Text
trimmed h = if all is_slash h then h else strip_slashes h

trimmed-length : (h : Text) → length (trimmed h) ≤ length h
trimmed-length h = ground (arith, strip_slashes-length h)

-- What stands in front of the tail is the whole text, of slashes only, or it is shorter.
trimmed-shrinks :
    (s : Text) → (trimmed (from_slash s) ≡ s) ⊎ (length (trimmed (from_slash s)) < length s)
unfolding from_slash strip_slashes
trimmed-shrinks [] = inl refl
trimmed-shrinks (c ∷ s) = elim (Bool-cases (is_slash c)) [
  | inr other ↦
      inr
        (rw (from_slash, other) (omega (arith, trimmed-length (from_slash s), from_slash-length s)))
  | inl slash ↦ elim (Bool-cases (all is_slash (c ∷ s))) [
    | inl every ↦ inl (rw (from_slash, slash, trimmed) (rw every refl))
    | inr some_other ↦ inr (ground (arith, strip_slashes-length s))
  ]
]

-- The directory of a path is the path, or it is shorter.
pub dirname-length : (p : Text) → (dirname p ≡ p) ⊎ (length (dirname p) < length p)
unfolding dirname split_path
dirname-length p = elim (trimmed-shrinks (reverse p)) [
  | inl e ↦ inl (ap reverse e ∙ reverse-reverse p)
  | inr l ↦
      inr (omega (arith, l, length-reverse (trimmed (from_slash (reverse p))), length-reverse p))
]

-- A component: not empty, and without a slash.
abbrev pub NoSlash : Text → Type 0
NoSlash = All (λ c. is_slash c ≡ false)

pub record IsName (w : Text) : Type 0 where
  pub no_slash : NoSlash w
  pub nonempty : 0 < length w

pub NoSlash-reverse : (w : Text) → NoSlash w → NoSlash (reverse w)
NoSlash-reverse [] h = tt
NoSlash-reverse (c ∷ w) (x, h) =
    subst NoSlash (sym (reverse-cons c w))
      (All-append (λ c. is_slash c ≡ false) (reverse w) (c ∷ []) (NoSlash-reverse w h) (x, tt))

before_slash-append : (w r : Text) → NoSlash w → before_slash (w ++ b'/' ∷ r) ≡ w
unfolding before_slash
before_slash-append [] r h = refl
before_slash-append (c ∷ w) r (x, h) = ground (arith, before_slash-append w r h)

from_slash-append : (w r : Text) → NoSlash w → from_slash (w ++ b'/' ∷ r) ≡ b'/' ∷ r
unfolding from_slash
from_slash-append [] r h = refl
from_slash-append (c ∷ w) r (x, h) = ground (arith, from_slash-append w r h)

before_slash-NoSlash : (w : Text) → NoSlash w → before_slash w ≡ w
unfolding before_slash
before_slash-NoSlash [] h = refl
before_slash-NoSlash (c ∷ w) (x, h) = ground (arith, before_slash-NoSlash w h)

from_slash-NoSlash : (w : Text) → NoSlash w → from_slash w ≡ []
unfolding from_slash
from_slash-NoSlash [] h = refl
from_slash-NoSlash (c ∷ w) (x, h) = ground (arith, from_slash-NoSlash w h)

-- A path that ends in another character than a slash.
pub record IsSolid (p : Text) : Type 0 where
  pub last : ℕ
  pub front : Text
  pub shape : reverse p ≡ last ∷ front
  pub solid : is_slash last ≡ false

trimmed-solid : (c : ℕ) (s : Text) → is_slash c ≡ false → trimmed (b'/' ∷ c ∷ s) ≡ c ∷ s
unfolding strip_slashes
trimmed-solid c s h = ground arith

pair_path : {a b c d : Text} → a ≡ b → c ≡ d → ◌≡◌ {A = Text × Text} (a, c) (b, d)
pair_path p q = λ i. (p i, q i)

pub reverse-join : (p w : Text) → reverse (p ++ b'/' ∷ w) ≡ reverse w ++ b'/' ∷ reverse p
reverse-join p w =
    reverse-append p (b'/' ∷ w)
    ∙ (ap (λ r. r ++ reverse p) (reverse-cons b'/' w)
        ∙ append_assoc (reverse w) (b'/' ∷ []) (reverse p))

pub split_path-join : (p w : Text) → IsSolid p → NoSlash w → split_path (p ++ b'/' ∷ w) ≡ (p, w)
unfolding split_path
split_path-join p w s h =
    let around = reverse-join p w in
    let before : before_slash (reverse (p ++ b'/' ∷ w)) ≡ reverse w =
      ap before_slash around ∙ before_slash-append (reverse w) (reverse p) (NoSlash-reverse w h) in
    let from : from_slash (reverse (p ++ b'/' ∷ w)) ≡ b'/' ∷ s.last ∷ s.front =
      ap from_slash around
      ∙ (from_slash-append (reverse w) (reverse p) (NoSlash-reverse w h) ∙ ap (◌∷◌ b'/') s.shape) in
    let head : trimmed (from_slash (reverse (p ++ b'/' ∷ w))) ≡ reverse p =
      ap trimmed from ∙ (trimmed-solid s.last s.front s.solid ∙ sym s.shape) in
    pair_path (ap reverse head ∙ reverse-reverse p) (ap reverse before ∙ reverse-reverse w)

pub split_path-NoSlash : (w : Text) → NoSlash w → split_path w ≡ ([], w)
unfolding split_path
split_path-NoSlash w h =
    let before = before_slash-NoSlash (reverse w) (NoSlash-reverse w h) in
    let from = from_slash-NoSlash (reverse w) (NoSlash-reverse w h) in
    pair_path (ap (λ s. reverse (trimmed s)) from) (ap reverse before ∙ reverse-reverse w)
