-- ===== src/Text.antt =====
-- Python's `str` as a list of code points, and the methods of it that scripts/tools/cpplint.py calls.
pub mod Compare
pub mod Number
pub mod Find
pub mod Fields
use Prim.Native.Char.{code}
use Prim.Native.String.{String}
use deft_rpc.Base.{
  ℕ, zero, suc, ◌+◌, ◌-◌, ◌<◌, Bool, true, false, not, ◌&&◌, ◌||◌, Option, none, some, List, [],
  ◌∷◌, ◌++◌, map, reverse, length, take, drop, ltb, leb, ◌==◌, if◌then◌else◌,
}

abbrev pub Text : Type 0
Text = List ℕ

-- the code points of a literal
abbrev pub codes : String → Text
codes String.[] = []
codes (String.◌∷◌ c s) = code c ∷ codes s

-- s == t
unfoldable pub eq : Text → Text → Bool
eq [] [] = true
eq (a ∷ s) (b ∷ t) = a == b && eq s t
eq _ _ = false

-- s in [t, …]
unfoldable pub one_of : Text → List Text → Bool
unfolding eq
one_of s [] = false
one_of s (t ∷ ts) = eq s t || one_of s ts

-- s.startswith(p)
unfoldable pub starts_with : Text → Text → Bool
starts_with [] s = true
starts_with (p ∷ ps) [] = false
starts_with (p ∷ ps) (c ∷ s) = p == c && starts_with ps s

-- s.endswith(p)
unfoldable pub ends_with : Text → Text → Bool
unfolding starts_with
ends_with p s = starts_with (reverse p) (reverse s)

-- s.find(t): the first index at which `t` stands; `none` is -1
unfoldable pub find : Text → Text → Option ℕ
unfolding starts_with
find t [] = if starts_with t [] then some 0 else none
find t (c ∷ s) =
    let rest = find t s in
    if starts_with t (c ∷ s) then some 0 else elim rest [ none ↦ none | some i ↦ some (suc i) ]

-- s.count(c) of one character
unfoldable pub count : ℕ → Text → ℕ
count c [] = 0
count c (d ∷ s) = (if c == d then 1 else 0) + count c s

-- The scan of s.count(t) and s.replace(t, r): at an occurrence of `t` the scan goes on behind it,
-- which `skip` counts off.
count_from : Text → ℕ → Text → ℕ
count_from t skip [] = 0
count_from t (suc skip) (c ∷ s) = count_from t skip s
count_from t zero (c ∷ s) =
    let found = 1 + count_from t (length t - 1) s in
    let missed = count_from t 0 s in if starts_with t (c ∷ s) then found else missed

-- s.count(t), for a `t` that is not empty
unfoldable pub count_text : Text → Text → ℕ
unfolding starts_with count_from
count_text t = count_from t 0

replace_from : Text → Text → ℕ → Text → Text
replace_from t r skip [] = []
replace_from t r (suc skip) (c ∷ s) = replace_from t r skip s
replace_from t r zero (c ∷ s) =
    let found = r ++ replace_from t r (length t - 1) s in
    let missed = c ∷ replace_from t r 0 s in if starts_with t (c ∷ s) then found else missed

-- s.replace(t, r), for a `t` that is not empty
unfoldable pub replace : Text → Text → Text → Text
unfolding starts_with replace_from
replace t r = replace_from t r 0

abbrev split_cons : ℕ → List Text → List Text
split_cons c [] = (c ∷ []) ∷ []
split_cons c (w ∷ ws) = (c ∷ w) ∷ ws

-- s.split(c) at one character: always one field more than there are separators
unfoldable pub split : ℕ → Text → List Text
split sep [] = [] ∷ []
split sep (c ∷ s) = if c == sep then [] ∷ split sep s else split_cons c (split sep s)

-- the white space of Python's `str`
unfoldable pub is_space : ℕ → Bool
is_space c =
    (leb 9 c && leb c 13)
    || (leb 28 c && leb c 32)
    || c == 133
    || c == 160
    || c == 5760
    || (leb 8192 c && leb c 8202)
    || c == 8232
    || c == 8233
    || c == 8239
    || c == 8287
    || c == 12288

-- s.lstrip(), s.rstrip(), s.strip()
unfoldable pub lstrip : Text → Text
unfolding is_space
lstrip [] = []
lstrip (c ∷ s) = if is_space c then lstrip s else c ∷ s

unfoldable pub rstrip : Text → Text
unfolding lstrip
rstrip s = reverse (lstrip (reverse s))

unfoldable pub strip : Text → Text
unfolding rstrip
strip s = rstrip (lstrip s)

-- s.lower() and s.upper(), of ASCII text
unfoldable pub lower : Text → Text
lower = map λ c. if leb b'A' c && leb c b'Z' then c + 32 else c

unfoldable pub upper : Text → Text
upper = map λ c. if leb b'a' c && leb c b'z' then c - 32 else c

-- s < t: lexicographic, by code points
unfoldable pub less : Text → Text → Bool
less _ [] = false
less [] (b ∷ t) = true
less (a ∷ s) (b ∷ t) = ltb a b || (a == b && less s t)

-- sep.join(parts)
unfoldable pub join : Text → List Text → Text
join sep [] = []
join sep (w ∷ []) = w
join sep (w ∷ v ∷ ws) = w ++ (sep ++ join sep (v ∷ ws))
