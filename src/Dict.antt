-- ===== src/Dict.antt =====
-- Python's `dict` with text keys, in the order of insertion, and `dict.setdefault(k, set()).add(n)`.
use deft_rpc.Base.{
  ℕ, ◌+◌, ◌≡◌, refl, inl, inr, Bool, true, false, ◌&&◌, ◌||◌, Option, none, some, List, [], ◌∷◌,
  arith, ◌==◌, if◌then◌else◌, ==_iff, Bool-cases, any,
}
use deft_rpc.Text.{Text, eq}
use deft_rpc.Text.Compare.{eq_iff}

abbrev pub Dict {ℓ} : Type ℓ → Type ℓ
Dict V = List (Text × V)

module _ {ℓ} {V : Type ℓ} where
  -- d.get(k)
  unfoldable pub get : Dict V → Text → Option V
  get [] k = none
  get ((j, v) ∷ d) k = if eq j k then some v else get d k

  -- d[k] = v
  unfoldable pub put : Dict V → Text → V → Dict V
  put [] k v = (k, v) ∷ []
  put ((j, w) ∷ d) k v = if eq j k then (j, v) ∷ d else (j, w) ∷ put d k v

  pub get-put :
      (d : Dict V) (k j : Text) (v : V) → get (put d k v) j ≡ (if eq k j then some v else get d j)
  unfolding get put
  get-put [] k j v = refl
  get-put ((i, w) ∷ d) k j v = ground (arith, get-put d k j v, eq_iff i k, eq_iff i j, eq_iff k j)

-- d.get(k, 0)
abbrev pub get_zero : Option ℕ → ℕ
get_zero none = 0
get_zero (some n) = n

-- `if k not in d: d[k] = 0` and `d[k] += 1`
unfoldable pub bump : Dict ℕ → Text → Dict ℕ
unfolding get put
bump d k = put d k (get_zero (get d k) + 1)

abbrev pub sum_values : Dict ℕ → ℕ
sum_values [] = 0
sum_values ((k, n) ∷ d) = n + sum_values d

-- A put moves the sum by the difference at its key.
sum_values-put :
    (d : Dict ℕ) (k : Text) (n : ℕ) → sum_values (put d k n) + get_zero (get d k) ≡ sum_values d + n
unfolding get put
sum_values-put [] k n = omega arith
sum_values-put ((j, m) ∷ d) k n = ground (arith, sum_values-put d k n)

pub sum_values-bump : (d : Dict ℕ) (k : Text) → sum_values (bump d k) ≡ sum_values d + 1
unfolding bump
sum_values-bump d k = omega (arith, sum_values-put d k (get_zero (get d k) + 1))

pub get-bump :
    (d : Dict ℕ) (k j : Text)
    → get_zero (get (bump d k) j) ≡ get_zero (get d j) + (if eq k j then 1 else 0)
unfolding bump
get-bump d k j = ground (arith, get-put d k j (get_zero (get d k) + 1), eq_iff k j)

-- n in s, for a set of numbers
abbrev pub mem : ℕ → List ℕ → Bool
mem n s = any (λ m. n == m) s

abbrev add_to : Option (List ℕ) → ℕ → List ℕ
add_to none n = n ∷ []
add_to (some s) n = if mem n s then s else n ∷ s

-- d.setdefault(k, set()).add(n)
unfoldable pub add_line : Dict (List ℕ) → Text → ℕ → Dict (List ℕ)
unfolding get put
add_line d k n = put d k (add_to (get d k) n)

-- n in d.get(k, set())
unfoldable pub has_line : Dict (List ℕ) → Text → ℕ → Bool
unfolding get
has_line d k n = elim (get d k) [ none ↦ false | some s ↦ mem n s ]

abbrev in_found : Option (List ℕ) → ℕ → Bool
in_found none m = false
in_found (some s) m = mem m s

-- Adding a number that is there changes nothing.
pub mem_known : (n m : ℕ) (s : List ℕ) → mem n s ≡ true → mem m s ≡ (m == n || mem m s)
mem_known n m s old = elim (Bool-cases (m == n)) [
  | inl same ↦ rw (same, (==_iff m n).0 same) old
  | inr other ↦ rw other
]

mem-add_to : (o : Option (List ℕ)) (n m : ℕ) → mem m (add_to o n) ≡ (m == n || in_found o m)
mem-add_to none n m = refl
mem-add_to (some s) n m = elim (Bool-cases (mem n s)) [
  | inl old ↦ rw old (mem_known n m s old)
  | inr new ↦ rw new
]

pub has_line-add_line :
    (d : Dict (List ℕ)) (k j : Text) (n m : ℕ)
    → has_line (add_line d k n) j m ≡ ((eq k j && m == n) || has_line d j m)
unfolding has_line add_line
has_line-add_line d k j n m =
    ground (arith, get-put d k j (add_to (get d k) n), mem-add_to (get d k) n m, eq_iff k j)
