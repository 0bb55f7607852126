-- ===== src/Functions/Size.antt =====
-- When a function is reported as too long, and with which confidence.
use deft_rpc.Base.{
  ℕ, zero, suc, ◌+◌, ◌*◌, ◌^◌, ◌≤◌, ◌<◌, min, ◌≡◌, ◌⊎◌, inl, inr, true, arith, leb, leb→le,
  leb_false→lt, Bool-cases,
}
use native.Mathlib.Nat.{pow-suc}
use deft_rpc.Text.{Text}
use deft_rpc.Lint.{Report}
use deft_rpc.Functions.{FunctionState, doublings, base_trigger}

double : (base k : ℕ) → base * 2 ^ suc k ≡ 2 * base * 2 ^ k
double base k = grind (arith, pow-suc 2 k)

pub doublings-below :
    (fuel base lines : ℕ) → base ≤ lines → base * 2 ^ doublings fuel base lines ≤ lines
unfolding doublings
doublings-below zero base lines h = omega arith
doublings-below (suc fuel) base lines h = elim (Bool-cases (leb (2 * base) lines)) [
  | inl more ↦
      let rest =
        doublings-below fuel (2 * base) lines (ground (arith, leb→le (2 * base) lines more)) in
      rw (doublings, more) (omega (arith, rest, double base (doublings fuel (2 * base) lines)))
  | inr less ↦ rw (doublings, less) (omega (arith, h))
]

pub doublings-above :
    (fuel base lines : ℕ)
    → 0 < base
    → lines < base + fuel
    → lines < base * 2 ^ suc (doublings fuel base lines)
unfolding doublings
doublings-above zero base lines p h = omega arith
doublings-above (suc fuel) base lines p h = elim (Bool-cases (leb (2 * base) lines)) [
  | inl more ↦
      let rest = doublings-above fuel (2 * base) lines (omega arith) (omega arith) in
      rw (doublings, more)
        (omega (arith, rest, double base (suc (doublings fuel (2 * base) lines))))
  | inr less ↦ rw (doublings, less) (omega (arith, leb_false→lt (2 * base) lines less))
]

-- The confidence `c` that goes with a number of lines beyond a trigger: at least the verbosity, and
-- 5 or the logarithm of the quotient.
pub Logarithm : ℕ → ℕ → ℕ → ℕ → Type 0
Logarithm base verbosity lines c =
    (min 5 verbosity ≤ c) × ((base * 2 ^ c ≤ lines) × ((c ≡ 5) ⊎ (lines < base * 2 ^ suc c)))

-- Where a report of too many lines comes from.
pub record TooLong (verbosity : ℕ) (linenum : ℕ) (s : FunctionState) (r : Report) : Type 0 where
  pub at_line : r.linenum ≡ linenum
  pub inside : s.in_a_function ≡ true
  pub beyond : base_trigger s.current_function * 2 ^ verbosity < s.lines_in_function
  pub level : Logarithm (base_trigger s.current_function) verbosity s.lines_in_function r.confidence
