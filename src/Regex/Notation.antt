-- ===== src/Regex/Notation.antt =====
-- Further notation of patterns: r{n}, r{0,n} and sets of characters with ranges.
use deft_rpc.Base.{ℕ, zero, suc, ◌==◌, Bool, any}
use Prim.Native.String.{String}
use deft_rpc.Text.{codes}
use deft_rpc.Regex.{Regex, empty, ◌▹◌, optional}

-- r{n}
abbrev pub times : ℕ → Regex → Regex
times zero r = empty
times (suc zero) r = r
times (suc (suc n)) r = r ▹ times (suc n) r

-- r{0,n}
abbrev pub up_to : ℕ → Regex → Regex
up_to zero r = empty
up_to (suc n) r = optional (r ▹ up_to n r)

-- a character of [...]
abbrev pub one_of_chars : String → ℕ → Bool
one_of_chars s c = any (λ d. d == c) (codes s)
