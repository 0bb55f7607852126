-- ===== src/Needs/Order.antt =====
-- The order of the warnings of `CheckForIncludeWhatYouUse`.
use deft_rpc.Base.{ℕ, ◌≤◌, not, Bool, List, [], ◌∷◌, map, All}
use mathlib.Core.List.{Perm}
use mathlib.Core.List.Perm as Permutation
use deft_rpc.Text.{Text, one_of}
use deft_rpc.Dict.{Dict}
use deft_rpc.Lint.{Report}
use deft_rpc.Needs.{Need, strip_brackets}

-- The numbers do not fall.
abbrev pub IsAscending : List ℕ → Type 0
IsAscending [] = Unit
IsAscending (n ∷ ns) = All (λ m. n ≤ m) ns × IsAscending ns

abbrev pub line : Need → ℕ
line need = need.1.0

abbrev Behind : ℕ → List Need → Type 0
Behind n = All (λ need. n ≤ line need)

abbrev InOrder : List Need → Type 0
InOrder [] = Unit
InOrder (x ∷ xs) = Behind (line x) xs × InOrder xs

abbrev linenums : List Report → List ℕ
linenums = map (λ r. r.linenum)

-- The name of the header that is needed is none of the names that are included.
abbrev pub is_unincluded : Dict ℕ → Need → Bool
is_unincluded include_dict need =
    not (one_of (strip_brackets need.0) (map (λ entry. entry.0) include_dict))
