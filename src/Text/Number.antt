-- ===== src/Text/Number.antt =====
-- `%d` of a number that is not negative: its decimal digits.
use deft_rpc.Base.{ℕ, zero, suc, ◌+◌, ◌/◌, ◌%◌, [], ◌∷◌, ltb, if◌then◌else◌}
use deft_rpc.Text.{Text}

-- a number below `10 ^ fuel` has at most `fuel` digits
digits : ℕ → ℕ → Text → Text
digits zero n out = out
digits (suc fuel) n out =
    let here = (b'0' + n % 10) ∷ out in
    let rest = digits fuel (n / 10) here in if ltb n 10 then here else rest

unfoldable pub decimal : ℕ → Text
unfolding digits
decimal n = digits (n + 1) n []
