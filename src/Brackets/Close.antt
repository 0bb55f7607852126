-- ===== src/Brackets/Close.antt =====
-- `CloseExpression` over several lines: the place that it returns is behind the partner of the
-- bracket that it was called at.
use deft_rpc.Base.{
  ℕ, zero, suc, ◌+◌, ◌≡◌, refl, sym, ap, ◌∙◌, inl, inr, true, Option, none, some, List, [], ◌∷◌,
  reverse, arith, Bool-cases, get_elem?, get_or, take, drop,
}
use native.Mathlib.Nat.{zero-add}
use deft_rpc.Text.{Text}
use deft_rpc.Lines.{CleansedLines}
use deft_rpc.Brackets.{
  go, Scan, at, nowhere, pending, is_opening, forward, find_end_from, find_end, close_from,
  opens_at, close_expression,
}
use deft_rpc.Brackets.Partner.{is_partner, Bottom, Closes, find_end_from-Closes, Closes-shift}

-- The position is just behind a partner of `o` in the line.
abbrev pub Behind : ℕ → Text → Option ℕ → Type 0
Behind o line none = Unit
Behind o line (some end) =
    (j : ℕ) × (c : ℕ) × (end ≡ j + 1) × (get_elem? line j ≡ some c) × (is_partner o c ≡ true)

-- The result of a line that is scanned from its start.
abbrev InLine : ℕ → Text → Scan → Type 0
InLine o line r = Closes o line 0 r

find_end-InLine :
    (line : Text) (o : ℕ) (stack : List ℕ) → Bottom o stack → InLine o line (find_end line 0 stack)
unfolding find_end
find_end-InLine line o stack h = find_end_from-Closes [] line o 0 stack h

close_from-Behind :
    (total : ℕ) (rest : List Text) (line : Text) (linenum o : ℕ) (r : Scan)
    → InLine o line r
    → Behind o
        (close_from total rest line linenum r).line
        (close_from total rest line linenum r).pos
unfolding close_from
close_from-Behind total [] line linenum o (at end) (j, c, e, g, p) = (j, c, omega arith, g, p)
close_from-Behind total (next ∷ rest) line linenum o (at end) (j, c, e, g, p) =
    (j, c, omega arith, g, p)
close_from-Behind total [] line linenum o nowhere h = tt
close_from-Behind total (next ∷ rest) line linenum o nowhere h = tt
close_from-Behind total [] line linenum o (pending []) h = tt
close_from-Behind total (next ∷ rest) line linenum o (pending []) h = tt
close_from-Behind total [] line linenum o (pending (t ∷ stack)) h = tt
close_from-Behind total (next ∷ rest) line linenum o (pending (t ∷ stack)) h =
    close_from-Behind total rest next (linenum + 1) o (find_end next 0 (t ∷ stack))
      (find_end-InLine next o (t ∷ stack) h)

get_elem?-drop : (xs : Text) (n j : ℕ) → get_elem? (drop n xs) j ≡ get_elem? xs (n + j)
get_elem?-drop xs zero j = rw zero-add
get_elem?-drop [] (suc n) j = refl
get_elem?-drop (x ∷ xs) (suc n) j =
    let e : suc (n + j) ≡ suc n + j = omega arith in
    get_elem?-drop xs n j ∙ ap (get_elem? (x ∷ xs)) e

drop_at : (xs : Text) (n c : ℕ) → get_elem? xs n ≡ some c → (rest : Text) × (drop n xs ≡ c ∷ rest)
drop_at [] n c h = cc
drop_at (x ∷ xs) zero c h = (xs, cc)
drop_at (x ∷ xs) (suc n) c h = drop_at xs n c h

forward_open :
    (before : Text) (c i : ℕ) (stack : List ℕ)
    → is_opening c ≡ true
    → forward before c i stack ≡ go (c ∷ stack)
unfolding forward
forward_open before c i stack h = rw h

pub scan_open :
    (before rest : Text) (c i : ℕ) (stack : List ℕ)
    → is_opening c ≡ true
    → find_end_from before (c ∷ rest) i stack ≡ find_end_from (c ∷ before) rest (i + 1) (c ∷ stack)
unfolding find_end_from
scan_open before rest c i stack h = ground (arith, forward_open before c i stack h)

from_drop : (line : Text) (pos o : ℕ) (r : Scan) → Closes o (drop pos line) pos r → InLine o line r
from_drop line pos o (at end) (j, c, e, g, p) =
    (pos + j, c, omega arith, sym (get_elem?-drop line pos j) ∙ g, p)
from_drop line pos o nowhere h = tt
from_drop line pos o (pending stack) h = h

-- At a bracket the scan of its own line begins with that bracket alone on the stack.
find_end_at-InLine :
    (line : Text) (pos o : ℕ)
    → get_elem? line pos ≡ some o
    → is_opening o ≡ true
    → InLine o line (find_end line pos [])
unfolding find_end
find_end_at-InLine line pos o h op =
    let (rest, e) = drop_at line pos o h in
    let before = reverse (take pos line) in
    let closes = find_end_from-Closes (o ∷ before) rest o (pos + 1) (o ∷ []) refl in
    from_drop line pos o (find_end line pos []) (
      rw (e, scan_open before rest o pos [] op)
        (Closes-shift o o pos rest (find_end_from (o ∷ before) rest (pos + 1) (o ∷ [])) closes))

-- CloseExpression at a bracket returns no position, or one just behind the partner of the bracket.
pub close_expression-Behind :
    (clean_lines : CleansedLines) (linenum pos o : ℕ)
    → get_elem? (get_or clean_lines.elided linenum []) pos ≡ some o
    → is_opening o ≡ true
    → Behind o
        (close_expression clean_lines linenum pos).line
        (close_expression clean_lines linenum pos).pos
unfolding close_expression
close_expression-Behind clean_lines linenum pos o h op =
    let line : Text = get_or clean_lines.elided linenum [] in
    elim (Bool-cases (opens_at line pos)) [
      | inl e ↦ rw e (
          close_from-Behind clean_lines.num_lines (drop (linenum + 1) clean_lines.elided) line
            linenum o (find_end line pos []) (find_end_at-InLine line pos o h op))
      | inr e ↦ rw e tt
    ]
