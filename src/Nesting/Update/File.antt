-- ===== src/Nesting/Update/File.antt =====
-- `Update` over the lines of a file, and the directives of the preprocessor.
use deft_rpc.Base.{ℕ, zero, suc, ◌≡◌, refl, false, [], get_or}
use mathlib.Core.Path.{subst}
use deft_rpc.Text.{Text}
use deft_rpc.Regex.{matches}
use deft_rpc.Lines.{CleansedLines}
use deft_rpc.Nesting.{NestingState, init, if_line, else_line, endif_line, update_preprocessor}
use deft_rpc.Nesting.Preprocessor.{
  IsIf, IsElse, IsEndif, Region, nothing, restack, retop, conditional, Branches, branch,
  alternative, Region-pp_stack,
}
use deft_rpc.Nesting.Update.{top, update, update_stack}

-- The state behind the first `n` lines.
pub state_behind : Text → CleansedLines → ℕ → NestingState
state_behind filename clean_lines zero = init
state_behind filename clean_lines (suc n) =
    (update filename clean_lines n (state_behind filename clean_lines n)).0

abbrev pub IsPlain : Text → Type 0
IsPlain line =
    (matches if_line line ≡ false)
    × ((matches else_line line ≡ false) × (matches endif_line line ≡ false))

abbrev pub line_of : CleansedLines → ℕ → Text
line_of clean_lines linenum = get_or clean_lines.elided linenum []

mutual
  -- From one line up to another, the directives nest.
  pub data Nests (clean_lines : CleansedLines) : ℕ → ℕ → Type 0 where
    no_line : {a : ℕ} → Nests clean_lines a a
    plain_line :
        {a b : ℕ}
        → Nests clean_lines a b
        → IsPlain (line_of clean_lines b)
        → Nests clean_lines a (suc b)
    if_endif :
        {a b c : ℕ}
        → Nests clean_lines a b
        → IsIf (line_of clean_lines b)
        → Alternatives clean_lines (suc b) c
        → IsEndif (line_of clean_lines c)
        → Nests clean_lines a (suc c)

  pub data Alternatives (clean_lines : CleansedLines) : ℕ → ℕ → Type 0 where
    first : {a b : ℕ} → Nests clean_lines a b → Alternatives clean_lines a b
    further :
        {a b c : ℕ}
        → Alternatives clean_lines a b
        → IsElse (line_of clean_lines b)
        → Nests clean_lines (suc b) c
        → Alternatives clean_lines a c

at_plain : (line : Text) (s : NestingState) → IsPlain line → update_preprocessor line s ≡ s
unfolding update_preprocessor
at_plain line s (i, (e, n)) = rw (i, e, n) refl

Region-trans : {s t u : NestingState} → Region s t → Region t u → Region s u
Region-trans r nothing = r
Region-trans r (restack q stack) = restack (Region-trans r q) stack
Region-trans r (retop q o) = retop (Region-trans r q) o
Region-trans r (conditional if_text endif_text q i b n) =
    conditional if_text endif_text (Region-trans r q) i b n

-- The last branch goes on.
Branches-Region : {s t u : NestingState} → Branches s t → Region t u → Branches s u
Branches-Region (branch r) q = branch (Region-trans r q)
Branches-Region (alternative else_text bs i r) q = alternative else_text bs i (Region-trans r q)

module _ (filename : Text) (clean_lines : CleansedLines) where
  abbrev behind : ℕ → NestingState
  behind = state_behind filename clean_lines

  -- the state at a line, with the top of the stack in front of it noted
  abbrev noted : ℕ → NestingState
  noted n = record (behind n) { previous_stack_top = top (behind n).stack }

  abbrev directed : ℕ → NestingState
  directed n = update_preprocessor (line_of clean_lines n) (noted n)

  -- Behind the directive of a line, only the stack changes.
  update-Region : (n : ℕ) → Region (directed n) (behind (suc n))
  unfolding state_behind update
  update-Region n =
      restack nothing
        (update_stack filename clean_lines n (line_of clean_lines n) (directed n).stack).0

  noted-Region : (n : ℕ) → Region (behind n) (noted n)
  noted-Region n = retop nothing (top (behind n).stack)

  mutual
    Nests-Region : {a b : ℕ} → Nests clean_lines a b → Region (behind a) (behind b)
    Nests-Region no_line = nothing
    Nests-Region (plain_line {a} {b} h p) =
        Region-trans (Region-trans (Nests-Region h) (noted-Region b)) (
          subst (λ s. Region s (behind (suc b))) (at_plain (line_of clean_lines b) (noted b) p)
            (update-Region b))
    Nests-Region (if_endif {a} {b} {c} h i ts n) =
        Region-trans
          (conditional (line_of clean_lines b) (line_of clean_lines c)
            (Region-trans (Nests-Region h) (noted-Region b)) i
            (Branches-Region (Alternatives-Branches b c ts) (noted-Region c)) n)
          (update-Region c)

    Alternatives-Branches :
        (p q : ℕ) → Alternatives clean_lines (suc p) q → Branches (directed p) (behind q)
    Alternatives-Branches p q (first h) = branch (Region-trans (update-Region p) (Nests-Region h))
    Alternatives-Branches p q (further {b = d} ts i h) =
        alternative (line_of clean_lines d)
          (Branches-Region (Alternatives-Branches p d ts) (noted-Region d)) i
          (Region-trans (update-Region d) (Nests-Region h))

  -- Over lines whose directives nest, `Update` leaves the open conditionals ts they were.
  pub Nests-pp_stack : (a b : ℕ) → Nests clean_lines a b → (behind b).pp_stack ≡ (behind a).pp_stack
  Nests-pp_stack a b h = Region-pp_stack (Nests-Region h)
