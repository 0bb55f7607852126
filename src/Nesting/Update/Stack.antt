-- ===== src/Nesting/Update/Stack.antt =====
-- What the braces of a line do to the stack of blocks.
use deft_rpc.Base.{
  ℕ, zero, suc, ◌≡◌, refl, ap, ◌∙◌, inl, inr, Bool, true, false, ◌||◌, none, some, List, [], ◌∷◌,
  ◌++◌, Bool-cases, Option-cases,
}
use deft_rpc.Text.{Text, codes, eq}
use deft_rpc.Regex.{match, matches, group_text}
use deft_rpc.Lines.{CleansedLines}
use deft_rpc.Nesting.{Block, seen_open_brace, new_block, extern_c, plain_block, block_asm}
use deft_rpc.Nesting.Update.{
  open_brace, end_declaration, close_brace, at_token, brace_pattern, extern_pattern, match_asm,
  consume_braces,
}

-- The tokens that the loop finds, each with the line that was left in front of it.
unfoldable pub tokens : ℕ → Text → List (Text × Text)
tokens zero line = []
tokens (suc fuel) line = elim (match brace_pattern line) [
  | none ↦ []
  | some m ↦ (line, group_text m 1) ∷ tokens fuel (group_text m 2)
]

abbrev pub is_end : Text → Bool
is_end token = eq token (codes ";") || eq token (codes ")")

-- Tokens whose braces nest, with any `;` and `)` between them.
pub data IsNested : List (Text × Text) → Type 0 where
  no_token : IsNested []
  skip :
      (line token : Text) (ts : List (Text × Text))
      → eq token (codes "{") ≡ false
      → is_end token ≡ true
      → IsNested ts
      → IsNested ((line, token) ∷ ts)
  braces :
      (line line' : Text) (ts us : List (Text × Text))
      → IsNested ts
      → IsNested us
      → IsNested ((line, codes "{") ∷ (ts ++ ((line', codes "}") ∷ us)))

module _ (filename : Text) (clean_lines : CleansedLines) (linenum : ℕ) where
  -- The tokens, one after the other.
  run : List (Text × Text) → List Block → List Block
  run [] stack = stack
  run (t ∷ ts) stack = run ts (at_token filename clean_lines linenum t.0 t.1 stack).0

  run-append :
      (ts us : List (Text × Text)) (stack : List Block)
      → run (ts ++ us) stack ≡ run us (run ts stack)
  unfolding run
  run-append [] us stack = refl
  run-append (t ∷ ts) us stack =
      run-append ts us (at_token filename clean_lines linenum t.0 t.1 stack).0

  open_brace-pushes :
      (line : Text) (stack : List Block)
      → seen_open_brace stack ≡ true
      → (b : Block) × (open_brace linenum line stack ≡ b ∷ stack)
        × (seen_open_brace (b ∷ stack) ≡ true)
  unfolding open_brace seen_open_brace
  open_brace-pushes line stack seen = elim (Bool-cases (matches extern_pattern line)) [
    | inl e ↦ (new_block linenum true false extern_c, rw (open_brace, seen, e) refl, refl)
    | inr n ↦ elim (Bool-cases (matches match_asm line)) [
      | inl a ↦ (
        record (new_block linenum true false plain_block) { inline_asm = block_asm },
        rw (open_brace, seen, n, a) refl,
        refl,
      )
      | inr p ↦ (new_block linenum true false plain_block, rw (open_brace, seen, n, p) refl, refl)
    ]
  ]

  run-skip :
      (line token : Text) (stack : List Block)
      → eq token (codes "{") ≡ false
      → is_end token ≡ true
      → seen_open_brace stack ≡ true
      → (at_token filename clean_lines linenum line token stack).0 ≡ stack
  unfolding at_token end_declaration
  run-skip line token stack n e seen = rw (n, e, seen) refl

  at_open :
      (line : Text) (stack : List Block)
      → (at_token filename clean_lines linenum line (codes "{") stack).0
        ≡ open_brace linenum line stack
  unfolding at_token eq
  at_open line stack = refl

  at_close :
      (line : Text) (b : Block) (stack : List Block)
      → (at_token filename clean_lines linenum line (codes "}") (b ∷ stack)).0 ≡ stack
  unfolding at_token close_brace eq
  at_close line b stack = refl

  run-IsNested :
      (ts : List (Text × Text)) (stack : List Block)
      → IsNested ts
      → seen_open_brace stack ≡ true
      → run ts stack ≡ stack
  unfolding run
  run-IsNested _ stack no_token seen = refl
  run-IsNested _ stack (skip line token ts n e h) seen =
      rw (run-skip line token stack n e seen) (run-IsNested ts stack h seen)
  run-IsNested _ stack (braces line line' ts us h g) seen =
      let (b, o, sb) = open_brace-pushes line stack seen in
      let rest = (line', codes "}") ∷ us in
      let closed : run rest (b ∷ stack) ≡ stack =
        ap (run us) (at_close line' b stack) ∙ run-IsNested us stack g seen in
      ap (run (ts ++ rest)) (at_open line stack ∙ o)
      ∙ (run-append ts rest (b ∷ stack)
          ∙ (ap (run rest) (run-IsNested ts (b ∷ stack) h sb) ∙ closed))

  consume_braces-run :
      (fuel : ℕ) (line : Text) (stack : List Block)
      → (consume_braces fuel filename clean_lines linenum line stack).0
        ≡ run (tokens fuel line) stack
  unfolding run tokens consume_braces
  consume_braces-run zero line stack = refl
  consume_braces-run (suc fuel) line stack = elim (Option-cases (match brace_pattern line)) [
    | inl e ↦ rw (consume_braces, tokens, e) refl
    | inr (m, e) ↦
        rw (consume_braces, tokens, e)
          (consume_braces-run fuel (group_text m 2)
            (at_token filename clean_lines linenum line (group_text m 1) stack).0)
  ]

  -- If the braces that a line still has nest, and the innermost block, where there is one, has seen its
  -- own, the line leaves the stack as it was.
  pub consume_braces-IsNested :
      (fuel : ℕ) (line : Text) (stack : List Block)
      → IsNested (tokens fuel line)
      → seen_open_brace stack ≡ true
      → (consume_braces fuel filename clean_lines linenum line stack).0 ≡ stack
  consume_braces-IsNested fuel line stack h seen =
      consume_braces-run fuel line stack ∙ run-IsNested (tokens fuel line) stack h seen
