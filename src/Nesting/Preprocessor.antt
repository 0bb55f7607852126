-- ===== src/Nesting/Preprocessor.antt =====
-- What a region between #if and #endif leaves behind.
use deft_rpc.Base.{Option, ◌≡◌, refl, ap, ◌∙◌, true, false, List, [], ◌∷◌, arith, if◌then◌else◌}
use deft_rpc.Text.{Text}
use deft_rpc.Regex.{matches}
use deft_rpc.Nesting.{
  Block, PreprocessorInfo, NestingState, if_line, else_line, endif_line, enter_if, enter_else,
  leave_if, update_preprocessor,
}

abbrev pub IsIf : Text → Type 0
IsIf line = matches if_line line ≡ true

abbrev pub IsElse : Text → Type 0
IsElse line = (matches if_line line ≡ false) × (matches else_line line ≡ true)

abbrev pub IsEndif : Text → Type 0
IsEndif line =
    (matches if_line line ≡ false)
    × ((matches else_line line ≡ false) × (matches endif_line line ≡ true))

mutual
  -- From one state to another over lines whose #if, #else, #elif and #endif nest, where what
  -- is between them may leave any stack, and any top of a previous stack.
  pub data Region : NestingState → NestingState → Type 0 where
    nothing : {s : NestingState} → Region s s
    restack :
        {s t : NestingState}
        → Region s t
        → (stack : List Block) → Region s (record t { stack = stack })
    retop :
        {s t : NestingState}
        → Region s t
        → (top : Option Block) → Region s (record t { previous_stack_top = top })
    conditional :
        {s t u : NestingState} (if_text endif_text : Text)
        → Region s t
        → IsIf if_text
        → Branches (update_preprocessor if_text t) u
        → IsEndif endif_text
        → Region s (update_preprocessor endif_text u)

  -- The branches between an #if and its #endif.
  pub data Branches : NestingState → NestingState → Type 0 where
    branch : {s t : NestingState} → Region s t → Branches s t
    alternative :
        {s t u : NestingState} (else_text : Text)
        → Branches s t
        → IsElse else_text
        → Region (update_preprocessor else_text t) u
        → Branches s u

at_if : (line : Text) (s : NestingState) → IsIf line → update_preprocessor line s ≡ enter_if s
unfolding update_preprocessor
at_if line s h = rw h refl

at_else : (line : Text) (s : NestingState) → IsElse line → update_preprocessor line s ≡ enter_else s
unfolding update_preprocessor
at_else line s (i, e) = rw (i, e) refl

at_endif : (line : Text) (s : NestingState) → IsEndif line → update_preprocessor line s ≡ leave_if s
unfolding update_preprocessor
at_endif line s (i, (e, n)) = rw (i, e, n) refl

-- The entry of an #if on top of the stack of entries, and what `enter_else` makes of it.
abbrev else_entry : PreprocessorInfo → List Block → PreprocessorInfo
else_entry p stack =
    if p.seen_else then p else record p { stack_before_else = stack; seen_else = true }

enter_else-pp_stack :
    (s : NestingState) (p : PreprocessorInfo) (pps : List PreprocessorInfo)
    → s.pp_stack ≡ p ∷ pps
    → (enter_else s).pp_stack ≡ else_entry p s.stack ∷ pps
unfolding enter_else
enter_else-pp_stack s p pps e = rw (enter_else, e) refl

leave_if-pp_stack :
    (s : NestingState) (p : PreprocessorInfo) (pps : List PreprocessorInfo)
    → s.pp_stack ≡ p ∷ pps
    → (leave_if s).pp_stack ≡ pps
unfolding leave_if
leave_if-pp_stack s p pps e = rw (leave_if, e) refl

-- Within the branches the entry stays, with the stack from before the #if.
abbrev Entry : List Block → List PreprocessorInfo → NestingState → Type 0
Entry stack pps s = (p : PreprocessorInfo) × (s.pp_stack ≡ p ∷ pps) × (p.stack_before_if ≡ stack)

else_entry-before :
    (p : PreprocessorInfo) (stack : List Block)
    → (else_entry p stack).stack_before_if ≡ p.stack_before_if
else_entry-before p stack = ground arith

Entry-if :
    (line : Text) (s : NestingState)
    → IsIf line
    → Entry s.stack s.pp_stack (update_preprocessor line s)
unfolding enter_if
Entry-if line s h =
    rw (at_if line s h)
      (record { stack_before_if = s.stack; stack_before_else = []; seen_else = false }, refl, refl)

module _ (stack : List Block) (pps : List PreprocessorInfo) where
  Entry-else :
      (line : Text) (s : NestingState)
      → IsElse line
      → Entry stack pps s
      → Entry stack pps (update_preprocessor line s)
  Entry-else line s h (p, e, b) =
      rw (at_else line s h)
        (else_entry p s.stack, enter_else-pp_stack s p pps e, else_entry-before p s.stack ∙ b)

  Entry-endif :
      (line : Text) (s : NestingState)
      → IsEndif line
      → Entry stack pps s
      → (update_preprocessor line s).pp_stack ≡ pps
  Entry-endif line s h (p, e, b) = rw (at_endif line s h) (leave_if-pp_stack s p pps e)

mutual
  Region-entries : {s t : NestingState} → Region s t → t.pp_stack ≡ s.pp_stack
  Region-entries nothing = refl
  Region-entries (restack r stack) = Region-entries r
  Region-entries (retop r top) = Region-entries r
  Region-entries (conditional {s} {t} {u} if_text endif_text r i b n) =
      Entry-endif t.stack t.pp_stack endif_text u n
        (Branches-Entry t.stack t.pp_stack b (Entry-if if_text t i))
      ∙ Region-entries r

  Branches-Entry :
      {s t : NestingState} (stack : List Block) (pps : List PreprocessorInfo)
      → Branches s t
      → Entry stack pps s
      → Entry stack pps t
  Branches-Entry stack pps (branch r) (p, e, b) = (p, Region-entries r ∙ e, b)
  Branches-Entry stack pps (alternative {s} {t} {u} else_text bs i r) entry =
      let (p, e, b) = Entry-else stack pps else_text t i (Branches-Entry stack pps bs entry) in
      (p, Region-entries r ∙ e, b)

-- A region, in which directives nest, leaves the entries as they were.
pub Region-pp_stack : {s t : NestingState} → Region s t → t.pp_stack ≡ s.pp_stack
Region-pp_stack r = Region-entries r

-- Every branch behind #else or #elif begins with the stack from before the #if.
pub else-stack :
    (if_text else_text : Text) (s t : NestingState)
    → IsIf if_text
    → Branches (update_preprocessor if_text s) t
    → IsElse else_text
    → (update_preprocessor else_text t).stack ≡ s.stack
unfolding enter_else
else-stack if_text else_text s t i bs h =
    let (p, e, b) = Branches-Entry s.stack s.pp_stack bs (Entry-if if_text s i) in
    rw (at_else else_text t h, enter_else, e) b

-- Once an #else has been seen, the entry stays as it is.
Branches-seen_else :
    {s t : NestingState} (p : PreprocessorInfo) (pps : List PreprocessorInfo)
    → p.seen_else ≡ true
    → Branches s t
    → s.pp_stack ≡ p ∷ pps
    → t.pp_stack ≡ p ∷ pps
Branches-seen_else p pps seen (branch r) e = Region-entries r ∙ e
Branches-seen_else p pps seen (alternative {s} {t} {u} else_text bs i r) e =
    let before = Branches-seen_else p pps seen bs e in
    Region-entries r
    ∙ rw (at_else else_text t i) (enter_else-pp_stack t p pps before ∙ rw seen refl)

-- The first #else of a conditional stores the stack that the first branch leaves.
first_else :
    (if_text else_text : Text) (s t : NestingState)
    → IsIf if_text
    → Region (update_preprocessor if_text s) t
    → IsElse else_text
    → (update_preprocessor else_text t).pp_stack
      ≡ record { stack_before_if = s.stack; stack_before_else = t.stack; seen_else = true }
        ∷ s.pp_stack
unfolding enter_if
first_else if_text else_text s t i r h =
    let p : PreprocessorInfo = record {
      stack_before_if = s.stack;
      stack_before_else = [];
      seen_else = false;
    } in
    let before : t.pp_stack ≡ p ∷ s.pp_stack =
      Region-entries r ∙ ap (λ q. q.pp_stack) (at_if if_text s i) in
    rw (at_else else_text t h) (enter_else-pp_stack t p s.pp_stack before)

-- Behind the #endif of a region with an #else or #elif the stack is what its first branch left, and the
-- entries are those from before the #if.
pub endif-stack :
    (if_text else_text endif_text : Text) (s t u : NestingState)
    → IsIf if_text
    → Region (update_preprocessor if_text s) t
    → IsElse else_text
    → Branches (update_preprocessor else_text t) u
    → IsEndif endif_text
    → ((update_preprocessor endif_text u).stack ≡ t.stack)
      × ((update_preprocessor endif_text u).pp_stack ≡ s.pp_stack)
unfolding leave_if
endif-stack if_text else_text endif_text s t u i r h bs n =
    let p : PreprocessorInfo = record {
      stack_before_if = s.stack;
      stack_before_else = t.stack;
      seen_else = true;
    } in
    let seen = Branches-seen_else p s.pp_stack refl bs (first_else if_text else_text s t i r h) in
    rw (at_endif endif_text u n, leave_if, seen) (refl, refl)
