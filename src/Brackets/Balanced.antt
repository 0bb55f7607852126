-- ===== src/Brackets/Balanced.antt =====
-- Around a text with balanced brackets the scan finds the matching bracket, whatever operators,
-- templates, arrows and semicolons the text has.
use deft_rpc.Base.{
  ℕ, zero, suc, ◌+◌, ◌≡◌, refl, sym, ap, ◌∙◌, ◌⊎◌, inl, inr, Bool, true, false, not, ◌||◌, some,
  List, [], ◌∷◌, ◌++◌, reverse, append_assoc, arith, ◌==◌, ==_iff, Bool-cases, length, get_elem?,
  get_or, take, drop, length-append,
}
use deft_rpc.Text.{Text}
use deft_rpc.Brackets.{
  Step, go, stop, fail, at, pop_all, popped, left_shift, close_angle, follows, after_operator,
  before_arrow, is_opening, is_closing, is_pair, forward, find_end_from, find_end, close_from,
  place, opens_at, close_expression, shift_or_compare,
}
use deft_rpc.Regex.{match, matches}
use deft_rpc.Lines.{CleansedLines}
use deft_rpc.Brackets.Close.{scan_open}

-- No bracket; `<`, `>` and `;` are plain, too.
abbrev pub is_plain : ℕ → Bool
is_plain c = not (is_opening c || is_closing c)

pub data IsBalanced : Text → Type 0 where
  none_left : IsBalanced []
  plain : {w : Text} (c : ℕ) → is_plain c ≡ true → IsBalanced w → IsBalanced (c ∷ w)
  nested :
      {w v : Text} (o c : ℕ)
      → is_opening o ≡ true
      → is_pair o c ≡ true
      → IsBalanced w
      → IsBalanced v
      → IsBalanced (o ∷ (w ++ c ∷ v))

-- the text read, in front of what was read before
abbrev pub onto : Text → Text → Text
onto [] before = before
onto (c ∷ w) before = onto w (c ∷ before)

pub onto-append : (w v before : Text) → onto (w ++ v) before ≡ onto v (onto w before)
onto-append [] v before = refl
onto-append (c ∷ w) v before = onto-append w v (c ∷ before)

-- A stack with pending `<` on top.
abbrev angles : ℕ → List ℕ → List ℕ
angles zero stack = stack
angles (suc m) stack = b'<' ∷ angles m stack

opening-other : (t : ℕ) → is_opening t ≡ true → (t == b'<') ≡ false
opening-other t h = ground arith

pop_all-angles :
    (m t : ℕ) (stack : List ℕ)
    → is_opening t ≡ true
    → pop_all b'<' (angles m (t ∷ stack)) ≡ t ∷ stack
unfolding pop_all
pop_all-angles zero t stack h = ground arith
pop_all-angles (suc m) t stack h = pop_all-angles m t stack h

popped-angles :
    (last : Step) (m t : ℕ) (stack : List ℕ)
    → popped last (angles m (t ∷ stack)) ≡ go (angles m (t ∷ stack))
popped-angles last zero t stack = refl
popped-angles last (suc m) t stack = refl

-- A `<` behind a `<`, a `>` that is no arrow, and any other character that is no bracket change only
-- how many `<` are pending.
left_shift-angles :
    (m t : ℕ) (stack : List ℕ)
    → is_opening t ≡ true
    → (n : ℕ) × (left_shift (angles m (t ∷ stack)) ≡ go (angles n (t ∷ stack)))
unfolding left_shift
left_shift-angles zero t stack o = (0, rw (left_shift, opening-other t o) refl)
left_shift-angles (suc m) t stack o = (m, popped-angles fail m t stack)

close_angle-angles :
    (i m t : ℕ) (stack : List ℕ)
    → is_opening t ≡ true
    → (n : ℕ) × (close_angle i (angles m (t ∷ stack)) ≡ go (angles n (t ∷ stack)))
unfolding close_angle
close_angle-angles i zero t stack o = (0, rw (close_angle, opening-other t o) refl)
close_angle-angles i (suc m) t stack o = (m, popped-angles (stop (i + 1)) m t stack)

forward_angle :
    (before : Text) (i m t : ℕ) (stack : List ℕ)
    → is_opening t ≡ true
    → (n : ℕ) × (forward before b'<' i (angles m (t ∷ stack)) ≡ go (angles n (t ∷ stack)))
unfolding forward
forward_angle before i m t stack o = elim (Bool-cases (follows before b'<')) [
  | inl f ↦ let (n, e) = left_shift-angles m t stack o in (n, rw f e)
  | inr f ↦ elim (Bool-cases (after_operator before)) [
    | inl a ↦ (m, rw (f, a) refl)
    | inr a ↦ (suc m, rw (f, a) refl)
  ]
]

forward_arrow :
    (before : Text) (i m t : ℕ) (stack : List ℕ)
    → is_opening t ≡ true
    → (n : ℕ) × (forward before b'>' i (angles m (t ∷ stack)) ≡ go (angles n (t ∷ stack)))
unfolding forward
forward_arrow before i m t stack o =
    elim (Bool-cases (follows before b'-' || before_arrow before)) [
      | inl f ↦ (m, rw f refl)
      | inr f ↦ let (n, e) = close_angle-angles i m t stack o in (n, rw f e)
    ]

forward_semicolon :
    (before : Text) (i m t : ℕ) (stack : List ℕ)
    → is_opening t ≡ true
    → forward before b';' i (angles m (t ∷ stack)) ≡ go (t ∷ stack)
unfolding forward
forward_semicolon before i m t stack o = rw (pop_all-angles m t stack o) refl

forward_other :
    (before : Text) (c i : ℕ) (stack : List ℕ)
    → is_plain c ≡ true
    → (c == b'<') ≡ false
    → (c == b'>') ≡ false
    → (c == b';') ≡ false
    → forward before c i stack ≡ go stack
unfolding forward
forward_other before c i stack h l g s = ground arith

forward_plain :
    (before : Text) (c i m t : ℕ) (stack : List ℕ)
    → is_plain c ≡ true
    → is_opening t ≡ true
    → (n : ℕ) × (forward before c i (angles m (t ∷ stack)) ≡ go (angles n (t ∷ stack)))
forward_plain before c i m t stack h o = elim (Bool-cases (c == b'<')) [
  | inl l ↦ rw ((==_iff c b'<').0 l) (forward_angle before i m t stack o)
  | inr l ↦ elim (Bool-cases (c == b'>')) [
    | inl g ↦ rw ((==_iff c b'>').0 g) (forward_arrow before i m t stack o)
    | inr g ↦ elim (Bool-cases (c == b';')) [
      | inl s ↦ rw ((==_iff c b';').0 s) (0, forward_semicolon before i m t stack o)
      | inr s ↦ (m, forward_other before c i (angles m (t ∷ stack)) h l g s)
    ]
  ]
]

forward_close :
    (before : Text) (o c i n m t : ℕ) (stack : List ℕ)
    → is_opening o ≡ true
    → is_pair o c ≡ true
    → forward before c i (angles n (o ∷ angles m (t ∷ stack))) ≡ go (angles m (t ∷ stack))
unfolding forward
forward_close before o c i n m t stack h p =
    ground
      (arith, pop_all-angles n o (angles m (t ∷ stack)) h, popped-angles (stop (i + 1)) m t stack)

forward_last :
    (before : Text) (o c i n : ℕ)
    → is_opening o ≡ true
    → is_pair o c ≡ true
    → forward before c i (angles n (o ∷ [])) ≡ stop (i + 1)
unfolding forward
forward_last before o c i n h p = ground (arith, pop_all-angles n o [] h)

step_go :
    (before rest : Text) (c i : ℕ) (stack stack' : List ℕ)
    → forward before c i stack ≡ go stack'
    → find_end_from before (c ∷ rest) i stack ≡ find_end_from (c ∷ before) rest (i + 1) stack'
unfolding find_end_from
step_go before rest c i stack stack' h = ground arith

step_stop :
    (before rest : Text) (c i end : ℕ) (stack : List ℕ)
    → forward before c i stack ≡ stop end
    → find_end_from before (c ∷ rest) i stack ≡ at end
unfolding find_end_from
step_stop before rest c i end stack h = ground arith

-- A balanced text is passed over, and the bracket around it is then the first on the stack below the
-- pending `<`.
find_end_from-IsBalanced :
    {w : Text}
    → IsBalanced w
    → (before rest : Text) (i j m t : ℕ) (stack : List ℕ) → is_opening t ≡ true
    → i + length w ≡ j
    → (n : ℕ) × (find_end_from before (w ++ rest) i (angles m (t ∷ stack))
        ≡ find_end_from (onto w before) rest j (angles n (t ∷ stack)))
find_end_from-IsBalanced none_left before rest i j m t stack ot e =
    let e' : i ≡ j = omega arith in
    (m, ap (λ (k : ℕ). find_end_from before rest k (angles m (t ∷ stack))) e')
find_end_from-IsBalanced (plain {w} c p b) before rest i j m t stack ot e =
    let (k, step) = forward_plain before c i m t stack p ot in
    let (n, further) =
      find_end_from-IsBalanced b (c ∷ before) rest (i + 1) j k t stack ot (omega arith) in
    (n, step_go before (w ++ rest) c i (angles m (t ∷ stack)) (angles k (t ∷ stack)) step ∙ further)
find_end_from-IsBalanced (nested {w} {v} o c op pair b b') before rest i j m t stack ot e =
    let k : ℕ = i + 1 + length w in
    let inner = onto w (o ∷ before) in
    let below = angles m (t ∷ stack) in
    let l = length-append w (c ∷ v) in
    let (q, inside) =
      find_end_from-IsBalanced b (o ∷ before) (c ∷ (v ++ rest)) (i + 1) k 0 o below op refl in
    let (n, behind) =
      find_end_from-IsBalanced b' (c ∷ inner) rest (k + 1) j m t stack ot (omega arith) in
    (
      n,
      scan_open before ((w ++ c ∷ v) ++ rest) o i below op
          ∙ ap (λ (x : Text). find_end_from (o ∷ before) x (i + 1) (o ∷ below))
              (append_assoc w (c ∷ v) rest)
          ∙ inside
          ∙ step_go inner (v ++ rest) c k (angles q (o ∷ below)) below
              (forward_close inner o c k q m t stack op pair)
          ∙ behind
          ∙ ap (λ (x : Text). find_end_from x rest j (angles n (t ∷ stack)))
              (sym (onto-append w (c ∷ v) (o ∷ before))),
    )

drop-length : (pre rest : Text) → drop (length pre) (pre ++ rest) ≡ rest
drop-length [] rest = refl
drop-length (x ∷ pre) rest = drop-length pre rest

get_elem?-length : (pre rest : Text) (c : ℕ) → get_elem? (pre ++ c ∷ rest) (length pre) ≡ some c
get_elem?-length [] rest c = refl
get_elem?-length (x ∷ pre) rest c = get_elem?-length pre rest c

find_end-IsBalanced :
    (pre w rest : Text) (o c : ℕ)
    → is_opening o ≡ true
    → is_pair o c ≡ true
    → IsBalanced w
    → find_end (pre ++ o ∷ (w ++ c ∷ rest)) (length pre) [] ≡ at (length pre + length w + 2)
unfolding find_end
find_end-IsBalanced pre w rest o c op pair b =
    let line = pre ++ o ∷ (w ++ c ∷ rest) in
    let before = reverse (take (length pre) line) in
    let k : ℕ = length pre + 1 + length w in
    let inner = onto w (o ∷ before) in
    let end : k + 1 ≡ length pre + length w + 2 = omega arith in
    let (n, inside) =
      find_end_from-IsBalanced b (o ∷ before) (c ∷ rest) (length pre + 1) k 0 o [] op refl in
    rw (drop-length pre (o ∷ (w ++ c ∷ rest))) (
      scan_open before (w ++ c ∷ rest) o (length pre) [] op
      ∙ inside
      ∙ step_stop inner rest c k (k + 1) (angles n (o ∷ [])) (forward_last inner o c k n op pair)
      ∙ ap at end)

opening_cases : (o : ℕ) → is_opening o ≡ true → (o ≡ b'(') ⊎ ((o ≡ b'[') ⊎ (o ≡ b'{'))
opening_cases o h = ground arith

no_shift : (o : ℕ) (rest : Text) → is_opening o ≡ true → matches shift_or_compare (o ∷ rest) ≡ false
unfolding match
no_shift o rest h = elim (opening_cases o h) [
  | inl e ↦ rw e
  | inr (inl e) ↦ rw e
  | inr (inr e) ↦ rw e
]

opens_at-length :
    (pre rest : Text) (o : ℕ) → is_opening o ≡ true → opens_at (pre ++ o ∷ rest) (length pre) ≡ true
unfolding opens_at
opens_at-length pre rest o op = ground (
  arith,
  get_elem?-length pre rest o,
  no_shift o rest op,
  ap (matches shift_or_compare) (drop-length pre (o ∷ rest)),
)

close_expression_opened :
    (clean_lines : CleansedLines) (linenum pos : ℕ) (line : Text)
    → get_or clean_lines.elided linenum [] ≡ line
    → opens_at line pos ≡ true
    → close_expression clean_lines linenum pos
      ≡ close_from clean_lines.num_lines
          (drop (linenum + 1) clean_lines.elided)
          line
          linenum
          (find_end line pos [])
unfolding close_expression
close_expression_opened clean_lines linenum pos line l h = rw (l, h) refl

close_from-at :
    (total : ℕ) (rest : List Text) (line : Text) (linenum end : ℕ)
    → close_from total rest line linenum (at end) ≡ place line linenum (some end)
unfolding close_from
close_from-at total [] line linenum end = refl
close_from-at total (next ∷ rest) line linenum end = refl

-- CloseExpression at a bracket that encloses a text in which the brackets `()`, `[]` and `{}` are
-- balanced, whatever else stands in it, returns the position behind its partner, on the same line.
pub close_expression-IsBalanced :
    (clean_lines : CleansedLines) (linenum : ℕ) (pre w rest : Text) (o c : ℕ)
    → get_or clean_lines.elided linenum [] ≡ pre ++ o ∷ (w ++ c ∷ rest)
    → is_opening o ≡ true
    → is_pair o c ≡ true
    → IsBalanced w
    → close_expression clean_lines linenum (length pre)
      ≡ place (pre ++ o ∷ (w ++ c ∷ rest)) linenum (some (length pre + length w + 2))
close_expression-IsBalanced clean_lines linenum pre w rest o c e op pair b =
    let line = pre ++ o ∷ (w ++ c ∷ rest) in
    close_expression_opened clean_lines linenum (length pre) line e
      (opens_at-length pre (w ++ c ∷ rest) o op)
    ∙ ap (close_from clean_lines.num_lines (drop (linenum + 1) clean_lines.elided) line linenum)
        (find_end-IsBalanced pre w rest o c op pair b)
    ∙ close_from-at clean_lines.num_lines (drop (linenum + 1) clean_lines.elided) line linenum
        (length pre + length w + 2)
