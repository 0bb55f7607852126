-- ===== src/Regex/Split.antt =====
-- Where a match ends: the cursor has moved on over the text, and over nothing else.
use deft_rpc.Base.{
  ℕ, zero, suc, ◌+◌, ◌≤◌, min, ◌≡◌, refl, sym, ap, ◌∙◌, ◌⊎◌, inl, inr, Bool, true, false, ◌||◌,
  Option, none, some, [], ◌∷◌, arith, ltb, ◌==◌, Option-cases, length,
}
use deft_rpc.Text.{Text}
use mathlib.Core.Path.{subst}
use deft_rpc.Regex.{
  Regex, empty, char_if, ◌▹◌, ◌│◌, star, lazy_star, group, line_start, line_end, word_edge, ahead,
  not_ahead, Cursor, Rest, run, step_char, loop, lazy_loop, start, match, search, search_from,
  found, Found, found_from, lookup_group,
}

-- `d` is `c` after some more characters
pub data Moves : Cursor → Cursor → Type 0 where
  stay : {c d : Cursor} → c.before ≡ d.before → c.rest ≡ d.rest → Moves c d
  read :
      {c d e : Cursor} (ch : ℕ)
      → c.rest ≡ ch ∷ d.rest
      → d.before ≡ ch ∷ c.before
      → Moves d e
      → Moves c e

Moves-trans : {c d e : Cursor} → Moves c d → Moves d e → Moves c e
Moves-trans (stay p q) (stay r s) = stay (p ∙ r) (q ∙ s)
Moves-trans (stay p q) (read ch r s m) = read ch (q ∙ r) (s ∙ ap (◌∷◌ ch) (sym p)) m
Moves-trans (read ch p q m) n = read ch p q (Moves-trans m n)

-- Both parts together keep their length.
pub Moves-length :
    {c d : Cursor} → Moves c d → length c.before + length c.rest ≡ length d.before + length d.rest
Moves-length (stay p q) = omega (arith, ap length p, ap length q)
Moves-length (read ch p q m) = omega (arith, ap length p, ap length q, Moves-length m)

pub Moves-before : {c d : Cursor} → Moves c d → length c.before ≤ length d.before
Moves-before (stay p q) = omega (arith, ap length p)
Moves-before (read ch p q m) = omega (arith, ap length q, Moves-before m)

pub some_inj {ℓ} : {A : Type ℓ} {a b : A} → some a ≡ some b → a ≡ b
some_inj p = cc

-- The groups of which `sets` is false are as they were.
abbrev pub Keeps : (ℕ → Bool) → Cursor → Cursor → Type 0
Keeps sets c d = (g : ℕ) → sets g ≡ false → lookup_group g d.groups ≡ lookup_group g c.groups

-- The continuation was called at such a cursor, at least `n` characters on.
abbrev Reaches : ℕ → (ℕ → Bool) → Cursor → Rest → Cursor → Type 0
Reaches n sets c k e =
    (d : Cursor) × (k d ≡ some e)
    × Moves c d
    × (length c.before + n ≤ length d.before)
    × Keeps sets c d

abbrev Follows : ℕ → (ℕ → Bool) → (Cursor → Rest → Option Cursor) → Type 0
Follows n sets body = (c e : Cursor) (k : Rest) → body c k ≡ some e → Reaches n sets c k e

-- A number of characters that every match of the pattern reads.
abbrev pub least : Regex → ℕ
least (char_if p) = 1
least (r ▹ s) = least r + least s
least (r │ s) = min (least r) (least s)
least (group n r) = least r
least _ = 0

-- The groups that a pattern can set.
abbrev pub group_sets : Regex → ℕ → Bool
group_sets (r ▹ s) g = group_sets r g || group_sets s g
group_sets (r │ s) g = group_sets r g || group_sets s g
group_sets (star r) g = group_sets r g
group_sets (lazy_star r) g = group_sets r g
group_sets (group n r) g = g == n || group_sets r g
group_sets (ahead r) g = group_sets r g
group_sets _ g = false

or_false : (a b : Bool) → (a || b) ≡ false → (a ≡ false) × (b ≡ false)
or_false a b h = ground arith

or-Keeps :
    (f g : ℕ → Bool) (c d e : Cursor) → Keeps f c d → Keeps g d e → Keeps (λ n. f n || g n) c e
or-Keeps f g c d e p q n h = let (x, y) = or_false (f n) (g n) h in q n y ∙ p n x

-- The two shapes in which the matcher chooses: a test, and a first try with a second.
pub test_some :
    (b : Bool) (o : Option Cursor) {e : Cursor}
    → (elim b [ true ↦ o | false ↦ none ]) ≡ some e
    → o ≡ some e
test_some true o h = h
test_some false o h = cc

try_some :
    (o p : Option Cursor) {e : Cursor}
    → (elim o [ none ↦ p | some d ↦ some d ]) ≡ some e
    → (o ≡ some e) ⊎ (p ≡ some e)
try_some none p h = inr h
try_some (some d) p h = inl h

abbrev cut : Cursor → Rest → Rest
cut c k d = elim (ltb (length d.rest) (length c.rest)) [ true ↦ k d | false ↦ none ]

module _ (body : Cursor → Rest → Option Cursor) (floor : ℕ) (sets : ℕ → Bool)
    (f : Follows floor sets body) where
  cut-Reaches :
      (c : Cursor) (k next : Rest) {e : Cursor}
      → ((d : Cursor) → next d ≡ some e → Reaches 0 sets d k e)
      → body c (cut c next) ≡ some e
      → Reaches 0 sets c k e
  cut-Reaches c k next {e} later h =
      let (d, p, m, l, g) = f c e (cut c next) h in
      let (d', p', m', l', g') =
        later d (test_some (ltb (length d.rest) (length c.rest)) (next d) p) in
      (d', p', Moves-trans m m', omega arith, λ n x. g' n x ∙ g n x)

  loop-Follows : (n : ℕ) → Follows 0 sets (loop body n)
  unfolding loop
  loop-Follows zero c e k h = (c, h, stay refl refl, omega arith, λ g x. refl)
  loop-Follows (suc n) c e k h = elim (try_some _ _ h) [
    | inl again ↦ cut-Reaches c k (λ d. loop body n d k) (λ d. loop-Follows n d e k) again
    | inr out ↦ (c, out, stay refl refl, omega arith, λ g x. refl)
  ]

  lazy_loop-Follows : (n : ℕ) → Follows 0 sets (lazy_loop body n)
  unfolding lazy_loop
  lazy_loop-Follows zero c e k h = (c, h, stay refl refl, omega arith, λ g x. refl)
  lazy_loop-Follows (suc n) c e k h = elim (try_some _ _ h) [
    | inl out ↦ (c, out, stay refl refl, omega arith, λ g x. refl)
    | inr again ↦ cut-Reaches c k (λ d. lazy_loop body n d k) (λ d. lazy_loop-Follows n d e k) again
  ]

step_char-Follows :
    (p : ℕ → Bool) (c e : Cursor) (k : Rest) (s : Text)
    → c.rest ≡ s
    → step_char p s c k ≡ some e
    → Reaches 1 (λ g. false) c k e
unfolding step_char
step_char-Follows p c e k [] q h = cc
step_char-Follows p c e k (ch ∷ s) q h =
    let next : Cursor = record c { before = ch ∷ c.before; rest = s } in
    (
      next,
      test_some (p ch) (k next) h,
      read {d = next} ch q refl (stay refl refl),
      omega arith,
      λ g x. refl,
    )

-- A successful match calls its continuation at a cursor further on in the same text.
pub run-Follows : (r : Regex) → Follows (least r) (group_sets r) (run r)
unfolding run
run-Follows empty c e k h = (c, h, stay refl refl, omega arith, λ g x. refl)
run-Follows (char_if p) c e k h = step_char-Follows p c e k c.rest refl h
run-Follows (r ▹ s) c e k h =
    let (d, p, m, l, x) = run-Follows r c e (λ d. run s d k) h in
    let (d', p', m', l', x') = run-Follows s d e k p in
    (d', p', Moves-trans m m', omega arith, or-Keeps (group_sets r) (group_sets s) c d d' x x')
run-Follows (r │ s) c e k h = elim (try_some _ _ h) [
  | inl first ↦
      let (d, p, m, l, x) = run-Follows r c e k first in
      (d, p, m, omega arith, λ g y. x g (or_false (group_sets r g) (group_sets s g) y).0)
  | inr second ↦
      let (d, p, m, l, x) = run-Follows s c e k second in
      (d, p, m, omega arith, λ g y. x g (or_false (group_sets r g) (group_sets s g) y).1)
]
run-Follows (star r) c e k h =
    loop-Follows (run r) (least r) (group_sets r) (run-Follows r) (length c.rest + 1) c e k h
run-Follows (lazy_star r) c e k h =
    lazy_loop-Follows (run r) (least r) (group_sets r) (run-Follows r) (length c.rest + 1) c e k h
run-Follows (group n r) c e k h =
    let (d, p, m, l, x) = run-Follows r c e _ h in
    (
      _,
      p,
      Moves-trans m (stay refl refl),
      l,
      λ g y. let (a, b) = or_false (g == n) (group_sets r g) y in rw a (x g b),
    )
run-Follows line_start c e k h = (c, test_some _ _ h, stay refl refl, omega arith, λ g x. refl)
run-Follows line_end c e k h = (c, test_some _ _ h, stay refl refl, omega arith, λ g x. refl)
run-Follows word_edge c e k h = (c, test_some _ _ h, stay refl refl, omega arith, λ g x. refl)
run-Follows (ahead r) c e k h = elim (Option-cases (run r c some)) [
  | inl o ↦ cc
  | inr (d, o) ↦
      let (d', p, m, l, x) = run-Follows r c d some o in
      (
        record c { groups = d.groups },
        rw o at h,
        stay refl refl,
        omega arith,
        λ g y. rw (← some_inj p) (x g y),
      )
]
run-Follows (not_ahead r) c e k h = elim (Option-cases (run r c some)) [
  | inl o ↦ (c, rw o at h, stay refl refl, omega arith, λ g x. refl)
  | inr (d, o) ↦ cc
]

run-Moves : (r : Regex) (c e : Cursor) → run r c some ≡ some e → Moves c e
run-Moves r c e h = let (d, p, m, l, x) = run-Follows r c e some h in subst (Moves c) (some_inj p) m

-- A span inside a text of `n` characters.
pub record IsSpan (n : ℕ) (m : Found) : Type 0 where
  pub ordered : m.start_pos ≤ m.end_pos
  pub inside : m.end_pos ≤ n

run-IsSpan :
    (r : Regex) (c e : Cursor) (n : ℕ)
    → length c.before + length c.rest ≡ n
    → run r c some ≡ some e
    → IsSpan n (found c e)
run-IsSpan r c e n l h =
    let m = run-Moves r c e h in
    record { ordered = Moves-before m; inside = omega (arith, Moves-length m) }

found-some :
    (c : Cursor) (o : Option Cursor) (later : Option Found) {m : Found}
    → (elim o [ none ↦ later | some d ↦ some (found c d) ]) ≡ some m
    → (later ≡ some m) ⊎ ((d : Cursor) × (o ≡ some d) × (found c d ≡ m))
found-some c none later h = inl h
found-some c (some d) later h = inr (d, refl, cc)

pub found_from-some :
    (c : Cursor) (o : Option Cursor) {m : Found}
    → found_from c o ≡ some m
    → (d : Cursor) × (o ≡ some d) × (found c d ≡ m)
found_from-some c none h = cc
found_from-some c (some d) h = (d, refl, cc)

-- Match returns a span that starts at 0 and ends in the text.
pub match-IsSpan :
    (r : Regex) (s : Text) (m : Found)
    → match r s ≡ some m
    → IsSpan (length s) m × (m.start_pos ≡ 0)
unfolding match
match-IsSpan r s m h =
    let (d, o, e) = found_from-some (start s) (run (group 0 r) (start s) some) h in
    let span = run-IsSpan (group 0 r) (start s) d (length s) (omega arith) o in
    (subst (IsSpan (length s)) e span, ap (λ (f : Found). f.start_pos) (sym e))

abbrev at : Text → Text → Cursor
at before s = record { before = before; rest = s; groups = [] }

search_from-IsSpan :
    (r : Regex) (before s : Text) (n : ℕ) (m : Found)
    → length before + length s ≡ n
    → search_from r before s ≡ some m
    → IsSpan n m
unfolding search_from
search_from-IsSpan r before [] n m l h =
    let (d, o, e) = found_from-some (at before []) (run (group 0 r) (at before []) some) h in
    subst (IsSpan n) e (run-IsSpan (group 0 r) (at before []) d n l o)
search_from-IsSpan r before (c ∷ s) n m l h =
    elim (found-some (at before (c ∷ s)) (run (group 0 r) (at before (c ∷ s)) some) _ h) [
      | inl later ↦ search_from-IsSpan r (c ∷ before) s n m (omega arith) later
      | inr (d, o, e) ↦ subst (IsSpan n) e (run-IsSpan (group 0 r) (at before (c ∷ s)) d n l o)
    ]

-- Search returns a span in the text.
pub search-IsSpan : (r : Regex) (s : Text) (m : Found) → search r s ≡ some m → IsSpan (length s) m
unfolding search
search-IsSpan r s m h = search_from-IsSpan r [] s (length s) m (omega arith) h

-- A text in which something is found is at least as long as the pattern wants.
search_from-least :
    (r : Regex) (before s : Text) (m : Found) → search_from r before s ≡ some m → least r ≤ length s
unfolding search_from
search_from-least r before [] m h =
    let (d, o, e) = found_from-some (at before []) (run (group 0 r) (at before []) some) h in
    let (d', p, x, l, y) = run-Follows (group 0 r) (at before []) d some o in
    omega (arith, Moves-length x)
search_from-least r before (c ∷ s) m h =
    elim (found-some (at before (c ∷ s)) (run (group 0 r) (at before (c ∷ s)) some) _ h) [
      | inl later ↦ omega (arith, search_from-least r (c ∷ before) s m later)
      | inr (d, o, e) ↦
          let (d', p, x, l, y) = run-Follows (group 0 r) (at before (c ∷ s)) d some o in
          omega (arith, Moves-length x)
    ]

pub search-least : (r : Regex) (s : Text) (m : Found) → search r s ≡ some m → least r ≤ length s
unfolding search
search-least r s m h = search_from-least r [] s m h
