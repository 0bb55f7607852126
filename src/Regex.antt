-- ===== src/Regex.antt =====
-- The regular expressions of Python's `re` that scripts/tools/cpplint.py uses, and the functions
-- `Match`, `Search` and `ReplaceAll` of that file. A pattern is written as a tree of the constructors
-- below; the matcher backtracks in the order of `re`: the first alternative first, a greedy star as
-- often as it can, a lazy one as seldom. The cache of compiled patterns has no effect on a result,
-- and is not modelled. `\w` and `\b` know the letters and digits of ASCII.
pub mod Split
pub mod Fuel
pub mod Groups
pub mod Replace
pub mod Notation
use deft_rpc.Base.{
  ℕ, zero, suc, ◌+◌, ◌-◌, ◌<◌, Bool, true, false, not, ◌&&◌, ◌||◌, Option, none, some, List, [],
  ◌∷◌, ◌++◌, map, reverse, length, take, drop, ltb, leb, ◌==◌, if◌then◌else◌, any, is_some,
}
use Prim.Native.String.{String}
use deft_rpc.Text.{Text, codes, is_space}

infixr 60 ◌▹◌
infixr 55 ◌│◌
pub data Regex : Type 0 where
  empty : Regex
  char_if : (ℕ → Bool) → Regex
  ◌▹◌ : Regex → Regex → Regex
  ◌│◌ : Regex → Regex → Regex
  star : Regex → Regex
  lazy_star : Regex → Regex
  group : ℕ → Regex → Regex
  line_start : Regex
  line_end : Regex
  word_edge : Regex
  ahead : Regex → Regex
  not_ahead : Regex → Regex

-- what has been read, the last character first, what is left, and the groups, the last one first
pub record Cursor : Type 0 where
  pub before : Text
  pub rest : Text
  pub groups : List (ℕ × Text)

abbrev pub start : Text → Cursor
start s = record { before = []; rest = s; groups = [] }

-- \w
unfoldable pub is_word : ℕ → Bool
is_word c =
    (leb b'a' c && leb c b'z')
    || (leb b'A' c && leb c b'Z')
    || (leb b'0' c && leb c b'9')
    || c == b'_'

abbrev head_is_word : Text → Bool
head_is_word [] = false
head_is_word (c ∷ s) = is_word c

abbrev differ : Bool → Bool → Bool
differ true b = not b
differ false b = b

abbrev at_edge : Cursor → Bool
at_edge c = differ (head_is_word c.before) (head_is_word c.rest)

abbrev at_start : Text → Bool
at_start [] = true
at_start (c ∷ s) = false

-- `$` stands at the end, and before a newline that ends the text
abbrev at_end : Text → Bool
at_end [] = true
at_end (c ∷ []) = c == b'\n'
at_end (c ∷ d ∷ s) = false

abbrev pub Rest : Type 0
Rest = Cursor → Option Cursor

unfoldable pub step_char : (ℕ → Bool) → Text → Cursor → Rest → Option Cursor
step_char p [] c k = none
step_char p (ch ∷ s) c k = elim (p ch) [
  | true ↦ k (record c { before = ch ∷ c.before; rest = s })
  | false ↦ none
]

unfoldable pub or_else : Option Cursor → Option Cursor → Option Cursor
or_else none o = o
or_else (some c) o = some c

-- A round that reads nothing ends the loop, so a loop makes at most as many rounds as there are
-- characters left.
unfoldable pub loop : (Cursor → Rest → Option Cursor) → ℕ → Cursor → Rest → Option Cursor
loop body zero c k = k c
loop body (suc n) c k =
    let again =
      body c (λ d. elim (ltb (length d.rest) (length c.rest)) [
        | true ↦ loop body n d k
        | false ↦ none
      ]) in
    elim again [ none ↦ k c | some d ↦ some d ]

unfoldable pub lazy_loop : (Cursor → Rest → Option Cursor) → ℕ → Cursor → Rest → Option Cursor
lazy_loop body zero c k = k c
lazy_loop body (suc n) c k =
    let again = body c (λ d. elim (ltb (length d.rest) (length c.rest)) [
      | true ↦ lazy_loop body n d k
      | false ↦ none
    ]) in
    elim (k c) [ none ↦ again | some d ↦ some d ]

-- The match of `r` from `c` on, followed by `k`.
unfoldable pub run : Regex → Cursor → Rest → Option Cursor
unfolding is_word step_char loop lazy_loop
run empty c k = k c
run (char_if p) c k = step_char p c.rest c k
run (r ▹ s) c k = run r c (λ d. run s d k)
run (r │ s) c k = let second = run s c k in elim (run r c k) [ none ↦ second | some d ↦ some d ]
run (star r) c k = loop (run r) (length c.rest + 1) c k
run (lazy_star r) c k = lazy_loop (run r) (length c.rest + 1) c k
run (group n r) c k =
    run r c
      (λ d. k (record d { groups = (n, take (length c.rest - length d.rest) c.rest) ∷ d.groups }))
run line_start c k = elim (at_start c.before) [ true ↦ k c | false ↦ none ]
run line_end c k = elim (at_end c.rest) [ true ↦ k c | false ↦ none ]
run word_edge c k = elim (at_edge c) [ true ↦ k c | false ↦ none ]
run (ahead r) c k = elim (run r c some) [
  | none ↦ none
  | some d ↦ k (record c { groups = d.groups })
]
run (not_ahead r) c k = elim (run r c some) [ none ↦ k c | some d ↦ none ]

-- a match object: its span, and the groups, of which 0 is the whole
pub record Found : Type 0 where
  pub start_pos : ℕ
  pub end_pos : ℕ
  pub groups : List (ℕ × Text)

abbrev found : Cursor → Cursor → Found
found c d = record { start_pos = length c.before; end_pos = length d.before; groups = d.groups }

abbrev found_from : Cursor → Option Cursor → Option Found
found_from c none = none
found_from c (some d) = some (found c d)

-- Match(pattern, s)
unfoldable pub match : Regex → Text → Option Found
unfolding run
match r s = found_from (start s) (run (group 0 r) (start s) some)

abbrev pub matches : Regex → Text → Bool
matches r s = is_some (match r s)

search_from : Regex → Text → Text → Option Found
search_from r before [] =
    let here : Cursor = record { before = before; rest = []; groups = [] } in
    found_from here (run (group 0 r) here some)
search_from r before (c ∷ s) =
    let here : Cursor = record { before = before; rest = c ∷ s; groups = [] } in
    let later = search_from r (c ∷ before) s in
    elim (run (group 0 r) here some) [ none ↦ later | some d ↦ some (found here d) ]

-- Search(pattern, s): the leftmost match
unfoldable pub search : Regex → Text → Option Found
unfolding run search_from
search r s = search_from r [] s

abbrev pub searches : Regex → Text → Bool
searches r s = is_some (search r s)

sub_from : Regex → Text → ℕ → Text → Text → Text
sub_from r rep skip before [] = []
sub_from r rep (suc skip) before (c ∷ s) = sub_from r rep skip (c ∷ before) s
sub_from r rep zero before (c ∷ s) =
    let here : Cursor = record { before = before; rest = c ∷ s; groups = [] } in
    let kept = c ∷ sub_from r rep 0 (c ∷ before) s in
    elim (run r here some) [
      | none ↦ kept
      | some d ↦ rep ++ sub_from r rep (length (c ∷ s) - length d.rest - 1) (c ∷ before) s
    ]

-- ReplaceAll(pattern, rep, s), for a pattern that matches no empty text and a `rep` with no escape
unfoldable pub replace_all : Regex → Text → Text → Text
unfolding run sub_from
replace_all r rep s = sub_from r rep 0 [] s

abbrev lookup_group : ℕ → List (ℕ × Text) → Option Text
lookup_group n [] = none
lookup_group n ((m, w) ∷ gs) = if n == m then some w else lookup_group n gs

-- m.group(n); `none` if the group took no part
unfoldable pub group_of : Found → ℕ → Option Text
group_of m n = lookup_group n m.groups

abbrev text_or_empty : Option Text → Text
text_or_empty none = []
text_or_empty (some w) = w

-- m.group(n) of a group that every match sets, and `m.group(n) or ''`
unfoldable pub group_text : Found → ℕ → Text
unfolding group_of
group_text m n = text_or_empty (group_of m n)

-- The notation of patterns.
abbrev pub char : ℕ → Regex
char c = char_if (λ d. d == c)

abbrev pub chars : Text → Regex
chars [] = empty
chars (c ∷ []) = char c
chars (c ∷ d ∷ s) = char c ▹ chars (d ∷ s)

-- the literal text
abbrev pub lit : String → Regex
lit s = chars (codes s)

-- [...] and [^...]
abbrev pub in_set : String → Regex
in_set s = char_if (λ c. any (λ d. d == c) (codes s))

abbrev pub not_in : String → Regex
not_in s = char_if (λ c. not (any (λ d. d == c) (codes s)))

-- . \s \S \w \W
abbrev pub dot : Regex
dot = char_if (λ c. not (c == b'\n'))

abbrev pub space : Regex
space = char_if is_space

abbrev pub not_space : Regex
not_space = char_if (λ c. not (is_space c))

abbrev pub word : Regex
word = char_if is_word

abbrev pub not_word : Regex
not_word = char_if (λ c. not (is_word c))

abbrev pub in_range : ℕ → ℕ → ℕ → Bool
in_range lo hi c = leb lo c && leb c hi

abbrev pub digit : Regex
digit = char_if (in_range b'0' b'9')

abbrev pub upper_letter : ℕ → Bool
upper_letter = in_range b'A' b'Z'

abbrev pub plus : Regex → Regex
plus r = r ▹ star r

abbrev pub optional : Regex → Regex
optional r = r │ empty

-- (?:a|b|…) of literals
abbrev pub one_lit : List String → Regex
one_lit [] = char_if (λ c. false)
one_lit (s ∷ []) = lit s
one_lit (s ∷ t ∷ ts) = lit s │ one_lit (t ∷ ts)
