-- ===== src/Guards/First.antt =====
-- Which lines the loop of `CheckForHeaderGuard` finds.
use deft_rpc.Base.{
  ℕ, ◌+◌, ◌≡◌, refl, sym, ap, ◌∙◌, inl, inr, false, Option, none, some, List, [], ◌∷◌, reverse,
  arith, if◌then◌else◌, Bool-cases, length, All,
}
use deft_rpc.Text.{Text, codes, eq, starts_with, is_space}
use deft_rpc.Text.Compare.{eq_iff, eq_ne}
use deft_rpc.Paths.Split.{length-reverse}
use deft_rpc.Guards.{
  words, words_from, Guard, no_guard, note_words, note_endif, find_guard, find_guard_from,
}

-- The word after the directive that the line begins with.
unfoldable pub named : Text → List Text → Option Text
named directive (w ∷ v ∷ ws) = if eq w directive then some v else none
named directive _ = none

-- The first line with the directive and a word after it: the word, and the line's number.
unfoldable pub first_named : Text → ℕ → List Text → Option (Text × ℕ)
unfolding named
first_named directive linenum [] = none
first_named directive linenum (line ∷ lines) = elim (named directive (words line)) [
  | some v ↦ some (v, linenum)
  | none ↦ first_named directive (linenum + 1) lines
]

-- The last line that begins with #endif.
unfoldable pub last_endif : ℕ → List Text → Option (Text × ℕ)
last_endif linenum [] = none
last_endif linenum (line ∷ lines) = elim (last_endif (linenum + 1) lines) [
  | some found ↦ some found
  | none ↦ if starts_with (codes "#endif") line then some (line, linenum) else none
]

abbrev pub text_of : Option (Text × ℕ) → Text → Text
text_of none otherwise = otherwise
text_of (some f) otherwise = f.0

abbrev pub linenum_of : Option (Text × ℕ) → ℕ → ℕ
linenum_of none otherwise = otherwise
linenum_of (some f) otherwise = f.1

abbrev IsWord : Text → Type 0
IsWord w = eq w [] ≡ false

reverse-IsWord : (c : ℕ) (w : Text) → IsWord (reverse (c ∷ w))
reverse-IsWord c w =
    eq_ne (reverse (c ∷ w)) [] λ e. absurd (omega (arith, length-reverse (c ∷ w), ap length e))

words_from-IsWord : (word s : Text) → All IsWord (words_from word s)
unfolding words_from
words_from-IsWord [] [] = tt
words_from-IsWord (c ∷ w) [] = (reverse-IsWord c w, tt)
words_from-IsWord [] (c ∷ s) =
    let here = words_from-IsWord [] s in
    let on = words_from-IsWord (c ∷ []) s in
    elim (Bool-cases (is_space c)) [ inl e ↦ rw e here | inr e ↦ rw e on ]
words_from-IsWord (d ∷ w) (c ∷ s) =
    let here = words_from-IsWord [] s in
    let on = words_from-IsWord (c ∷ d ∷ w) s in
    elim (Bool-cases (is_space c)) [ inl e ↦ rw e (reverse-IsWord d w, here) | inr e ↦ rw e on ]

words-IsWord : (s : Text) → All IsWord (words s)
unfolding words
words-IsWord s = words_from-IsWord [] s

-- What the loop adds to the guard it has found so far, where the directives' words are found as
-- given.
abbrev noted : Option (Text × ℕ) → Option (Text × ℕ) → Option (Text × ℕ) → Guard → Guard
noted i d e g = record {
  ifndef = if eq g.ifndef [] then text_of i [] else g.ifndef;
  ifndef_linenum = if eq g.ifndef [] then linenum_of i g.ifndef_linenum else g.ifndef_linenum;
  define = if eq g.define [] then text_of d [] else g.define;
  endif = text_of e g.endif;
  endif_linenum = linenum_of e g.endif_linenum;
}

or_else : Option (Text × ℕ) → Option (Text × ℕ) → Option (Text × ℕ)
or_else none y = y
or_else (some x) y = some x

at_line : ℕ → Option Text → Option (Text × ℕ)
at_line linenum o = elim o [ none ↦ none | some v ↦ some (v, linenum) ]

noted-note_words :
    (linenum : ℕ) (ws : List Text) (i d e : Option (Text × ℕ)) (g : Guard)
    → All IsWord ws
    → noted i d e (note_words linenum ws g)
      ≡ noted
          (or_else (at_line linenum (named (codes "#ifndef") ws)) i)
          (or_else (at_line linenum (named (codes "#define") ws)) d)
          e
          g
unfolding note_words named or_else at_line
noted-note_words linenum [] i d e g h = refl
noted-note_words linenum (w ∷ []) i d e g h = refl
noted-note_words linenum (w ∷ v ∷ ws) i d e g (hw, (hv, h)) = ground arith

noted-note_endif :
    (linenum : ℕ) (line : Text) (i d e : Option (Text × ℕ)) (g : Guard)
    → noted i d e (note_endif linenum line g)
      ≡ noted i d
          (or_else e (if starts_with (codes "#endif") line then some (line, linenum) else none))
          g
unfolding note_endif or_else
noted-note_endif linenum line i d e g = ground arith

noted-none : (g : Guard) → noted none none none g ≡ g
noted-none g = ground (arith, eq_iff g.ifndef [], eq_iff g.define [])

find_guard_from-noted :
    (linenum : ℕ) (lines : List Text) (g : Guard)
    → find_guard_from linenum lines g
      ≡ noted
          (first_named (codes "#ifndef") linenum lines)
          (first_named (codes "#define") linenum lines)
          (last_endif linenum lines)
          g
unfolding find_guard_from first_named last_endif at_line or_else
find_guard_from-noted linenum [] g = sym (noted-none g)
find_guard_from-noted linenum (line ∷ lines) g =
    find_guard_from-noted (linenum + 1) lines
      (note_endif linenum line (note_words linenum (words line) g))
    ∙ noted-note_endif linenum line (first_named (codes "#ifndef") (linenum + 1) lines)
        (first_named (codes "#define") (linenum + 1) lines) (last_endif (linenum + 1) lines)
        (note_words linenum (words line) g)
    ∙ noted-note_words linenum (words line) (first_named (codes "#ifndef") (linenum + 1) lines)
        (first_named (codes "#define") (linenum + 1) lines)
        (or_else (last_endif (linenum + 1) lines)
          (if starts_with (codes "#endif") line then some (line, linenum) else none))
        g (words-IsWord line)
    ∙ ground arith

-- The loop finds the first line with #ifndef and a word after it, the word after the first #define
-- with one, and the last line that begins with #endif.
pub find_guard-first :
    (lines : List Text)
    → find_guard lines ≡ record {
      ifndef = text_of (first_named (codes "#ifndef") 0 lines) [];
      ifndef_linenum = linenum_of (first_named (codes "#ifndef") 0 lines) 0;
      define = text_of (first_named (codes "#define") 0 lines) [];
      endif = text_of (last_endif 0 lines) [];
      endif_linenum = linenum_of (last_endif 0 lines) 0;
    }
unfolding find_guard
find_guard-first lines = find_guard_from-noted 0 lines no_guard
