-- ===== src/Lines/Comments/Ranges.antt =====
-- The lines that `RemoveMultiLineComments` leaves.
use deft_rpc.Base.{
  ℕ, zero, suc, ◌+◌, ◌-◌, ◌≤◌, ◌<◌, ◌≡◌, refl, ap, ◌∙◌, inl, inr, Bool, false, List, [], ◌∷◌, arith,
  leb, leb→le, leb_false→lt, Bool-cases, length, take, All,
}
use deft_rpc.Text.{Text, codes, find, starts_with, strip}
use deft_rpc.Lint.{Report}
use deft_rpc.Lines.Comments.{
  opens, closes, find_from, find_next_start, find_next_end, remove_range, remove_from,
  remove_multi_line_comments,
}

-- None of the first `n` lines opens a comment that goes beyond it.
abbrev NoneOpen : ℕ → List Text → Type 0
NoneOpen n lines = All (λ line. opens line ≡ false) (take n lines)

abbrev pub Closed : List Text → Type 0
Closed = All (λ line. opens line ≡ false)

find_from-le-length :
    (test : Text → Bool) (lines : List Text) (ix : ℕ) → find_from test lines ix ≤ length lines
unfolding find_from
find_from-le-length test [] ix = omega arith
find_from-le-length test (line ∷ lines) (suc ix) = omega (arith, find_from-le-length test lines ix)
find_from-le-length test (line ∷ lines) zero = ground (arith, find_from-le-length test lines 0)

le-find_from :
    (test : Text → Bool) (lines : List Text) (ix : ℕ)
    → ix ≤ length lines
    → ix ≤ find_from test lines ix
unfolding find_from
le-find_from test [] ix h = h
le-find_from test (line ∷ lines) (suc ix) h = omega (arith, le-find_from test lines ix)
le-find_from test (line ∷ lines) zero h = omega arith

-- The search for an opening line passes over none.
NoneOpen-find_from :
    (lines : List Text) (ix : ℕ) → NoneOpen ix lines → NoneOpen (find_from opens lines ix) lines
unfolding find_from
NoneOpen-find_from [] ix h = tt
NoneOpen-find_from (line ∷ lines) (suc ix) h = (h.0, NoneOpen-find_from lines ix h.1)
NoneOpen-find_from (line ∷ lines) zero h = elim (Bool-cases (opens line)) [
  | inl e ↦ rw (find_from, e) tt
  | inr e ↦ rw (find_from, e) (e, NoneOpen-find_from lines 0 tt)
]

pub length-remove_range :
    (lines : List Text) (begin end : ℕ) → length (remove_range lines begin end) ≡ length lines
unfolding remove_range
length-remove_range [] begin end = refl
length-remove_range (line ∷ lines) zero zero = refl
length-remove_range (line ∷ lines) zero (suc end) = ap suc (length-remove_range lines 0 end)
length-remove_range (line ∷ lines) (suc begin) zero = refl
length-remove_range (line ∷ lines) (suc begin) (suc end) =
    ap suc (length-remove_range lines begin end)

blank_opens : opens (codes "/**/") ≡ false
unfolding opens strip find starts_with
blank_opens = refl

-- Behind a cleared range nothing is open up to its end.
NoneOpen-remove_range :
    (lines : List Text) (begin end : ℕ)
    → begin ≤ end
    → NoneOpen begin lines
    → NoneOpen end (remove_range lines begin end)
unfolding remove_range
NoneOpen-remove_range [] begin zero l h = tt
NoneOpen-remove_range [] begin (suc end) l h = tt
NoneOpen-remove_range (line ∷ lines) zero zero l h = tt
NoneOpen-remove_range (line ∷ lines) zero (suc end) l h =
    (blank_opens, NoneOpen-remove_range lines 0 end (omega arith) tt)
NoneOpen-remove_range (line ∷ lines) (suc begin) zero l h = absurd (omega arith)
NoneOpen-remove_range (line ∷ lines) (suc begin) (suc end) l h =
    (h.0, NoneOpen-remove_range lines begin end (omega arith) h.1)

NoneOpen-all : (n : ℕ) (lines : List Text) → length lines ≤ n → NoneOpen n lines → Closed lines
NoneOpen-all n [] l h = tt
NoneOpen-all zero (line ∷ lines) l h = absurd (omega arith)
NoneOpen-all (suc n) (line ∷ lines) l h = (h.0, NoneOpen-all n lines (omega arith) h.1)

-- What one run of the loop makes of the lines.
record Removed (lines : List Text) (r : List Text × List Report) : Type 0 where
  same_length : length r.0 ≡ length lines
  closed : r.1 ≡ [] → Closed r.0

remove_from_lem :
    (fuel : ℕ) (filename : Text) (ix : ℕ) (lines : List Text)
    → length lines - ix < fuel
    → NoneOpen ix lines
    → Removed lines (remove_from fuel filename ix lines)
unfolding remove_from find_next_start find_next_end
remove_from_lem zero filename ix lines h none_open = absurd (omega arith)
remove_from_lem (suc fuel) filename ix lines h none_open =
    elim (Bool-cases (leb (length lines) ix)) [
      | inl past ↦ rw past (record {
        same_length = refl;
        closed = λ _. NoneOpen-all ix lines (leb→le _ _ past) none_open;
      })
      | inr inside ↦ elim (Bool-cases (leb (length lines) begin)) [
        | inl last ↦
            rw (inside, last)
              (record {
                same_length = refl;
                closed = λ _. NoneOpen-all begin lines (leb→le _ _ last) at_begin;
              })
        | inr opened ↦ elim (Bool-cases (leb (length lines) end)) [
          | inl never ↦ rw (inside, opened, never) (record { same_length = refl; closed = λ e. cc })
          | inr ended ↦
              let more = le-find_from opens lines ix (omega (arith, leb_false→lt _ _ inside)) in
              let on = le-find_from closes lines begin (omega (arith, leb_false→lt _ _ opened)) in
              let fewer : length cleared - (end + 1) < fuel = omega (
                arith,
                length-remove_range lines begin (end + 1),
                leb_false→lt _ _ inside,
                leb_false→lt _ _ ended,
              ) in
              let at_end = NoneOpen-remove_range lines begin (end + 1) (omega arith) at_begin in
              let r = remove_from_lem fuel filename (end + 1) cleared fewer at_end in
              rw (inside, opened, ended)
                (record {
                  same_length = r.same_length ∙ length-remove_range lines begin (end + 1);
                  closed = r.closed;
                })
        ]
      ]
    ]
  where
    begin : ℕ
    begin = find_from opens lines ix

    end : ℕ
    end = find_from closes lines begin

    cleared : List Text
    cleared = remove_range lines begin (end + 1)

    at_begin : NoneOpen begin lines
    at_begin = NoneOpen-find_from lines ix none_open

remove_lem :
    (filename : Text) (lines : List Text)
    → Removed lines (remove_multi_line_comments filename lines)
unfolding remove_multi_line_comments
remove_lem filename lines = remove_from_lem (length lines + 1) filename 0 lines (omega arith) tt

-- There are as many lines as before.
pub length-remove_multi_line_comments :
    (filename : Text) (lines : List Text)
    → length (remove_multi_line_comments filename lines).0 ≡ length lines
length-remove_multi_line_comments filename lines = (remove_lem filename lines).same_length

-- Unless an error is reported, no line that is left opens a comment that goes beyond it.
pub remove_multi_line_comments-Closed :
    (filename : Text) (lines : List Text)
    → (remove_multi_line_comments filename lines).1 ≡ []
    → Closed (remove_multi_line_comments filename lines).0
remove_multi_line_comments-Closed filename lines = (remove_lem filename lines).closed
