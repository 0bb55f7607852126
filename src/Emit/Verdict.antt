-- ===== src/Emit/Verdict.antt =====
-- Which filter decides about a category.
use deft_rpc.Base.{
  ℕ, ◌≤◌, ◌≡◌, refl, ap, Bool, true, false, not, ◌&&◌, some, List, [], ◌∷◌, ◌++◌, arith, leb,
  if◌then◌else◌, All,
}
use deft_rpc.Text.{Text, codes, starts_with}
use deft_rpc.Lint.{Lint}
use deft_rpc.Lint.Filters.{AllSigned}
use deft_rpc.Suppress.{is_error_suppressed}
use deft_rpc.Emit.{applies, filter_verdict, should_print_error}

-- The verdict of a list of filters read from its end: the last filter that applies decides.
abbrev pub last_verdict : List Text → Text → Bool → Bool
last_verdict [] category default = default
last_verdict (f ∷ fs) category default =
    last_verdict fs category (if applies f category then starts_with (codes "-") f else default)

filter_verdict-last :
    (fs : List Text) (category : Text) (b : Bool)
    → AllSigned fs
    → filter_verdict fs category b ≡ some (last_verdict fs category b)
unfolding filter_verdict
filter_verdict-last [] category b h = refl
filter_verdict-last (f ∷ fs) category b h = ground (
  arith,
  filter_verdict-last fs category (if applies f category then true else b) h.1,
  filter_verdict-last fs category (if applies f category then false else b) h.1,
)

-- No filter of the list applies.
abbrev pub NoneApply : Text → List Text → Type 0
NoneApply category = All (λ f. applies f category ≡ false)

last_verdict-NoneApply :
    (fs : List Text) (category : Text) (b : Bool)
    → NoneApply category fs
    → last_verdict fs category b ≡ b
last_verdict-NoneApply [] category b h = refl
last_verdict-NoneApply (f ∷ fs) category b h = rw h.0 (last_verdict-NoneApply fs category b h.1)

last_verdict-split :
    (pre : List Text) (f : Text) (post : List Text) (category : Text) (b : Bool)
    → applies f category ≡ true
    → NoneApply category post
    → last_verdict (pre ++ f ∷ post) category b ≡ starts_with (codes "-") f
last_verdict-split [] f post category b a h =
    rw (last_verdict, a) (last_verdict-NoneApply post category _ h)
last_verdict-split (g ∷ pre) f post category b a h = last_verdict-split pre f post category _ a h

-- With signed filters the loop raises no AssertionError, and a report is printed exactly if it is
-- not suppressed, its confidence is at least the verbosity, and the filters do not exclude it.
pub should_print_lem :
    (s : Lint) (category : Text) (confidence linenum : ℕ)
    → AllSigned s.filters
    → should_print_error s category confidence linenum
      ≡ some (
          not (is_error_suppressed s category linenum)
          && (leb s.verbose_level confidence && not (last_verdict s.filters category false)))
unfolding should_print_error
should_print_lem s category confidence linenum h =
    ground (arith, filter_verdict-last s.filters category false h)

-- The last filter that applies decides: a report that is neither suppressed nor too unsure is
-- printed if that filter has a `+`, and is not if it has a `-`.
pub should_print_last_filter :
    (s : Lint) (category : Text) (confidence linenum : ℕ) (pre post : List Text) (f : Text)
    → AllSigned s.filters
    → s.filters ≡ pre ++ f ∷ post
    → applies f category ≡ true
    → NoneApply category post
    → is_error_suppressed s category linenum ≡ false
    → s.verbose_level ≤ confidence
    → should_print_error s category confidence linenum ≡ some (not (starts_with (codes "-") f))
should_print_last_filter s category confidence linenum pre post f signed split a none_later free
      sure =
    ground (
      arith,
      should_print_lem s category confidence linenum signed,
      last_verdict-split pre f post category false a none_later,
      ap (λ (fs : List Text). last_verdict fs category false) split,
    )
