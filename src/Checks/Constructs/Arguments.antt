-- ===== src/Checks/Constructs/Arguments.antt =====
-- How the arguments of a constructor are put together.
use deft_rpc.Base.{
  ◌<◌, ◌≡◌, refl, sym, ap, ◌∙◌, inl, inr, true, false, Option, none, some, List, [], ◌∷◌, ◌++◌,
  append_assoc, arith, Bool-cases, length, length-append, All,
}
use mathlib.Core.Path.{subst}
use deft_rpc.Text.{Text, codes, split, join}
use deft_rpc.Text.Fields.{join-split}
use deft_rpc.Checks.Constructs.{is_cut, join_cut, put_in_front, constructor_args}

-- No argument is cut.
abbrev pub AllWhole : List Text → Type 0
AllWhole = All (λ arg. is_cut arg ≡ false)

-- The arguments are whole and make up the text; where there are none, the text ends in a piece that
-- is cut.
abbrev pub Outcome : Text → Option (List Text) → Type 0
Outcome text (some args) = (join (codes ",") args ≡ text) × AllWhole args
Outcome text none =
    (args : List Text) × (rest : Text) × (join (codes ",") (args ++ (rest ∷ [])) ≡ text)
    × AllWhole args
    × (is_cut rest ≡ true)

abbrev IsSome : Option (List Text) → Type 0
IsSome none = Unit
IsSome (some args) = 0 < length args

join-cons :
    (arg : Text) (args : List Text)
    → 0 < length args
    → join (codes ",") (arg ∷ args) ≡ arg ++ (b',' ∷ join (codes ",") args)
unfolding join
join-cons arg [] h = absurd (omega arith)
join-cons arg (next ∷ args) h = refl

append-nonempty : (args : List Text) (rest : Text) → 0 < length (args ++ (rest ∷ []))
append-nonempty args rest = omega (arith, length-append args (rest ∷ []))

put_in_front-Outcome :
    (arg text : Text) (o : Option (List Text))
    → is_cut arg ≡ false
    → Outcome text o
    → IsSome o
    → Outcome (arg ++ (b',' ∷ text)) (put_in_front arg o)
unfolding put_in_front
put_in_front-Outcome arg text none whole (args, rest, e, h, c) n = (
  arg ∷ args,
  rest,
  join-cons arg (args ++ (rest ∷ [])) (append-nonempty args rest) ∙ ap (λ t. arg ++ (b',' ∷ t)) e,
  (whole, h),
  c,
)
put_in_front-Outcome arg text (some args) whole (e, h) n =
    (join-cons arg args n ∙ ap (λ t. arg ++ (b',' ∷ t)) e, (whole, h))

put_in_front-IsSome : (arg : Text) (o : Option (List Text)) → IsSome (put_in_front arg o)
unfolding put_in_front
put_in_front-IsSome arg none = tt
put_in_front-IsSome arg (some args) = omega arith

join_cut-IsSome : (arg : Text) (args : List Text) → IsSome (join_cut arg args)
unfolding join_cut
join_cut-IsSome arg [] = elim (Bool-cases (is_cut arg)) [
  | inl e ↦ rw e tt
  | inr e ↦ rw e (omega arith)
]
join_cut-IsSome arg (next ∷ args) = elim (Bool-cases (is_cut arg)) [
  | inl e ↦ rw e (join_cut-IsSome (arg ++ (b',' ∷ next)) args)
  | inr e ↦ rw e (put_in_front-IsSome arg (join_cut next args))
]

join-glued :
    (arg next : Text) (args : List Text)
    → join (codes ",") ((arg ++ (b',' ∷ next)) ∷ args) ≡ join (codes ",") (arg ∷ next ∷ args)
unfolding join
join-glued arg next [] = refl
join-glued arg next (v ∷ args) =
    append_assoc arg (b',' ∷ next) (codes "," ++ join (codes ",") (v ∷ args))

join_cut-Outcome :
    (arg : Text) (args : List Text) → Outcome (join (codes ",") (arg ∷ args)) (join_cut arg args)
unfolding join_cut
join_cut-Outcome arg [] = elim (Bool-cases (is_cut arg)) [
  | inl e ↦ rw e ([], arg, refl, tt, e)
  | inr e ↦ rw e (refl, (e, tt))
]
join_cut-Outcome arg (next ∷ args) = elim (Bool-cases (is_cut arg)) [
  | inl e ↦ rw e (
      subst (λ t. Outcome t (join_cut (arg ++ (b',' ∷ next)) args)) (join-glued arg next args)
        (join_cut-Outcome (arg ++ (b',' ∷ next)) args))
  | inr e ↦ rw e (
      subst (λ t. Outcome t (put_in_front arg (join_cut next args)))
        (sym (join-cons arg (next ∷ args) (omega arith)))
        (put_in_front-Outcome arg (join (codes ",") (next ∷ args)) (join_cut next args) e
          (join_cut-Outcome next args) (join_cut-IsSome next args)))
]

pieces-Outcome :
    (text : Text) (pieces : List Text)
    → join (codes ",") pieces ≡ text
    → Outcome text (elim pieces [ [] ↦ some [] | arg ∷ args ↦ join_cut arg args ])
pieces-Outcome text [] e = (e, tt)
pieces-Outcome text (arg ∷ args) e =
    subst (λ t. Outcome t (join_cut arg args)) e (join_cut-Outcome arg args)

-- If the arguments of a constructor are found, they are whole and make up the text between its
-- parentheses; if this fails with an IndexError, the text is made up of whole arguments and a last
-- one that is cut.
pub constructor_args-Outcome : (text : Text) → Outcome text (constructor_args text)
unfolding constructor_args join
constructor_args-Outcome [] = (refl, tt)
constructor_args-Outcome (c ∷ s) =
    pieces-Outcome (c ∷ s) (split b',' (c ∷ s)) (join-split b',' (c ∷ s))
