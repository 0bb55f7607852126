-- ===== src/Nesting/Update/Rounds.antt =====
-- The loops of `Update` end by their own tests: every round shortens what is left of the line.
use deft_rpc.Base.{
  ℕ, zero, suc, ◌+◌, ◌≤◌, ◌<◌, ◌≡◌, refl, ap, inl, inr, some, List, ◌++◌, arith, Option-cases,
  length, length-drop,
}
use deft_rpc.Text.{Text, codes, find}
use deft_rpc.Regex.{
  ◌▹◌, ◌│◌, char, lit, in_set, not_in, star, plus, optional, space, word, dot, group, word_edge,
  line_start, Found, match, group_text,
}
use deft_rpc.Regex.Groups.{tail_group}
use deft_rpc.Lines.{CleansedLines}
use deft_rpc.Lint.{Report}
use deft_rpc.Nesting.{Block}
use deft_rpc.Nesting.Update.{
  at_token, brace_pattern, consume_braces, namespace_pattern, push_namespace, consume_namespaces,
}

brace_pattern-length :
    (line : Text) (m : Found)
    → match brace_pattern line ≡ some m
    → length (group_text m 2) < length line
brace_pattern-length line m h =
    let l =
      tail_group (line_start ▹ star (not_in "{;)}") ▹ group 1 (in_set "{;)}")) (star dot) 2 refl
        line m h in
    omega (arith, l)

namespace_pattern-length :
    (line : Text) (m : Found)
    → match namespace_pattern line ≡ some m
    → length (group_text m 2) < length line
namespace_pattern-length line m h =
    let l =
      tail_group
        (line_start
          ▹ star space
          ▹ lit "namespace"
          ▹ word_edge
          ▹ star space
          ▹ optional (group 1 (plus (char b':' │ word))))
        (star dot) 2 refl line m h in
    omega (arith, l)

push_namespace-length :
    (linenum : ℕ) (name rest : Text) (stack : List Block)
    → length (push_namespace linenum name rest stack).0 ≤ length rest
unfolding push_namespace
push_namespace-length linenum name rest stack = elim (Option-cases (find (codes "{") rest)) [
  | inl e ↦ rw (push_namespace, e) (omega arith)
  | inr (i, e) ↦ rw (push_namespace, e) (omega (arith, length-drop (i + 1) rest))
]

-- Any two numbers of rounds above the length of the line give the same result of the loop over
-- the namespaces.
pub consume_namespaces_rounds :
    (f g linenum : ℕ) (line : Text) (stack : List Block)
    → length line < f
    → length line < g
    → consume_namespaces f linenum line stack ≡ consume_namespaces g linenum line stack
unfolding consume_namespaces
consume_namespaces_rounds zero g linenum line stack h j = absurd (omega arith)
consume_namespaces_rounds (suc f) zero linenum line stack h j = absurd (omega arith)
consume_namespaces_rounds (suc f) (suc g) linenum line stack h j =
    elim (Option-cases (match namespace_pattern line)) [
      | inl e ↦ rw (consume_namespaces, e)
      | inr (m, e) ↦
          let shorter = namespace_pattern-length line m e in
          let next = push_namespace linenum (group_text m 1) (group_text m 2) stack in
          let l = push_namespace-length linenum (group_text m 1) (group_text m 2) stack in
          rw (consume_namespaces, e)
            (consume_namespaces_rounds f g linenum next.0 next.1 (omega (arith, l, shorter))
              (omega (arith, l, shorter)))
    ]

module _ (filename : Text) (clean_lines : CleansedLines) (linenum : ℕ) where
  -- Any two numbers of rounds above the length of the line give the same result of the loop over
  -- the braces and semicolons.
  pub consume_braces_rounds :
      (f g : ℕ) (line : Text) (stack : List Block)
      → length line < f
      → length line < g
      → consume_braces f filename clean_lines linenum line stack
        ≡ consume_braces g filename clean_lines linenum line stack
  unfolding consume_braces
  consume_braces_rounds zero g line stack h j = absurd (omega arith)
  consume_braces_rounds (suc f) zero line stack h j = absurd (omega arith)
  consume_braces_rounds (suc f) (suc g) line stack h j =
      elim (Option-cases (match brace_pattern line)) [
        | inl e ↦ rw (consume_braces, e)
        | inr (m, e) ↦
            let shorter = brace_pattern-length line m e in
            let here = at_token filename clean_lines linenum line (group_text m 1) stack in
            let rest =
              consume_braces_rounds f g (group_text m 2) here.0 (omega (arith, shorter))
                (omega (arith, shorter)) in
            rw (consume_braces, e)
              (ap (λ (r : List Block × List Report). (r.0, here.1 ++ r.1)) rest)
      ]
