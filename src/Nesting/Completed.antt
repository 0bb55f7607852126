-- ===== src/Nesting/Completed.antt =====
-- What is reported at the end of a file.
use deft_rpc.Base.{
  ◌+◌, ◌≡◌, refl, Bool, true, false, ◌||◌, List, [], ◌∷◌, arith, if◌then◌else◌, length, keep_if,
  length-append,
}
use deft_rpc.Text.{Text}
use deft_rpc.Nesting.{
  Kind, plain_block, extern_c, class_block, namespace, Block, is_class, is_namespace, incomplete,
  check_completed_blocks,
}

-- a class or a namespace
abbrev pub is_declared : Block → Bool
is_declared b = is_class b.kind || is_namespace b.kind

incomplete-length :
    (filename : Text) (b : Block) (kind : Kind)
    → b.kind ≡ kind
    → length (incomplete filename b) ≡ (if is_declared b then 1 else 0)
unfolding incomplete
incomplete-length filename b plain_block e = rw (incomplete, e) refl
incomplete-length filename b extern_c e = rw (incomplete, e) refl
incomplete-length filename b (class_block info) e = rw (incomplete, e) refl
incomplete-length filename b (namespace name) e = rw (incomplete, e) refl

keep_if-length {ℓ} :
    {A : Type ℓ} (b : Bool) (x : A) (xs : List A)
    → length (elim b as (λ _. List A) [ true ↦ x ∷ xs | false ↦ xs ])
      ≡ (if b then 1 else 0) + length xs
keep_if-length true x xs = omega arith
keep_if-length false x xs = omega arith

-- CheckCompletedBlocks makes as many reports as there are classes and namespaces on the stack.
pub check_completed_blocks-length :
    (filename : Text) (stack : List Block)
    → length (check_completed_blocks filename stack) ≡ length (keep_if is_declared stack)
unfolding check_completed_blocks
check_completed_blocks-length filename [] = refl
check_completed_blocks-length filename (b ∷ stack) =
    let rest = check_completed_blocks-length filename stack in
    let here = incomplete-length filename b b.kind refl in
    let both = length-append (check_completed_blocks filename stack) (incomplete filename b) in
    let kept = keep_if-length (is_declared b) b (keep_if is_declared stack) in
    omega (arith, both, rest, here, kept)
