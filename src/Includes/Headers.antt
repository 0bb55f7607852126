-- ===== src/Includes/Headers.antt =====
-- Which headers `FindHeader` finds.
use deft_rpc.Base.{
  ℕ, suc, ◌<◌, ◌≡◌, refl, ap, none, some, List, [], ◌∷◌, ◌++◌, arith, if◌then◌else◌, length,
  length-append,
}
use deft_rpc.Text.{Text, eq}
use deft_rpc.Includes.{
  IncludeState, update_last, reset_section, find_in, find_in_lists, find_header, add_header,
}

-- The list of lists is never empty.
abbrev pub IsOpen : IncludeState → Type 0
IsOpen s = 0 < length s.include_list

length-update_last {ℓ} :
    {A : Type ℓ} (f : A → A) (xs : List A) → length (update_last f xs) ≡ length xs
unfolding update_last
length-update_last f [] = refl
length-update_last f (x ∷ []) = refl
length-update_last f (x ∷ y ∷ xs) = ap suc (length-update_last f (y ∷ xs))

find_in-append :
    (h : Text) (n : ℕ) (header : Text) (fs : List (Text × ℕ))
    → find_in header (fs ++ ((h, n) ∷ [])) ≡ elim (find_in header fs) [
      | some linenum ↦ some linenum
      | none ↦ if eq h header then some n else none
    ]
unfolding find_in
find_in-append h n header [] = ground arith
find_in-append h n header (f ∷ fs) = ground (arith, find_in-append h n header fs)

find_in_lists-add :
    (h : Text) (n : ℕ) (header : Text) (lists : List (List (Text × ℕ)))
    → 0 < length lists
    → find_in_lists header (update_last (λ headers. headers ++ ((h, n) ∷ [])) lists)
      ≡ elim (find_in_lists header lists) [
        | some linenum ↦ some linenum
        | none ↦ if eq h header then some n else none
      ]
unfolding find_in_lists update_last
find_in_lists-add h n header [] nonempty = absurd (omega arith)
find_in_lists-add h n header (fs ∷ []) nonempty = ground (arith, find_in-append h n header fs)
find_in_lists-add h n header (fs ∷ gs ∷ lists) nonempty =
    ground (arith, find_in_lists-add h n header (gs ∷ lists) (omega arith))

-- After a header is added, a search for it finds the first line on which it was included.
pub find_header-add_header :
    (h : Text) (n : ℕ) (header : Text) (s : IncludeState)
    → IsOpen s
    → find_header header (add_header h n s) ≡ elim (find_header header s) [
      | some linenum ↦ some linenum
      | none ↦ if eq h header then some n else none
    ]
unfolding find_header add_header
find_header-add_header h n header s nonempty = find_in_lists-add h n header s.include_list nonempty

pub reset_section-IsOpen :
    (directive : Text) (s : IncludeState) → IsOpen s → IsOpen (reset_section directive s)
unfolding reset_section
reset_section-IsOpen directive s nonempty = ground (
  arith,
  length-update_last {A = List (Text × ℕ)} (λ headers. []) s.include_list,
  length-append s.include_list ([] ∷ []),
)

pub add_header-IsOpen : (h : Text) (n : ℕ) (s : IncludeState) → IsOpen s → IsOpen (add_header h n s)
unfolding add_header
add_header-IsOpen h n s nonempty =
    ground (arith, length-update_last (λ headers. headers ++ ((h, n) ∷ [])) s.include_list)
