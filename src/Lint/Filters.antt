-- ===== src/Lint/Filters.antt =====
-- Which filters a state can hold after AddFilters and SetFilters.
use deft_rpc.Base.{
  ◌≡◌, refl, sym, ◌∙◌, ◌↔◌, true, none, List, [], ◌∷◌, ◌++◌, append-nil, append_assoc, arith, All,
}
use deft_rpc.Text.{Text, strip, split}
use deft_rpc.Lint.{
  Lint, init, is_signed, append_entry, append_filters, first_unsigned, add_filters, set_filters,
  backup_filters, restore_filters,
}

-- Every filter begins with `+` or `-`.
abbrev pub AllSigned : List Text → Type 0
AllSigned = All (λ f. is_signed f ≡ true)

first_unsigned-none : (fs : List Text) → (first_unsigned fs ≡ none) ↔ AllSigned fs
unfolding first_unsigned
first_unsigned-none [] = (λ _. tt, λ _. refl)
first_unsigned-none (f ∷ fs) = (
  (λ h. ground (arith, (first_unsigned-none fs).0)),
  (λ h. ground (arith, (first_unsigned-none fs).1 h.1)),
)

-- The entries of a filter text, without surrounding blanks and without the empty ones.
abbrev cons_entry : Text → List Text → List Text
cons_entry [] ws = ws
cons_entry (c ∷ w) ws = (c ∷ w) ∷ ws

abbrev pub entries : List Text → List Text
entries [] = []
entries (f ∷ rest) = cons_entry (strip f) (entries rest)

append_entry-append :
    (fs : List Text) (w : Text) (ws : List Text) → append_entry fs w ++ ws ≡ fs ++ cons_entry w ws
unfolding append_entry
append_entry-append fs [] ws = refl
append_entry-append fs (c ∷ w) ws = append_assoc fs ((c ∷ w) ∷ []) ws

append_filters-entries : (fs rest : List Text) → append_filters fs rest ≡ fs ++ entries rest
unfolding append_filters
append_filters-entries fs [] = sym (append-nil fs)
append_filters-entries fs (f ∷ rest) =
    append_filters-entries (append_entry fs (strip f)) rest
    ∙ append_entry-append fs (strip f) (entries rest)

-- AddFilters appends the entries of its text to the filters, and raises exactly when one of all
-- the filters does not begin with `+` or `-`.
pub add_filters_lem :
    (text : Text) (s : Lint)
    → ((add_filters text s).0.filters ≡ s.filters ++ entries (split b',' text))
      × ((add_filters text s).1 ≡ none ↔ AllSigned (add_filters text s).0.filters)
unfolding add_filters
add_filters_lem text s = (append_filters-entries s.filters (split b',' text), first_unsigned-none _)

-- SetFilters forgets the filters of before: the default filters come first, and have the least
-- priority.
pub set_filters_lem :
    (text : Text) (s : Lint)
    → (set_filters text s).0.filters ≡ init.filters ++ entries (split b',' text)
unfolding set_filters add_filters
set_filters_lem text s = append_filters-entries init.filters (split b',' text)

-- What the configuration files of one input add is gone after RestoreFilters.
pub restore-add-backup :
    (text : Text) (s : Lint)
    → restore_filters (add_filters text (backup_filters s)).0 ≡ backup_filters s
unfolding restore_filters backup_filters add_filters
restore-add-backup text s = refl
