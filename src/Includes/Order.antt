-- ===== src/Includes/Order.antt =====
-- Which orders of headers are accepted.
use deft_rpc.Base.{
  ◌≤◌, ◌≡◌, refl, ◌∙◌, ◌⊎◌, inl, inr, Bool, true, false, none, some, List, [], ◌∷◌, arith, ◌==◌,
  if◌then◌else◌, Option-cases, all,
}
use deft_rpc.Text.{Text}
use deft_rpc.Includes.{
  HeaderType, c_sys_header, cpp_sys_header, likely_my_header, possible_my_header, other_header,
  Section, initial_section, my_h_section, c_section, cpp_section, other_h_section, value,
  reset_section, IncludeState, next_section, check_next_include_order,
}

-- The messages for a list of headers, from a state on.
unfoldable pub messages : List HeaderType → IncludeState → List Text
messages [] s = []
messages (h ∷ hs) s = let next = check_next_include_order h s in next.1 ∷ messages hs next.0

abbrev pub is_empty : Text → Bool
is_empty [] = true
is_empty (c ∷ message) = false

-- The kinds of headers, and the headers behind the leading ones of a kind.
unfoldable pub is_mine : HeaderType → Bool
is_mine likely_my_header = true
is_mine possible_my_header = true
is_mine h = false

unfoldable pub is_c : HeaderType → Bool
is_c c_sys_header = true
is_c h = false

unfoldable pub is_cpp : HeaderType → Bool
is_cpp cpp_sys_header = true
is_cpp h = false

unfoldable pub is_late : HeaderType → Bool
unfolding is_mine
is_late other_header = true
is_late h = is_mine h

unfoldable pub behind : (HeaderType → Bool) → List HeaderType → List HeaderType
behind kind [] = []
behind kind (h ∷ hs) = elim (kind h) [ true ↦ behind kind hs | false ↦ h ∷ hs ]

-- Headers of the file itself, then C system headers, then C++ system headers, then any others but
-- system headers.
unfoldable pub in_order : List HeaderType → Bool
unfolding is_mine is_c is_cpp is_late behind
in_order hs = all is_late (behind is_cpp (behind is_c (behind is_mine hs)))

-- Every header of the list is accepted, from a section on.
accepted : Section → List HeaderType → Bool
accepted reached [] = true
accepted reached (h ∷ hs) = elim (next_section h reached) [
  | none ↦ false
  | some next ↦ accepted next hs
]

accepted-messages :
    (hs : List HeaderType) (s : IncludeState) → all is_empty (messages hs s) ≡ accepted s.section hs
unfolding messages accepted check_next_include_order
accepted-messages [] s = refl
accepted-messages (h ∷ hs) s = elim (Option-cases (next_section h s.section)) [
  | inl e ↦ rw (check_next_include_order, accepted, e) refl
  | inr (next, e) ↦
      rw (check_next_include_order, accepted, e)
        (accepted-messages hs (record s {
          section = next;
          last_header = if value s.section == value next then s.last_header else [];
        }))
]

accepted_late : (hs : List HeaderType) → accepted other_h_section hs ≡ all is_late hs
unfolding accepted is_late is_mine next_section
accepted_late [] = refl
accepted_late (c_sys_header ∷ hs) = refl
accepted_late (cpp_sys_header ∷ hs) = refl
accepted_late (likely_my_header ∷ hs) = accepted_late hs
accepted_late (possible_my_header ∷ hs) = accepted_late hs
accepted_late (other_header ∷ hs) = accepted_late hs

accepted_cpp : (hs : List HeaderType) → accepted cpp_section hs ≡ all is_late (behind is_cpp hs)
unfolding accepted is_late is_mine is_cpp behind next_section
accepted_cpp [] = refl
accepted_cpp (c_sys_header ∷ hs) = refl
accepted_cpp (cpp_sys_header ∷ hs) = accepted_cpp hs
accepted_cpp (likely_my_header ∷ hs) = accepted_late hs
accepted_cpp (possible_my_header ∷ hs) = accepted_late hs
accepted_cpp (other_header ∷ hs) = accepted_late hs

accepted_c :
    (hs : List HeaderType) → accepted c_section hs ≡ all is_late (behind is_cpp (behind is_c hs))
unfolding accepted is_late is_mine is_cpp is_c behind next_section
accepted_c [] = refl
accepted_c (c_sys_header ∷ hs) = accepted_c hs
accepted_c (cpp_sys_header ∷ hs) = accepted_cpp hs
accepted_c (likely_my_header ∷ hs) = accepted_late hs
accepted_c (possible_my_header ∷ hs) = accepted_late hs
accepted_c (other_header ∷ hs) = accepted_late hs

accepted_mine : (hs : List HeaderType) → accepted my_h_section hs ≡ in_order hs
unfolding accepted in_order next_section
accepted_mine [] = refl
accepted_mine (c_sys_header ∷ hs) = accepted_c hs
accepted_mine (cpp_sys_header ∷ hs) = accepted_cpp hs
accepted_mine (likely_my_header ∷ hs) = accepted_mine hs
accepted_mine (possible_my_header ∷ hs) = accepted_mine hs
accepted_mine (other_header ∷ hs) = accepted_late hs

accepted_initial : (hs : List HeaderType) → accepted initial_section hs ≡ in_order hs
unfolding accepted in_order next_section
accepted_initial [] = refl
accepted_initial (c_sys_header ∷ hs) = accepted_c hs
accepted_initial (cpp_sys_header ∷ hs) = accepted_cpp hs
accepted_initial (likely_my_header ∷ hs) = accepted_mine hs
accepted_initial (possible_my_header ∷ hs) = accepted_mine hs
accepted_initial (other_header ∷ hs) = accepted_late hs

-- After ResetSection the headers that follow get no message exactly if they are in order.
pub messages-in_order :
    (directive : Text) (s : IncludeState) (hs : List HeaderType)
    → all is_empty (messages hs (reset_section directive s)) ≡ in_order hs
unfolding reset_section
messages-in_order directive s hs =
    accepted-messages hs (reset_section directive s) ∙ accepted_initial hs

-- CheckNextIncludeOrder never moves the section back, and where it returns a message, the section
-- stays.
pub check_next-value :
    (h : HeaderType) (s : IncludeState)
    → (value s.section ≤ value (check_next_include_order h s).0.section)
      × ((is_empty (check_next_include_order h s).1 ≡ true)
          ⊎ ((check_next_include_order h s).0.section ≡ s.section))
unfolding check_next_include_order
check_next-value h s = ground arith
