-- ===== src/Needs/SameModule.antt =====
-- `FilesBelongToSameModule`.
use deft_rpc.Base.{
  ℕ, ◌-◌, ◌<◌, ◌≡◌, refl, sym, ap, ◌∙◌, inl, inr, Bool, true, false, ◌&&◌, none, some, List, [],
  ◌∷◌, ◌++◌, reverse, append-nil, arith, ◌==◌, if◌then◌else◌, Bool-cases, length, take,
  length-append,
}
use mathlib.Core.List.{reverse-append, reverse-reverse}
use deft_rpc.Text.{Text, codes, ends_with, replace, one_of}
use deft_rpc.Regex.{Regex, ◌▹◌, ◌│◌, lit, line_end, group, search, group_text}
use deft_rpc.Settings.{Settings, get_non_header_extensions, is_header_extension}
use deft_rpc.Paths.{Disk}
use deft_rpc.FileInfo.{base_name, extension}
use deft_rpc.Includes.Classify.{strip_left}
use deft_rpc.Text.Compare.{starts_with_iff}

-- _TEST_FILE_SUFFIX: (_test|_regtest|_unittest)$
abbrev pub test_file_suffix : Regex
test_file_suffix = group 1 (lit "_test" │ lit "_regtest" │ lit "_unittest") ▹ line_end

-- s[:-n], which for n = 0 is the empty text
unfoldable pub cut_last : ℕ → Text → Text
cut_last n s = if n == 0 then [] else take (length s - n) s

-- The two replacements.
unfoldable pub plain_directories : Text → Text
unfolding replace
plain_directories s =
    replace (codes "/internal/") (codes "/") (replace (codes "/public/") (codes "/") s)

take-prefix {ℓ} : {A : Type ℓ} (xs ys : List A) → take (length xs) (xs ++ ys) ≡ xs
take-prefix [] ys = refl
take-prefix (x ∷ xs) ys = ap (◌∷◌ x) (take-prefix xs ys)

-- A text that ends with another one is what is in front of it, followed by it.
ends_with-rest : (p s : Text) → ends_with p s ≡ true → (r : Text) × (s ≡ r ++ p)
unfolding ends_with
ends_with-rest p s h =
    let (r, e) = (starts_with_iff (reverse p) (reverse s)).0 h in
    (
      reverse r,
      sym (reverse-reverse s)
          ∙ (ap reverse e
              ∙ (reverse-append (reverse p) r ∙ ap (λ x. reverse r ++ x) (reverse-reverse p))),
    )

cut_last-suffix : (r p : Text) → 0 < length p → cut_last (length p) (r ++ p) ≡ r
unfolding cut_last
cut_last-suffix r p h =
    let n : length (r ++ p) - length p ≡ length r = omega (arith, length-append r p) in
    elim (Bool-cases (length p == 0)) [
      | inl e ↦ absurd (ground (arith, e, h))
      | inr e ↦ rw (e, n) (take-prefix r p)
    ]

cut_last-ends_with :
    (p s : Text) → ends_with p s ≡ true → 0 < length p → cut_last (length p) s ++ p ≡ s
cut_last-ends_with p s h k = let (r, e) = ends_with-rest p s h in rw (e, cut_last-suffix r p k) refl

module _ (settings : Settings) (disk : Disk) where
  -- The source's name without its extension and the suffix of a test.
  unfoldable pub source_stem : Text → Text
  unfolding cut_last plain_directories
  source_stem filename_cc =
      let bare = cut_last (length (extension settings disk filename_cc)) filename_cc in
      plain_directories (elim (search test_file_suffix (base_name settings disk filename_cc)) [
        | none ↦ bare
        | some m ↦ cut_last (length (group_text m 1)) bare
      ])

  -- The header's name without its extension and `-inl`.
  unfoldable pub header_stem : Text → Text
  unfolding cut_last plain_directories
  header_stem filename_h =
      let bare = cut_last (length (extension settings disk filename_h)) filename_h in
      plain_directories (if ends_with (codes "-inl") bare then cut_last 4 bare else bare)

  -- Whether the names have the extensions of a source and of a header.
  unfoldable pub is_source_and_header : Text → Text → Bool
  unfolding strip_left one_of
  is_source_and_header filename_cc filename_h =
      one_of (strip_left b'.' (extension settings disk filename_cc))
        (get_non_header_extensions settings)
      && is_header_extension settings (strip_left b'.' (extension settings disk filename_h))

  -- FilesBelongToSameModule
  unfoldable pub files_belong_to_same_module : Text → Text → Bool × Text
  unfolding cut_last
  files_belong_to_same_module filename_cc filename_h =
      let stem_cc = source_stem filename_cc in
      let stem_h = header_stem filename_h in
      if is_source_and_header filename_cc filename_h && ends_with stem_h stem_cc
      then (true, cut_last (length stem_h) stem_cc)
      else (false, [])

  -- If the files belong to the same module, a header with a stem that is not empty has, behind the
  -- prefix that is returned, the stem of the source; otherwise the prefix is empty.
  pub files_belong_to_same_module-prefix :
      (filename_cc filename_h : Text)
      → 0 < length (header_stem filename_h)
      → (if (files_belong_to_same_module filename_cc filename_h).0
          then (files_belong_to_same_module filename_cc filename_h).1 ++ header_stem filename_h
          else source_stem filename_cc ++ (files_belong_to_same_module filename_cc filename_h).1)
        ≡ source_stem filename_cc
  unfolding files_belong_to_same_module
  files_belong_to_same_module-prefix filename_cc filename_h h = ground (
    arith,
    h,
    append-nil (source_stem filename_cc),
    cut_last-ends_with (header_stem filename_h) (source_stem filename_cc),
  )
