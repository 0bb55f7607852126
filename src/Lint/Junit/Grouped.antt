-- ===== src/Lint/Junit/Grouped.antt =====
-- How the failures are grouped by file.
use deft_rpc.Base.{
  ◌≡◌, refl, sym, ap, ◌∙◌, inl, inr, Bool, false, not, ◌&&◌, ◌||◌, none, some, List, [], ◌∷◌, ◌++◌,
  map, append-nil, append_assoc, arith, if◌then◌else◌, Bool-cases, keep_if,
}
use mathlib.Core.Path.{subst}
use deft_rpc.Text.{Text, eq, one_of}
use deft_rpc.Text.Compare.{eq_iff, eq_refl}
use deft_rpc.Dict.{get, get-put}
use deft_rpc.Lint.{Report}
use deft_rpc.Lint.Junit.{Groups, listed, new_group, add_failure, group_failures, grouped}

-- The files of the failures, each where it comes first.
unfoldable pub files : List Report → List Text
unfolding eq
files [] = []
files (f ∷ failures) = f.filename ∷ keep_if (λ file. not (eq file f.filename)) (files failures)

-- The failures of one file.
unfoldable pub of_file : Text → List Report → List Report
unfolding eq
of_file file failures = keep_if (λ f. eq f.filename file) failures

one_of-keep_if :
    (k a : Text) (xs : List Text)
    → one_of k (keep_if (λ x. not (eq x a)) xs) ≡ (one_of k xs && not (eq k a))
unfolding one_of
one_of-keep_if k a [] = refl
one_of-keep_if k a (x ∷ xs) = ground (arith, one_of-keep_if k a xs, eq_iff k x)

keep_if-append {ℓ} :
    {A : Type ℓ} (p : A → Bool) (xs : List A) (y : A)
    → keep_if p (xs ++ (y ∷ [])) ≡ (if p y then keep_if p xs ++ (y ∷ []) else keep_if p xs)
keep_if-append p [] y = ground arith
keep_if-append p (x ∷ xs) y = ground (arith, keep_if-append p xs y)

files-append :
    (fs : List Report) (f : Report)
    → files (fs ++ (f ∷ []))
      ≡ (if one_of f.filename (files fs) then files fs else files fs ++ (f.filename ∷ []))
unfolding files one_of
files-append [] f = refl
files-append (x ∷ fs) f = ground (
  arith,
  files-append fs f,
  one_of-keep_if f.filename x.filename (files fs),
  keep_if-append (λ file. not (eq file x.filename)) (files fs) f.filename,
  eq_iff f.filename x.filename,
)

of_file-append :
    (file : Text) (fs : List Report) (f : Report)
    → of_file file (fs ++ (f ∷ []))
      ≡ (if eq f.filename file then of_file file fs ++ (f ∷ []) else of_file file fs)
unfolding of_file
of_file-append file fs f = keep_if-append (λ r. eq r.filename file) fs f

-- The groups after the failures: the order is that of the files, and each file has its failures.
record AreGroups (failures : List Report) (g : Groups) : Type 0 where
  order : g.order ≡ files failures
  found :
      (file : Text)
      → get g.by_file file
        ≡ (if one_of file (files failures) then some (of_file file failures) else none)

none_of_file :
    (file : Text) (fs : List Report) → one_of file (files fs) ≡ false → of_file file fs ≡ []
unfolding files one_of of_file
none_of_file file [] h = refl
none_of_file file (f ∷ fs) h = ground (
  arith,
  none_of_file file fs,
  one_of-keep_if file f.filename (files fs),
  eq_iff f.filename file,
  eq_iff file f.filename,
)

one_of-append : (k x : Text) (xs : List Text) → one_of k (xs ++ (x ∷ [])) ≡ (one_of k xs || eq k x)
unfolding one_of
one_of-append k x [] = ground arith
one_of-append k x (y ∷ xs) = ground (arith, one_of-append k x xs)

get-new_group :
    (k j : Text) (g : Groups)
    → get (new_group k g).by_file j
      ≡ (if one_of k g.order then get g.by_file j else if eq k j then some [] else get g.by_file j)
unfolding new_group
get-new_group k j g = elim (Bool-cases (one_of k g.order)) [
  | inl e ↦ rw e
  | inr e ↦ rw e (get-put g.by_file k j [])
]

order-add :
    (f : Report) (g : Groups)
    → (add_failure f (new_group f.filename g)).order
      ≡ (if one_of f.filename g.order then g.order else g.order ++ (f.filename ∷ []))
unfolding add_failure new_group
order-add f g = ground arith

get-add :
    (f : Report) (j : Text) (g : Groups)
    → get (add_failure f g).by_file j ≡ (
        if eq f.filename j
        then some (listed (get g.by_file f.filename) ++ (f ∷ []))
        else get g.by_file j)
unfolding add_failure
get-add f j g = get-put g.by_file f.filename j (listed (get g.by_file f.filename) ++ (f ∷ []))

found-add :
    (fs : List Report) (f : Report) (g : Groups) (file : Text)
    → AreGroups fs g
    → get (add_failure f (new_group f.filename g)).by_file file ≡ (
        if one_of file (files (fs ++ (f ∷ []))) then some (of_file file (fs ++ (f ∷ []))) else none)
found-add fs f g file h = ground (
  arith,
  h.order,
  h.found f.filename,
  h.found file,
  files-append fs f,
  of_file-append file fs f,
  none_of_file file fs,
  eq_iff f.filename file,
  eq_iff file f.filename,
  get-add f file (new_group f.filename g),
  get-new_group f.filename file g,
  get-new_group f.filename f.filename g,
  one_of-append file f.filename (files fs),
  eq_refl file,
)

AreGroups-add :
    (fs : List Report) (f : Report) (g : Groups)
    → AreGroups fs g
    → AreGroups (fs ++ (f ∷ [])) (add_failure f (new_group f.filename g))
AreGroups-add fs f g h = record {
  order = ground (arith, h.order, files-append fs f, order-add f g);
  found = λ file. found-add fs f g file h;
}

AreGroups-group_failures :
    (done fs : List Report) (g : Groups)
    → AreGroups done g
    → AreGroups (done ++ fs) (group_failures fs g)
unfolding group_failures
AreGroups-group_failures done [] g h = subst (λ xs. AreGroups xs g) (sym (append-nil done)) h
AreGroups-group_failures done (f ∷ fs) g h =
    subst (λ xs. AreGroups xs (group_failures fs (add_failure f (new_group f.filename g))))
      (append_assoc done (f ∷ []) fs)
      (AreGroups-group_failures (done ++ (f ∷ [])) fs (add_failure f (new_group f.filename g))
        (AreGroups-add done f g h))

listed-found :
    (fs : List Report) (g : Groups) (file : Text)
    → AreGroups fs g
    → listed (get g.by_file file) ≡ of_file file fs
listed-found fs g file h = ground (arith, h.found file, none_of_file file fs)

AreGroups-nil : AreGroups [] (record { order = []; by_file = [] })
unfolding files one_of get
AreGroups-nil = record { order = refl; found = λ file. refl }

-- FormatJUnitXML makes one group for every file with failures, in the order of the files' first
-- failures, and a file's group is its failures in their order.
pub grouped-files :
    (failures : List Report)
    → grouped failures ≡ map (λ file. (file, of_file file failures)) (files failures)
unfolding grouped
grouped-files failures =
    let empty : Groups = record { order = []; by_file = [] } in
    let g = group_failures failures empty in
    let h = AreGroups-group_failures [] failures empty AreGroups-nil in
    (λ i. map (λ file. (file, listed-found failures g file h i)) g.order)
    ∙ ap (map (λ file. (file, of_file file failures))) h.order
