-- ===== src/Tests/Reports.antt =====
-- Reports of whole files.
use deft_rpc.Base.{
  ℕ, ◌<◌, ◌≡◌, refl, true, false, none, List, [], ◌∷◌, ◌++◌, map, arith, if◌then◌else◌, length,
}
use deft_rpc.Text
use deft_rpc.Text.{Text, codes, eq}
use deft_rpc.Dict
use deft_rpc.Regex
use deft_rpc.Paths
use deft_rpc.Paths.{Disk}
use deft_rpc.Settings
use deft_rpc.Settings.{Settings, default_settings}
use deft_rpc.FileInfo
use deft_rpc.Lines
use deft_rpc.Lines.{cleansed_lines}
use deft_rpc.Lint.{Report}
use deft_rpc.Lint.Junit.{element, no_more, and_also, grouped, testsuite}
use deft_rpc.Lint.Junit.Grouped.{files, of_file, grouped-files}
use deft_rpc.Includes
use deft_rpc.Needs
use deft_rpc.Guards
use deft_rpc.Needs.{
  Need, sort_needs, missing_reports, check_for_include_what_you_use, check_header_file_included,
  HeaderReport,
}
use deft_rpc.Needs.SameModule.{
  files_belong_to_same_module, header_stem, source_stem, files_belong_to_same_module-prefix,
}

abbrev report : Text → ℕ → Text → Report
report filename linenum message = record {
  filename = filename;
  linenum = linenum;
  category = codes "build/include";
  confidence = 4;
  message = message;
}

abbrev three_failures : List Report
three_failures =
    report (codes "a.cc") 3 (codes "x")
    ∷ report (codes "b.cc") 1 (codes "y")
    ∷ report (codes "a.cc") 7 (codes "z")
    ∷ []

grouped-files_example :
    grouped three_failures
    ≡ map (λ file. (file, of_file file three_failures)) (files three_failures)
grouped-files_example = grouped-files three_failures

two_groups :
    map {B = Text × List ℕ} (λ g. (g.0, map (λ r. r.linenum) g.1)) (grouped three_failures)
    ≡ (codes "a.cc", 3 ∷ 7 ∷ []) ∷ (codes "b.cc", 1 ∷ []) ∷ []
unfolding grouped
two_groups = refl

no_errors :
    testsuite [] []
    ≡ element
        (codes "testsuite")
        ((codes "name", codes "cpplint")
          ∷ (codes "errors", codes "0")
          ∷ (codes "failures", codes "0")
          ∷ (codes "tests", codes "1")
          ∷ [])
        []
        (and_also
          (element (codes "testcase") ((codes "name", codes "passed") ∷ []) [] no_more)
          no_more)
unfolding testsuite
no_errors = refl

abbrev nowhere : Disk
nowhere = record { cwd = codes "/w"; exists = λ p. false }

same_module :
    files_belong_to_same_module default_settings nowhere
      (codes "/w/src/public/foo_test.cc")
      (codes "src/foo-inl.h")
    ≡ (true, codes "/w/")
unfolding files_belong_to_same_module Needs.SameModule.is_source_and_header
    Settings.get_non_header_extensions FileInfo.extension Paths.abspath Settings.is_header_extension
    header_stem source_stem Regex.search FileInfo.base_name Regex.group_text
same_module = refl

header_stem-nonempty : 0 < length (header_stem default_settings nowhere (codes "foo.h"))
unfolding header_stem Text.ends_with FileInfo.extension Paths.abspath
header_stem-nonempty = omega arith

files_belong_to_same_module-prefix_example :
    (if (files_belong_to_same_module default_settings nowhere (codes "/w/foo.cc") (codes "foo.h")).0
      then (files_belong_to_same_module default_settings nowhere
          (codes "/w/foo.cc")
          (codes "foo.h")).1
        ++ header_stem default_settings nowhere (codes "foo.h")
      else source_stem default_settings nowhere (codes "/w/foo.cc")
        ++ (files_belong_to_same_module default_settings nowhere
            (codes "/w/foo.cc")
            (codes "foo.h")).1)
    ≡ source_stem default_settings nowhere (codes "/w/foo.cc")
files_belong_to_same_module-prefix_example =
    files_belong_to_same_module-prefix default_settings nowhere (codes "/w/foo.cc") (codes "foo.h")
      header_stem-nonempty

abbrev three_needs : List Need
three_needs =
    (codes "<map>", (7, codes "map<>"))
    ∷ (codes "<vector>", (2, codes "vector<>"))
    ∷ (codes "<set>", (4, codes "set<>"))
    ∷ []

abbrev linenums : List Report → List ℕ
linenums = map (λ r. r.linenum)

missing_lines :
    linenums (missing_reports (codes "a.h") ((codes "set", 1) ∷ []) (sort_needs three_needs))
    ≡ 2 ∷ 7 ∷ []
unfolding missing_reports sort_needs eq
missing_lines = refl

-- `std::string` and a vector are used; only the header of the vector is included.
warnings :
    map
      (λ r. r.message)
      (check_for_include_what_you_use default_settings nowhere
        (λ p. none)
        (codes "a.h")
        (cleansed_lines (
          codes "std::string s;"
          ∷ codes "#define vector<int> x"
          ∷ codes "std::vector<int> v;"
          ∷ []))
        (Includes.add_header (codes "vector") 0 Includes.init))
    ≡ codes "Add #include <string> for string" ∷ []
unfolding check_for_include_what_you_use cleansed_lines Includes.add_header Includes.init
    files_belong_to_same_module Needs.SameModule.is_source_and_header
    Settings.get_non_header_extensions FileInfo.extension Paths.abspath Guards.replace_end
    Regex.search Lines.RawStrings.cleanse_raw_strings Lines.Comments.cleanse_comments
    Regex.replace_all Text.find Lines.Collapse.collapse_strings Regex.match Text.is_space
    Needs.Tables.pattern_templates Needs.Tables.headers_maybe_templates Needs.is_std Text.ends_with
    Needs.missing_reports Needs.sort_needs Needs.strip_brackets Text.eq Dict.get Dict.put
    Regex.is_word
warnings = refl
