-- ===== src/Lint/Junit.antt =====
-- `FormatJUnitXML` of `_CppLintState`: the report as a tree of elements. How the tree becomes text
-- (`xml.etree.ElementTree.tostring`) is a parameter.
use deft_rpc.Base.{
  ℕ, zero, suc, ◌+◌, ◌-◌, ◌*◌, ◌/◌, ◌%◌, ◌^◌, ◌≤◌, ◌<◌, min, max, ◌≡◌, refl, sym, ap, ◌∙◌, ◌≢◌, ◌↔◌,
  ◌⊎◌, inl, inr, Bool, true, false, not, ◌&&◌, ◌||◌, Option, none, some, List, [], ◌∷◌, ◌++◌, map,
  reverse, append-nil, append_assoc, arith, ltb, leb, ◌==◌, if◌then◌else◌, ltb→lt, lt→ltb, leb→le,
  leb_false→lt, ==_iff, tests, Bool-cases, Option-cases, is_some, length, get_elem?, get_or, take,
  drop, all, any, keep_if, length-append, length-take, length-drop, take-append-drop, length-map,
  All, All-append,
}
pub mod Grouped
use deft_rpc.Text.{Text, codes, eq, one_of, join}
use deft_rpc.Text.Number.{decimal}
use deft_rpc.Text.Compare.{eq_iff}
use deft_rpc.Dict.{Dict, get, put, get-put}
use deft_rpc.Lint.{Lint, Report}

-- xml.etree.ElementTree.Element: the tag, the attributes in their order, the text, the subelements
mutual
  pub data Element : Type 0 where
    element : Text → List (Text × Text) → Text → Elements → Element

  pub data Elements : Type 0 where
    no_more : Elements
    and_also : Element → Elements → Elements

-- failed_file_order and failures_by_file
pub record Groups : Type 0 where
  pub order : List Text
  pub by_file : Dict (List Report)

-- failures_by_file[failed_file]; every file of the order has its list.
abbrev pub listed : Option (List Report) → List Report
listed none = []
listed (some fs) = fs

-- `if failed_file not in failed_file_order`
unfoldable pub new_group : Text → Groups → Groups
unfolding put one_of
new_group failed_file g =
    if one_of failed_file g.order
    then g
    else record { order = g.order ++ (failed_file ∷ []); by_file = put g.by_file failed_file [] }

-- failures_by_file[failed_file].append(failure)
unfoldable pub add_failure : Report → Groups → Groups
unfolding get put
add_failure failure g = record g {
  by_file =
      put g.by_file failure.filename (listed (get g.by_file failure.filename) ++ (failure ∷ []));
}

unfoldable pub group_failures : List Report → Groups → Groups
unfolding new_group add_failure
group_failures [] g = g
group_failures (failure ∷ failures) g =
    group_failures failures (add_failure failure (new_group failure.filename g))

-- The files that have failures, each with its failures.
unfoldable pub grouped : List Report → List (Text × List Report)
unfolding group_failures get
grouped failures =
    let g = group_failures failures (record { order = []; by_file = [] }) in
    map (λ failed_file. (failed_file, listed (get g.by_file failed_file))) g.order

-- '{0}: {1} [{2}] [{3}]'
unfoldable pub failure_text : Report → Text
unfolding decimal
failure_text f =
    decimal f.linenum
    ++ (codes ": "
        ++ (f.message
            ++ (codes " ["
                ++ (f.category ++ (codes "] [" ++ (decimal f.confidence ++ codes "]"))))))

failure_case : Text × List Report → Element
unfolding failure_text
failure_case group = element (codes "testcase") ((codes "name", group.0) ∷ []) [] (
    and_also (element (codes "failure") [] (join (codes "\n") (map failure_text group.1)) no_more)
      no_more)

failure_cases : List (Text × List Report) → Elements
unfolding failure_case
failure_cases [] = no_more
failure_cases (group ∷ groups) = and_also (failure_case group) (failure_cases groups)

-- The test case of the messages that PrintError saved, where there are any.
error_case : List Text → Elements → Elements
error_case [] further = further
error_case (e ∷ errors) further =
    and_also
      (element (codes "testcase") ((codes "name", codes "errors") ∷ []) []
        (and_also (element (codes "error") [] (join (codes "\n") (e ∷ errors)) no_more) no_more))
      further

unfoldable pub testsuite : List Text → List Report → Element
unfolding failure_cases error_case decimal
testsuite errors failures =
    let num_errors = length errors in
    let num_failures = length failures in
    let nothing = num_errors == 0 && num_failures == 0 in
    element (codes "testsuite")
      ((codes "name", codes "cpplint")
        ∷ (codes "errors", decimal num_errors)
        ∷ (codes "failures", decimal num_failures)
        ∷ (codes "tests", if nothing then codes "1" else decimal (num_errors + num_failures))
        ∷ [])
      []
      (if nothing
        then and_also (element (codes "testcase") ((codes "name", codes "passed") ∷ []) [] no_more)
            no_more
        else error_case errors (failure_cases (grouped failures)))

abbrev xml_decl : Text
xml_decl = codes "<?xml version=\"1.0\" encoding=\"UTF-8\" ?>\n"

-- FormatJUnitXML
unfoldable pub format_junit_xml : (Element → Text) → Lint → Text
format_junit_xml tostring s = xml_decl ++ tostring (testsuite s.junit_errors s.junit_failures)
