-- ===== src/Settings.antt =====
-- The globals of scripts/tools/cpplint.py that its options set, and the extensions of files. A set of
-- texts is the list of its members in the order in which Python goes through them.
use deft_rpc.Base.{ℕ, Bool, not, List, [], ◌∷◌, ◌++◌, map, ◌==◌, if◌then◌else◌, any, keep_if}
use deft_rpc.Text.{Text, codes, split, strip, one_of}

-- `_root` and `_repository` are `None` or a text; both the empty text and `None` are [].
pub record Settings : Type 0 where
  pub hpp_headers : List Text
  pub valid_extensions : List Text
  pub root : Text
  pub repository : Text
  pub excludes : List Text
  pub line_length : ℕ

abbrev pub default_settings : Settings
default_settings = record {
  hpp_headers = [];
  valid_extensions = [];
  root = [];
  repository = [];
  excludes = [];
  line_length = 80;
}

-- the members of a list, each once
unfoldable pub to_set : List Text → List Text
unfolding one_of
to_set [] = []
to_set (t ∷ ts) = if one_of t ts then to_set ts else t ∷ to_set ts

-- ProcessHppHeadersOption and ProcessExtensionsOption; `split` and `strip` raise no ValueError.
unfoldable pub process_hpp_headers_option : Text → Settings → Settings
unfolding to_set split strip
process_hpp_headers_option val s = record s { hpp_headers = to_set (map strip (split b',' val)) }

unfoldable pub process_extensions_option : Text → Settings → Settings
unfolding to_set split strip
process_extensions_option val s = record s {
  valid_extensions = to_set (map strip (split b',' val));
}

abbrev default_headers : List Text
default_headers =
    codes "h" ∷ codes "hh" ∷ codes "hpp" ∷ codes "hxx" ∷ codes "h++" ∷ codes "cuh" ∷ []

abbrev default_sources : List Text
default_sources = codes "c" ∷ codes "cc" ∷ codes "cpp" ∷ codes "cxx" ∷ codes "c++" ∷ codes "cu" ∷ []

-- `xs or ys` of two sets
abbrev or_else_set : List Text → List Text → List Text
or_else_set [] ys = ys
or_else_set (x ∷ xs) ys = x ∷ xs

abbrev with_h : List Text → List Text
with_h = keep_if (λ ext. any (λ c. c == b'h') ext)

-- GetHeaderExtensions
header_extensions_of : List Text → List Text → List Text
header_extensions_of (h ∷ hs) valid = h ∷ hs
header_extensions_of [] (v ∷ vs) = with_h (v ∷ vs)
header_extensions_of [] [] = default_headers

unfoldable pub get_header_extensions : Settings → List Text
unfolding header_extensions_of
get_header_extensions s = header_extensions_of s.hpp_headers s.valid_extensions

-- GetAllExtensions
unfoldable pub get_all_extensions : Settings → List Text
unfolding get_header_extensions one_of
get_all_extensions s =
    let headers = get_header_extensions s in
    headers
    ++ keep_if (λ ext. not (one_of ext headers)) (or_else_set s.valid_extensions default_sources)

-- GetNonHeaderExtensions
unfoldable pub get_non_header_extensions : Settings → List Text
unfolding get_all_extensions one_of
get_non_header_extensions s =
    keep_if (λ ext. not (one_of ext (get_header_extensions s))) (get_all_extensions s)

-- IsHeaderExtension and _IsSourceExtension
unfoldable pub is_header_extension : Settings → Text → Bool
unfolding get_header_extensions one_of
is_header_extension s ext = one_of ext (get_header_extensions s)

unfoldable pub is_source_extension : Settings → Text → Bool
unfolding get_non_header_extensions one_of
is_source_extension s ext = one_of ext (get_non_header_extensions s)
