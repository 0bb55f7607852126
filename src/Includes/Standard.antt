-- ===== src/Includes/Standard.antt =====
-- _CPP_HEADERS of scripts/tools/cpplint.py.
use deft_rpc.Base.{List, [], ◌∷◌}
use deft_rpc.Text.{Text, codes}

abbrev pub cpp_headers : List Text
cpp_headers =
    codes "algobase.h"
    ∷ codes "algo.h"
    ∷ codes "alloc.h"
    ∷ codes "builtinbuf.h"
    ∷ codes "bvector.h"
    ∷ codes "complex.h"
    ∷ codes "defalloc.h"
    ∷ codes "deque.h"
    ∷ codes "editbuf.h"
    ∷ codes "fstream.h"
    ∷ codes "function.h"
    ∷ codes "hash_map"
    ∷ codes "hash_map.h"
    ∷ codes "hash_set"
    ∷ codes "hash_set.h"
    ∷ codes "hashtable.h"
    ∷ codes "heap.h"
    ∷ codes "indstream.h"
    ∷ codes "iomanip.h"
    ∷ codes "iostream.h"
    ∷ codes "istream.h"
    ∷ codes "iterator.h"
    ∷ codes "list.h"
    ∷ codes "map.h"
    ∷ codes "multimap.h"
    ∷ codes "multiset.h"
    ∷ codes "ostream.h"
    ∷ codes "pair.h"
    ∷ codes "parsestream.h"
    ∷ codes "pfstream.h"
    ∷ codes "procbuf.h"
    ∷ codes "pthread_alloc"
    ∷ codes "pthread_alloc.h"
    ∷ codes "rope"
    ∷ codes "rope.h"
    ∷ codes "ropeimpl.h"
    ∷ codes "set.h"
    ∷ codes "slist"
    ∷ codes "slist.h"
    ∷ codes "stack.h"
    ∷ codes "stdiostream.h"
    ∷ codes "stl_alloc.h"
    ∷ codes "stl_relops.h"
    ∷ codes "streambuf.h"
    ∷ codes "stream.h"
    ∷ codes "strfile.h"
    ∷ codes "strstream.h"
    ∷ codes "tempbuf.h"
    ∷ codes "tree.h"
    ∷ codes "type_traits.h"
    ∷ codes "vector.h"
    ∷ codes "algorithm"
    ∷ codes "array"
    ∷ codes "atomic"
    ∷ codes "bitset"
    ∷ codes "chrono"
    ∷ codes "codecvt"
    ∷ codes "complex"
    ∷ codes "condition_variable"
    ∷ codes "deque"
    ∷ codes "exception"
    ∷ codes "forward_list"
    ∷ codes "fstream"
    ∷ codes "functional"
    ∷ codes "future"
    ∷ codes "initializer_list"
    ∷ codes "iomanip"
    ∷ codes "ios"
    ∷ codes "iosfwd"
    ∷ codes "iostream"
    ∷ codes "istream"
    ∷ codes "iterator"
    ∷ codes "limits"
    ∷ codes "list"
    ∷ codes "locale"
    ∷ codes "map"
    ∷ codes "memory"
    ∷ codes "mutex"
    ∷ codes "new"
    ∷ codes "numeric"
    ∷ codes "ostream"
    ∷ codes "queue"
    ∷ codes "random"
    ∷ codes "ratio"
    ∷ codes "regex"
    ∷ codes "scoped_allocator"
    ∷ codes "set"
    ∷ codes "sstream"
    ∷ codes "stack"
    ∷ codes "stdexcept"
    ∷ codes "streambuf"
    ∷ codes "string"
    ∷ codes "strstream"
    ∷ codes "system_error"
    ∷ codes "thread"
    ∷ codes "tuple"
    ∷ codes "typeindex"
    ∷ codes "typeinfo"
    ∷ codes "type_traits"
    ∷ codes "unordered_map"
    ∷ codes "unordered_set"
    ∷ codes "utility"
    ∷ codes "valarray"
    ∷ codes "vector"
    ∷ codes "shared_mutex"
    ∷ codes "any"
    ∷ codes "charconv"
    ∷ codes "codecvt"
    ∷ codes "execution"
    ∷ codes "filesystem"
    ∷ codes "memory_resource"
    ∷ codes "optional"
    ∷ codes "string_view"
    ∷ codes "variant"
    ∷ codes "cassert"
    ∷ codes "ccomplex"
    ∷ codes "cctype"
    ∷ codes "cerrno"
    ∷ codes "cfenv"
    ∷ codes "cfloat"
    ∷ codes "cinttypes"
    ∷ codes "ciso646"
    ∷ codes "climits"
    ∷ codes "clocale"
    ∷ codes "cmath"
    ∷ codes "csetjmp"
    ∷ codes "csignal"
    ∷ codes "cstdalign"
    ∷ codes "cstdarg"
    ∷ codes "cstdbool"
    ∷ codes "cstddef"
    ∷ codes "cstdint"
    ∷ codes "cstdio"
    ∷ codes "cstdlib"
    ∷ codes "cstring"
    ∷ codes "ctgmath"
    ∷ codes "ctime"
    ∷ codes "cuchar"
    ∷ codes "cwchar"
    ∷ codes "cwctype"
    ∷ []
