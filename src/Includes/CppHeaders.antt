-- ===== src/Includes/CppHeaders.antt =====
-- `_CPP_HEADERS` of build_support/cpplint.py.
use nwtool.Base.{Text, txt, List, [], ◌∷◌}

abbrev pub cpp_headers : List Text
cpp_headers =
    txt "algobase.h"
    ∷ txt "algo.h"
    ∷ txt "alloc.h"
    ∷ txt "builtinbuf.h"
    ∷ txt "bvector.h"
    ∷ txt "complex.h"
    ∷ txt "defalloc.h"
    ∷ txt "deque.h"
    ∷ txt "editbuf.h"
    ∷ txt "fstream.h"
    ∷ txt "function.h"
    ∷ txt "hash_map"
    ∷ txt "hash_map.h"
    ∷ txt "hash_set"
    ∷ txt "hash_set.h"
    ∷ txt "hashtable.h"
    ∷ txt "heap.h"
    ∷ txt "indstream.h"
    ∷ txt "iomanip.h"
    ∷ txt "iostream.h"
    ∷ txt "istream.h"
    ∷ txt "iterator.h"
    ∷ txt "list.h"
    ∷ txt "map.h"
    ∷ txt "multimap.h"
    ∷ txt "multiset.h"
    ∷ txt "ostream.h"
    ∷ txt "pair.h"
    ∷ txt "parsestream.h"
    ∷ txt "pfstream.h"
    ∷ txt "procbuf.h"
    ∷ txt "pthread_alloc"
    ∷ txt "pthread_alloc.h"
    ∷ txt "rope"
    ∷ txt "rope.h"
    ∷ txt "ropeimpl.h"
    ∷ txt "set.h"
    ∷ txt "slist"
    ∷ txt "slist.h"
    ∷ txt "stack.h"
    ∷ txt "stdiostream.h"
    ∷ txt "stl_alloc.h"
    ∷ txt "stl_relops.h"
    ∷ txt "streambuf.h"
    ∷ txt "stream.h"
    ∷ txt "strfile.h"
    ∷ txt "strstream.h"
    ∷ txt "tempbuf.h"
    ∷ txt "tree.h"
    ∷ txt "type_traits.h"
    ∷ txt "vector.h"
    ∷ txt "algorithm"
    ∷ txt "array"
    ∷ txt "atomic"
    ∷ txt "bitset"
    ∷ txt "chrono"
    ∷ txt "codecvt"
    ∷ txt "complex"
    ∷ txt "condition_variable"
    ∷ txt "deque"
    ∷ txt "exception"
    ∷ txt "forward_list"
    ∷ txt "fstream"
    ∷ txt "functional"
    ∷ txt "future"
    ∷ txt "initializer_list"
    ∷ txt "iomanip"
    ∷ txt "ios"
    ∷ txt "iosfwd"
    ∷ txt "iostream"
    ∷ txt "istream"
    ∷ txt "iterator"
    ∷ txt "limits"
    ∷ txt "list"
    ∷ txt "locale"
    ∷ txt "map"
    ∷ txt "memory"
    ∷ txt "mutex"
    ∷ txt "new"
    ∷ txt "numeric"
    ∷ txt "ostream"
    ∷ txt "queue"
    ∷ txt "random"
    ∷ txt "ratio"
    ∷ txt "regex"
    ∷ txt "scoped_allocator"
    ∷ txt "set"
    ∷ txt "sstream"
    ∷ txt "stack"
    ∷ txt "stdexcept"
    ∷ txt "streambuf"
    ∷ txt "string"
    ∷ txt "strstream"
    ∷ txt "system_error"
    ∷ txt "thread"
    ∷ txt "tuple"
    ∷ txt "typeindex"
    ∷ txt "typeinfo"
    ∷ txt "type_traits"
    ∷ txt "unordered_map"
    ∷ txt "unordered_set"
    ∷ txt "utility"
    ∷ txt "valarray"
    ∷ txt "vector"
    ∷ txt "shared_mutex"
    ∷ txt "any"
    ∷ txt "charconv"
    ∷ txt "codecvt"
    ∷ txt "execution"
    ∷ txt "filesystem"
    ∷ txt "memory_resource"
    ∷ txt "optional"
    ∷ txt "string_view"
    ∷ txt "variant"
    ∷ txt "cassert"
    ∷ txt "ccomplex"
    ∷ txt "cctype"
    ∷ txt "cerrno"
    ∷ txt "cfenv"
    ∷ txt "cfloat"
    ∷ txt "cinttypes"
    ∷ txt "ciso646"
    ∷ txt "climits"
    ∷ txt "clocale"
    ∷ txt "cmath"
    ∷ txt "csetjmp"
    ∷ txt "csignal"
    ∷ txt "cstdalign"
    ∷ txt "cstdarg"
    ∷ txt "cstdbool"
    ∷ txt "cstddef"
    ∷ txt "cstdint"
    ∷ txt "cstdio"
    ∷ txt "cstdlib"
    ∷ txt "cstring"
    ∷ txt "ctgmath"
    ∷ txt "ctime"
    ∷ txt "cuchar"
    ∷ txt "cwchar"
    ∷ txt "cwctype"
    ∷ []
