-- ===== src/Utility/Search/Tests.antt =====
-- The search of src/utility.c in a header line.
use facebooc.Base.{ℕ, ◌≡◌, Option, codes, ok, arith}
use facebooc.Utility.Search.{boyer_moore}
use facebooc.Utility.Search.First.{IsFirst, boyer_moore-IsFirst}

boyer_moore-IsFirst_example :
    (o : Option ℕ) × (boyer_moore (codes "Host: a\r\nAge: 1") (codes "\r\n") ≡ ok o)
    × IsFirst (codes "Host: a\r\nAge: 1") (codes "\r\n") o
boyer_moore-IsFirst_example =
    boyer_moore-IsFirst (codes "Host: a\r\nAge: 1") (codes "\r\n") (ground arith) (ground arith)
      (omega arith) (omega arith)
