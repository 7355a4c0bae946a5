-- ===== src/Http/Header/Tests.antt =====
-- The headers of src/http/header.c at concrete texts.
use facebooc.Base.{◌+◌, ◌≡◌, refl, [], ◌∷◌, codes, length, replicate, ok, arith, ap, map}
use facebooc.Http.Form.{Entry}
use facebooc.Http.Header.{header_parser, is_space}
use facebooc.Http.Header.Read.{IsPlain, IsValue, wire, line_of, lower, header_parser-wire}
use facebooc.Utility.Search.First.{IsAscii}

abbrev location : Entry
location = record { key = codes "Location"; value = codes "/login/" }

abbrev wide : Entry
wide = record { key = codes "Location"; value = replicate 5000 b'a' }

abbrev host : Entry
host = record { key = codes "Host"; value = codes "localhost" }

abbrev agent : Entry
agent = record { key = codes "User-Agent"; value = codes "curl" }

host-IsPlain : IsPlain host
unfolding IsValue is_space
host-IsPlain = ((λ e. omega (arith, ap length e)), ground arith, ground arith, refl, ground arith)

agent-IsPlain : IsPlain agent
unfolding IsValue is_space
agent-IsPlain = ((λ e. omega (arith, ap length e)), ground arith, ground arith, refl, ground arith)

two-IsAscii : IsAscii (wire (host ∷ agent ∷ []) (b'\r' ∷ b'\n' ∷ codes "a=1"))
unfolding wire line_of
two-IsAscii = ground arith

header_parser-wire_example :
    header_parser (wire (host ∷ agent ∷ []) (b'\r' ∷ b'\n' ∷ codes "a=1"))
    ≡ ok (map lower (host ∷ agent ∷ []), length (wire (host ∷ agent ∷ []) []) + 2)
header_parser-wire_example =
    header_parser-wire (host ∷ agent ∷ []) (codes "a=1") (host-IsPlain, (agent-IsPlain, tt))
      two-IsAscii
