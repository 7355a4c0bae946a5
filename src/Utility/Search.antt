-- ===== src/Utility/Search.antt =====
-- `find_first_of` of src/utility.c with its Boyer-Moore search, and `string_view_ctor` and
-- `string_view_dup` of src/string_view.c. A pointer into the text, or one byte in front of it, is its
-- offset plus one: `some k` is `str + k - 1`, and NULL is `none`.
pub mod First
pub mod Separator
mod Tests
use facebooc.Base.{
  ℕ, zero, suc, ◌+◌, ◌-◌, ◌≡◌, refl, Bool, true, false, not, ◌&&◌, Option, none, some, List, [],
  ◌∷◌, ◌++◌, Bytes, codes, length, get_or, take, ltb, leb, ◌==◌, if◌then◌else◌, strchr, Run, ok,
  fault, stuck, ◌>>=◌,
}
use mathlib.Core.Option
use Prim.Native.Nat.{max}

-- `badCharHeuristic`: the last place of the byte `c` in the pattern, where `last` is what is known of
-- the bytes before place `i`; `none` is -1. All bytes of the pattern are ASCII.
unfoldable pub bad_char : Bytes → ℕ → Option ℕ → ℕ → Option ℕ
bad_char [] i last c = last
bad_char (d ∷ pat) i last c = bad_char pat (i + 1) (if d == c then some i else last) c

-- The inner loop, down from `j - 1`: the last place where the pattern and the text at `s` differ.
unfoldable pub mismatch : ℕ → Bytes → Bytes → ℕ → Option ℕ
mismatch zero txt pat s = none
mismatch (suc j) txt pat s =
    let rest = mismatch j txt pat s in
    if get_or pat j 0 == get_or txt (s + j) 0 then rest else some j

-- `max(1, j - badchar[c])`
unfoldable pub shift_by : ℕ → Option ℕ → ℕ
shift_by j none = max 1 (j + 1)
shift_by j (some last) = max 1 (j - last)

-- The outer loop. A text byte of 128 or more is a negative `char`, and an index in front of `badchar`.
unfoldable pub search_loop : ℕ → Bytes → Bytes → ℕ → Run (Option ℕ)
search_loop zero txt pat s = stuck
search_loop (suc fuel) txt pat s =
    if leb s (length txt - length pat)
    then elim (mismatch (length pat) txt pat s) [
      | none ↦ ok (some s)
      | some j ↦
          let c = get_or txt (s + j) 0 in
          let rest = search_loop fuel txt pat (s + shift_by j (bad_char pat 0 none c)) in
          if ltb c 128 then rest else fault
    ]
    else ok none

-- A byte of 128 or more is a negative `char`.
unfoldable pub is_ascii : Bytes → Bool
is_ascii [] = true
is_ascii (c ∷ s) = ltb c 128 && is_ascii s

-- `boyer_moore`: for one byte the place that `strchr` finds, and else the byte in front of the match.
-- The loop is given one round for each byte of the text. A pattern of 128 bytes or more, whose places
-- do not fit a `char`, is left out, and a pattern with a byte of 128 or more is written in front of
-- `badchar`.
unfoldable pub boyer_moore : Bytes → Bytes → Run (Option ℕ)
boyer_moore txt pat =
    if length pat == 0
    then ok none
    else if ltb (length txt) (length pat)
    then ok none
    else if length pat == 1
    then ok (Option.map suc (strchr txt (get_or pat 0 0)))
    else if leb 128 (length pat)
    then fault
    else if not (is_ascii pat)
    then fault
    else search_loop (length txt + 1) txt pat 0

-- `find_first_of`
unfoldable pub find_first_of : Bytes → Bytes → Run (Option ℕ)
find_first_of [] delim = ok none
find_first_of (c ∷ str) delim = boyer_moore (c ∷ str) delim

-- A `string_view`: the text from `begin` on, and the size, where `none` is -1.
pub record StringView : Type 0 where
  pub begin : Bytes
  pub size : Option ℕ

-- `string_view_ctor`: `end` is one behind what `find_first_of` returns.
unfoldable pub string_view_ctor : Bytes → Bytes → Run StringView
string_view_ctor buf delim = do
  end ← find_first_of buf delim
  ok (record { begin = buf; size = end })

-- `string_view_dup`
unfoldable pub string_view_dup : StringView → Bytes
string_view_dup sv = elim sv.size [ none ↦ [] | some n ↦ take n sv.begin ]
