-- ===== src/Template/Tests.antt =====
-- The renderer of src/template.c on concrete files.
use facebooc.Base.{
  ◌≡◌, refl, Option, some, [], ◌∷◌, ◌++◌, Bytes, codes, c_str, set, streq, if◌then◌else◌, ok, fault,
  arith, IsCStr,
}
use facebooc.BasicString.{whole, new, append, append_raw}
use facebooc.HashMap.{HashMap, hash_key, get_index, hash_map_new, hash_map_get, get_loop}
use facebooc.HashMap.Blank.{blank}
use facebooc.HashMap.New.{new-IsValid}
use facebooc.Template.{
  readfile, skip, token, strtok, without_last, begins, include_piece, expression, piece, put_piece,
  put_text, render_loop, render,
}
use facebooc.Template.Fill.{Part, IsPart, chain, filled, render-filled}
use facebooc.Template.Ends.{Ends, render_loop-Ends}

-- The context with the one key `active`, as Hash_map_insert_move makes it.
abbrev context : HashMap Bytes
context = record {
  entries =
      set (blank Bytes 64) 47
        (some (record { addr = 1; key = codes "active"; value = codes "home" }));
  cap = 64;
  len = 1;
}

abbrev home_part : Part
home_part = record { key = codes "active"; value = some (codes "home"); text = codes "!" }

-- One file with one placeholder.
abbrev files : Bytes → Option Bytes
files name = some (codes "at {{active}}!\n")

active_known : hash_map_get context (codes "active") ≡ ok (some (codes "home"))
unfolding hash_map_get get_loop get_index hash_key streq
active_known = refl

home_part-IsPart : IsPart context home_part
home_part-IsPart = record { closes = ground arith; opens = ground arith; known = active_known }

text-IsCStr : IsCStr (codes "at " ++ chain (home_part ∷ []))
unfolding chain
text-IsCStr = ground arith

content : files (codes "page") ≡ some (codes "at " ++ chain (home_part ∷ []) ++ b'\n' ∷ [])
unfolding chain
content = refl

render-filled_example :
    render 1 files context (codes "page")
    ≡ ok (some (whole (codes "at " ++ filled (home_part ∷ []))))
render-filled_example =
    render-filled files context 0 (codes "page") (codes "at ") (home_part ∷ []) b'\n' content
      text-IsCStr (ground arith) (home_part-IsPart, tt)

render_loop-Ends_example :
    Ends (render_loop (λ f. ok (some new)) hash_map_new 20 (codes "{active}}!") (some new))
render_loop-Ends_example =
    render_loop-Ends hash_map_new ((new-IsValid Bytes).0) (λ f. ok (some new)) (λ f. tt) 20
      (codes "{active}}!") (some new) (omega arith)

-- What stands between single braces is lost.
braces_lose :
    render 1 (λ f. some (codes "a {b} c\n")) hash_map_new (codes "page")
    ≡ ok (some (whole (codes "a {} c")))
unfolding render readfile strtok skip token render_loop piece put_piece put_text new append_raw
    c_str
braces_lose = refl

-- A file inside a file: the byte behind the directive is lost.
nested_file : Bytes → Option Bytes
nested_file name =
    if streq name (codes "in") then some (codes "x\n") else some (codes "<{%include in%}>\n")

include_loses : render 2 nested_file hash_map_new (codes "out") ≡ ok (some (whole (codes "<x")))
unfolding render readfile strtok skip token render_loop piece put_piece put_text new append
    append_raw c_str nested_file streq begins expression include_piece without_last
include_loses = refl

empty_file : render 1 (λ f. some []) hash_map_new (codes "page") ≡ fault
unfolding render readfile strtok skip c_str
empty_file = refl
