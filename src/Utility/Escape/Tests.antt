-- ===== src/Utility/Escape/Tests.antt =====
-- The escapes of src/utility.c at concrete texts.
use facebooc.Base.{◌≡◌, some, codes, arith, Lacks, All}
use facebooc.BasicString.{whole}
use facebooc.Utility.Escape.{newline_to_br, write_breaks, write_escapes, html_escape_trans}
use facebooc.Utility.Escape.Output.{newline_to_br-Lacks, html_escape_trans-IsSafe, IsSafe}

newline_to_br-Lacks_example :
    (newline_to_br (some (whole (codes "a\nb"))) ≡ some (whole (write_breaks (codes "a\nb"))))
    × Lacks b'\n' (write_breaks (codes "a\nb"))
newline_to_br-Lacks_example = newline_to_br-Lacks (codes "a\nb") (ground arith)

html_escape_trans-IsSafe_example :
    (html_escape_trans (some (whole (codes "<b>"))) ≡ some (whole (write_escapes (codes "<b>"))))
    × All IsSafe (write_escapes (codes "<b>"))
html_escape_trans-IsSafe_example = html_escape_trans-IsSafe (codes "<b>") (omega arith)
