-- ===== src/Request/Tests.antt =====
-- Request lines of src/request.c at concrete texts.
use facebooc.Base.{List, [], map}
use facebooc.Handler.Pages.Login.{sid_cookies}
use facebooc.Http.Body.{body_parser}
use facebooc.Http.Cookies.{cookies_parser}
use facebooc.Http.Form.{Entry}
use facebooc.Http.Header.Read.{IsPlain, IsValue, wire, line_of, lower}
use facebooc.Request.{post, request_new, split_query_string}
use facebooc.Request.Whole.{request_text, request_new-request_text}
use facebooc.Utility.Search.First.{IsAscii}
use facebooc.Http.Cookies.{
  cookie_at, single_cookie_gen, cut_at, cookie_round, cookies_of, cookie_init,
}
use facebooc.Http.Body.{check_header, is_supported_type, body_decoded}
use facebooc.Base.{c_str, strchr}
use facebooc.Utility.Search.{
  is_ascii, string_view_dup, bad_char, mismatch, shift_by, search_loop, boyer_moore, find_first_of,
  string_view_ctor,
}
use facebooc.Http.Form.{make_pair, pair_lexer, query_loop, parse_decoded, query_parser, find_entry}
use facebooc.Http.Url.{
  int_size, plain, is_escape, urldecode2, count_percent, percent_counter, room_of, url_decoder,
}
use facebooc.Http.Header.{header_get, tolower, to_lower_case}
use facebooc.Base.{◌≡◌, refl, ap, true, some, ◌∷◌, ◌++◌, codes, length, streq, ok, fault, arith}
use facebooc.Http.Header.{is_space}
use facebooc.Request.{get, set_method, find_method, is_version, parse_request_line}
use facebooc.Request.Line.{parse_request_line-fault}

get_known : set_method (codes "GET") ≡ some get
unfolding set_method find_method streq
get_known = refl

version_known : is_version (codes "HTTP/1.1") ≡ true
unfolding is_version streq
version_known = refl

parse_request_line-fault_example :
    parse_request_line (codes "PROPPATCH" ++ 32 ∷ (codes "/" ++ 32 ∷ codes "HTTP/1.1")) ≡ fault
unfolding is_space
parse_request_line-fault_example =
    parse_request_line-fault (codes "PROPPATCH") (codes "/") (codes "HTTP/1.1")
      ((λ e. omega (arith, ap length e)), ground arith) (omega arith) (ground arith)

abbrev form_type : Entry
form_type = record { key = codes "Content-Type"; value = codes "application/x-www-form-urlencoded" }

abbrev sid_header : Entry
sid_header = record { key = codes "Cookie"; value = codes "sid=5" }

abbrev both : List Entry
both = form_type ∷ sid_header ∷ []

form_type-IsPlain : IsPlain form_type
unfolding IsValue is_space
form_type-IsPlain =
    ((λ e. omega (arith, ap length e)), ground arith, ground arith, refl, ground arith)

sid_header-IsPlain : IsPlain sid_header
unfolding IsValue is_space
sid_header-IsPlain =
    ((λ e. omega (arith, ap length e)), ground arith, ground arith, refl, ground arith)

behind-IsAscii : IsAscii (wire both (b'\r' ∷ b'\n' ∷ codes "post=hi"))
unfolding wire line_of
behind-IsAscii = ground arith

posts : set_method (codes "POST") ≡ some post
unfolding set_method find_method streq
posts = refl

-- The parts of the request, each read by its parser.
parts :
    (split_query_string (codes "/post/?r=1")
      ≡ ok (codes "/post/", some (record { key = codes "r"; value = codes "1" } ∷ [])))
    × (cookies_parser (some (map lower both)) ≡ ok (some (sid_cookies (codes "5"))))
    × (body_parser (some (map lower both)) (codes "post=hi")
        ≡ ok (some (record { key = codes "post"; value = codes "hi" } ∷ [])))
unfolding split_query_string cookies_parser body_parser c_str strchr string_view_dup make_pair
    pair_lexer query_loop parse_decoded query_parser find_entry plain is_escape urldecode2
    count_percent percent_counter room_of int_size url_decoder header_get streq bad_char mismatch
    shift_by search_loop boyer_moore find_first_of string_view_ctor is_ascii cookie_at
    single_cookie_gen cut_at cookie_round cookies_of cookie_init check_header tolower to_lower_case
    lower is_supported_type body_decoded
parts = (refl, refl, refl)

request_new-request_text_example :
    request_new
      (request_text (codes "POST") (codes "/post/?r=1") (codes "HTTP/1.1") both (codes "post=hi"))
    ≡ ok (
        some (record {
          method = post;
          path = codes "/post/?r=1";
          uri = codes "/post/";
          query_string = some (record { key = codes "r"; value = codes "1" } ∷ []);
          post_body = some (record { key = codes "post"; value = codes "hi" } ∷ []);
          headers = some (map lower both);
          cookies = some (sid_cookies (codes "5"));
        }))
unfolding is_space
request_new-request_text_example =
    request_new-request_text (codes "POST") (codes "/post/?r=1") (codes "HTTP/1.1") post both
      (codes "post=hi") posts version_known ((λ e. omega (arith, ap length e)), ground arith)
      ((λ e. omega (arith, ap length e)), ground arith)
      ((λ e. omega (arith, ap length e)), ground arith) (omega arith) (omega arith)
      (form_type-IsPlain, (sid_header-IsPlain, tt)) behind-IsAscii (codes "/post/")
      (some (record { key = codes "r"; value = codes "1" } ∷ [])) (some (sid_cookies (codes "5")))
      (some (record { key = codes "post"; value = codes "hi" } ∷ [])) parts.0 parts.1 parts.2
