-- ===== src/Site/Tests.antt =====
-- A run of the site on a database in memory.
use facebooc.Base.{All, Gives, ◌≡◌, refl, Bytes, codes, some, none, false, List, [], ◌∷◌, ok}
use facebooc.Base.Int.{pos}
use facebooc.Database.Tables.{Tables}
use facebooc.BasicString.{whole}
use facebooc.Handler.Pages.{Outside}
use facebooc.Handler.Pages.Login.{sid_cookies}
use facebooc.Request.{Request, post}
use facebooc.Models.Account.{Account}
use facebooc.Models.Memory.{memory}
use facebooc.Server.{Event, accepted, accept_failed, eagain, readable, again, bytes, Served}
use facebooc.Models.Memory.Laws.{memory-IsReading, memory-IsWriting}
use facebooc.Site.Actions.{Allowed}
use facebooc.Site.Reach.{site_handlers-Step, site_run-IsSound}
use facebooc.Site.Session.{site_run-get_account}
use facebooc.Site.Sound.{IsSound}
use facebooc.Site.{World, site_run, answered, site_handlers}
use facebooc.Request.{
  parse_request_line, request_new, find_method, set_method, to_space, get_uri_len, skip_space, word,
  text_at, scan_word, is_version, checked_version, checked_line, split_query_string, request_of,
}
use facebooc.Server.{
  server_new, server_add_handler, add_handlers, handler_table, fb_new, handle_bytes, handle,
  server_serve, fetch_dir, read_dir, uri_path, set_callback, or_default, route, answer, tolerated,
}
use facebooc.HashMap.{
  hash_key, get_index, hash_map_new, move_loop, move_entry, make_room, hash_map_insert_move,
  get_loop, hash_map_get,
}
use facebooc.Base.{streq, strchr, c_str}
use facebooc.Http.Header.{
  is_space, header_loop, header_parser, header_new, header_entry, header_line, is_zero, size_of,
  header_get, tolower, to_lower_case, strip_head_spaces, header_to_string, header_insert,
  to_string_loop, header_insert_move, header_entry_to_string,
}
use facebooc.Utility.Search.{
  is_ascii, bad_char, mismatch, shift_by, search_loop, boyer_moore, find_first_of, string_view_ctor,
  string_view_dup,
}
use facebooc.Http.Cookies.{
  cookies_parser, single_cookie_init, cookie_init, cookie_text, cookie_to_string, av_text, put_attr,
  cookie_set_attr, cookie_at, single_cookie_gen, cut_at, cookie_round, cookies_of, find_cookie,
  cookies_get,
}
use facebooc.Http.Form.{make_pair, find_entry, pair_lexer, query_loop}
use facebooc.Http.Body.{is_supported_type, check_header, body_decoded, body_parser, body_get}
use facebooc.Http.Url.{
  int_size, plain, is_escape, urldecode2, count_percent, percent_counter, room_of, url_decoder,
}
use facebooc.Template.{template_new, template_set}
use facebooc.Handler.Actions.{is_post, post_handler, post_text}
use facebooc.Handler.Account.{get_account, set_all}
use facebooc.Handler.Pages.{
  check_pairs, signup_post, signup_handler, field, form_of, login_fields, login_post, login_handler,
  add_sid, session_response, logged_in, logout_handler,
}
use facebooc.BasicString.{init}
use facebooc.Database.{bind_all, execute, text_value, value_at, int_value}
use facebooc.Models.Account.{
  encoded, no_row, account_check_username, account_check_email, account_of_rows,
  account_get_by_email, account_stored, account_create, decoded, account_from_db, account_of_row,
  stored_hash, account_auth, account_of_id, account_select, account_get_by_sid, account_new_move,
}
use facebooc.Models.Memory.{run_memory}
use facebooc.Models.Sql.{select, any}
use facebooc.Handler.Signup.{
  check_name, check_email, check_username, check_password, checks, check_confirm, valid_after,
  registers,
}
use facebooc.Base64.{
  symbol, symbols_of, encode_triples, byte_back, encode_rest, base64_encode, pad, value_of,
  decode_groups, char_back, decode_rest, padding_in, decoded_to, decode_padded, base64_decode2str,
  bytes_of,
}
use facebooc.Response.{
  response_add_header, response_new_redirect, response_write, response_new, response_set_status,
  sent_body, response_add_header_move, response_add_cookie, status_line, status_text, digits,
  reason, at, phrase, send, sent_header,
}
use facebooc.Models.Session.{
  session_stored, session_insert, login_id, session_create, session_new, session_of,
  session_get_by_sid,
}
use facebooc.Utility.Digest.{hex2, hex_digits, sha256_string}
use facebooc.Models.Post.{post_create_move, body_value}
use facebooc.Utility.Escape.{html_escape_trans, count_keys, is_key, escape_of, write_escapes}

abbrev outside : Outside
outside = record {
  files = λ name. none;
  depth = 8;
  digest = λ s. s;
  now = pos 7;
  sid = codes "5";
  expires_later = codes "L";
  expires_before = codes "B";
}

abbrev world : World
world = record {
  out = outside;
  stamp = λ t. [];
  get_static_file = λ name. none;
  content_len = λ n. [];
}

abbrev empty : Tables
empty = record { accounts = []; sessions = []; connections = []; posts = []; likes = [] }

abbrev signs_up : Bytes
signs_up =
    codes
      "POST /signup/ HTTP/1.1\r\nContent-Type: application/x-www-form-urlencoded\r\n\r\nname=Adaa&email=a@x.org&username=ada&password=secret12&confirm-password=secret12"

abbrev logs_in : Bytes
logs_in =
    codes
      "POST /login/ HTTP/1.1\r\nContent-Type: application/x-www-form-urlencoded\r\n\r\nusername=ada&password=secret12"

abbrev posts : Bytes
posts =
    codes
      "POST /post/ HTTP/1.1\r\nContent-Type: application/x-www-form-urlencoded\r\nCookie: sid=5\r\n\r\npost=<b>"

abbrev events : List (Event World)
events =
    accepted
    ∷ readable world (λ i. 65536) (bytes signs_up)
    ∷ readable world (λ i. 65536) (bytes logs_in)
    ∷ readable world (λ i. 65536) (bytes posts)
    ∷ accept_failed eagain
    ∷ []

abbrev served : Served Tables
served = record {
  db = record {
    accounts =
        record {
          id = pos 1;
          created_at = pos 7;
          name = codes "QWRhYQ==";
          username = codes "YWRh";
          email = codes "YUB4Lm9yZw==";
          password = codes "7365637265743132";
        }
        ∷ [];
    sessions = record { id = pos 1; created_at = pos 7; account = pos 1; session = codes "5" } ∷ [];
    connections = [];
    posts =
        record { id = pos 1; created_at = pos 7; author = pos 1; body = codes "&#60;b&#62;" } ∷ [];
    likes = [];
  };
  sent =
      codes "HTTP/1.0 302 Found\r\nLocation: /login/\r\n\r\n"
      ∷ codes
          "HTTP/1.0 302 Found\r\nSet-Cookie: sid=5; Expires=L; Path=/\r\nLocation: /dashboard/\r\n\r\n"
      ∷ codes "HTTP/1.0 302 Found\r\nLocation: /dashboard/\r\n\r\n"
      ∷ [];
  exited = false;
}

abbrev logs_out : List (Event World)
logs_out =
    readable world (λ i. 65536) (bytes (codes "GET /logout/ HTTP/1.1\r\nCookie: sid=5\r\n\r\n"))
    ∷ readable world (λ i. 65536) again
    ∷ []

abbrev logged_out : Served Tables
logged_out = record {
  db = served.db;
  sent =
      codes "HTTP/1.0 302 Found\r\nLocation: /\r\nSet-Cookie: sid=; Expires=B; Path=/\r\n\r\n"
      ∷ []
      ∷ [];
  exited = false;
}

abbrev adaa : Account
adaa = record {
  id = pos 1;
  created_at = pos 7;
  name = whole (codes "Adaa");
  email = whole (codes "a@x.org");
  username = whole (codes "ada");
}

-- A user signs up, logs in and posts; then the user logs out, and the cookie stands for the user.
runs :
    (site_run memory empty events ≡ ok served)
    × (site_run memory served.db logs_out ≡ ok logged_out)
    × (get_account memory served.db (some (sid_cookies (codes "5"))) ≡ ok (some adaa))
unfolding site_run int_size is_ascii at phrase send read_dir uri_path text_at decoded_to
    parse_request_line request_new server_new server_add_handler add_handlers handler_table fb_new
    handle_bytes handle server_serve hash_key get_index hash_map_new move_loop move_entry make_room
    hash_map_insert_move find_method set_method to_space get_uri_len skip_space word scan_word
    is_version checked_version checked_line split_query_string request_of streq strchr is_space
    header_loop header_parser bad_char mismatch shift_by search_loop boyer_moore find_first_of
    string_view_ctor string_view_dup cookies_parser make_pair find_entry header_new header_entry
    header_line is_zero size_of header_get c_str is_supported_type check_header body_decoded
    body_parser pair_lexer query_loop plain is_escape urldecode2 count_percent percent_counter
    room_of url_decoder tolower to_lower_case strip_head_spaces answered site_handlers template_new
    template_set fetch_dir set_callback or_default route answer get_loop hash_map_get is_post
    get_account set_all check_pairs signup_post signup_handler init bind_all execute encoded no_row
    account_check_username account_check_email run_memory select body_get field form_of check_name
    check_email check_username check_password checks symbol symbols_of encode_triples byte_back
    encode_rest base64_encode account_of_rows account_get_by_email account_stored account_create any
    check_confirm valid_after registers response_add_header response_new_redirect response_write
    text_value value_at pad value_of decode_groups char_back decode_rest padding_in decode_padded
    base64_decode2str decoded account_from_db account_of_row header_to_string response_new
    response_set_status sent_body stored_hash account_auth session_stored session_insert login_id
    session_create hex2 hex_digits sha256_string header_insert to_string_loop login_fields
    login_post login_handler response_add_header_move response_add_cookie session_new session_of
    session_get_by_sid single_cookie_init cookie_init cookie_text cookie_to_string av_text put_attr
    cookie_set_attr header_insert_move header_entry_to_string add_sid session_response logged_in
    int_value tolerated account_of_id account_select account_get_by_sid cookie_at single_cookie_gen
    cut_at cookie_round cookies_of find_cookie cookies_get post_handler status_line post_text
    status_text post_create_move digits body_value reason html_escape_trans sent_header count_keys
    is_key account_new_move escape_of write_escapes logout_handler bytes_of
runs = (refl, refl, refl)

empty-IsSound : IsSound empty
empty-IsSound = record {
  emails = tt;
  ids = tt;
  sessions = tt;
  connections = tt;
  posts = tt;
  likes = tt;
}

site_run-IsSound_example : IsSound served.db
site_run-IsSound_example =
    site_run-IsSound memory (λ t. t) memory-IsReading memory-IsWriting empty events served
      empty-IsSound runs.0

site_run-get_account_example :
    get_account memory served.db (some (sid_cookies (codes "5"))) ≡ ok (some adaa)
site_run-get_account_example =
    site_run-get_account memory (λ t. t) memory-IsReading memory-IsWriting served.db logs_out
      logged_out (some (sid_cookies (codes "5"))) adaa site_run-IsSound_example runs.1 runs.2

abbrev post_request : Request
post_request = record {
  method = post;
  path = codes "/post/";
  uri = codes "/post/";
  query_string = none;
  post_body = some (record { key = codes "post"; value = codes "<i>" } ∷ []);
  headers = none;
  cookies = some (sid_cookies (codes "5"));
}

site_handlers-Step_example :
    All
      (λ (name, func).
        Gives (Allowed memory (λ t. t) served.db post_request) (func world served.db post_request))
      (handler_table (site_handlers memory))
site_handlers-Step_example =
    site_handlers-Step memory (λ t. t) memory-IsReading memory-IsWriting served.db post_request
      world site_run-IsSound_example
