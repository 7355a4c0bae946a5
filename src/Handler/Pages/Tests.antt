-- ===== src/Handler/Pages/Tests.antt =====
-- The handlers on a database in memory.
use facebooc.Base.{
  strchr, ◌+◌, ◌≤◌, c_str, length, ltb, if◌then◌else◌, fault, arith, ◌≡◌, refl, true, false, none,
  some, Bytes, codes, set, streq, ok, Run, stuck, List, ◌∷◌, ◌++◌, map, [],
}
use facebooc.Base.Int.{pos}
use facebooc.BasicString.{whole}
use facebooc.HashMap.{
  hash_key, get_index, hash_map_new, hash_map_insert_move, make_room, move_entry, move_loop, holds,
  next_index,
}
use facebooc.HashMap.Blank.{blank}
use facebooc.Utility.Digest.{sha256_string, hex_digits, hex2}
use facebooc.Database.Tables.{Tables}
use facebooc.Models.Account.{Account}
use facebooc.Models.Account.Users.{has_email, row_of, User, account_of, knows}
use facebooc.Models.Session.Reading.{with_credentials}
use facebooc.Models.Sql.{any, select}
use facebooc.Models.Sql.First.{first}
use facebooc.Models.Memory.{memory}
use facebooc.Models.Memory.Laws.{memory-IsReading, memory-IsWriting}
use facebooc.Models.Fixtures.{digest, users, db, held, stored, ada-IsText, bob-IsText, name-IsText}
use facebooc.Response.{Response, response_new_redirect}
use facebooc.Template.{Template, template_new, template_set}
use facebooc.Handler.Account.{get_account, set_all, decimal, decimal_loop}
use facebooc.Handler.Markup.{snprintf, search_entry}
use facebooc.Handler.Markup.Room.{result_line, search_entry-room}
use facebooc.Handler.Pages.{Outside, login_fields, login_post, check_pairs, signup_post}
use facebooc.Handler.Signup.{
  Form, checks, check_name, check_email, check_username, check_password, check_confirm,
}
use facebooc.Handler.Pages.Signup.{sent_form, signup_post-registers}
use facebooc.Models.Account.{account_check_email, account_check_username, no_row, encoded}
use facebooc.Database.{execute, bind_all}
use facebooc.Models.Memory.{run_memory}
use facebooc.Base64.{base64_encode, encode_triples, symbols_of, symbol, encode_rest}
use facebooc.Models.Account.Reading.{IsStored}
use facebooc.Models.Account.Writing.{new_user}
use facebooc.Handler.Pages.Login.{sid_cookies, login_post-get_account}

abbrev outside : Outside
outside = record {
  files = λ name. none;
  depth = 1;
  digest = digest;
  now = pos 300;
  sid = codes "s1";
  expires_later = codes "later";
  expires_before = codes "before";
}

s1_unused : any (λ r. streq r.session (codes "s1")) db.sessions ≡ false
unfolding any
s1_unused = refl

ada_knows : knows (codes "ada") (sha256_string digest (whole (codes "key"))) users ≡ true
unfolding knows first sha256_string hex_digits hex2 streq
ada_knows = refl

abbrev page : Template
page = template_new (codes "templates/login.html")

abbrev filled_page : Template
filled_page = record {
  filename = codes "templates/login.html";
  context = record {
    entries =
        set (blank Bytes 64) (get_index 64 (codes "formUsername"))
          (some (record { addr = 3; key = codes "formUsername"; value = codes "ada" }));
    cap = 64;
    len = 1;
  };
}

page_filled :
    set_all page 3 (login_fields (whole (codes "ada")) (whole (codes "key"))) ≡ ok filled_page
unfolding set_all login_fields template_new template_set hash_map_new hash_map_insert_move make_room
    move_entry move_loop get_index hash_key holds next_index
page_filled = refl

login_post-get_account_example :
    (u : User) × (with_credentials (codes "ada") (sha256_string digest (whole (codes "key"))) users
      ≡ some u)
    × (db' : Tables) × (response : Response) × (login_post memory outside db page
          (whole (codes "ada"))
          (whole (codes "key"))
        ≡ ok (db', response))
    × (response.status ≡ 302)
    × (get_account memory db' (some (sid_cookies (codes "s1"))) ≡ ok (some (account_of u)))
login_post-get_account_example =
    login_post-get_account memory (λ t. t) memory-IsReading memory-IsWriting db users outside
      (codes "ada") (codes "key") page filled_page held s1_unused ada-IsText ada_knows page_filled

abbrev signup_page : Template
signup_page = template_new (codes "templates/signup.html")

abbrev signup_form : Form
signup_form =
    sent_form (codes "Ada") (codes "bob@x.org") (codes "ada") (whole (codes "password")) (whole [])

-- What the checks set for a username that Ada has and no confirmation.
abbrev signup_pairs : List (Bytes × Bytes)
signup_pairs = check_pairs (
    checks signup_form (account_check_email memory db (whole (codes "bob@x.org")))
      (account_check_username memory db (whole (codes "ada"))))

unfoldable filled_of : Run Template → Template
filled_of (ok t) = t
filled_of fault = signup_page
filled_of stuck = signup_page

bob_free : has_email (codes "bob@x.org") users ≡ false
unfolding has_email streq any
bob_free = refl

signup_filled :
    set_all signup_page 3 signup_pairs ≡ ok (filled_of (set_all signup_page 3 signup_pairs))
unfolding set_all filled_of check_pairs checks check_name check_email check_username check_password
    check_confirm account_check_email account_check_username template_new template_set hash_map_new
    hash_map_insert_move make_room move_entry move_loop get_index hash_key holds next_index streq
    strchr no_row execute bind_all run_memory encoded select row_of base64_encode encode_triples
    symbols_of symbol encode_rest
signup_filled = refl

abbrev bob : User
bob =
    new_user (memory-IsWriting.fresh_account db) digest (pos 300) (codes "Ada") (codes "bob@x.org")
      (codes "ada") (whole (codes "password"))

signup_post-registers_example :
    (db' : Tables) × (signup_post memory outside db signup_page signup_form
      ≡ ok (db', response_new_redirect (codes "/login/")))
    × (db' ≡ record db { accounts = map row_of (users ++ bob ∷ []) })
    × IsStored memory (λ t. t) db' (users ++ bob ∷ [])
signup_post-registers_example =
    signup_post-registers memory (λ t. t) memory-IsReading memory-IsWriting db users outside
      (codes "Ada") (codes "bob@x.org") (codes "ada") (whole (codes "password")) (whole [])
      signup_page (filled_of (set_all signup_page 3 signup_pairs)) stored name-IsText bob-IsText
      ada-IsText bob_free (omega arith) signup_filled

abbrev account : Account
account = record {
  id = pos 7;
  created_at = pos 1;
  name = whole (codes "Ada");
  email = whole (codes "ada@x.org");
  username = whole (codes "ada");
}

short_id : length (decimal (pos 7)) ≤ 10
unfolding decimal decimal_loop
short_id = omega arith

search_entry-room_example : search_entry account ≡ (
    if ltb 76 (length (decimal (pos 7)) + length (codes "Ada") + length (codes "ada@x.org"))
    then fault
    else ok (result_line (decimal (pos 7)) (codes "Ada") (codes "ada@x.org")))
search_entry-room_example =
    search_entry-room account (codes "Ada") (codes "ada@x.org") refl refl (ground arith)
      (ground arith) short_id

-- A name and an email of 50 bytes each, as signup asks for at most, do not fit.
abbrev fifty : Bytes
fifty = codes "01234567890123456789012345678901234567890123456789"

search_overflows : search_entry (record account { name = whole fifty; email = whole fifty }) ≡ fault
unfolding search_entry snprintf decimal decimal_loop c_str
search_overflows = refl
