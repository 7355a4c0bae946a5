-- ===== src/Models/Account/Rows.antt =====
-- Rows of the accounts, and the users that they stand for.
use facebooc.Base.{◌≡◌, refl, ap, ◌∙◌, some, List, map, Bytes, take-length, All, streq, ok}
use facebooc.BasicString.{whole}
use facebooc.Base64.{base64_encode}
use facebooc.Base64.Injective.{IsText, decode-whole, streq-encode}
use facebooc.Database.{text}
use facebooc.Models.Account.{account_from_db, account_new_move, decoded, encoded}
use facebooc.Models.Account.Users.{User, row_of, account_of, IsUser, has_email, has_username}
use facebooc.Models.Sql.{any}
use facebooc.Models.Sql.First.{first, any-map, any_ext, first_ext, All-map}

pub encoded-whole : (s : Bytes) → encoded (whole s) ≡ text (base64_encode s).bytes
unfolding encoded
encoded-whole s = ap (λ x. text (base64_encode x).bytes) (take-length s)

-- Reading the columns of a user's row.
pub from_db-row_of :
    (u : User)
    → IsUser u
    → account_from_db u.id u.created_at
        (some (row_of u).name)
        (some (row_of u).email)
        (some (row_of u).username)
      ≡ ok (account_of u)
unfolding account_from_db decoded row_of account_of account_new_move
from_db-row_of u h =
    rw
      (
        decode-whole u.name h.name_text,
        decode-whole u.email h.email_text,
        decode-whole u.username h.username_text,
      )
      refl

module _ (us : List User) (users : All IsUser us) where
  -- Looking for an encoded email or username among the rows is looking for it among the users.
  pub any_email :
      (email : Bytes)
      → IsText email
      → any (λ r. streq r.email (base64_encode email).bytes) (map row_of us) ≡ has_email email us
  unfolding has_email
  any_email email h =
      any-map row_of (λ r. streq r.email (base64_encode email).bytes) us
      ∙ any_ext (λ u. streq (row_of u).email (base64_encode email).bytes) (λ u. streq u.email email)
          us
          (All-map IsUser
            (λ u. streq (row_of u).email (base64_encode email).bytes ≡ streq u.email email) us
            (λ u k. unfold row_of in streq-encode u.email email k.email_text h) users)

  pub any_username :
      (username : Bytes)
      → IsText username
      → any (λ r. streq r.username (base64_encode username).bytes) (map row_of us)
        ≡ has_username username us
  unfolding has_username
  any_username username h =
      any-map row_of (λ r. streq r.username (base64_encode username).bytes) us
      ∙ any_ext (λ u. streq (row_of u).username (base64_encode username).bytes)
          (λ u. streq u.username username) us
          (All-map IsUser
            (λ u.
              streq (row_of u).username (base64_encode username).bytes ≡ streq u.username username)
            us (λ u k. unfold row_of in streq-encode u.username username k.username_text h) users)

  -- The user with an encoded email or username is the user with the email or username.
  pub first_email :
      (email : Bytes)
      → IsText email
      → first (λ u. streq (row_of u).email (base64_encode email).bytes) us
        ≡ first (λ u. streq u.email email) us
  first_email email h =
      first_ext (λ u. streq (row_of u).email (base64_encode email).bytes) (λ u. streq u.email email)
        us
        (All-map IsUser
          (λ u. streq (row_of u).email (base64_encode email).bytes ≡ streq u.email email) us
          (λ u k. unfold row_of in streq-encode u.email email k.email_text h) users)

  pub first_username :
      (username : Bytes)
      → IsText username
      → first (λ u. streq (row_of u).username (base64_encode username).bytes) us
        ≡ first (λ u. streq u.username username) us
  first_username username h =
      first_ext (λ u. streq (row_of u).username (base64_encode username).bytes)
        (λ u. streq u.username username) us
        (All-map IsUser
          (λ u.
            streq (row_of u).username (base64_encode username).bytes ≡ streq u.username username)
          us (λ u k. unfold row_of in streq-encode u.username username k.username_text h) users)
