-- ===== src/Models/Account/Users.antt =====
-- What an account is to the rest of the program: a user, with names in plain text. The operations of
-- src/models/account.c on a list of users, as they are meant.
use facebooc.Base.{
  ◌≤◌, Bool, false, Option, none, some, List, [], ◌∷◌, ◌++◌, Bytes, length, streq, if◌then◌else◌,
}
use facebooc.Base.Int.{ℤ}
use facebooc.BasicString.{whole}
use facebooc.Base64.{base64_encode}
use facebooc.Base64.Injective.{IsText}
use facebooc.Database.Tables.{AccountRow}
use facebooc.Models.Account.{Account}
use facebooc.Models.Sql.{any}
use facebooc.Models.Sql.First.{first}

-- `password` is the hexadecimal digest.
pub record User : Type 0 where
  pub id : ℤ
  pub created_at : ℤ
  pub name : Bytes
  pub email : Bytes
  pub username : Bytes
  pub password : Bytes

-- The row that stands for a user.
unfoldable pub row_of : User → AccountRow
row_of u = record {
  id = u.id;
  created_at = u.created_at;
  name = (base64_encode u.name).bytes;
  username = (base64_encode u.username).bytes;
  email = (base64_encode u.email).bytes;
  password = u.password;
}

-- The account that is read for a user.
unfoldable pub account_of : User → Account
account_of u = record {
  id = u.id;
  created_at = u.created_at;
  name = whole u.name;
  email = whole u.email;
  username = whole u.username;
}

pub record IsUser (u : User) : Type 0 where
  pub name_text : IsText u.name
  pub email_text : IsText u.email
  pub username_text : IsText u.username
  pub hash_length : length u.password ≤ 64

-- Whether an email or a username is taken.
unfoldable pub has_email : Bytes → List User → Bool
has_email email = any (λ u. streq u.email email)

unfoldable pub has_username : Bytes → List User → Bool
has_username username = any (λ u. streq u.username username)

-- Whether a hash is that of the first user with the username.
unfoldable pub knows : Bytes → Bytes → List User → Bool
knows username hash us = elim (first (λ u. streq u.username username) us) [
  | none ↦ false
  | some u ↦ streq hash u.password
]

-- A user is taken up, unless the email is taken already.
unfoldable pub register : User → List User → List User × Option User
register u us = if has_email u.email us then (us, none) else (us ++ u ∷ [], some u)
