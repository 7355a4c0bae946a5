-- ===== src/Models/Session/Reading.antt =====
-- What the SELECTs of src/models/session.c tell about sessions and users.
use mathlib.Core.Option
use facebooc.Base.{
  ◌≡◌, refl, ap, ◌∙◌, ◌&&◌, Option, none, some, List, [], ◌∷◌, Bytes, streq, Run, ok,
}
use facebooc.Base.Int.{ℤ}
use facebooc.BasicString.{whole}
use facebooc.Base64.{base64_encode}
use facebooc.Base64.Injective.{IsText, streq-encode}
use facebooc.Utility.Digest.{sha256_string}
use facebooc.Database.{int, text, Row, Answer, Sqlite, column_int, int_value, text_value, value_at}
use facebooc.Database.Tables.{SessionRow, Tables}
use facebooc.Models.Session.{
  Session, session_new, session_of, session_get_by_sid, login_id, select_session, select_login,
}
use facebooc.Models.Account.Users.{User, row_of, IsUser}
use facebooc.Models.Account.Reading.{IsStored, first_user}
use facebooc.Models.Sql.{selected, IsReading}
use facebooc.Models.Sql.Ready.{execute_answers}
use facebooc.Models.Sql.First.{first, first_ext, All-map, select-first_row}

-- The session of a row.
unfoldable pub session_from : SessionRow → Session
session_from r = record {
  id = r.id;
  created_at = r.created_at;
  account_id = r.account;
  session_id = r.session;
}

-- The first user with a username and a hash.
unfoldable pub with_credentials : Bytes → Bytes → List User → Option User
with_credentials username hash = first (λ u. streq u.username username && streq u.password hash)

module _ (S : Sqlite) where
  abbrev session_read : Option (S.Db × Answer) → Run (Option Session)
  session_read none = ok none
  session_read (some (db, answer)) = session_of S answer.rows

  session_of-columns :
      (r : SessionRow) (rest : List Row)
      → session_of S ((int r.id ∷ int r.created_at ∷ int r.account ∷ text r.session ∷ []) ∷ rest)
        ≡ ok (some (session_from r))
  unfolding session_of session_new int_value text_value value_at session_from
  session_of-columns r rest = refl

  abbrev id_read : Option (S.Db × Answer) → Option ℤ
  id_read none = none
  id_read (some (db, answer)) = elim answer.rows [
    | [] ↦ none
    | row ∷ rows ↦ some (column_int S row 0)
  ]

module _ (S : Sqlite) (view : S.Db → Tables) (reading : IsReading S view) where
  -- `sessionGetBySId` reads the first session with the text.
  pub session_get_by_sid_lem :
      (db : S.Db) (sid : Bytes)
      → session_get_by_sid S db sid
        ≡ ok (Option.map session_from (first (λ r. streq r.session sid) (view db).sessions))
  unfolding session_get_by_sid
  session_get_by_sid_lem db sid =
      ap (session_read S) (
        execute_answers S view reading db select_session (text sid ∷ []) _
          (reading.with_session sid db))
      ∙ select-first_row (λ r. streq r.session sid) _ (session_of S)
          (λ o. ok (Option.map session_from o)) (view db).sessions (unfold session_of in refl)
          (λ r rest met. session_of-columns S r rest)

  pub login_id_lem :
      (db : S.Db) (us : List User) (digest : Bytes → Bytes) (username password : Bytes)
      → IsStored S view db us
      → IsText username
      → login_id S db digest username password
        ≡ Option.map
            (λ u. u.id)
            (with_credentials username (sha256_string digest (whole password)) us)
  unfolding login_id with_credentials value_at
  login_id_lem db us digest username password stored t =
      ap (id_read S) (
        execute_answers S view reading db select_login _ _
          (reading.with_login (base64_encode username).bytes hash db))
      ∙ first_user S view db us stored
          (λ r. streq r.username (base64_encode username).bytes && streq r.password hash)
          (λ r. int r.id ∷ [])
          (λ rows. id_read S (
            some (
              (S.run db select_login (text (base64_encode username).bytes ∷ text hash ∷ [])).0,
              selected rows,
            )))
          (Option.map (λ u. u.id)) refl (λ u rest user met. first_id u)
      ∙ ap (Option.map (λ u. u.id)) (
          first_ext
            (λ u.
              streq (row_of u).username (base64_encode username).bytes
              && streq (row_of u).password hash)
            (λ u. streq u.username username && streq u.password hash) us
            (All-map IsUser
              (λ u.
                (streq (row_of u).username (base64_encode username).bytes
                  && streq (row_of u).password hash)
                ≡ (streq u.username username && streq u.password hash))
              us same stored.users))
    where
      hash : Bytes
      hash = sha256_string digest (whole password)

      first_id : (u : User) → some (int_value S (int (row_of u).id)) ≡ some u.id
      first_id u = unfold int_value row_of in refl

      same :
          (u : User)
          → IsUser u
          → (streq (row_of u).username (base64_encode username).bytes
              && streq (row_of u).password hash)
            ≡ (streq u.username username && streq u.password hash)
      same u user =
          unfold row_of in
          ap (λ b. b && streq u.password hash)
            (streq-encode u.username username user.username_text t)
