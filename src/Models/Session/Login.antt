-- ===== src/Models/Session/Login.antt =====
-- Logging in: `sessionCreate` of src/models/session.c, and `accountGetBySId` of src/models/account.c on
-- the session that it makes.
use mathlib.Core.Option
use facebooc.Base.{
  ◌≡◌, ap, ◌∙◌, inl, inr, false, ◌&&◌, Option, none, some, List, [], ◌∷◌, ◌++◌, Bytes, streq,
  streq_refl, Run, ok, ◌>>=◌, Option-cases,
}
use facebooc.Base.Int.{ℤ}
use facebooc.BasicString.{whole}
use facebooc.Base64.Injective.{IsText}
use facebooc.Utility.Digest.{sha256_string}
use facebooc.Database.{Value, int, text, Answer, Sqlite}
use facebooc.Database.Tables.{SessionRow, Tables}
use facebooc.Models.Session.{
  Session, session_stored, session_insert, session_create, insert_session,
}
use facebooc.Models.Account.{Account, account_get_by_sid, account_select}
use facebooc.Models.Account.Users.{User, account_of}
use facebooc.Models.Account.Reading.{IsStored, account_select_lem}
use facebooc.Models.Account.Unique.{Holds, first_with_id}
use facebooc.Models.Sql.Distinct.{first-Member}
use facebooc.Models.Sql.{any, changed, IsReading, IsWriting}
use facebooc.Models.Sql.Ready.{execute_answers}
use facebooc.Models.Sql.First.{first, first-last, first_of_any}
use facebooc.Models.Session.Reading.{
  session_from, with_credentials, session_get_by_sid_lem, login_id_lem,
}

module _ (S : Sqlite) (view : S.Db → Tables) (reading : IsReading S view)
    (writing : IsWriting S view) (db : S.Db) (now : ℤ) (sid : Bytes)
    (unused : any (λ r. streq r.session sid) (view db).sessions ≡ false) where
  -- The row of a session that is made for an account.
  abbrev pub made_row : ℤ → SessionRow
  made_row aid = record {
    id = writing.fresh_session (view db);
    created_at = now;
    account = aid;
    session = sid;
  }

  values : ℤ → List Value
  values aid = int now ∷ int aid ∷ text sid ∷ []

  after : ℤ → S.Db
  after aid = (S.run db insert_session (values aid)).0

  inserts :
      (aid : ℤ)
      → (view (after aid) ≡ record (view db) { sessions = (view db).sessions ++ made_row aid ∷ [] })
        × ((S.run db insert_session (values aid)).1 ≡ changed)
  unfolding values after
  inserts aid = writing.adds_session db now aid sid

  abbrev inserted : Option (S.Db × Answer) → Run (S.Db × Option Session)
  inserted none = ok (db, none)
  inserted (some (db', answer)) = session_stored S db' answer.ending sid

  reads_back :
      (aid : ℤ) → first (λ r. streq r.session sid) (view (after aid)).sessions ≡ some (made_row aid)
  reads_back aid =
      ap (λ t. first (λ r. streq r.session sid) t.sessions) (inserts aid).0
      ∙ first-last (λ r. streq r.session sid) (view db).sessions (made_row aid) unused
          (streq_refl sid)

  session_insert_lem :
      (aid : ℤ)
      → session_insert S db now aid sid ≡ ok (after aid, some (session_from (made_row aid)))
  unfolding session_insert session_stored values after
  session_insert_lem aid =
      ap inserted
        (execute_answers S view reading db insert_session (values aid) changed (inserts aid).1)
      ∙ ap (λ r. r >>= λ s. ok (after aid, s))
          (session_get_by_sid_lem S view reading (after aid) sid)
      ∙ ap (λ o. ok (after aid, Option.map session_from o)) (reads_back aid)

  -- The account of the session that is found.
  abbrev home : S.Db → Option Session → Run (Option Account)
  home d none = ok none
  home d (some s) = account_select S d s.account_id

  at_home :
      (d : S.Db) (o : Option SessionRow)
      → first (λ r. streq r.session sid) (view d).sessions ≡ o
      → account_get_by_sid S d (some (whole sid)) ≡ home d (Option.map session_from o)
  unfolding account_get_by_sid
  at_home d o h =
      ap (λ r. r >>= home d)
        (session_get_by_sid_lem S view reading d sid ∙ ap (λ x. ok (Option.map session_from x)) h)

  abbrev logs_in : Option ℤ → Run (S.Db × Option Session)
  logs_in none = ok (db, none)
  logs_in (some aid) = session_insert S db now aid sid

  module _ (us : List User) (digest : Bytes → Bytes) (username password : Bytes)
      (held : Holds S view reading writing db us) (name_text : IsText username) where
    -- The user whose credentials they are.
    abbrev user_of : Option User
    user_of = with_credentials username (sha256_string digest (whole password)) us

    create_run :
        session_create S db digest now sid username password
        ≡ logs_in (Option.map (λ u. u.id) user_of)
    unfolding session_create
    create_run =
        ap logs_in
          (login_id_lem S view reading db us digest username password held.stored name_text)

    then_stored : (aid : ℤ) → IsStored S view (after aid) us
    then_stored aid = record {
      rows = ap (λ t. t.accounts) (inserts aid).0 ∙ held.stored.rows;
      users = held.stored.users;
    }

    home_of :
        (u : User)
        → user_of ≡ some u
        → home (after u.id) (some (session_from (made_row u.id))) ≡ ok (some (account_of u))
    unfolding session_from with_credentials
    home_of u found =
        account_select_lem S view reading (after u.id) us u.id (then_stored u.id)
        ∙ ap (λ o. ok (Option.map account_of o))
            (first_with_id S view reading writing us u held.apart (
              first-Member
                (λ v.
                  streq v.username username
                  && streq v.password (sha256_string digest (whole password)))
                us u found))

    -- Where sqlite3 answers as `IsReading` and `IsWriting` say, for a username that can be encoded
    -- and decoded, on a database of users without a common email or id, and with a session text
    -- that no session has, `sessionCreate` makes a session for the first user with the username and
    -- the digest of the password, and `accountGetBySId` then gives that user's account; without
    -- such a user neither gives anything.
    pub session_create_lem :
        (db' : S.Db) × (session_create S db digest now sid username password
          ≡ ok (db', Option.map (λ u. session_from (made_row u.id)) user_of))
        × (account_get_by_sid S db' (some (whole sid)) ≡ ok (Option.map account_of user_of))
    session_create_lem = elim (Option-cases user_of) [
      | inl missing ↦ rw missing (
        db,
        create_run ∙ ap (λ o. logs_in (Option.map (λ u. u.id) o)) missing,
        at_home db none (first_of_any (λ r. streq r.session sid) (view db).sessions unused),
      )
      | inr (u, found) ↦ rw found (
        after u.id,
        create_run ∙ ap (λ o. logs_in (Option.map (λ v. v.id) o)) found ∙ session_insert_lem u.id,
        at_home (after u.id) (some (made_row u.id)) (reads_back u.id) ∙ home_of u found,
      )
    ]
