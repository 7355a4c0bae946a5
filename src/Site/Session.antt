-- ===== src/Site/Session.antt =====
-- The sessions of src/models/session.c over any sequence of events.
use mathlib.Core.Option
use facebooc.Base.{
  ◌≡◌, refl, ap, subst, sym, ◌∙◌, inl, inr, Bool, Option, none, some, List, [], ◌∷◌, ◌++◌, Bytes,
  codes, streq, if◌then◌else◌, Bool-cases, Option-cases, Run, ok, fault, ◌>>=◌,
}
use facebooc.Base.Int.{ℤ, ◌==ℤ◌}
use facebooc.BasicString.{whole}
use facebooc.Http.Cookies.{Cookie, Cookies, cookies_get}
use facebooc.Database.{int, text, Row, Answer, Sqlite}
use facebooc.Database.Tables.{AccountRow, SessionRow, Tables}
use facebooc.Models.Account.{
  Account, account_of_id, account_select, account_get_by_sid, select_by_id,
}
use facebooc.Models.Session.{Session}
use facebooc.Models.Session.Reading.{session_from, session_get_by_sid_lem}
use facebooc.Models.Sql.{IsReading, IsWriting}
use facebooc.Models.Sql.First.{first, select-first_row}
use facebooc.Models.Sql.Ready.{execute_answers}
use facebooc.Handler.Account.{get_account}
use facebooc.Server.{Event, Served}
use facebooc.Site.{World, site_run}
use facebooc.Site.Reach.{site_run-IsGrown}
use facebooc.Site.Sound.{IsSound}
use facebooc.Site.Step.{IsPrefix, IsGrown}

first-append :
    {A : Type 0} (test : A → Bool) (xs ys : List A) (x : A)
    → first test xs ≡ some x
    → first test (xs ++ ys) ≡ some x
unfolding first
first-append test [] ys x h = absurd (cc)
first-append test (y ∷ xs) ys x h = elim (Bool-cases (test y)) [
  | inl met ↦ rw met (subst (λ b. (if b then some y else first test xs) ≡ some x) met h)
  | inr other ↦ rw other (
      first-append test xs ys x
        (subst (λ b. (if b then some y else first test xs) ≡ some x) other h))
]

first-IsPrefix :
    {A : Type 0} (test : A → Bool) (xs ys : List A) (x : A)
    → IsPrefix xs ys
    → first test xs ≡ some x
    → first test ys ≡ some x
first-IsPrefix test xs ys x p h = ap (first test) p.same ∙ first-append test xs p.more x h

module _ (S : Sqlite) (view : S.Db → Tables) (reading : IsReading S view) where
  columns : AccountRow → Row
  columns r = int r.created_at ∷ text r.name ∷ text r.email ∷ text r.username ∷ []

  account_of : ℤ → Option AccountRow → Run (Option Account)
  account_of id none = ok none
  account_of id (some r) = account_of_id S id (columns r ∷ [])

  account_select-first :
      (db : S.Db) (id : ℤ)
      → account_select S db id ≡ account_of id (first (λ r. r.id ==ℤ id) (view db).accounts)
  unfolding account_select account_of account_of_id columns
  account_select-first db id =
      ap id_read
        (execute_answers S view reading db select_by_id (int id ∷ []) _ (reading.by_id id db))
      ∙ select-first_row (λ r. r.id ==ℤ id) columns (account_of_id S id) (account_of id)
          (view db).accounts refl (λ r rest met. refl)
    where
      id_read : Option (S.Db × Answer) → Run (Option Account)
      id_read none = ok none
      id_read (some (d, answer)) = account_of_id S id answer.rows

  of_session : List AccountRow → Option SessionRow → Run (Option Account)
  of_session accounts none = ok none
  of_session accounts (some r) = account_of r.account (first (λ x. x.id ==ℤ r.account) accounts)

  account_get_by_sid-first :
      (db : S.Db) (sid : Bytes)
      → account_get_by_sid S db (some (whole sid))
        ≡ of_session (view db).accounts (first (λ r. streq r.session sid) (view db).sessions)
  unfolding account_get_by_sid of_session session_from
  account_get_by_sid-first db sid =
      ap (λ run. run >>= for_session) (session_get_by_sid_lem S view reading db sid)
      ∙ of_row (first (λ r. streq r.session sid) (view db).sessions)
    where
      for_session : Option Session → Run (Option Account)
      for_session none = ok none
      for_session (some s) = account_select S db s.account_id

      of_row :
          (o : Option SessionRow)
          → for_session (Option.map session_from o) ≡ of_session (view db).accounts o
      of_row none = refl
      of_row (some r) = account_select-first db r.account

  module _ (db db' : S.Db) (grown : IsGrown (view db) (view db')) (a : Account) where
    signed_out : {X : Type 0} → ◌≡◌ {A = Run (Option Account)} (ok none) (ok (some a)) → X
    signed_out e = absurd (cc)

    by_sid-IsGrown :
        (sid : Bytes)
        → account_get_by_sid S db (some (whole sid)) ≡ ok (some a)
        → account_get_by_sid S db' (some (whole sid)) ≡ ok (some a)
    unfolding of_session account_of
    by_sid-IsGrown sid h =
        elim (Option-cases (first (λ r. streq r.session sid) (view db).sessions)) [
          | inl missing ↦ signed_out (
              sym (ap (of_session (view db).accounts) missing)
              ∙ sym (account_get_by_sid-first db sid)
              ∙ h)
          | inr (r, stored) ↦
              elim (Option-cases (first (λ x. x.id ==ℤ r.account) (view db).accounts)) [
                | inl unknown ↦ signed_out (
                    sym (
                      ap (of_session (view db).accounts) stored ∙ ap (account_of r.account) unknown)
                    ∙ sym (account_get_by_sid-first db sid)
                    ∙ h)
                | inr (x, known) ↦
                    account_get_by_sid-first db' sid
                    ∙ ap (of_session (view db').accounts) (
                        first-IsPrefix _ (view db).sessions (view db').sessions r grown.sessions
                          stored)
                    ∙ ap (account_of r.account) (
                        first-IsPrefix _ (view db).accounts (view db').accounts x grown.accounts
                          known
                        ∙ sym known)
                    ∙ sym (ap (of_session (view db).accounts) stored)
                    ∙ sym (account_get_by_sid-first db sid)
                    ∙ h
              ]
        ]

    get_account-IsGrown :
        (c : Option Cookies) → get_account S db c ≡ ok (some a) → get_account S db' c ≡ ok (some a)
    unfolding get_account
    get_account-IsGrown none h = h
    get_account-IsGrown (some c) h = of_cookie (cookies_get (some c) (codes "sid")) h
      where
        by_value : S.Db → Option Bytes → Run (Option Account)
        by_value d none = fault
        by_value d (some sid) = account_get_by_sid S d (some (whole sid))

        by_cookie : S.Db → Option Cookie → Run (Option Account)
        by_cookie d none = fault
        by_cookie d (some cookie) = by_value d cookie.value

        of_value : (o : Option Bytes) → by_value db o ≡ ok (some a) → by_value db' o ≡ ok (some a)
        of_value none k = k
        of_value (some sid) k = by_sid-IsGrown sid k

        of_cookie :
            (o : Option Cookie) → by_cookie db o ≡ ok (some a) → by_cookie db' o ≡ ok (some a)
        of_cookie none k = k
        of_cookie (some cookie) k = of_value cookie.value k

  -- Where sqlite3 answers as `IsReading` and `IsWriting` say: cookies that stand for an account
  -- stand for it still when the server of `FB_new` has served any sequence of further events, those
  -- of `logout` included, on tables that were in order.
  pub site_run-get_account :
      (writing : IsWriting S view) (db : S.Db) (events : List (Event World)) (served : Served S.Db)
      (c : Option Cookies) (a : Account)
      → IsSound (view db)
      → site_run S db events ≡ ok served
      → get_account S db c ≡ ok (some a)
      → get_account S served.db c ≡ ok (some a)
  site_run-get_account writing db events served c a sound run h =
      get_account-IsGrown db served.db
        (site_run-IsGrown S view reading writing db events served sound run) a c h
