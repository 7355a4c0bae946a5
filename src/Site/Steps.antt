-- ===== src/Site/Steps.antt =====
-- The operations of src/models that write, as steps of the tables.
use facebooc.Base.{
  ◌≡◌, refl, ap, subst, sym, ◌∙◌, inl, inr, true, Option, none, some, List, [], ◌∷◌, Bytes, take,
  c_str, All, streq, ◌==◌, Bool-cases, Run, ok, Gives, bind-any,
}
use facebooc.Base.Int.{ℤ}
use facebooc.BasicString.{BasicString}
use facebooc.Base64.{base64_encode}
use facebooc.Utility.Digest.{sha256_string}
use facebooc.Utility.Escape.{html_escape_trans}
use facebooc.Utility.Escape.Output.{IsSafe, html_escape_trans-bytes}
use facebooc.Database.{Value, int, text, Answer, Sqlite, execute}
use facebooc.Database.Tables.{Tables}
use facebooc.Models.Account.{
  Account, account_create, account_stored, account_get_by_email, insert_account, encoded,
}
use facebooc.Models.Session.{
  Session, session_create, session_insert, session_stored, session_get_by_sid, login_id,
  insert_session,
}
use facebooc.Models.Connection.{Connection, connection_create, connection_stored, insert_connection}
use facebooc.Models.Like.{like_create, like_delete}
use facebooc.Models.Like.Toggle.{create_run, delete_run}
use facebooc.Models.Post.{post_create_move, body_value, insert_post}
use facebooc.Models.Sql.{any, changed, refused, IsReading, IsWriting}
use facebooc.Models.Sql.Ready.{execute_answers}
use facebooc.Site.Sound.{has_account, has_post}
use facebooc.Site.Step.{Step, unchanged, signs_up, logs_in, connects, posts, likes, unlikes}
use facebooc.Site.Finds.{IsKnownId, login_id-IsKnown}

-- What a C string shows of a safe text is safe.
c_str-IsSafe : (s : Bytes) → All IsSafe s → All IsSafe (c_str s)
unfolding c_str
c_str-IsSafe [] h = tt
c_str-IsSafe (c ∷ s) (here, later) = elim (Bool-cases (c == 0)) [
  | inl nul ↦ rw nul tt
  | inr other ↦ rw other (here, c_str-IsSafe s later)
]

module _ (Acts : ℤ → Type 0) (S : Sqlite) (view : S.Db → Tables) (db : S.Db) where
  -- A database that is one step further, with any value.
  abbrev pub Goes : {X : Type 0} → S.Db × X → Type 0
  Goes (d, x) = Step Acts (view db) (view d)

module _ (Acts : ℤ → Type 0) (S : Sqlite) (view : S.Db → Tables) (reading : IsReading S view)
    (writing : IsWriting S view) (db : S.Db) where
  pub connection_create-Step :
      (now a b : ℤ)
      → Acts a
      → has_account (view db).accounts a ≡ true
      → has_account (view db).accounts b ≡ true
      → Step Acts (view db) (view (connection_create S db now a b).0)
  unfolding connection_create connection_stored
  connection_create-Step now a b acts ha hb =
      subst (λ d. Step Acts (view db) (view d)) (sym run)
        (connects _ acts (record { known1 = ha; known2 = hb })
          (writing.adds_connection db now a b).0)
    where
      stored : Option (S.Db × Answer) → S.Db × Option Connection
      stored none = (db, none)
      stored (some (db', answer)) = connection_stored S db' answer.ending now a b

      run :
          (connection_create S db now a b).0
          ≡ (S.run db insert_connection (int now ∷ int a ∷ int b ∷ [])).0
      run =
          ap (λ x. (stored x).0)
            (execute_answers S view reading db insert_connection (int now ∷ int a ∷ int b ∷ [])
              changed (writing.adds_connection db now a b).1)

  pub like_create-Step :
      (now account author post : ℤ)
      → Acts account
      → has_account (view db).accounts account ≡ true
      → has_account (view db).accounts author ≡ true
      → has_post (view db).posts post ≡ true
      → Step Acts (view db) (view (like_create S db now account author post).0)
  like_create-Step now account author post acts h k l =
      subst (λ d. Step Acts (view db) (view d))
        (sym (create_run S view reading writing db now account author post))
        (likes _ acts (record { known = h; known_author = k; known_post = l })
          (writing.adds_like db now account author post).0)

  pub like_delete-Step :
      (now account author post : ℤ)
      → Acts account
      → Step Acts (view db) (view (like_delete S db now account author post).0)
  like_delete-Step now account author post acts =
      subst (λ d. Step Acts (view db) (view d))
        (sym (delete_run S view reading writing db now account author post))
        (unlikes account post acts (writing.drops_likes db account post).0)

  pub post_create_move-Step :
      (now author : ℤ) (body : BasicString)
      → Acts author
      → has_account (view db).accounts author ≡ true
      → Step Acts (view db) (view (post_create_move S db now author body))
  unfolding post_create_move
  post_create_move-Step now author body acts h =
      subst (λ d. Step Acts (view db) (view d)) (sym run)
        (posts _ acts (record { known = h; safe = c_str-IsSafe escaped.0.bytes escaped.2 })
          (writing.adds_post db now author row).0)
    where
      escaped : (t : BasicString) × (html_escape_trans (some body) ≡ some t) × All IsSafe t.bytes
      escaped = html_escape_trans-bytes body

      row : Bytes
      row = c_str escaped.0.bytes

      created : Option (S.Db × Answer) → S.Db
      created none = db
      created (some (db', answer)) = db'

      run :
          post_create_move S db now author body
          ≡ (S.run db insert_post (int now ∷ int author ∷ text row ∷ [])).0
      run =
          ap (λ b. created (execute S db insert_post (int now ∷ int author ∷ body_value b ∷ [])))
            escaped.1
          ∙ unfold body_value in
            ap created (
              execute_answers S view reading db insert_post (int now ∷ int author ∷ text row ∷ [])
                changed (writing.adds_post db now author row).1)

  pub session_create-Step :
      (digest : Bytes → Bytes) (now : ℤ) (sid username password : Bytes)
      → Gives (Goes Acts S view db) (session_create S db digest now sid username password)
  unfolding session_create session_insert session_stored
  session_create-Step digest now sid username password =
      of_login (login_id S db digest username password)
        (login_id-IsKnown S view reading db digest username password)
    where
      of_id : Option ℤ → Run (S.Db × Option Session)
      of_id none = ok (db, none)
      of_id (some aid) = session_insert S db now aid sid

      values : ℤ → List Value
      values aid = int now ∷ int aid ∷ text sid ∷ []

      after : ℤ → S.Db
      after aid = (S.run db insert_session (values aid)).0

      inserted : Option (S.Db × Answer) → Run (S.Db × Option Session)
      inserted none = ok (db, none)
      inserted (some (db', answer)) = session_stored S db' answer.ending sid

      goes :
          (aid : ℤ)
          → has_account (view db).accounts aid ≡ true
          → Step Acts (view db) (view (after aid))
      goes aid known = logs_in _ (record { known = known }) (writing.adds_session db now aid sid).0

      of_login : (o : Option ℤ) → IsKnownId (view db) o → Gives (Goes Acts S view db) (of_id o)
      of_login none known = unchanged refl
      of_login (some aid) known =
          subst (λ o. Gives (Goes Acts S view db) (inserted o))
            (sym (
              execute_answers S view reading db insert_session (values aid) changed
                (writing.adds_session db now aid sid).1))
            (bind-any (Goes Acts S view db) (session_get_by_sid S (after aid) sid)
              (λ s. ok (after aid, s)) (λ s. goes aid known))

  pub account_create-Step :
      (digest : Bytes → Bytes) (now : ℤ) (name email username password : BasicString)
      → Gives (Goes Acts S view db) (account_create S db digest now name email username password)
  unfolding account_create account_stored encoded
  account_create-Step digest now name email username password =
      elim (Bool-cases (any (λ r. streq r.email e) (view db).accounts)) [
        | inl taken ↦
            let refuses = writing.refuses_account db now n e u p taken in
            subst (λ o. Gives (Goes Acts S view db) (inserted o))
              (sym (execute_answers S view reading db insert_account values refused refuses.1))
              (unchanged refuses.0)
        | inr free ↦
            let adds = writing.adds_account db now n e u p free in
            subst (λ o. Gives (Goes Acts S view db) (inserted o))
              (sym (execute_answers S view reading db insert_account values changed adds.1))
              (bind-any (Goes Acts S view db) (account_get_by_email S after (some email))
                (λ a. ok (after, a))
                (λ a. signs_up _ free (writing.account_is_new (view db)) adds.0))
      ]
    where
      n : Bytes
      n = (base64_encode (take name.size name.bytes)).bytes

      e : Bytes
      e = (base64_encode (take email.size email.bytes)).bytes

      u : Bytes
      u = (base64_encode (take username.size username.bytes)).bytes

      p : Bytes
      p = sha256_string digest password

      values : List Value
      values = int now ∷ text n ∷ text e ∷ text u ∷ text p ∷ []

      after : S.Db
      after = (S.run db insert_account values).0

      inserted : Option (S.Db × Answer) → Run (S.Db × Option Account)
      inserted none = ok (db, none)
      inserted (some (db', answer)) = account_stored S db' answer.ending email
