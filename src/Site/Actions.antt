-- ===== src/Site/Actions.antt =====
-- The handlers of src/handler that change the database and redirect, as steps of the tables that
-- act for the account of the request.
use facebooc.Base.{
  ◌≡◌, refl, Bool, true, false, Option, none, some, codes, if◌then◌else◌, ◌==◌, ltb, Run, ok, ◌>>=◌,
  Gives, bind-Gives, bind-any, if-Gives, Gives-value,
}
use facebooc.Base.Int.{ℤ}
use facebooc.BasicString.{BasicString, init}
use facebooc.Http.Body.{body_get}
use facebooc.Database.{Sqlite}
use facebooc.Database.Tables.{Tables}
use facebooc.Models.Account.{Account, account_get_by_id}
use facebooc.Models.Post.{Post, post_get_by_id}
use facebooc.Models.Sql.{IsReading, IsWriting}
use facebooc.Handler.Account.{get_account, get_id}
use facebooc.Handler.Actions.{
  is_post, max_body_len, connect_to, connect_handler, like_post, like_handler, unlike_post,
  unlike_handler, post_text, post_handler,
}
use facebooc.Request.{Request}
use facebooc.Site.Finds.{
  IsKnown, IsKnownPost, get_account-IsKnown, get_by_id-IsKnown, post_get_by_id-IsKnown,
}
use facebooc.Site.Sound.{IsSound}
use facebooc.Site.Step.{Step, unchanged}
use facebooc.Site.Steps.{
  Goes, connection_create-Step, like_create-Step, like_delete-Step, post_create_move-Step,
}

-- The account that the cookies of the request stand for has this id.
pub record Acts (S : Sqlite) (db : S.Db) (req : Request) (id : ℤ) : Type 0 where
  pub account : Account
  pub logged_in : get_account S db req.cookies ≡ ok (some account)
  pub same : account.id ≡ id

-- What a request may do: a step that acts for the account of its cookies.
abbrev pub Allowed :
    (S : Sqlite) (view : S.Db → Tables) (db : S.Db) → Request → {X : Type 0} → S.Db × X → Type 0
Allowed S view db req = Goes (Acts S db req) S view db

module _ (S : Sqlite) (view : S.Db → Tables) (reading : IsReading S view)
    (writing : IsWriting S view) where
  module _ (db : S.Db) (sound : IsSound (view db)) (now : ℤ) (req : Request) where
    -- A handler that looks first for who sends the request.
    pub for_account :
        {B : Type 0} (Q : B → Type 0) (f : Option Account → Run B)
        → Gives Q (f none)
        → ((me : Account)
            → Acts S db req me.id
            → IsKnown (view db) (some me)
            → Gives Q (f (some me)))
        → Gives Q (get_account S db req.cookies >>= f)
    for_account Q f out_of into =
        bind-Gives (λ o. (get_account S db req.cookies ≡ ok o) × IsKnown (view db) o) Q
          (get_account S db req.cookies) f
          (Gives-value (IsKnown (view db)) (get_account S db req.cookies)
            (get_account-IsKnown S view reading db req.cookies))
          of_account
      where
        of_account :
            (o : Option Account)
            → (get_account S db req.cookies ≡ ok o) × IsKnown (view db) o
            → Gives Q (f o)
        of_account none h = out_of
        of_account (some me) (same, known) =
            into me (record { account = me; logged_in = same; same = refl }) known

    connect_to-Step :
        (me : Account) (other : Option Account)
        → Acts S db req me.id
        → IsKnown (view db) (some me)
        → IsKnown (view db) other
        → Allowed S view db req (connect_to S db now me other)
    unfolding connect_to
    connect_to-Step me none acts h k = unchanged refl
    connect_to-Step me (some a) acts h k =
        connection_create-Step (Acts S db req) S view reading writing db now me.id a.id acts h k

    like_post-Step :
        (me : Account) (p : Option Post)
        → Acts S db req me.id
        → IsKnown (view db) (some me)
        → IsKnownPost (view db) p
        → Allowed S view db req (like_post S db now req me p)
    unfolding like_post
    like_post-Step me none acts h k = unchanged refl
    like_post-Step me (some p) acts h (k, l) =
        like_create-Step (Acts S db req) S view reading writing db now me.id p.author_id p.id acts h
          l k

    unlike_post-Step :
        (me : Account) (p : Option Post)
        → Acts S db req me.id
        → Allowed S view db req (unlike_post S db now req me p)
    unfolding unlike_post
    unlike_post-Step me none acts = unchanged refl
    unlike_post-Step me (some p) acts =
        like_delete-Step (Acts S db req) S view reading writing db now me.id p.author_id p.id acts

    post_text-Step :
        (me : Account) (text : BasicString)
        → Acts S db req me.id
        → IsKnown (view db) (some me)
        → Step (Acts S db req) (view db) (view (post_text S db now me text))
    unfolding post_text
    post_text-Step me text acts h = if-any (text.size == 0) db _ (unchanged refl) (
        if-any (ltb text.size max_body_len) _ db
          (post_create_move-Step (Acts S db req) S view reading writing db now me.id text acts h)
          (unchanged refl))
      where
        if-any :
            (b : Bool) (d e : S.Db)
            → Step (Acts S db req) (view db) (view d)
            → Step (Acts S db req) (view db) (view e)
            → Step (Acts S db req) (view db) (view (if b then d else e))
        if-any true d e h k = h
        if-any false d e h k = k

    pub connect_handler-Step : Gives (Allowed S view db req) (connect_handler S db now req)
    unfolding connect_handler
    connect_handler-Step = for_account (Allowed S view db req) _ (unchanged refl) (λ me acts known.
        bind-any (Allowed S view db req) (get_id req.uri) _ (λ id.
          bind-Gives (IsKnown (view db)) (Allowed S view db req) (account_get_by_id S db id) _
            (get_by_id-IsKnown S view reading db id)
            (λ other found. connect_to-Step me other acts known found)))

    pub like_handler-Step : Gives (Allowed S view db req) (like_handler S db now req)
    unfolding like_handler
    like_handler-Step = for_account (Allowed S view db req) _ (unchanged refl) (λ me acts known.
        bind-any (Allowed S view db req) (get_id req.uri) _ (λ id.
          like_post-Step me (post_get_by_id S db id) acts known
            (post_get_by_id-IsKnown S view reading db id sound)))

    pub unlike_handler-Step : Gives (Allowed S view db req) (unlike_handler S db now req)
    unfolding unlike_handler
    unlike_handler-Step = for_account (Allowed S view db req) _ (unchanged refl) (λ me acts known.
        bind-any (Allowed S view db req) (get_id req.uri) _
          (λ id. unlike_post-Step me (post_get_by_id S db id) acts))

    pub post_handler-Step : Gives (Allowed S view db req) (post_handler S db now req)
    unfolding post_handler
    post_handler-Step = for_account (Allowed S view db req) _ (unchanged refl) (λ me acts known.
        if-Gives (Allowed S view db req) (is_post req.method) _ _
          (post_text-Step me (init (body_get req.post_body (codes "post"))) acts known)
          (unchanged refl))
