-- ===== src/Site/Sound.antt =====
-- The tables of a site in order: what the code relies on and no constraint of the database states.
use facebooc.Base.{
  ◌≡◌, refl, ◌∙◌, inl, inr, Bool, true, false, List, [], ◌∷◌, ◌++◌, streq, All, All-append,
  Bool-cases,
}
use facebooc.Base.Int.{ℤ, ◌==ℤ◌}
use facebooc.Utility.Escape.Output.{IsSafe}
use facebooc.Database.Tables.{AccountRow, SessionRow, ConnectionRow, PostRow, LikeRow, Tables}
use facebooc.Models.Account.Unique.{streq_swap, ==ℤ_swap}
use facebooc.Models.Sql.{any, delete}
use facebooc.Models.Sql.First.{All-map}
use facebooc.Models.Sql.Distinct.{Distinct, Distinct-last, any-append}

-- Whether a row has an id.
unfoldable pub has_account : List AccountRow → ℤ → Bool
has_account accounts id = any (λ r. r.id ==ℤ id) accounts

unfoldable pub has_post : List PostRow → ℤ → Bool
has_post posts id = any (λ r. r.id ==ℤ id) posts

-- The two keys of an account.
unfoldable pub same_email : AccountRow → AccountRow → Bool
same_email y x = streq y.email x.email

unfoldable pub same_account : AccountRow → AccountRow → Bool
same_account y x = y.id ==ℤ x.id

-- What a row of another table refers to.
pub record IsSession (accounts : List AccountRow) (r : SessionRow) : Type 0 where
  pub known : has_account accounts r.account ≡ true

pub record IsConnection (accounts : List AccountRow) (r : ConnectionRow) : Type 0 where
  pub known1 : has_account accounts r.account1 ≡ true
  pub known2 : has_account accounts r.account2 ≡ true

pub record IsPost (accounts : List AccountRow) (r : PostRow) : Type 0 where
  pub known : has_account accounts r.author ≡ true
  pub safe : All IsSafe r.body

pub record IsLike (accounts : List AccountRow) (posts : List PostRow) (r : LikeRow) : Type 0 where
  pub known : has_account accounts r.account ≡ true
  pub known_author : has_account accounts r.author ≡ true
  pub known_post : has_post posts r.post ≡ true

-- No two accounts have an email or an id in common, every row refers to rows that exist, and every body
-- of a post is safe in a page.
pub record IsSound (t : Tables) : Type 0 where
  pub emails : Distinct same_email t.accounts
  pub ids : Distinct same_account t.accounts
  pub sessions : All (IsSession t.accounts) t.sessions
  pub connections : All (IsConnection t.accounts) t.connections
  pub posts : All (IsPost t.accounts) t.posts
  pub likes : All (IsLike t.accounts t.posts) t.likes

-- A row that is there stays there when the table grows.
any_more :
    {A : Type 0} (test : A → Bool) (xs ys : List A)
    → any test xs ≡ true
    → any test (xs ++ ys) ≡ true
any_more test xs ys h = any-append test xs ys ∙ rw h refl

account_more :
    (accounts more : List AccountRow) (id : ℤ)
    → has_account accounts id ≡ true
    → has_account (accounts ++ more) id ≡ true
unfolding has_account
account_more accounts more id h = any_more (λ r. r.id ==ℤ id) accounts more h

post_more :
    (posts more : List PostRow) (id : ℤ)
    → has_post posts id ≡ true
    → has_post (posts ++ more) id ≡ true
unfolding has_post
post_more posts more id h = any_more (λ r. r.id ==ℤ id) posts more h

All-delete {ℓ κ} :
    {A : Type ℓ} (P : A → Type κ) (test : A → Bool) (xs : List A)
    → All P xs
    → All P (delete test xs)
unfolding delete
All-delete P test [] h = tt
All-delete P test (x ∷ xs) (here, later) = elim (Bool-cases (test x)) [
  | inl dropped ↦ rw dropped (All-delete P test xs later)
  | inr kept ↦ rw kept (here, All-delete P test xs later)
]

module _ (t : Tables) (sound : IsSound t) where
  -- An account with a new email and a new id.
  pub add_account-IsSound :
      (r : AccountRow)
      → any (λ x. streq x.email r.email) t.accounts ≡ false
      → any (λ x. x.id ==ℤ r.id) t.accounts ≡ false
      → IsSound (record t { accounts = t.accounts ++ r ∷ [] })
  add_account-IsSound r new_email new_id = record {
    emails =
        Distinct-last same_email t.accounts r
          (λ a b h. unfold same_email in streq_swap a.email b.email h) sound.emails
          (unfold same_email in new_email);
    ids =
        Distinct-last same_account t.accounts r
          (λ a b h. unfold same_account in ==ℤ_swap a.id b.id h) sound.ids
          (unfold same_account in new_id);
    sessions =
        All-map (IsSession t.accounts) (IsSession (t.accounts ++ r ∷ [])) t.sessions
          (λ x h. record { known = more x.account h.known }) sound.sessions;
    connections =
        All-map (IsConnection t.accounts) (IsConnection (t.accounts ++ r ∷ [])) t.connections
          (λ x h. record { known1 = more x.account1 h.known1; known2 = more x.account2 h.known2 })
          sound.connections;
    posts =
        All-map (IsPost t.accounts) (IsPost (t.accounts ++ r ∷ [])) t.posts
          (λ x h. record { known = more x.author h.known; safe = h.safe }) sound.posts;
    likes =
        All-map (IsLike t.accounts t.posts) (IsLike (t.accounts ++ r ∷ []) t.posts) t.likes
          (λ x h. record {
            known = more x.account h.known;
            known_author = more x.author h.known_author;
            known_post = h.known_post;
          })
          sound.likes;
  }
    where
      more :
          (id : ℤ) → has_account t.accounts id ≡ true → has_account (t.accounts ++ r ∷ []) id ≡ true
      more id h = account_more t.accounts (r ∷ []) id h

  pub add_session-IsSound :
      (r : SessionRow)
      → IsSession t.accounts r
      → IsSound (record t { sessions = t.sessions ++ r ∷ [] })
  add_session-IsSound r h = record {
    emails = sound.emails;
    ids = sound.ids;
    sessions = All-append (IsSession t.accounts) t.sessions (r ∷ []) sound.sessions (h, tt);
    connections = sound.connections;
    posts = sound.posts;
    likes = sound.likes;
  }

  pub add_connection-IsSound :
      (r : ConnectionRow)
      → IsConnection t.accounts r
      → IsSound (record t { connections = t.connections ++ r ∷ [] })
  add_connection-IsSound r h = record {
    emails = sound.emails;
    ids = sound.ids;
    sessions = sound.sessions;
    connections =
        All-append (IsConnection t.accounts) t.connections (r ∷ []) sound.connections (h, tt);
    posts = sound.posts;
    likes = sound.likes;
  }

  pub add_like-IsSound :
      (r : LikeRow) → IsLike t.accounts t.posts r → IsSound (record t { likes = t.likes ++ r ∷ [] })
  add_like-IsSound r h = record {
    emails = sound.emails;
    ids = sound.ids;
    sessions = sound.sessions;
    connections = sound.connections;
    posts = sound.posts;
    likes = All-append (IsLike t.accounts t.posts) t.likes (r ∷ []) sound.likes (h, tt);
  }

  pub add_post-IsSound :
      (r : PostRow) → IsPost t.accounts r → IsSound (record t { posts = t.posts ++ r ∷ [] })
  add_post-IsSound r h = record {
    emails = sound.emails;
    ids = sound.ids;
    sessions = sound.sessions;
    connections = sound.connections;
    posts = All-append (IsPost t.accounts) t.posts (r ∷ []) sound.posts (h, tt);
    likes =
        All-map (IsLike t.accounts t.posts) (IsLike t.accounts (t.posts ++ r ∷ [])) t.likes
          (λ x k. record {
            known = k.known;
            known_author = k.known_author;
            known_post = post_more t.posts (r ∷ []) x.post k.known_post;
          })
          sound.likes;
  }

  pub drop_likes-IsSound :
      (test : LikeRow → Bool) → IsSound (record t { likes = delete test t.likes })
  drop_likes-IsSound test = record {
    emails = sound.emails;
    ids = sound.ids;
    sessions = sound.sessions;
    connections = sound.connections;
    posts = sound.posts;
    likes = All-delete (IsLike t.accounts t.posts) test t.likes sound.likes;
  }
