-- ===== src/Site/Step.antt =====
-- What one request may do to the tables, as a step from tables to tables.
use facebooc.Base.{
  append-nil, append_assoc, ◌≡◌, refl, ap, subst, sym, ◌∙◌, false, ◌&&◌, List, [], ◌∷◌, ◌++◌, streq,
}
use facebooc.Base.Int.{ℤ, ◌==ℤ◌}
use facebooc.Database.Tables.{AccountRow, SessionRow, ConnectionRow, PostRow, LikeRow, Tables}
use facebooc.Models.Sql.{any, delete}
use facebooc.Site.Sound.{
  IsSession, IsConnection, IsPost, IsLike, IsSound, add_account-IsSound, add_session-IsSound,
  add_connection-IsSound, add_like-IsSound, add_post-IsSound, drop_likes-IsSound,
}

-- One step of the tables. `Acts` is for whom the request acts: what it connects, posts, likes and takes
-- back is theirs. An account is new, a row refers to rows that are there, and a body is safe.
pub data Step (Acts : ℤ → Type 0) (t t' : Tables) : Type 0 where
  unchanged : t' ≡ t → Step Acts t t'
  signs_up :
      (r : AccountRow)
      → any (λ x. streq x.email r.email) t.accounts ≡ false
      → any (λ x. x.id ==ℤ r.id) t.accounts ≡ false
      → t' ≡ record t { accounts = t.accounts ++ r ∷ [] }
      → Step Acts t t'
  logs_in :
      (r : SessionRow)
      → IsSession t.accounts r
      → t' ≡ record t { sessions = t.sessions ++ r ∷ [] }
      → Step Acts t t'
  connects :
      (r : ConnectionRow)
      → Acts r.account1
      → IsConnection t.accounts r
      → t' ≡ record t { connections = t.connections ++ r ∷ [] }
      → Step Acts t t'
  posts :
      (r : PostRow)
      → Acts r.author
      → IsPost t.accounts r
      → t' ≡ record t { posts = t.posts ++ r ∷ [] }
      → Step Acts t t'
  likes :
      (r : LikeRow)
      → Acts r.account
      → IsLike t.accounts t.posts r
      → t' ≡ record t { likes = t.likes ++ r ∷ [] }
      → Step Acts t t'
  unlikes :
      (account post : ℤ)
      → Acts account
      → t' ≡ record t { likes = delete (λ x. (x.account ==ℤ account) && (x.post ==ℤ post)) t.likes }
      → Step Acts t t'

module _ (Acts : ℤ → Type 0) (t t' : Tables) where
  pub Step-IsSound : Step Acts t t' → IsSound t → IsSound t'
  Step-IsSound (unchanged e) sound = subst IsSound (sym e) sound
  Step-IsSound (signs_up r new_email new_id e) sound =
      subst IsSound (sym e) (add_account-IsSound t sound r new_email new_id)
  Step-IsSound (logs_in r h e) sound = subst IsSound (sym e) (add_session-IsSound t sound r h)
  Step-IsSound (connects r acts h e) sound =
      subst IsSound (sym e) (add_connection-IsSound t sound r h)
  Step-IsSound (posts r acts h e) sound = subst IsSound (sym e) (add_post-IsSound t sound r h)
  Step-IsSound (likes r acts h e) sound = subst IsSound (sym e) (add_like-IsSound t sound r h)
  Step-IsSound (unlikes account post acts e) sound =
      subst IsSound (sym e) (drop_likes-IsSound t sound _)

-- One list goes on where the other ends.
pub record IsPrefix {A : Type 0} (xs ys : List A) : Type 0 where
  pub more : List A
  pub same : ys ≡ xs ++ more

-- Nothing is taken away or changed, but for likes.
pub record IsGrown (t t' : Tables) : Type 0 where
  pub accounts : IsPrefix t.accounts t'.accounts
  pub sessions : IsPrefix t.sessions t'.sessions
  pub connections : IsPrefix t.connections t'.connections
  pub posts : IsPrefix t.posts t'.posts

module _ {A : Type 0} where
  all_of : (xs : List A) → IsPrefix xs xs
  all_of xs = record { more = []; same = sym (append-nil xs) }

  one_more : (xs : List A) (x : A) → IsPrefix xs (xs ++ x ∷ [])
  one_more xs x = record { more = x ∷ []; same = refl }

  further : (xs ys zs : List A) → IsPrefix xs ys → IsPrefix ys zs → IsPrefix xs zs
  further xs ys zs h k = record {
    more = h.more ++ k.more;
    same = k.same ∙ ap (λ l. l ++ k.more) h.same ∙ append_assoc xs h.more k.more;
  }

pub same-IsGrown : (t : Tables) → IsGrown t t
same-IsGrown t = record {
  accounts = all_of t.accounts;
  sessions = all_of t.sessions;
  connections = all_of t.connections;
  posts = all_of t.posts;
}

pub further-IsGrown : (t u v : Tables) → IsGrown t u → IsGrown u v → IsGrown t v
further-IsGrown t u v h k = record {
  accounts = further t.accounts u.accounts v.accounts h.accounts k.accounts;
  sessions = further t.sessions u.sessions v.sessions h.sessions k.sessions;
  connections = further t.connections u.connections v.connections h.connections k.connections;
  posts = further t.posts u.posts v.posts h.posts k.posts;
}

module _ (Acts : ℤ → Type 0) (t t' : Tables) where
  pub Step-IsGrown : Step Acts t t' → IsGrown t t'
  Step-IsGrown (unchanged e) = subst (IsGrown t) (sym e) (same-IsGrown t)
  Step-IsGrown (signs_up r new_email new_id e) = subst (IsGrown t) (sym e) (record {
    accounts = one_more t.accounts r;
    sessions = all_of t.sessions;
    connections = all_of t.connections;
    posts = all_of t.posts;
  })
  Step-IsGrown (logs_in r h e) = subst (IsGrown t) (sym e) (record {
    accounts = all_of t.accounts;
    sessions = one_more t.sessions r;
    connections = all_of t.connections;
    posts = all_of t.posts;
  })
  Step-IsGrown (connects r acts h e) = subst (IsGrown t) (sym e) (record {
    accounts = all_of t.accounts;
    sessions = all_of t.sessions;
    connections = one_more t.connections r;
    posts = all_of t.posts;
  })
  Step-IsGrown (posts r acts h e) = subst (IsGrown t) (sym e) (record {
    accounts = all_of t.accounts;
    sessions = all_of t.sessions;
    connections = all_of t.connections;
    posts = one_more t.posts r;
  })
  Step-IsGrown (likes r acts h e) = subst (IsGrown t) (sym e) (record {
    accounts = all_of t.accounts;
    sessions = all_of t.sessions;
    connections = all_of t.connections;
    posts = all_of t.posts;
  })
  Step-IsGrown (unlikes account post acts e) = subst (IsGrown t) (sym e) (record {
    accounts = all_of t.accounts;
    sessions = all_of t.sessions;
    connections = all_of t.connections;
    posts = all_of t.posts;
  })
