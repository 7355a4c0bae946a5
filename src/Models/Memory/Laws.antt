-- ===== src/Models/Memory/Laws.antt =====
-- The database in memory answers the statements as the models expect.
use facebooc.Base.{ℕ, ◌≡◌, ◌≢◌, ◌≤◌, refl, Bool, true, false, List, [], ◌∷◌, if◌then◌else◌, arith}
use facebooc.Base.Int.{ℤ, pos, negsuc, ◌==ℤ◌}
use facebooc.Database.Tables.{Tables}
use facebooc.Models.Sql.{any, IsReading, IsWriting}
use facebooc.Models.Memory.{above, next_id, fresh, run_memory, memory}

module _ {ℓ} {A : Type ℓ} (id_of : A → ℤ) where
  unreached_step :
      (i : ℤ) (m n : ℕ) (rest : Bool)
      → above i m ≤ n
      → (m ≤ n → rest ≡ false)
      → (if i ==ℤ pos n then true else rest) ≡ false
  unreached_step (pos k) m n rest h ih = ground (arith, ih)
  unreached_step (negsuc k) m n rest h ih = ih h

  -- An id that no row of a list reaches.
  unreached :
      (rows : List A) (n : ℕ) → next_id id_of rows ≤ n → any (λ r. id_of r ==ℤ pos n) rows ≡ false
  unfolding next_id any
  unreached [] n h = refl
  unreached (r ∷ rows) n h =
      unreached_step (id_of r) (next_id id_of rows) n (any (λ x. id_of x ==ℤ pos n) rows) h
        (unreached rows n)

pub memory-IsReading : IsReading memory (λ t. t)
unfolding run_memory
memory-IsReading = record {
  prepares = λ db sql. refl;
  binds = λ db sql i v. refl;
  by_id = λ id db. refl;
  by_email = λ email db. refl;
  with_username = λ username db. refl;
  with_email = λ email db. refl;
  password_of = λ username db. refl;
  with_login = λ username password db. refl;
  with_session = λ sid db. refl;
  connecting = λ a b db. refl;
  liking = λ a p db. refl;
  post_with = λ id db. refl;
}

pub memory-IsWriting : IsWriting memory (λ t. t)
unfolding run_memory
memory-IsWriting = record {
  fresh_account = λ t. fresh (λ r. r.id) t.accounts;
  fresh_session = λ t. fresh (λ r. r.id) t.sessions;
  fresh_connection = λ t. fresh (λ r. r.id) t.connections;
  fresh_post = λ t. fresh (λ r. r.id) t.posts;
  fresh_like = λ t. fresh (λ r. r.id) t.likes;
  account_is_new =
      λ t. unreached (λ r. r.id) t.accounts (next_id (λ r. r.id) t.accounts) (omega arith);
  post_is_new = λ t. unreached (λ r. r.id) t.posts (next_id (λ r. r.id) t.posts) (omega arith);
  adds_account = λ db now name email username password free. (rw free refl, rw free refl);
  refuses_account = λ db now name email username password taken. (rw taken refl, rw taken refl);
  adds_session = λ db now account sid. (refl, refl);
  adds_connection = λ db now a b. (refl, refl);
  adds_like = λ db now account author post. (refl, refl);
  drops_likes = λ db account post. (refl, refl);
  adds_post = λ db now author body. (refl, refl);
}

pub memory-post_id : (t : Tables) → memory-IsWriting.fresh_post t ≢ negsuc 0
unfolding memory-IsWriting fresh
memory-post_id t e = cc
