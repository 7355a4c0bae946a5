-- ===== src/Models/Tests.antt =====
-- The operations of src/models on a database in memory.
use mathlib.Core.Option
use facebooc.Base.{
  ◌≡◌, refl, inl, true, false, some, List, [], ◌∷◌, map, codes, ok, All, IsCStr, streq, arith,
  if◌then◌else◌,
}
use facebooc.Base.Int.{pos}
use facebooc.BasicString.{whole}
use facebooc.Utility.Digest.{sha256_string}
use facebooc.Utility.Escape.{write_escapes, write_breaks}
use facebooc.Utility.Escape.Output.{IsSafe}
use facebooc.Database.Tables.{Tables}
use facebooc.Models.Account.{
  account_auth, account_create, account_get_by_email, account_get_by_id, account_get_by_sid,
}
use facebooc.Models.Account.Users.{User, row_of, account_of, knows, register}
use facebooc.Models.Account.Reading.{IsStored, account_auth_lem}
use facebooc.Models.Account.Writing.{new_user, account_create_lem}
use facebooc.Models.Account.Unique.{
  Holds, Reaches, start, next, creates, Reaches-found, Reaches-AreUnique,
}
use facebooc.Models.Session.{session_create}
use facebooc.Models.Session.Login.{session_create_lem, made_row}
use facebooc.Models.Session.Reading.{session_from, with_credentials}
use facebooc.Models.Like.{like_create, like_delete, like_liked}
use facebooc.Models.Like.Toggle.{same_like, like_liked-after}
use facebooc.Models.Post.{post_create_move, post_get_by_id, post_new_move}
use facebooc.Models.Post.Stored.{post_create_move_lem, made_post}
use facebooc.Models.Sql.{any}
use facebooc.Models.Memory.{memory}
use facebooc.Models.Memory.Laws.{memory-IsReading, memory-IsWriting, memory-post_id}
use facebooc.Models.Fixtures.{
  digest, ada, users, db, ada-IsText, email-IsText, bob-IsText, name-IsText, stored, held,
}

account_auth_lem_example :
    account_auth memory db digest (some (whole (codes "ada"))) (some (whole (codes "key")))
    ≡ knows (codes "ada") (sha256_string digest (whole (codes "key"))) users
account_auth_lem_example =
    account_auth_lem memory (λ t. t) memory-IsReading db users digest (codes "ada")
      (whole (codes "key")) stored ada-IsText

abbrev bob : User
bob =
    new_user (memory-IsWriting.fresh_account db) digest (pos 200) (codes "Ada") (codes "bob@x.org")
      (codes "ada") (whole (codes "key"))

account_create_lem_example :
    (db' : Tables) × (account_create memory db digest
        (pos 200)
        (whole (codes "Ada"))
        (whole (codes "bob@x.org"))
        (whole (codes "ada"))
        (whole (codes "key"))
      ≡ ok (db', Option.map account_of (register bob users).1))
    × (db' ≡ record db { accounts = map row_of (register bob users).0 })
    × IsStored memory (λ t. t) db' (register bob users).0
account_create_lem_example =
    account_create_lem memory (λ t. t) memory-IsReading memory-IsWriting db users digest (pos 200)
      (codes "Ada") (codes "bob@x.org") (codes "ada") (whole (codes "key")) stored name-IsText
      bob-IsText ada-IsText

-- Bob's account is made after Ada's.
bob_joins :
    Reaches memory (λ t. t) memory-IsReading memory-IsWriting digest db account_create_lem_example.0
bob_joins = next db account_create_lem_example.0 start (
    creates account_create_lem_example.0 (pos 200) (codes "Ada") (codes "bob@x.org") (codes "ada")
      (whole (codes "key")) (Option.map account_of (register bob users).1) name-IsText bob-IsText
      ada-IsText account_create_lem_example.1)

Reaches-AreUnique_example :
    (us : List User) × Holds memory
      (λ t. t)
      memory-IsReading
      memory-IsWriting
      account_create_lem_example.0
      us
Reaches-AreUnique_example =
    Reaches-AreUnique memory (λ t. t) memory-IsReading memory-IsWriting digest db
      account_create_lem_example.0 users held bob_joins

Reaches-found_example :
    (account_get_by_email memory account_create_lem_example.0 (some (whole (codes "ada@x.org")))
      ≡ ok (some (account_of ada)))
    × (account_get_by_id memory account_create_lem_example.0 (pos 1) ≡ ok (some (account_of ada)))
Reaches-found_example =
    Reaches-found memory (λ t. t) memory-IsReading memory-IsWriting digest db
      account_create_lem_example.0 users ada held bob_joins (inl refl) email-IsText (λ e. cc)

s1_unused : any (λ r. streq r.session (codes "s1")) db.sessions ≡ false
unfolding any
s1_unused = refl

session_create_lem_example :
    (db' : Tables) × (session_create memory db digest
        (pos 300)
        (codes "s1")
        (codes "ada")
        (codes "key")
      ≡ ok (
        db',
        Option.map
            (λ u. session_from (
              made_row memory
                (λ t. t)
                memory-IsReading
                memory-IsWriting
                db
                (pos 300)
                (codes "s1")
                s1_unused
                u.id))
            (with_credentials (codes "ada") (sha256_string digest (whole (codes "key"))) users),
      ))
    × (account_get_by_sid memory db' (some (whole (codes "s1")))
        ≡ ok (
            Option.map account_of
              (with_credentials (codes "ada") (sha256_string digest (whole (codes "key"))) users)))
session_create_lem_example =
    session_create_lem memory (λ t. t) memory-IsReading memory-IsWriting db (pos 300) (codes "s1")
      s1_unused users digest (codes "ada") (codes "key") held ada-IsText

like_liked-after_example :
    (like_liked memory (like_create memory db (pos 400) (pos 1) (pos 1) (pos 7)).0 (pos 1) (pos 7)
      ≡ (if same_like (pos 1) (pos 7) (pos 1) (pos 7)
          then true
          else like_liked memory db (pos 1) (pos 7)))
    × (like_liked memory (like_delete memory db (pos 400) (pos 1) (pos 1) (pos 7)).0 (pos 1) (pos 7)
        ≡ (if same_like (pos 1) (pos 7) (pos 1) (pos 7)
            then false
            else like_liked memory db (pos 1) (pos 7)))
like_liked-after_example =
    like_liked-after memory (λ t. t) memory-IsReading memory-IsWriting db (pos 400) (pos 1) (pos 1)
      (pos 7) (pos 1) (pos 7)

line-IsCStr : IsCStr (codes "1 < 2\n")
line-IsCStr = ground arith

post_create_move_lem_example :
    (post_get_by_id memory
        (post_create_move memory db (pos 500) (pos 1) (whole (codes "1 < 2\n")))
        (memory-IsWriting.fresh_post db)
      ≡ some (
          post_new_move
            (memory-IsWriting.fresh_post db)
            (pos 500)
            (pos 1)
            (some (whole (write_breaks (write_escapes (codes "1 < 2\n")))))))
    × (post_create_move memory db (pos 500) (pos 1) (whole (codes "1 < 2\n")) ≡ record db {
      posts =
          made_post memory
            (λ t. t)
            memory-IsReading
            memory-IsWriting
            db
            (pos 500)
            (pos 1)
            (codes "1 < 2\n")
            line-IsCStr
          ∷ [];
    })
    × All IsSafe (write_escapes (codes "1 < 2\n"))
post_create_move_lem_example =
    post_create_move_lem memory (λ t. t) memory-IsReading memory-IsWriting db (pos 500) (pos 1)
      (codes "1 < 2\n") line-IsCStr (memory-post_id db)
