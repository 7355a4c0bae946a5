-- ===== src/Database/Tables.antt =====
-- The tables that `initDB` of src/db.c creates, a record for each.
use facebooc.Base.{List, Bytes}
use facebooc.Base.Int.{ℤ}

-- `accounts`, where `email` is UNIQUE.
pub record AccountRow : Type 0 where
  pub id : ℤ
  pub created_at : ℤ
  pub name : Bytes
  pub username : Bytes
  pub email : Bytes
  pub password : Bytes

-- `sessions`
pub record SessionRow : Type 0 where
  pub id : ℤ
  pub created_at : ℤ
  pub account : ℤ
  pub session : Bytes

-- `connections`
pub record ConnectionRow : Type 0 where
  pub id : ℤ
  pub created_at : ℤ
  pub account1 : ℤ
  pub account2 : ℤ

-- `posts`
pub record PostRow : Type 0 where
  pub id : ℤ
  pub created_at : ℤ
  pub author : ℤ
  pub body : Bytes

-- `likes`
pub record LikeRow : Type 0 where
  pub id : ℤ
  pub created_at : ℤ
  pub account : ℤ
  pub author : ℤ
  pub post : ℤ

pub record Tables : Type 0 where
  pub accounts : List AccountRow
  pub sessions : List SessionRow
  pub connections : List ConnectionRow
  pub posts : List PostRow
  pub likes : List LikeRow
