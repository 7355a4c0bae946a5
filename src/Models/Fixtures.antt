-- ===== src/Models/Fixtures.antt =====
-- A database in memory with one user, for tests.
use facebooc.Base.{refl, ap, List, [], ◌∷◌, map, Bytes, codes, length, arith}
use facebooc.Base.Int.{pos}
use facebooc.Base64.Injective.{IsText}
use facebooc.Database.Tables.{Tables}
use facebooc.Models.Account.Users.{User, row_of}
use facebooc.Models.Account.Reading.{IsStored}
use facebooc.Models.Account.Unique.{Holds}
use facebooc.Models.Sql.{any}
use facebooc.Models.Memory.{memory}
use facebooc.Models.Memory.Laws.{memory-IsReading, memory-IsWriting}

abbrev pub digest : Bytes → Bytes
digest s = s

abbrev pub ada : User
ada = record {
  id = pos 1;
  created_at = pos 100;
  name = codes "Ada";
  email = codes "ada@x.org";
  username = codes "ada";
  password = codes "6b6579";
}

abbrev pub users : List User
users = ada ∷ []

abbrev pub db : Tables
db = record { accounts = map row_of users; sessions = []; connections = []; posts = []; likes = [] }

pub ada-IsText : IsText (codes "ada")
ada-IsText = record {
  some_byte = λ e. omega (arith, ap length e);
  short = omega arith;
  bytes = ground arith;
}

pub email-IsText : IsText (codes "ada@x.org")
email-IsText = record {
  some_byte = λ e. omega (arith, ap length e);
  short = omega arith;
  bytes = ground arith;
}

pub bob-IsText : IsText (codes "bob@x.org")
bob-IsText = record {
  some_byte = λ e. omega (arith, ap length e);
  short = omega arith;
  bytes = ground arith;
}

pub name-IsText : IsText (codes "Ada")
name-IsText = record {
  some_byte = λ e. omega (arith, ap length e);
  short = omega arith;
  bytes = ground arith;
}

pub stored : IsStored memory (λ t. t) db users
stored = record {
  rows = refl;
  users = (
    record {
      name_text = name-IsText;
      email_text = email-IsText;
      username_text = ada-IsText;
      hash_length = omega arith;
    },
    tt,
  );
}

pub held : Holds memory (λ t. t) memory-IsReading memory-IsWriting db users
unfolding any
held = record { stored = stored; apart = record { emails = (refl, tt); ids = (refl, tt) } }
