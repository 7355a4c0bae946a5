-- ===== src/BasicString.antt =====
-- src/basic_string.c: a buffer with its size. `bytes` is `data`: the bytes before the terminator
-- that the code writes at `data[size]`; a NULL pointer is `none`. Freeing is not modelled.
use facebooc.Base.{
  ℕ, ◌+◌, ◌≡◌, refl, Option, none, some, [], ◌∷◌, ◌++◌, arith, Bytes, length, length-append, take,
  take-length, append-nil,
}

pub record BasicString : Type 0 where
  pub bytes : Bytes
  pub size : ℕ

-- The buffer is as long as the size says.
pub record IsFull (s : BasicString) : Type 0 where
  pub exact : length s.bytes ≡ s.size

-- `Basic_string_new`
unfoldable pub new : BasicString
new = record { bytes = []; size = 0 }

-- `Basic_string_init`: `strdup` and `strlen` of a C string.
unfoldable pub init : Option Bytes → BasicString
unfolding new
init none = new
init (some src) = record { bytes = src; size = length src }

-- `Basic_string_combine`
unfoldable pub combine : BasicString → BasicString → BasicString
combine s t = record { bytes = take s.size s.bytes ++ take t.size t.bytes; size = s.size + t.size }

-- `Basic_string_append`
unfoldable pub append : Option BasicString → Option BasicString → Option BasicString
append none src = none
append (some dst) none = some dst
append (some dst) (some src) = some (record {
  bytes = take dst.size dst.bytes ++ take src.size src.bytes;
  size = dst.size + src.size;
})

-- `Basic_string_append_raw`: a NULL or empty text changes nothing.
unfoldable pub append_raw : Option BasicString → Option Bytes → Option BasicString
append_raw none src = none
append_raw (some dst) none = some dst
append_raw (some dst) (some []) = some dst
append_raw (some dst) (some src) =
    some (record { bytes = take dst.size dst.bytes ++ src; size = dst.size + length src })

-- A text as the string that holds exactly it.
abbrev pub whole : Bytes → BasicString
whole s = record { bytes = s; size = length s }

pub init-whole : (s : Bytes) → init (some s) ≡ whole s
unfolding init
init-whole s = refl

pub combine-whole : (s t : Bytes) → combine (whole s) (whole t) ≡ whole (s ++ t)
unfolding combine
combine-whole s t = ground (arith, take-length s, take-length t, length-append s t)

pub append_raw-whole : (s t : Bytes) → append_raw (some (whole s)) (some t) ≡ some (whole (s ++ t))
unfolding append_raw
append_raw-whole s [] = ground (arith, take-length s, append-nil s)
append_raw-whole s (c ∷ t) = ground (arith, take-length s, length-append s (c ∷ t))
