-- ===== src/Response/Status.antt =====
-- The table of reason phrases.
use facebooc.Base.{
  Option, none, some, Bytes, take, ok, ℕ, ◌≡◌, ◌<◌, refl, ap, sym, ◌∙◌, Bool, true, false, not,
  ◌&&◌, ◌||◌, length, ltb, streq, eq_of_streq, arith, ltb→lt,
}
use facebooc.Base.Bits.{every, every_lem}
use facebooc.Response.{phrase, at, reason, is_status, digits, status_text, status_line}

fits_line : ℕ → Option Bytes → Bool
fits_line code none = false
fits_line code (some text) =
    ltb 0 (length text) && streq (take 127 (status_text code text)) (status_text code text)

served : ℕ → Bool
served code = not (is_status code) || fits_line code (phrase code)

every-served : every 600 served ≡ true
unfolding every served fits_line phrase at is_status status_text digits streq
every-served = refl

split : (a b : Bool) → (a && b) ≡ true → (a ≡ true) × (b ≡ true)
split true b h = (refl, h)
split false b h = (h, ground arith)

is_status-lt : (code : ℕ) → is_status code ≡ true → code < 600
unfolding is_status
is_status-lt code h = ground arith

-- Every number of the enumeration has a reason phrase, and its status line fits the buffer.
pub status_line-is_status :
    (code : ℕ)
    → is_status code ≡ true
    → (text : Bytes) × (phrase code ≡ some text)
      × (0 < length text)
      × (status_line code ≡ ok (status_text code text))
unfolding status_line reason fits_line
status_line-is_status code h = of_phrase (phrase code) refl fits
  where
    fits : fits_line code (phrase code) ≡ true
    fits =
        sym (ap (λ b. not b || fits_line code (phrase code)) h)
        ∙ unfold served in every_lem 600 served code every-served (is_status-lt code h)

    of_phrase :
        (o : Option Bytes)
        → phrase code ≡ o
        → fits_line code o ≡ true
        → (text : Bytes) × (phrase code ≡ some text)
          × (0 < length text)
          × (status_line code ≡ ok (status_text code text))
    of_phrase none found k = absurd (cc)
    of_phrase (some text) found k =
        let (some_byte, whole) =
          split (ltb 0 (length text))
            (streq (take 127 (status_text code text)) (status_text code text)) k in
        (
          text,
          found,
          ltb→lt 0 (length text) some_byte,
          rw (status_line, reason, found)
              (ap ok
                (eq_of_streq (take 127 (status_text code text)) (status_text code text) whole)),
        )
