-- ===== src/Http/Url/Room.antt =====
-- The buffer of `url_decoder`: large enough where every percent sign begins an escape, and not in
-- general.
use facebooc.Base.{
  ℕ, zero, suc, ◌+◌, ◌*◌, ◌%◌, ◌^◌, ◌≤◌, ◌<◌, ◌≡◌, ◌≢◌, refl, ap, ◌∙◌, inl, inr, Bool, true, false,
  ◌&&◌, [], ◌∷◌, Bytes, length, ltb, ◌==◌, if◌then◌else◌, ok, fault, arith, Bool-cases, ==_ne,
}
use facebooc.Http.Url.{
  is_xdigit, plain, is_escape, urldecode2, count_percent, percent_counter, int_size, room_of,
  Decoded, url_decoder,
}

-- Every percent sign is followed by two hexadecimal digits.
unfoldable pub escapes_whole : Bytes → Bool
escapes_whole [] = true
escapes_whole (c ∷ []) = if c == b'%' then false else true
escapes_whole (c ∷ a ∷ []) = if c == b'%' then false else if a == b'%' then false else true
escapes_whole (c ∷ a ∷ b ∷ s) = elim (c == b'%') [
  | true ↦ is_xdigit a && (is_xdigit b && escapes_whole s)
  | false ↦ escapes_whole (a ∷ b ∷ s)
]

xdigit-ne-percent : (a : ℕ) → is_xdigit a ≡ true → (a == b'%') ≡ false
unfolding is_xdigit
xdigit-ne-percent a h = ground arith

length-urldecode2 :
    (s : Bytes) → escapes_whole s ≡ true → length s ≡ length (urldecode2 s) + 2 * count_percent s
unfolding urldecode2 escapes_whole count_percent is_escape
length-urldecode2 [] h = omega arith
length-urldecode2 (c ∷ []) h = ground arith
length-urldecode2 (c ∷ a ∷ []) h = ground arith
length-urldecode2 (c ∷ a ∷ b ∷ s) h = elim (Bool-cases (c == b'%')) [
  | inl percent ↦
      ground (arith, percent, h, xdigit-ne-percent a, xdigit-ne-percent b, length-urldecode2 s)
  | inr other ↦ ground (arith, other, h, length-urldecode2 (a ∷ b ∷ s))
]

count-le-percent : (s : Bytes) → percent_counter s ≤ count_percent s
unfolding percent_counter count_percent
count-le-percent [] = omega arith
count-le-percent (c ∷ s) = omega arith

fits :
    (s : Bytes)
    → length s < 2 ^ 62
    → length s ≡ length (urldecode2 s) + 2 * count_percent s
    → percent_counter s ≤ count_percent s
    → (length (urldecode2 s) + 17 ≤ room_of s) × (room_of s < 2 ^ 63)
unfolding room_of int_size
fits s small same fewer = elim (Bool-cases (ltb (percent_counter s * 2 % 2 ^ 32) (2 ^ 31))) [
  | inl low ↦ rw low (ground arith, ground arith)
  | inr high ↦ rw high (ground arith, ground arith)
]

-- `url_decoder` never writes past its buffer, and leaves its sixteen spare bytes behind the
-- terminator, where every percent sign of the text is followed by two hexadecimal digits.
pub url_decoder-room :
    (s : Bytes)
    → escapes_whole s ≡ true
    → length s < 2 ^ 62
    → (d : Decoded) × (url_decoder s ≡ ok d)
      × (Decoded.text d ≡ urldecode2 s)
      × (length (Decoded.text d) + 17 ≤ Decoded.room d)
unfolding url_decoder
url_decoder-room s h small =
    let same = length-urldecode2 s h in
    let fewer = count-le-percent s in
    let room = fits s small same fewer in
    (record { text = urldecode2 s; room = room_of s }, ground (arith, room), refl, room.0)

-- `k` percent signs.
pub percents : ℕ → Bytes
percents zero = []
percents (suc k) = b'%' ∷ percents k

length-percents : (k : ℕ) → length (percents k) ≡ k
unfolding percents
length-percents zero = omega arith
length-percents (suc k) = ground (arith, length-percents k)

urldecode2-percents : (k : ℕ) → urldecode2 (percents k) ≡ percents k
unfolding urldecode2 percents is_escape is_xdigit plain
urldecode2-percents zero = refl
urldecode2-percents (suc zero) = refl
urldecode2-percents (suc (suc zero)) = refl
urldecode2-percents (suc (suc (suc k))) = ap (λ t. b'%' ∷ t) (urldecode2-percents (suc (suc k)))

count_percent-percents : (k : ℕ) → count_percent (percents k) ≡ k
unfolding count_percent percents
count_percent-percents zero = refl
count_percent-percents (suc k) = ground (arith, count_percent-percents k)

length-urldecode2-percents :
    (c k : ℕ) → c ≢ b'%' → length (urldecode2 (c ∷ percents (suc (suc k)))) ≡ 3 + k
unfolding urldecode2 is_escape percents
length-urldecode2-percents c k ne =
    rw (==_ne c b'%' ne, length) ground
      (arith, urldecode2-percents (suc (suc k)), length-percents (suc (suc k)))

room_of-percents :
    (c k n : ℕ)
    → 9 ≤ k
    → k < 2 ^ 30
    → n ≡ suc k
    → (ltb (room_of (c ∷ percents k)) (2 ^ 63) && ltb n (room_of (c ∷ percents k))) ≡ false
unfolding room_of percent_counter int_size
room_of-percents c k n many small same = ground (arith, count_percent-percents k, length-percents k)

-- `url_decoder` writes past its buffer on a byte that is no percent sign with nine percent signs or
-- more, fewer than 2 ^ 30, behind it, of which no one begins an escape.
pub url_decoder-fault :
    (c k : ℕ) → c ≢ b'%' → 9 ≤ k → k < 2 ^ 30 → url_decoder (c ∷ percents k) ≡ fault
unfolding url_decoder
url_decoder-fault c zero ne many small = ground arith
url_decoder-fault c (suc zero) ne many small = ground arith
url_decoder-fault c (suc (suc k)) ne many small =
    let room =
      room_of-percents c (suc (suc k)) (length (urldecode2 (c ∷ percents (suc (suc k))))) many small
        (length-urldecode2-percents c k ne ∙ omega arith) in
    rw room refl
