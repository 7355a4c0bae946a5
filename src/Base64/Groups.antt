-- ===== src/Base64/Groups.antt =====
-- One round of the encoder and of the decoder of src/base64.c, as arithmetic on a group of bytes.
use facebooc.Base.{
  ℕ, ◌+◌, ◌*◌, ◌/◌, ◌%◌, ◌^◌, ◌<◌, ◌≡◌, refl, ap, ◌∙◌, Bool, true, false, not, ◌&&◌, List, [], ◌∷◌,
  ◌++◌, arith, Bytes, get_or, ltb, ◌==◌, All, ok, bit_or,
}
use facebooc.Base.Bits.{bit_or-shifted, bit_and_63, bit_and_255, every, every_lem}
use facebooc.Base64.{decoding_table, nn, symbol, pad, symbols_of, value_of, bytes_of}

abbrev pub IsByte : ℕ → Type 0
IsByte c = c < 256

-- A symbol is below 128, decodes to its index, and is no padding.
symbol_good : ℕ → Bool
unfolding symbol pad
symbol_good v =
    ltb (symbol v) 128 && ((get_or decoding_table (symbol v) nn == v) && not (symbol v == pad))

symbols_good : every 64 symbol_good ≡ true
unfolding every symbol_good
symbols_good = refl

pub value_of-symbol : (v : ℕ) → v < 64 → value_of (symbol v) ≡ ok v
unfolding value_of symbol_good
value_of-symbol v h = ground (arith, every_lem 64 symbol_good v symbols_good h)

pub symbol-ne-pad : (v : ℕ) → v < 64 → (symbol v == pad) ≡ false
unfolding symbol_good pad
symbol-ne-pad v h = ground (arith, every_lem 64 symbol_good v symbols_good h)

abbrev pub Triple : Type 0
Triple = ℕ × ℕ × ℕ

abbrev pub packed : ℕ → ℕ → ℕ → ℕ
packed a b c = a * 65536 + b * 256 + c

pub triple_lem :
    (a b c : ℕ) → b < 256 → c < 256 → bit_or (bit_or (a * 2 ^ 16) (b * 2 ^ 8)) c ≡ packed a b c
triple_lem a b c hb hc =
    ap (λ t. bit_or t c) (bit_or-shifted 16 a (b * 2 ^ 8) (omega arith) ∙ fields)
    ∙ bit_or-shifted 8 (a * 256 + b) c hc
    ∙ omega arith
  where
    fields : a * 2 ^ 16 + b * 2 ^ 8 ≡ (a * 256 + b) * 2 ^ 8
    fields = omega arith

pub sextets_lem :
    (w x y z : ℕ)
    → w < 64
    → x < 64
    → y < 64
    → z < 64
    → bit_or (bit_or (bit_or (w * 2 ^ 18 % 2 ^ 32) (x * 2 ^ 12)) (y * 2 ^ 6)) z
      ≡ w * 262144 + x * 4096 + y * 64 + z
sextets_lem w x y z hw hx hy hz =
    ap (λ t. bit_or (bit_or t (y * 2 ^ 6)) z) upper
    ∙ ap (λ t. bit_or t z) (bit_or-shifted 12 (w * 64 + x) (y * 2 ^ 6) (omega arith) ∙ middle)
    ∙ bit_or-shifted 6 (w * 4096 + x * 64 + y) z hz
    ∙ omega arith
  where
    upper : bit_or (w * 2 ^ 18 % 2 ^ 32) (x * 2 ^ 12) ≡ (w * 64 + x) * 2 ^ 12
    upper =
        ap (λ t. bit_or t (x * 2 ^ 12)) (omega arith)
        ∙ bit_or-shifted 18 w (x * 2 ^ 12) (omega arith)
        ∙ omega arith

    middle : (w * 64 + x) * 2 ^ 12 + y * 2 ^ 6 ≡ (w * 4096 + x * 64 + y) * 2 ^ 6
    middle = omega arith

-- The symbols of a triple, by its arithmetic.
unfoldable pub quad : Triple → Bytes
quad (a, b, c) =
    symbol (a / 4)
    ∷ symbol (a % 4 * 16 + b / 16)
    ∷ symbol (b % 16 * 4 + c / 64)
    ∷ symbol (c % 64)
    ∷ []

pub symbols_of-packed :
    (a b c : ℕ) → a < 256 → b < 256 → c < 256 → symbols_of (packed a b c) ≡ quad (a, b, c)
unfolding symbols_of quad
symbols_of-packed a b c ha hb hc = ground (
  arith,
  bit_and_63 (packed a b c / 2 ^ 18),
  bit_and_63 (packed a b c / 2 ^ 12),
  bit_and_63 (packed a b c / 2 ^ 6),
  bit_and_63 (packed a b c),
)

pub bytes_of-packed :
    (a b c : ℕ) → a < 256 → b < 256 → c < 256 → bytes_of (packed a b c) ≡ a ∷ b ∷ c ∷ []
unfolding bytes_of
bytes_of-packed a b c ha hb hc = ground (
  arith,
  bit_and_255 (packed a b c / 2 ^ 16),
  bit_and_255 (packed a b c / 2 ^ 8),
  bit_and_255 (packed a b c),
)

-- The text in blocks of three, with the last one to three bytes apart.
unfoldable pub flat : List Triple → Bytes
flat [] = []
flat ((a, b, c) ∷ ts) = a ∷ b ∷ c ∷ flat ts

unfoldable pub quads : List Triple → Bytes
quads [] = []
quads (t ∷ ts) = quad t ++ quads ts

abbrev pub Bytes3 : List Triple → Type 0
Bytes3 = All (λ (a, b, c). IsByte a × IsByte b × IsByte c)
