-- ===== src/Base64/Injective.antt =====
-- Encoded texts tell apart the texts that were encoded.
use facebooc.Base.{
  ◌≡◌, ◌≢◌, ◌<◌, ◌^◌, ap, sym, ◌∙◌, inl, inr, false, [], Bytes, length, All, ok, streq, streq_refl,
  streq_ne, eq_of_streq, Bool-cases,
}
use facebooc.BasicString.{BasicString, whole}
use facebooc.Base64.{base64_encode, base64_decode2str}
use facebooc.Base64.Groups.{IsByte}
use facebooc.Base64.RoundTrip.{encode-IsFull, decode-encode}

-- A text that is encoded and decoded without a fault.
pub record IsText (s : Bytes) : Type 0 where
  pub some_byte : s ≢ []
  pub short : length s < 2 ^ 62
  pub bytes : All IsByte s

-- The string that holds an encoded text is the encoding.
pub whole-encode : (s : Bytes) → IsText s → whole (base64_encode s).bytes ≡ base64_encode s
whole-encode s t =
    ap (λ n. record { bytes = (base64_encode s).bytes; size = n })
      ((encode-IsFull s t.short t.bytes).exact)

pub decode-whole :
    (s : Bytes) → IsText s → base64_decode2str (whole (base64_encode s).bytes) ≡ ok (whole s)
decode-whole s t =
    ap base64_decode2str (whole-encode s t) ∙ decode-encode s t.some_byte t.short t.bytes

ok_injective : (a b : BasicString) → ok a ≡ ok b → a ≡ b
ok_injective a b h = cc

encode_injective :
    (s t : Bytes) → IsText s → IsText t → (base64_encode s).bytes ≡ (base64_encode t).bytes → s ≡ t
encode_injective s t hs ht same =
    ap (λ x. x.bytes)
      (ok_injective (whole s) (whole t)
        (sym (decode-whole s hs) ∙ ap (λ b. base64_decode2str (whole b)) same ∙ decode-whole t ht))

-- Comparing encoded texts is comparing the texts.
pub streq-encode :
    (s t : Bytes)
    → IsText s
    → IsText t
    → streq (base64_encode s).bytes (base64_encode t).bytes ≡ streq s t
streq-encode s t hs ht = elim (Bool-cases (streq s t)) [
  | inl same ↦
      ap (λ x. streq (base64_encode x).bytes (base64_encode t).bytes) (eq_of_streq s t same)
      ∙ streq_refl (base64_encode t).bytes
      ∙ sym same
  | inr other ↦
      streq_ne (base64_encode s).bytes (base64_encode t).bytes
        (λ e. differ other (encode_injective s t hs ht e))
      ∙ sym other
]
  where
    differ : streq s t ≡ false → s ≡ t → ⊥
    differ other e = cc (other, streq_refl t, ap (λ x. streq x t) e)
