-- ===== src/Http/Url/RoundTrip.antt =====
-- What url_encode writes, url_decode reads back.
use elio.Prelude.{
  ℕ, ◌*◌, ◌/◌, ◌%◌, ◌^◌, ◌<◌, ◌≡◌, refl, ◌∙◌, ap, Bool, true, false, List, [], ◌∷◌, some, none, All,
  bit_and, bit_or, ◌==◌, Bool-cases, inl, inr, ==_iff, arith,
}
use elio.Prelude.Bits.{bit_or_shift, holds_below, holds_below_at}
use elio.Http.Url.{hex_digit, is_unreserved, url_encode, from_hex, decoded_pair, plain, url_decode}

abbrev reads_back : ℕ → Bool
reads_back n = elim (from_hex (hex_digit n)) [ none ↦ false | some m ↦ m == n ]

from_hex-table : holds_below reads_back 16 ≡ true
unfolding holds_below from_hex hex_digit
from_hex-table = refl

from_hex-hex_digit : (n : ℕ) → n < 16 → from_hex (hex_digit n) ≡ some n
from_hex-hex_digit n h = ground (arith, holds_below_at reads_back 16 {x = n} h from_hex-table)

abbrev low_agrees : ℕ → Bool
low_agrees c = bit_and c 0x0F == c % 16

low_table : holds_below low_agrees 256 ≡ true
unfolding holds_below
low_table = refl

low_digit : (c : ℕ) → c < 256 → bit_and c 0x0F ≡ c % 16
low_digit c h = (==_iff _ _).0 (holds_below_at low_agrees 256 {x = c} h low_table)

-- The two digits of a byte.
decoded_digits :
    (c : ℕ) → c < 256 → decoded_pair (hex_digit (c / 16)) (hex_digit (bit_and c 0x0F)) ≡ some c
unfolding decoded_pair
decoded_digits c h =
    let high = from_hex-hex_digit (c / 16) (omega arith) in
    let low = from_hex-hex_digit (c % 16) (omega arith) in
    let whole : bit_or (c / 16 * 2 ^ 4) (c % 16) % 256 ≡ c =
      ap (λ x. x % 256) (bit_or_shift 4 (c / 16) (c % 16) (omega arith)) ∙ (omega arith) in
    ground (arith, low_digit c h, high, low, whole)

url_decode_plain :
    (c : ℕ) (cs : List ℕ) → is_unreserved c ≡ true → url_decode (c ∷ cs) ≡ c ∷ url_decode cs
unfolding url_decode plain is_unreserved
url_decode_plain c [] h = ground arith
url_decode_plain c (a ∷ []) h = ground arith
url_decode_plain c (a ∷ b ∷ cs) h = ground arith

url_decode_escape :
    (a b d : ℕ) (cs : List ℕ)
    → decoded_pair a b ≡ some d
    → url_decode (0x25 ∷ a ∷ b ∷ cs) ≡ d ∷ url_decode cs
unfolding url_decode
url_decode_escape a b d cs h = rw h refl

url_decode_nil : url_decode [] ≡ []
unfolding url_decode
url_decode_nil = refl

-- A text of bytes that is encoded and decoded again is the same text.
pub url_decode-url_encode : (s : List ℕ) → All (λ c. c < 256) s → url_decode (url_encode s) ≡ s
unfolding url_encode
url_decode-url_encode [] h = url_decode_nil
url_decode-url_encode (c ∷ cs) h =
    let rest = url_decode-url_encode cs h.1 in
    elim (Bool-cases (is_unreserved c)) [
      | inl q ↦ rw q (url_decode_plain c (url_encode cs) q ∙ ap (λ l. c ∷ l) rest)
      | inr q ↦
          rw q
            (url_decode_escape _ _ c (url_encode cs) (decoded_digits c h.0) ∙ ap (λ l. c ∷ l) rest)
    ]
