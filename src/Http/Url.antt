-- ===== src/Http/Url.antt =====
-- include/elio/http/http_common.hpp, url_encode and url_decode.
pub mod RoundTrip
use elio.Prelude.{
  ℕ, zero, suc, ◌+◌, ◌-◌, ◌*◌, ◌/◌, ◌%◌, ◌^◌, Bool, true, false, ◌&&◌, ◌||◌, List, [], ◌∷◌, ◌++◌,
  Option, some, none, get_or, bit_and, bit_or, leb, ◌==◌, if◌then◌else◌,
}
use elio.Http.Text.{between, is_alphanumeric, one_of}

-- "0123456789ABCDEF"
abbrev hex : List ℕ
hex =
    0x30 ∷ 0x31 ∷ 0x32 ∷ 0x33 ∷ 0x34 ∷ 0x35 ∷ 0x36 ∷ 0x37 ∷ 0x38 ∷ 0x39 ∷ 0x41 ∷ 0x42 ∷ 0x43 ∷ 0x44
    ∷ 0x45 ∷ 0x46 ∷ []

unfoldable pub hex_digit : ℕ → ℕ
hex_digit n = get_or hex n 0

-- Letters, digits and -_.~
unfoldable pub is_unreserved : ℕ → Bool
is_unreserved c = is_alphanumeric c || one_of (0x2D ∷ 0x5F ∷ 0x2E ∷ 0x7E ∷ []) c

unfoldable pub url_encode : List ℕ → List ℕ
url_encode [] = []
url_encode (c ∷ cs) =
    if is_unreserved c
    then c ∷ url_encode cs
    else 0x25 ∷ hex_digit (c / 16) ∷ hex_digit (bit_and c 0x0F) ∷ url_encode cs

-- std::from_chars in base 16 on one character: none is std::errc::invalid_argument.
unfoldable pub from_hex : ℕ → Option ℕ
from_hex c =
    if between 0x30 0x39 c
    then some (c - 0x30)
    else if between 0x61 0x66 c
    then some (c - 0x57)
    else if between 0x41 0x46 c
    then some (c - 0x37)
    else none

unfoldable pub decoded_pair : ℕ → ℕ → Option ℕ
decoded_pair a b = elim (from_hex a) [
  | none ↦ none
  | some hi ↦ elim (from_hex b) [ none ↦ none | some lo ↦ some (bit_or (hi * 2 ^ 4) lo % 256) ]
]

-- A character that begins no escape.
unfoldable pub plain : ℕ → ℕ
plain c = if c == 0x2B then 0x20 else c

unfoldable pub url_decode : List ℕ → List ℕ
url_decode [] = []
url_decode (c ∷ []) = plain c ∷ []
url_decode (c ∷ a ∷ []) = plain c ∷ url_decode (a ∷ [])
url_decode (c ∷ a ∷ b ∷ cs) =
    let skipped = url_decode cs in
    let next = url_decode (a ∷ b ∷ cs) in
    if c == 0x25
    then elim (decoded_pair a b) [ some d ↦ d ∷ skipped | none ↦ c ∷ next ]
    else plain c ∷ next
