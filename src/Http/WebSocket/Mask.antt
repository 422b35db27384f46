-- ===== src/Http/WebSocket/Mask.antt =====
-- apply_mask and generate_mask_key of include/elio/http/websocket_frame.hpp.
use elio.Prelude.{
  ℕ, zero, suc, ◌+◌, ◌%◌, ◌<◌, ◌≡◌, refl, ap, List, [], ◌∷◌, length, get_or, All, Option, none,
  some, bit_xor, arith,
}
use elio.Prelude.Bits.{bit_xor_twice, bit_xor-lt}

-- The loop over `data` from `offset` on. A wrap of `offset + i` at 2 ^ 64 would keep its rest by 4.
unfoldable pub apply_mask : List ℕ → List ℕ → ℕ → List ℕ
apply_mask [] mask_key offset = []
apply_mask (x ∷ xs) mask_key offset =
    bit_xor x (get_or mask_key (offset % 4) 0) ∷ apply_mask xs mask_key (offset + 1)

pub data EncodeError : Type 0 where
  control_fragmented control_too_large short_key_read no_entropy : EncodeError

-- A value, or the exception that is thrown instead.
pub data Attempt {ℓ} (A : Type ℓ) : Type ℓ where
  done : A → Attempt A
  thrown : EncodeError → Attempt A

infixl 5 ◌>>=◌
abbrev pub ◌>>=◌ {ℓ κ} : {A : Type ℓ} {B : Type κ} → Attempt A → (A → Attempt B) → Attempt B
m >>= f = elim m [ done a ↦ f a | thrown e ↦ thrown e ]

-- What the system answers: the bytes of `getrandom` (`none` if there are fewer than four), and what
-- /dev/urandom gives, when it opens (the inner `none` is a short read).
pub record Entropy : Type 0 where
  pub getrandom : Option (List ℕ)
  pub urandom : Option (Option (List ℕ))

unfoldable pub generate_mask_key : Entropy → Attempt (List ℕ)
generate_mask_key e = elim e.getrandom [
  | some key ↦ done key
  | none ↦ elim e.urandom [
    | none ↦ thrown no_entropy
    | some file ↦ elim file [ none ↦ thrown short_key_read | some key ↦ done key ]
  ]
]

abbrev pub IsByte : ℕ → Type 0
IsByte b = b < 256

pub length-apply_mask :
    (xs key : List ℕ) (offset : ℕ) → length (apply_mask xs key offset) ≡ length xs
unfolding apply_mask
length-apply_mask [] key offset = refl
length-apply_mask (x ∷ xs) key offset = ap suc (length-apply_mask xs key (offset + 1))

get_or-IsByte : (key : List ℕ) (i : ℕ) → All IsByte key → IsByte (get_or key i 0)
get_or-IsByte [] i h = omega arith
get_or-IsByte (k ∷ key) zero h = h.0
get_or-IsByte (k ∷ key) (suc i) h = get_or-IsByte key i h.1

-- Masking is its own inverse, from any offset and for a key of any length.
pub apply_mask_twice :
    (xs key : List ℕ) (offset : ℕ)
    → All IsByte xs
    → All IsByte key
    → apply_mask (apply_mask xs key offset) key offset ≡ xs
unfolding apply_mask
apply_mask_twice [] key offset h k = refl
apply_mask_twice (x ∷ xs) key offset h k = ground (
  arith,
  bit_xor_twice 8 x (get_or key (offset % 4) 0) h.0 (get_or-IsByte key (offset % 4) k),
  apply_mask_twice xs key (offset + 1) h.1 k,
)

pub apply_mask-IsByte :
    (xs key : List ℕ) (offset : ℕ)
    → All IsByte xs
    → All IsByte key
    → All IsByte (apply_mask xs key offset)
unfolding apply_mask
apply_mask-IsByte [] key offset h k = tt
apply_mask-IsByte (x ∷ xs) key offset h k = (
  bit_xor-lt 8 x (get_or key (offset % 4) 0) h.0 (get_or-IsByte key (offset % 4) k),
  apply_mask-IsByte xs key (offset + 1) h.1 k,
)

-- A chain that is done was done at its first step.
pub >>=-done {ℓ κ} :
    {A : Type ℓ} {B : Type κ} {b : B} (f : A → Attempt B) (m : Attempt A)
    → (m >>= f) ≡ done b
    → (a : A) × (m ≡ done a) × (f a ≡ done b)
>>=-done f (thrown e) chain = cc
>>=-done f (done a) chain = (a, refl, chain)

pub done-injective {ℓ} : {A : Type ℓ} {a b : A} → done a ≡ done b → a ≡ b
done-injective same = cc
