-- ===== src/Prelude/Bits.antt =====
-- The bit operations at variables, by their recursion on binary digits, and tables over a byte.
use Prim.Native.Nat.{
  ℕ, zero, suc, ◌+◌, ◌*◌, ◌/◌, ◌%◌, ◌^◌, ◌≤◌, ◌<◌, min, max, bit_and, bit_or, bit_xor, digits,
  bitwise, differ, bit_and-bitwise, bit_or-bitwise, bit_xor-bitwise,
}
use mathlib.Core.Path.{◌≡◌, refl, ◌∙◌, ap}
use mathlib.Core.Bool.{Bool, true, ◌&&◌}
use native.Mathlib.Nat.{pow-suc}
use native.Mathlib.Decide.{dec_le}
use native.Mathlib.Omega.{arith}

module _ (z : ℕ → ℕ) (f : ℕ → ℕ → ℕ) where
  -- One unit of fuel beyond the first number is not used.
  digits_surplus : (n a b : ℕ) → a ≤ n → digits z f (suc n) a b ≡ digits z f n a b
  digits_surplus n zero b enough = rw (no_digits n b)
    where
      no_digits : (n : ℕ) (b : ℕ) → digits z f n zero b ≡ z b
      no_digits zero b = refl
      no_digits (suc n) b = refl
  digits_surplus zero (suc a) b enough = absurd (omega arith)
  digits_surplus (suc n) (suc a) b enough =
      let halved = digits_surplus n (suc a / 2) (b / 2) (omega arith) in
      ap (λ (q : ℕ). q * 2 + f (suc a % 2) (b % 2)) halved

  -- So any fuel that is enough gives the same digits.
  digits_any : (m a b : ℕ) → a ≤ m → digits z f m a b ≡ bitwise z f a b
  digits_any zero zero b enough = refl
  digits_any zero (suc a) b enough = absurd (omega arith)
  digits_any (suc m) a b enough = elim (dec_le a m) [
    | yes spare ↦ digits_surplus m a b spare ∙ digits_any m a b spare
    | no exact ↦ let e : suc m ≡ a = omega arith in ap (λ (n : ℕ). digits z f n a b) e
  ]

  bitwise_lem :
      (a b : ℕ)
      → bitwise z f (suc a) b ≡ bitwise z f (suc a / 2) (b / 2) * 2 + f (suc a % 2) (b % 2)
  bitwise_lem a b =
      let halved = digits_any a (suc a / 2) (b / 2) (omega arith) in
      ap (λ (q : ℕ). q * 2 + f (suc a % 2) (b % 2)) halved

pub bit_or_digit : (a b : ℕ) → bit_or a b ≡ bit_or (a / 2) (b / 2) * 2 + max (a % 2) (b % 2)
bit_or_digit zero b = simp bit_or-bitwise (omega arith)
bit_or_digit (suc a) b = simp bit_or-bitwise (bitwise_lem (λ y. y) max a b)

pub bit_and_digit : (a b : ℕ) → bit_and a b ≡ bit_and (a / 2) (b / 2) * 2 + min (a % 2) (b % 2)
bit_and_digit zero b = simp bit_and-bitwise (omega arith)
bit_and_digit (suc a) b = simp bit_and-bitwise (bitwise_lem (λ y. 0) min a b)

differ_parity : (x y : ℕ) → x < 2 → y < 2 → differ x y ≡ (x + y) % 2
differ_parity zero y p q = omega arith
differ_parity (suc zero) zero p q = refl
differ_parity (suc zero) (suc zero) p q = refl
differ_parity (suc zero) (suc (suc y)) p q = absurd (omega arith)
differ_parity (suc (suc x)) y p q = absurd (omega arith)

pub bit_xor_digit : (a b : ℕ) → bit_xor a b ≡ bit_xor (a / 2) (b / 2) * 2 + (a + b) % 2
bit_xor_digit zero b = simp bit_xor-bitwise (omega arith)
bit_xor_digit (suc a) b = simp bit_xor-bitwise (
    bitwise_lem (λ y. y) differ a b
    ∙ omega (arith, differ_parity (suc a % 2) (b % 2) (omega arith) (omega arith)))

bit_or-zero_below : (n a : ℕ) → a ≤ n → bit_or a 0 ≡ a
bit_or-zero_below n zero h = refl
bit_or-zero_below zero (suc a) h = absurd (omega arith)
bit_or-zero_below (suc n) (suc a) h =
    omega (arith, bit_or_digit (suc a) 0, bit_or-zero_below n (suc a / 2) (omega arith))

-- `(a << k) | b` is a sum when `b` fits in `k` bits.
pub bit_or_shift : (k a b : ℕ) → b < 2 ^ k → bit_or (a * 2 ^ k) b ≡ a * 2 ^ k + b
bit_or_shift zero a zero h = ground (arith, bit_or-zero_below a a)
bit_or_shift zero a (suc b) h = absurd (omega arith)
bit_or_shift (suc k) a b h = ground (
  arith,
  bit_or_digit (a * 2 ^ suc k) b,
  ap (λ (t : ℕ). a * t) (pow-suc 2 k),
  bit_or_shift k a (b / 2) (omega (arith, pow-suc 2 k)),
)

-- A number below the bit `k` does not have it.
pub bit_and_pow : (k a : ℕ) → a < 2 ^ k → bit_and a (2 ^ k) ≡ 0
bit_and_pow zero zero h = refl
bit_and_pow zero (suc a) h = absurd (omega arith)
bit_and_pow (suc k) a h = ground (
  arith,
  bit_and_digit a (2 ^ suc k),
  pow-suc 2 k,
  bit_and_pow k (a / 2) (omega (arith, pow-suc 2 k)),
)

-- Masking twice by the same key gives the number back.
pub bit_xor_twice : (k a m : ℕ) → a < 2 ^ k → m < 2 ^ k → bit_xor (bit_xor a m) m ≡ a
bit_xor_twice zero zero zero p q = refl
bit_xor_twice zero zero (suc m) p q = absurd (omega arith)
bit_xor_twice zero (suc a) m p q = absurd (omega arith)
bit_xor_twice (suc k) a m p q = ground (
  arith,
  bit_xor_digit a m,
  bit_xor_digit (bit_xor a m) m,
  pow-suc 2 k,
  bit_xor_twice k (a / 2) (m / 2) (omega (arith, pow-suc 2 k)) (omega (arith, pow-suc 2 k)),
)

pub bit_xor-lt : (k a m : ℕ) → a < 2 ^ k → m < 2 ^ k → bit_xor a m < 2 ^ k
bit_xor-lt zero zero zero p q = omega arith
bit_xor-lt zero zero (suc m) p q = absurd (omega arith)
bit_xor-lt zero (suc a) m p q = absurd (omega arith)
bit_xor-lt (suc k) a m p q = omega (
  arith,
  bit_xor_digit a m,
  pow-suc 2 k,
  bit_xor-lt k (a / 2) (m / 2) (omega (arith, pow-suc 2 k)) (omega (arith, pow-suc 2 k)),
)

-- Whether a test holds of every number below a bound, by evaluation.
unfoldable pub holds_below : (ℕ → Bool) → ℕ → Bool
holds_below test zero = true
holds_below test (suc n) = holds_below test n && test n

pub holds_below_at :
    (test : ℕ → Bool) (n : ℕ) {x : ℕ} → x < n → holds_below test n ≡ true → test x ≡ true
unfolding holds_below
holds_below_at test zero below all = absurd (omega arith)
holds_below_at test (suc n) {x} below all =
    ground (arith, λ (b : x < n). holds_below_at test n {x = x} b)
