-- ===== src/Sync/Ring/Slots.antt =====
-- The slots of positions.
use Prim.Native.Nat.{bit_and}
use native.Mathlib.Nat.{mod-lt, mod-eq_of_lt, div-add-mod, pow-suc}
use elio.Prelude.{
  ℕ, zero, suc, ◌+◌, ◌-◌, ◌*◌, ◌/◌, ◌%◌, ◌^◌, ◌≤◌, ◌<◌, ◌≡◌, ◌≢◌, refl, sym, ◌∙◌, arith,
}
use elio.Prelude.Bits.{bit_and_digit}
use elio.Sync.Ring.{slot}

pow-pos : (k : ℕ) → 1 ≤ 2 ^ k
pow-pos zero = omega arith
pow-pos (suc k) = omega (arith, pow-suc 2 k, pow-pos k)

bit_and_zero : (n a : ℕ) → a ≤ n → bit_and a 0 ≡ 0
bit_and_zero n zero h = refl
bit_and_zero zero (suc a) h = absurd (omega arith)
bit_and_zero (suc n) (suc a) h =
    omega (arith, bit_and_digit (suc a) 0, bit_and_zero n (suc a / 2) (omega arith))

mod-double : (p a : ℕ) → 0 < p → a % (p * 2) ≡ (a / 2 % p) * 2 + a % 2
mod-double p a h = grind (arith, div-add-mod (a / 2) p, div-add-mod a (p * 2))

bit_and_mask : (k a : ℕ) → bit_and a (2 ^ k - 1) ≡ a % 2 ^ k
bit_and_mask zero a = ground (arith, bit_and_zero a a (omega arith))
bit_and_mask (suc k) a = ground (
  arith,
  bit_and_digit a (2 ^ suc k - 1),
  bit_and_mask k (a / 2),
  pow-suc 2 k,
  pow-pos k,
  mod-double (2 ^ k) a,
)

mod-apart : (c p q : ℕ) → p < q → q < p + c → p % c ≢ q % c
mod-apart c p q h l e = grind (arith, div-add-mod p c, div-add-mod q c)

mod-lap : (c p : ℕ) → 0 < c → (p + c) % c ≡ p % c
mod-lap c p h = grind arith

-- Positions less than a lap apart have different slots.
pub slot-apart : (k p q : ℕ) → p ≢ q → p < q + 2 ^ k → q < p + 2 ^ k → slot k p ≢ slot k q
unfolding slot
slot-apart k p q n h l e =
    grind (arith, bit_and_mask k p, bit_and_mask k q, mod-apart (2 ^ k) p q, mod-apart (2 ^ k) q p)

pub slot-lap : (k p : ℕ) → slot k (p + 2 ^ k) ≡ slot k p
unfolding slot
slot-lap k p =
    bit_and_mask k (p + 2 ^ k)
    ∙ mod-lap (2 ^ k) p (omega (arith, pow-pos k))
    ∙ sym (bit_and_mask k p)

pub slot-below : (k p : ℕ) → p < 2 ^ k → slot k p ≡ p
unfolding slot
slot-below k p h = bit_and_mask k p ∙ mod-eq_of_lt h

pub slot-small : (k p : ℕ) → slot k p ≤ 2 ^ k
unfolding slot
slot-small k p = omega (arith, bit_and_mask k p, mod-lt p (pow-pos k))
