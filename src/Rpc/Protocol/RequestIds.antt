-- ===== src/Rpc/Protocol/RequestIds.antt =====
-- The request identifiers that are drawn one after the other.
use elio.Prelude.{ℕ, zero, suc, ◌+◌, ◌-◌, ◌%◌, ◌^◌, ◌<◌, ◌≡◌, ◌≢◌, arith}
use elio.Rpc.Protocol.{next}

-- The counter after `n` draws.
pub drawn : ℕ → ℕ → ℕ
drawn zero counter = counter
drawn (suc n) counter = drawn n (next counter).1

drawn-add : (n counter : ℕ) → counter + n < 2 ^ 64 → drawn n counter ≡ counter + n
unfolding drawn next
drawn-add zero counter h = omega arith
drawn-add (suc n) counter h =
    let c : (counter + 1) % 2 ^ 64 ≡ counter + 1 = omega arith in
    rw c (omega (arith, drawn-add n (counter + 1) (omega arith)))

-- The identifier is one of 1 to 2 ^ 32 - 1, and none of the 2 ^ 32 - 2 that are drawn after it, while
-- the counter of 64 bits does not wrap around, is the same.
pub next-distinct :
    (counter n : ℕ)
    → 0 < n
    → n < 2 ^ 32 - 1
    → counter + n < 2 ^ 64
    → (0 < (next counter).0)
      × ((next counter).0 < 2 ^ 32)
      × ((next (drawn n counter)).0 ≢ (next counter).0)
unfolding next
next-distinct counter n a b c =
    let last : (drawn n counter ≡ counter + n) = drawn-add n counter c in
    rw last (omega arith, omega arith, λ e. omega arith)
