-- ===== src/Prelude/Loop.antt =====
-- A loop without a bound of its own: a body that goes round again or leaves with a result.
use Prim.Native.Nat.{ℕ, zero, suc, ◌<◌}
use mathlib.Core.Path.{◌≡◌, refl}
use mathlib.Core.Option.{Option, none, some}
use native.Mathlib.Omega.{arith}

pub data Pass {ℓ κ} (S : Type ℓ) (R : Type κ) : Type (ℓ ⊔ κ) where
  again : S → Pass S R
  leave : R → Pass S R

module _ {ℓ κ} {S : Type ℓ} {R : Type κ} where
  -- none: the fuel ran out.
  unfoldable pub iterate : ℕ → (S → Pass S R) → S → Option R
  iterate zero body s = none
  iterate (suc fuel) body s = elim (body s) [ again s' ↦ iterate fuel body s' | leave r ↦ some r ]

  -- The rounds of a loop that ends with the result `r`.
  pub data Ends (body : S → Pass S R) : S → R → Type (ℓ ⊔ κ) where
    stops : {s : S} {r : R} → body s ≡ leave r → Ends body s r
    goes : {s s' : S} {r : R} → body s ≡ again s' → Ends body s' r → Ends body s r

module _ {ℓ κ ν} {S : Type ℓ} {R : Type κ} (body : S → Pass S R) (P : S → Type ν)
    (measure : S → ℕ) where
  -- Every round that does not leave keeps `P` and lowers the measure.
  abbrev pub Lowers : Type (ℓ ⊔ κ ⊔ ν)
  Lowers = (s s' : S) → P s → body s ≡ again s' → P s' × (measure s' < measure s)

  after :
      (s : S) (t : Pass S R)
      → body s ≡ t
      → ((s' : S) → t ≡ again s' → (r : R) × Ends body s' r)
      → (r : R) × Ends body s r
  after s (again s') e rest = let (r, more) = rest s' refl in (r, goes e more)
  after s (leave r) e rest = (r, stops e)

  ends_within : Lowers → (fuel : ℕ) (s : S) → P s → measure s < fuel → (r : R) × Ends body s r
  ends_within low zero s p h = absurd (omega arith)
  ends_within low (suc fuel) s p h =
      after s (body s) refl
        λ s' e. ends_within low fuel s' (low s s' p e).0 (omega (arith, (low s s' p e).1))

  pub ends : Lowers → (s : S) → P s → (r : R) × Ends body s r
  ends low s p = ends_within low (suc (measure s)) s p (omega arith)

  -- With more fuel than the measure the loop returns what its rounds give.
  pub iterate-Ends :
      Lowers
      → (fuel : ℕ) {s : S} {r : R} → P s
      → Ends body s r
      → measure s < fuel
      → iterate fuel body s ≡ some r
  unfolding iterate
  iterate-Ends low zero p run h = absurd (omega arith)
  iterate-Ends low (suc fuel) p (stops e) h = ground (arith, e)
  iterate-Ends low (suc fuel) {s = s} p (goes {s' = s'} e run) h =
      let (q, smaller) = low s s' p e in
      ground (arith, e, iterate-Ends low fuel q run (omega (arith, smaller)))
