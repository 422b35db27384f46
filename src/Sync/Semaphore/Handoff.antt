-- ===== src/Sync/Semaphore/Handoff.antt =====
-- Who gets the permits that `release` hands out.
use elio.Prelude.{
  ℕ, zero, suc, ◌+◌, ◌-◌, ◌≡◌, refl, false, List, [], ◌∷◌, length, take, drop, arith, ap, subst,
  sym, Option, some, none, if◌then◌else◌,
}
use elio.Sync.Semaphore.{
  Waiter, Semaphore, contains, can_claim, grant, claim_from, claim_waiter, release_loop,
  release_locked, update,
}
use elio.Sync.Semaphore.Permits.{IsDistinct, IsValid, release_loop-counts, claim_waiter-counts}

-- The waiters of a list that no cancellation has taken, in their order.
pub live : (ℕ → Waiter) → List ℕ → List ℕ
live nodes [] = []
live nodes (x ∷ xs) = if can_claim (nodes x) then x ∷ live nodes xs else live nodes xs

pub live-nil : (nodes : ℕ → Waiter) (xs : List ℕ) → xs ≡ [] → live nodes xs ≡ []
unfolding live
live-nil nodes xs h = ap (live nodes) h

pub live-update :
    (nodes : ℕ → Waiter) (id : ℕ) (w : Waiter) (xs : List ℕ)
    → contains id xs ≡ false
    → live (update nodes id w) xs ≡ live nodes xs
unfolding live contains update
live-update nodes id w [] h = refl
live-update nodes id w (x ∷ xs) h = ground (arith, live-update nodes id w xs)

pub claim_from-live :
    (nodes : ℕ → Waiter) (xs : List ℕ)
    → IsDistinct xs
    → ((claim_from nodes xs).0 ≡ none → live nodes xs ≡ [])
      × ((id : ℕ)
          → (claim_from nodes xs).0 ≡ some id
          → (live nodes xs ≡ id ∷ live nodes (claim_from nodes xs).1)
            × (contains id (claim_from nodes xs).1 ≡ false))
unfolding live claim_from IsDistinct
claim_from-live nodes [] d = (λ h. refl, λ id h. cc)
claim_from-live nodes (x ∷ xs) d = (
  ground (arith, (claim_from-live nodes xs d.1).0),
  λ id h. ground (arith, (claim_from-live nodes xs d.1).1 id),
)

-- The live waiters before claim_waiter, from those that it leaves.
abbrev LeftBy : Semaphore → Option ℕ → Type 0
LeftBy s o =
    live s.nodes s.waiters
    ≡ elim o [ none ↦ [] | some id ↦ id ∷ live (claim_waiter s).1.nodes (claim_waiter s).1.waiters ]

claim_waiter-live_at :
    (s : Semaphore) (o : Option ℕ)
    → IsDistinct s.waiters
    → (claim_from s.nodes s.waiters).0 ≡ o
    → ((claim_waiter s).0 ≡ o) × LeftBy s o
unfolding claim_waiter
claim_waiter-live_at s none d h = ground (arith, (claim_from-live s.nodes s.waiters d).0 h)
claim_waiter-live_at s (some id) d h = ground (
  arith,
  (claim_from-live s.nodes s.waiters d).1 id h,
  live-update s.nodes id (grant (s.nodes id)) (claim_from s.nodes s.waiters).1,
)

claim_waiter-live : (s : Semaphore) → IsDistinct s.waiters → LeftBy s (claim_waiter s).0
claim_waiter-live s d = let (e, l) = claim_waiter-live_at s _ d refl in subst (LeftBy s) (sym e) l

claim_none-live :
    (s : Semaphore)
    → IsDistinct s.waiters
    → (claim_waiter s).0 ≡ none
    → live (claim_waiter s).1.nodes (claim_waiter s).1.waiters ≡ []
unfolding live
claim_none-live s d h = ap (live (claim_waiter s).1.nodes) ((claim_waiter-counts s d).1 h)

release_loop-live :
    (n : ℕ) (s : Semaphore)
    → IsDistinct s.waiters
    → let r = release_loop n s in
      (r.0 ≡ take n (live s.nodes s.waiters))
      × (live r.2.nodes r.2.waiters ≡ drop n (live s.nodes s.waiters))
      × (r.1 ≡ n - length (live s.nodes s.waiters))
unfolding release_loop
release_loop-live zero s d = (refl, refl, omega arith)
release_loop-live (suc n) s d = ground (
  arith,
  claim_waiter-live s d,
  claim_none-live s d,
  release_loop-live n (claim_waiter s).1 (claim_waiter-counts s d).0,
)

-- In a valid semaphore `release` hands its permits to the linked waiters that no cancellation has
-- taken, those who have waited longest first; these leave the list and the others keep their order. It adds to the count
-- what then is left over.
pub release_locked-live :
    (n : ℕ) (s : Semaphore)
    → IsValid s
    → let r = release_locked n s in
      (r.0 ≡ take n (live s.nodes s.waiters))
      × (live r.1.nodes r.1.waiters ≡ drop n (live s.nodes s.waiters))
      × (r.1.count ≡ s.count + (n - length (live s.nodes s.waiters)))
unfolding release_locked IsValid
release_locked-live n s v = ground (arith, release_loop-live n s v.1, release_loop-counts n s v)
