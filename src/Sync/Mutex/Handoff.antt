-- ===== src/Sync/Mutex/Handoff.antt =====
-- Who gets the mutex that is unlocked.
use elio.Prelude.{
  ℕ, ◌≡◌, refl, ◌∙◌, sym, ap, subst, [], ◌∷◌, Option, none, some, arith, true, false,
}
use elio.Sync.Semaphore.{Waiter, contains, claim_from, grant}
use elio.Sync.Semaphore.Permits.{IsDistinct, claim_from-lists}
use elio.Sync.Semaphore.Handoff.{live, live-update, claim_from-live}
use elio.Sync.Mutex.{
  Mutex, recover_cancelled_handoff, state_for, granted_nodes, is_locked, unlock_locked, destroy,
  put,
}
use elio.Sync.Semaphore.Permits.{update_self}
use elio.Sync.Mutex.Leaving.{given_up, destroy_granted}

-- From `m` the lock goes to the live waiter that has waited longest, who leaves the list while the
-- other live waiters keep their order; without a live waiter the mutex is free.
pub Handed : Mutex → Option ℕ → Mutex → Type 0
Handed m none m' = (live m.nodes m.waiters ≡ []) × (m'.waiters ≡ []) × (is_locked m' ≡ false)
Handed m (some id) m' =
    (live m.nodes m.waiters ≡ id ∷ live m'.nodes m'.waiters)
    × (is_locked m' ≡ true)
    × ((m'.nodes id).grant_pending ≡ true)

grants : (w : Waiter) → (grant w).grant_pending ≡ true
unfolding grant
grants w = ground arith

Handed-from :
    (m k : Mutex) (o : Option ℕ) (m' : Mutex)
    → live k.nodes k.waiters ≡ live m.nodes m.waiters
    → Handed k o m'
    → Handed m o m'
unfolding Handed
Handed-from m k none m' e h = (sym e ∙ h.0, h.1, h.2)
Handed-from m k (some id) m' e h = (sym e ∙ h.0, h.1, h.2)

recover-Handed_at :
    (m : Mutex) (o : Option ℕ)
    → IsDistinct m.waiters
    → (claim_from m.nodes m.waiters).0 ≡ o
    → Handed m o (recover_cancelled_handoff m).1
unfolding recover_cancelled_handoff granted_nodes state_for is_locked Handed
recover-Handed_at m none d h = (
  (claim_from-live m.nodes m.waiters d).0 h,
  (claim_from-lists m.nodes m.waiters d).1 h,
  rw h refl,
)
recover-Handed_at m (some id) d h =
    let (left, out) = (claim_from-live m.nodes m.waiters d).1 id h in
    let w = grant (m.nodes id) in
    let same = live-update m.nodes id w (claim_from m.nodes m.waiters).1 out in
    (
      rw h (left ∙ ap (λ l. id ∷ l) (sym same)),
      rw h refl,
      rw h (rw (update_self m.nodes id w) (grants (m.nodes id))),
    )

-- In a mutex that links no waiter twice, `unlock` hands the lock to the live waiter that has waited
-- longest, and frees the mutex if there is none.
pub unlock-Handed :
    (m : Mutex) → IsDistinct m.waiters → Handed m (unlock_locked m).0 (unlock_locked m).1
unfolding recover_cancelled_handoff
unlock-Handed m d = recover-Handed_at m _ d refl

-- In a mutex that links no waiter twice, a waiter that suspended, left the list with the lock, and is
-- destroyed before it resumes hands the lock on in the same way.
pub destroy-Handed :
    (id : ℕ) (m : Mutex)
    → IsDistinct m.waiters
    → (m.nodes id).suspended ≡ true
    → (m.nodes id).grant_pending ≡ true
    → (m.nodes id).resumed ≡ false
    → contains id m.waiters ≡ false
    → Handed m (destroy id m).0 (destroy id m).1
destroy-Handed id m d a b c e =
    let w = given_up (m.nodes id) in
    subst (λ r. Handed m r.0 r.1) (sym (destroy_granted id m a e b c))
      (Handed-from m (put id w m) _ _ (live-update m.nodes id w m.waiters e)
        (unlock-Handed (put id w m) d))
