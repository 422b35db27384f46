-- ===== src/Sync/Mutex/Recover.antt =====
-- recover_cancelled_handoff while nobody holds the mutex.
use elio.Prelude.{ℕ, ◌≡◌, ◌≢◌, refl, ◌∙◌, sym, ap, inl, inr, false, Option, none, some, arith}
use elio.Sync.Semaphore.{claim_from}
use elio.Sync.Semaphore.Permits.{claim_from-lists}
use elio.Sync.Mutex.{recover_cancelled_handoff, state_for}
use elio.Sync.Mutex.Clients.{System, holds, holds_as, note}
use elio.Sync.Mutex.Fits.{Good, Owned, Inv}
use elio.Sync.Mutex.Claims.{
  Claimed, claim_from-Claimed, granted_nodes_other, takes, Fits-taken, Fits-other,
}

-- The system after it, with the waiter that got the lock among those to schedule.
abbrev pub recovered : System → System
recovered s =
    let (o, m) = recover_cancelled_handoff s.mutex in
    record { mutex = m; phase = s.phase; to_schedule = note o s.to_schedule }

module _ (s : System) (g : Good s) (free : (i : ℕ) → holds s i ≡ false) where
  abbrev claimed_now :
      Claimed s.mutex.nodes s.mutex.waiters
        (claim_from s.mutex.nodes s.mutex.waiters).0
        (claim_from s.mutex.nodes s.mutex.waiters).1
  claimed_now = claim_from-Claimed s.mutex.nodes s.mutex.waiters g.distinct

  recovered-Good : Good (recovered s)
  unfolding recover_cancelled_handoff
  recovered-Good =
      let o = (claim_from s.mutex.nodes s.mutex.waiters).0 in
      let rest = (claim_from s.mutex.nodes s.mutex.waiters).1 in
      record {
        fits = λ i. elim (takes o i) [
          | inl e ↦
              (Fits-taken s.mutex.nodes s.mutex.waiters rest s.to_schedule o claimed_now i
                (s.phase i) (g.fits i) e).0
          | inr u ↦
              Fits-other s.mutex.nodes s.mutex.waiters rest s.to_schedule o claimed_now i
                (s.phase i) (g.fits i) u
        ];
        distinct = (claim_from-lists s.mutex.nodes s.mutex.waiters g.distinct).0;
      }

  recovered-other :
      (i : ℕ)
      → (claim_from s.mutex.nodes s.mutex.waiters).0 ≢ some i
      → holds (recovered s) i ≡ false
  unfolding recover_cancelled_handoff holds
  recovered-other i u =
      let same =
        granted_nodes_other (claim_from s.mutex.nodes s.mutex.waiters).0 s.mutex.nodes s.to_schedule
          i u in
      ap (holds_as (s.phase i)) same.0 ∙ free i

  recovered-Owned :
      (o : Option ℕ) → (claim_from s.mutex.nodes s.mutex.waiters).0 ≡ o → Owned (recovered s) o
  unfolding recover_cancelled_handoff Owned holds state_for
  recovered-Owned none e = (
    ap state_for e,
    (claim_from-lists s.mutex.nodes s.mutex.waiters g.distinct).1 e,
    λ i. recovered-other i (λ h. cc),
  )
  recovered-Owned (some j) e = (
    λ z. (let one = ap state_for e in omega (arith, one, z)),
    (Fits-taken s.mutex.nodes s.mutex.waiters (claim_from s.mutex.nodes s.mutex.waiters).1
        s.to_schedule (claim_from s.mutex.nodes s.mutex.waiters).0 claimed_now j (s.phase j)
        (g.fits j) e).1,
    λ i u.
        recovered-other i (λ h. u (let same : some j ≡ some i = sym e ∙ h in ground (arith, same))),
  )

  pub recovered-Inv : Inv (recovered s)
  recovered-Inv = record { good = recovered-Good; holder = _; owned = recovered-Owned _ refl }
