-- ===== src/Sync/Mutex/Resuming.antt =====
-- await_resume: a client gets the lock or learns that it was cancelled.
use elio.Prelude.{
  ℕ, ◌≡◌, refl, ◌∙◌, sym, ap, inl, inr, true, false, not, ◌&&◌, none, arith, subst, if◌then◌else◌,
  Bool-cases,
}
use elio.Sync.WakeState.{was_cancelled}
use elio.Sync.Semaphore.{Waiter, contains, remove, completed, cancelled}
use elio.Sync.Mutex.{Mutex, put, await_resume}
use elio.Sync.Mutex.Clients.{
  Phase, fresh, built, contended, parked, ready, owner, refused, finished, System, holds_as, moves,
  is_woken, after_resume, can_resume,
}
use elio.Sync.Mutex.Fits.{queues, leaves, has, is_chosen, wakes, Fits, Inv}
use elio.Sync.Mutex.Entering.{Fits-at, holds_at, same_waiter_keep}
use elio.Sync.Mutex.Local.{Local-stay, Local-remove, update-Changed, keep_Inv}

-- The waiter of an owner.
abbrev owns : Waiter → Waiter
owns w = record w { resumed = true; grant_pending = false; suspended = false }

resume_completed :
    (id : ℕ) (m : Mutex)
    → ((m.nodes id).cancellable && was_cancelled (m.nodes id).wake) ≡ false
    → await_resume id m ≡ (completed, put id (owns (m.nodes id)) m)
unfolding await_resume
resume_completed id m q = rw q refl

resume_cancelled :
    (id : ℕ) (m : Mutex)
    → ((m.nodes id).cancellable && was_cancelled (m.nodes id).wake) ≡ true
    → await_resume id m ≡ (
      cancelled,
      if (m.nodes id).suspended
          then record (put id (record (m.nodes id) { suspended = false }) m) {
            waiters = remove id m.waiters;
          }
          else m,
    )
unfolding await_resume
resume_cancelled id m q = rw q refl

module _ (s : System) (v : Inv s) (id : ℕ) where
  abbrev w : Waiter
  w = s.mutex.nodes id

  abbrev ResumedInv : Type 0
  ResumedInv =
      Inv (moves id (after_resume (await_resume id s.mutex).0) none (await_resume id s.mutex).1 s)

  completes :
      (p : Phase)
      → s.phase id ≡ p
      → (w.cancellable && was_cancelled w.wake) ≡ false
      → contains id s.mutex.waiters ≡ false
      → holds_as p w ≡ true
      → ResumedInv
  unfolding after_resume Fits holds_as
  completes p e q l h =
      subst (λ r. Inv (moves id (after_resume r.0) none r.1 s))
        (sym (resume_completed id s.mutex q))
        (keep_Inv id owner (owns w) _ s _ v
          (Local-stay id owner (owns w) s s.mutex.state _ v.good
            (update-Changed id (owns w) s.mutex.nodes))
          (l, refl) refl (λ z n. n) (sym (holds_at s v id p e ∙ h)))

  resumes_ready : s.phase id ≡ ready → ResumedInv
  unfolding after_resume Fits holds_as
  resumes_ready e =
      let r = Fits-at s v id ready e in
      elim (Bool-cases (w.cancellable && was_cancelled w.wake)) [
        | inr q ↦ completes ready e q r.unlinked (ap not q)
        | inl q ↦
            subst (λ r. Inv (moves id (after_resume r.0) none r.1 s))
              (sym (resume_cancelled id s.mutex q))
              (rw r.not_suspended (
                same_waiter_keep s v id ready refused e (r.unlinked, r.not_suspended)
                  (sym (ap not q))))
      ]

  resumes_parked : s.phase id ≡ parked → can_resume parked w ≡ true → ResumedInv
  unfolding after_resume Fits holds_as can_resume is_woken was_cancelled remove
  resumes_parked e c =
      let p = Fits-at s v id parked e in
      elim p.standing [
        | queues l d g q u ↦ ground (arith, u)
        | has l g k q u d ↦ ground (arith, u)
        | is_chosen l g q u d ↦ ground (arith, u)
        | wakes l g q a ↦ completes parked e (ground arith) l g
        | leaves d g k q a ↦
            subst (λ r. Inv (moves id (after_resume r.0) none r.1 s))
              (sym (resume_cancelled id s.mutex (ground arith)))
              (rw p.suspended (
                let x = record w { suspended = false } in
                keep_Inv id refused x _ s _ v
                  (Local-remove id refused x s s.mutex.state _ v.good
                    (update-Changed id x s.mutex.nodes))
                  (refl, refl) refl (λ z n. ap (remove id) n) (sym (holds_at s v id parked e ∙ g))))
      ]

  resumes_as : (p : Phase) → s.phase id ≡ p → can_resume p w ≡ true → ResumedInv
  unfolding can_resume
  resumes_as ready e c = resumes_ready e
  resumes_as parked e c = resumes_parked e c
  resumes_as fresh e c = cc
  resumes_as built e c = cc
  resumes_as contended e c = cc
  resumes_as owner e c = cc
  resumes_as refused e c = cc
  resumes_as finished e c = cc

  pub resumes_Inv : can_resume (s.phase id) w ≡ true → ResumedInv
  resumes_Inv c = resumes_as (s.phase id) refl c
