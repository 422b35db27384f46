-- ===== src/Sync/Mutex/Waiting.antt =====
-- The steps by which a client suspends.
use elio.Prelude.{
  ℕ, ◌≡◌, ◌≢◌, refl, ◌∙◌, sym, inl, inr, Bool, true, false, [], ◌∷◌, ◌++◌, none, some, arith, subst,
  ◌==◌, Bool-cases, ==_iff,
}
use elio.Sync.WakeState.{idle, waiting, cancelled_inline, make_wake_state, was_cancelled}
use elio.Sync.WakeState.Cases.{set_handle_new}
use elio.Sync.Semaphore.{Waiter, contains, update}
use elio.Sync.Mutex.{take_state, suspend_locked, suspend_wait, await_suspend_cancellable}
use elio.Sync.Mutex.Clients.{
  contended, parked, ready, System, holds_as, moves, after_suspend, suspended_cancellable,
}
use elio.Sync.Mutex.Fits.{queues, Ready, Fits, Inv}
use elio.Sync.Mutex.Entering.{Fits-at, holds_at, cancelled_Inv}
use elio.Sync.Mutex.Claiming.{called_off, claim_own_Inv, not_cancelled-idle}
use elio.Sync.Mutex.Local.{
  Changed, Local-stay, Local-push, Local-push_remove, update-Changed, update-Changed_again,
  keep_Inv, acquire_Inv,
}
use elio.Sync.Mutex.Publishing.{
  published, unblocked, withdrawn, suspend_wait_through, suspend_wait_back, suspend_wait_not,
}

-- A waiter that waits, and one whose token cancelled it before it did.
abbrev waits : ℕ → Waiter → Waiter
waits handle w = record w {
  wake = record { handle = some handle; state = waiting; scheduled = [] };
  suspended = true;
}

abbrev anew : Waiter → Waiter
anew w = record w { wake = make_wake_state }

==-apart : {a b : ℕ} → (a == b) ≡ false → a ≢ b
==-apart q e = ground arith

module _ (s : System) (v : Inv s) (id : ℕ) (e : s.phase id ≡ contended) where
  abbrev w : Waiter
  w = s.mutex.nodes id

  parked_Inv :
      (nodes : ℕ → Waiter) (x : Waiter)
      → Changed id x s.mutex.nodes nodes
      → x.suspended ≡ true
      → x.resumed ≡ false
      → x.grant_pending ≡ false
      → x.wake.state ≡ waiting
      → x.wake.scheduled ≡ []
      → s.mutex.state ≢ 0
      → Inv (
          moves id parked none
            (record {
              state = s.mutex.state;
              waiters = s.mutex.waiters ++ (id ∷ []);
              nodes = nodes;
            })
            s)
  unfolding Fits holds_as
  parked_Inv nodes x c a b g q u locked =
      let begun = Fits-at s v id contended e in
      keep_Inv id parked x _ s _ v
        (Local-push id parked x s s.mutex.state nodes v.good c begun.unlinked)
        (record { suspended = a; not_resumed = b; standing = queues refl begun.no_schedule g q u })
        refl (λ z. absurd (locked z)) (g ∙ sym (holds_at s v id contended e))

  suspends_at_once :
      (handle : ℕ)
      → handle ≢ 0
      → w.cancellable ≡ false
      → s.mutex.state ≡ 0
      → Inv (
          moves id ready none
            (record {
              state = handle;
              waiters = s.mutex.waiters;
              nodes = update s.mutex.nodes id (anew w);
            })
            s)
  unfolding Fits holds_as
  suspends_at_once handle n c z =
      let begun = Fits-at s v id contended e in
      acquire_Inv id ready (anew w) _ s _ v
        (Local-stay id ready (anew w) s handle _ v.good (update-Changed id (anew w) s.mutex.nodes))
        (record {
          unlinked = begun.unlinked;
          no_schedule = begun.no_schedule;
          not_suspended = begun.not_suspended;
          decided = inl c;
        })
        z n (ground arith)

  pub suspends_Inv :
      (handle : ℕ)
      → handle ≢ 0
      → w.cancellable ≡ false
      → Inv (
          moves id
            (after_suspend (suspend_locked handle id s.mutex).0)
            none
            (suspend_locked handle id s.mutex).1
            s)
  unfolding suspend_locked take_state after_suspend Fits
  suspends_Inv handle n c =
      let begun = Fits-at s v id contended e in
      elim (Bool-cases (s.mutex.state == 0)) [
        | inl z ↦ rw z (suspends_at_once handle n c ((==_iff _ _).0 z))
        | inr z ↦ rw z (
            rw (set_handle_new handle) (
              parked_Inv _ (waits handle w) (update-Changed id (waits handle w) s.mutex.nodes) refl
                begun.not_resumed begun.not_granted refl refl (==-apart z)))
      ]

  -- A waiter that the token cancelled goes on without the lock.
  withdrawn_Ready :
      (x : Waiter)
      → x.suspended ≡ false
      → x.cancellable ≡ true
      → x.wake.state ≡ cancelled_inline
      → Ready x false (contains id s.to_schedule) × (holds_as ready x ≡ false)
  unfolding Fits holds_as was_cancelled
  withdrawn_Ready x a c q =
      let begun = Fits-at s v id contended e in
      (
        record {
          unlinked = refl;
          no_schedule = begun.no_schedule;
          not_suspended = a;
          decided = inr (inr q);
        },
        ground arith,
      )

  waits_not_Inv :
      (late : Bool) (handle : ℕ)
      → w.cancellable ≡ true
      → w.wake.state ≡ idle
      → let (b, m) = suspend_wait true late handle id s.mutex in
        Inv (moves id (after_suspend b) none m s)
  unfolding after_suspend Fits holds_as
  waits_not_Inv late handle c q =
      let begun = Fits-at s v id contended e in
      let x = record (withdrawn handle w) { suspended = w.suspended } in
      let (r, h) = withdrawn_Ready x begun.not_suspended c refl in
      subst (λ r. Inv (moves id (after_suspend r.0) none r.1 s))
        (sym (suspend_wait_not handle id s.mutex q late))
        (keep_Inv id ready x _ s _ v
          (Local-stay id ready x s s.mutex.state _ v.good (
            update-Changed_again id (called_off w) x s.mutex.nodes _
              (update-Changed id (called_off w) s.mutex.nodes)))
          (subst (λ b. Ready x b (contains id s.to_schedule)) (sym begun.unlinked) r) refl
          (λ z n. n) (h ∙ sym (holds_at s v id contended e)))

  waits_back_Inv :
      (handle : ℕ)
      → w.cancellable ≡ true
      → w.wake.state ≡ idle
      → s.mutex.state ≢ 0
      → let (b, m) = suspend_wait false true handle id s.mutex in
        Inv (moves id (after_suspend b) none m s)
  unfolding after_suspend Fits holds_as
  waits_back_Inv handle c q locked =
      let begun = Fits-at s v id contended e in
      let x = withdrawn handle w in
      let y = record x { suspended = true } in
      let (r, h) = withdrawn_Ready x refl c refl in
      subst (λ r. Inv (moves id (after_suspend r.0) none r.1 s))
        (sym (suspend_wait_back handle id s.mutex q))
        (keep_Inv id ready x _ s _ v
          (Local-push_remove id ready x s s.mutex.state _ v.good
            (update-Changed_again id y x s.mutex.nodes _ (
              update-Changed_again id y y s.mutex.nodes _ (
                update-Changed_again id (published handle w) y s.mutex.nodes _
                  (update-Changed id (published handle w) s.mutex.nodes))))
            begun.unlinked)
          r refl (λ z. absurd (locked z)) (h ∙ sym (holds_at s v id contended e)))

  waits_through_Inv :
      (handle : ℕ)
      → w.wake.state ≡ idle
      → s.mutex.state ≢ 0
      → let (b, m) = suspend_wait false false handle id s.mutex in
        Inv (moves id (after_suspend b) none m s)
  unfolding after_suspend Fits
  waits_through_Inv handle q locked =
      let begun = Fits-at s v id contended e in
      subst (λ r. Inv (moves id (after_suspend r.0) none r.1 s))
        (sym (suspend_wait_through handle id s.mutex q))
        (parked_Inv _ (unblocked handle w)
          (update-Changed_again id (published handle w) (unblocked handle w) s.mutex.nodes _
            (update-Changed id (published handle w) s.mutex.nodes))
          refl begun.not_resumed begun.not_granted refl begun.unscheduled locked)

  suspend_wait_Inv :
      (early late : Bool) (handle : ℕ)
      → w.cancellable ≡ true
      → w.wake.state ≡ idle
      → s.mutex.state ≢ 0
      → let (b, m) = suspend_wait early late handle id s.mutex in
        Inv (moves id (after_suspend b) none m s)
  suspend_wait_Inv true late handle c q locked = waits_not_Inv late handle c q
  suspend_wait_Inv false true handle c q locked = waits_back_Inv handle c q locked
  suspend_wait_Inv false false handle c q locked = waits_through_Inv handle q locked

  pub suspended_cancellable_Inv :
      (early late : Bool) (handle : ℕ)
      → handle ≢ 0
      → w.cancellable ≡ true
      → Inv (suspended_cancellable early late handle id s)
  unfolding suspended_cancellable await_suspend_cancellable take_state after_suspend Fits holds_as
  suspended_cancellable_Inv early late handle n c =
      let b = Fits-at s v id contended e in
      elim (Bool-cases (was_cancelled w.wake)) [
        | inl q ↦ rw q (cancelled_Inv s v id contended e b refl q)
        | inr q ↦ rw q (elim (Bool-cases (s.mutex.state == 0)) [
          | inr z ↦
              rw z
                (suspend_wait_Inv early late handle c (not_cancelled-idle _ _ _ b q) (==-apart z))
          | inl z ↦ rw z (
              claim_own_Inv s v id b c (not_cancelled-idle _ _ _ b q) ((==_iff _ _).0 z) handle n
                early)
        ])
      ]
