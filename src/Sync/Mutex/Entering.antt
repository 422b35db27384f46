-- ===== src/Sync/Mutex/Entering.antt =====
-- The steps by which a client builds its waiter and asks for the lock without suspending.
use elio.Prelude.{
  ℕ, ◌≡◌, ◌≢◌, refl, ◌∙◌, sym, ap, inl, inr, Bool, true, false, none, arith, subst, ◌==◌,
  Bool-cases, ==_iff,
}
use elio.Sync.WakeState.{idle, make_wake_state, was_cancelled}
use elio.Sync.Semaphore.{Waiter, new_waiter, contains}
use elio.Sync.Mutex.{try_lock, take_state, put}
use elio.Sync.Mutex.Clients.{
  Phase, fresh, built, contended, ready, System, holds, holds_as, note, moves, after_try,
  after_recheck,
}
use elio.Sync.Mutex.Fits.{Begun, Ready, Fits, Inv}
use elio.Sync.Mutex.Local.{
  Changed, Local-stay, unchanged-Changed, update-Changed, keep_Inv, acquire_Inv,
}

idle-not_cancelled : (w : Waiter) → w.wake.state ≡ idle → was_cancelled w.wake ≡ true → ⊥
unfolding was_cancelled
idle-not_cancelled w e h = ground arith

module _ (s : System) (v : Inv s) (id : ℕ) where
  pub Fits-at :
      (p : Phase)
      → s.phase id ≡ p
      → Fits p (s.mutex.nodes id) (contains id s.mutex.waiters) (contains id s.to_schedule)
  Fits-at p e =
      subst
        (λ q. Fits q (s.mutex.nodes id) (contains id s.mutex.waiters) (contains id s.to_schedule)) e
        (v.good.fits id)

  pub holds_at : (p : Phase) → s.phase id ≡ p → holds s id ≡ holds_as p (s.mutex.nodes id)
  unfolding holds
  holds_at p e = ap (λ q. holds_as q (s.mutex.nodes id)) e

  -- The waiter stays as it is.
  pub same_nodes : Changed id (s.mutex.nodes id) s.mutex.nodes s.mutex.nodes
  same_nodes = unchanged-Changed id (s.mutex.nodes id) s.mutex.nodes refl

  pub builds_Inv :
      (cancellable : Bool)
      → s.phase id ≡ fresh
      → Inv (moves id built none (put id (new_waiter cancellable) s.mutex) s)
  unfolding Fits holds_as new_waiter make_wake_state note
  builds_Inv cancellable e =
      let w = new_waiter cancellable in
      let (unlinked, no_schedule, idles) = Fits-at fresh e in
      keep_Inv id built w _ s _ v
        (Local-stay id built w s s.mutex.state _ v.good (update-Changed id w s.mutex.nodes))
        (record {
          unlinked = unlinked;
          no_schedule = no_schedule;
          not_suspended = refl;
          not_resumed = refl;
          not_granted = refl;
          unscheduled = refl;
          undecided = inl refl;
        })
        refl (λ z n. n) (sym (holds_at fresh e))

  pub same_waiter_keep :
      (p q : Phase)
      → s.phase id ≡ p
      → Fits q (s.mutex.nodes id) (contains id s.mutex.waiters) (contains id s.to_schedule)
      → holds_as q (s.mutex.nodes id) ≡ holds_as p (s.mutex.nodes id)
      → Inv (moves id q none s.mutex s)
  same_waiter_keep p q e f h =
      keep_Inv id q (s.mutex.nodes id) _ s _ v
        (Local-stay id q (s.mutex.nodes id) s s.mutex.state _ v.good same_nodes) f refl (λ z n. n)
        (h ∙ sym (holds_at p e))

  -- The exchange succeeds on a free mutex, and otherwise changes nothing.
  pub take_state_Inv :
      (value : ℕ) (after : Bool → Phase)
      → value ≢ 0
      → Fits
          (after true)
          (s.mutex.nodes id)
          (contains id s.mutex.waiters)
          (contains id s.to_schedule)
      → holds_as (after true) (s.mutex.nodes id) ≡ true
      → Inv (moves id (after false) none s.mutex s)
      → Inv (moves id (after (take_state value s.mutex).0) none (take_state value s.mutex).1 s)
  unfolding take_state
  take_state_Inv value after n f h kept = elim (Bool-cases (s.mutex.state == 0)) [
    | inr z ↦ rw z kept
    | inl z ↦ rw z (
        acquire_Inv id (after true) (s.mutex.nodes id) _ s _ v
          (Local-stay id (after true) (s.mutex.nodes id) s value _ v.good same_nodes) f
          ((==_iff _ _).0 z) n h)
  ]

  pub tries_Inv :
      s.phase id ≡ fresh
      → Inv (moves id (after_try (try_lock s.mutex).0) none (try_lock s.mutex).1 s)
  unfolding try_lock Fits holds_as after_try
  tries_Inv e =
      let (unlinked, no_schedule, idles) = Fits-at fresh e in
      take_state_Inv 1 after_try (omega arith) (unlinked, idles) refl
        (same_waiter_keep fresh fresh e (unlinked, no_schedule, idles) refl)

  -- A waiter that has not suspended and has no token needs no claim.
  pub Ready-plain :
      Begun (s.mutex.nodes id) (contains id s.mutex.waiters) (contains id s.to_schedule)
      → (s.mutex.nodes id).cancellable ≡ false
      → Ready (s.mutex.nodes id) (contains id s.mutex.waiters) (contains id s.to_schedule)
        × (holds_as ready (s.mutex.nodes id) ≡ true)
  unfolding holds_as
  Ready-plain b c = (
    record {
      unlinked = b.unlinked;
      no_schedule = b.no_schedule;
      not_suspended = b.not_suspended;
      decided = inl c;
    },
    ground arith,
  )

  pub rechecks_Inv :
      (handle : ℕ)
      → handle ≢ 0
      → s.phase id ≡ contended
      → (s.mutex.nodes id).cancellable ≡ false
      → Inv (
          moves id
            (after_recheck (take_state handle s.mutex).0)
            none
            (take_state handle s.mutex).1
            s)
  unfolding Fits after_recheck holds_as
  rechecks_Inv handle n e c =
      let b = Fits-at contended e in
      let (r, h) = Ready-plain b c in
      take_state_Inv handle after_recheck n r h (same_waiter_keep contended contended e b refl)

  -- A cancelled waiter goes on to await_resume without the lock.
  pub cancelled_Inv :
      (p : Phase)
      → s.phase id ≡ p
      → Begun (s.mutex.nodes id) (contains id s.mutex.waiters) (contains id s.to_schedule)
      → holds_as p (s.mutex.nodes id) ≡ false
      → was_cancelled (s.mutex.nodes id).wake ≡ true
      → Inv (moves id ready none s.mutex s)
  unfolding Fits holds_as
  cancelled_Inv p e b h c = elim b.undecided [
    | inl i ↦ absurd (idle-not_cancelled (s.mutex.nodes id) i c)
    | inr (k, i) ↦
        same_waiter_keep p ready e
          (record {
            unlinked = b.unlinked;
            no_schedule = b.no_schedule;
            not_suspended = b.not_suspended;
            decided = inr (inr i);
          })
          (ground arith)
  ]
