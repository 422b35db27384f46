-- ===== src/Sync/Mutex/Leaving.antt =====
-- Cancellation, scheduling, unlocking and the destruction of a waiter.
use elio.Prelude.{
  ℕ, ◌≡◌, refl, ◌∙◌, sym, ap, inl, inr, Bool, true, false, Option, none, arith, subst, Bool-cases,
}
use elio.Sync.WakeState.{WakeState, schedule_selected, abandon}
use elio.Sync.Semaphore.{Waiter, contains, remove}
use elio.Sync.Mutex.{
  Mutex, put, cancel_waiter, schedule_wake_state, destroy, recover_cancelled_handoff,
}
use elio.Sync.Mutex.Clients.{
  Phase, fresh, built, contended, parked, ready, owner, refused, finished, System, holds_as, note,
  moves, can_destroy, after_destroy, unlocked, destroyed,
}
use elio.Sync.Mutex.Fits.{Standing, queues, leaves, has, is_chosen, wakes, Fits, Inv}
use elio.Sync.Mutex.Entering.{Fits-at, holds_at, same_waiter_keep, same_nodes}
use elio.Sync.Mutex.Local.{Local-stay, Local-remove, update-Changed, keep_Inv, release_Inv}
use elio.Sync.Semaphore.Permits.{update_self, update_other}
use elio.Sync.Mutex.Rewaking.{rewoken, cancelled_Fits, scheduled_Fits}

abbrev gone : Waiter → Waiter
gone w = rewoken w (abandon w.wake)

abbrev pub given_up : Waiter → Waiter
given_up w = record w { wake = abandon w.wake; grant_pending = false }

module _ (id : ℕ) (m : Mutex) (q : (m.nodes id).suspended ≡ true) where
  destroy_linked :
      contains id m.waiters ≡ true
      → destroy id m
        ≡ (none, record (put id (gone (m.nodes id)) m) { waiters = remove id m.waiters })
  unfolding destroy
  destroy_linked l = ground arith

  pub destroy_granted :
      contains id m.waiters ≡ false
      → (m.nodes id).grant_pending ≡ true
      → (m.nodes id).resumed ≡ false
      → destroy id m ≡ recover_cancelled_handoff (put id (given_up (m.nodes id)) m)
  unfolding destroy
  destroy_granted l g r = ground arith

  destroy_dropped :
      contains id m.waiters ≡ false
      → (m.nodes id).grant_pending ≡ false
      → destroy id m ≡ (none, put id (gone (m.nodes id)) m)
  unfolding destroy
  destroy_dropped l g = ground arith

module _ (s : System) (v : Inv s) (id : ℕ) where
  abbrev w : Waiter
  w = s.mutex.nodes id

  -- Another wake state for the waiter, whose client stays where it is.
  rewoken_Inv :
      (x : WakeState)
      → Fits (s.phase id) (rewoken w x) (contains id s.mutex.waiters) (contains id s.to_schedule)
      → holds_as (s.phase id) (rewoken w x) ≡ holds_as (s.phase id) w
      → Inv (record s { mutex = put id (rewoken w x) s.mutex })
  rewoken_Inv x f h =
      keep_Inv id (s.phase id) (rewoken w x) _ s _ v
        (record {
          phase_self = refl;
          node_self = update_self s.mutex.nodes id (rewoken w x);
          linked_self = refl;
          schedule_self = refl;
          phase_other = λ j u. refl;
          node_other = λ j u. update_other s.mutex.nodes id (rewoken w x) j u;
          linked_other = λ j u. refl;
          schedule_other = λ j u. refl;
          distinct = v.good.distinct;
        })
        f refl (λ z n. n) (h ∙ sym (holds_at s v id (s.phase id) refl))

  pub cancels_Inv : w.cancellable ≡ true → Inv (record s { mutex = cancel_waiter id s.mutex })
  unfolding cancel_waiter
  cancels_Inv c =
      let (f, h) = cancelled_Fits (s.phase id) w _ _ c (v.good.fits id) in rewoken_Inv _ f h

  pub schedules_Inv :
      contains id s.to_schedule ≡ true → Inv (record s { mutex = schedule_wake_state id s.mutex })
  unfolding schedule_wake_state
  schedules_Inv c =
      let (f, h) =
        scheduled_Fits (s.phase id) w _
          (subst (Fits (s.phase id) w (contains id s.mutex.waiters)) c (v.good.fits id)) in
      rewoken_Inv _
        (subst
          (Fits (s.phase id) (rewoken w (schedule_selected w.wake).1) (contains id s.mutex.waiters))
          (sym c) f)
        h

  pub unlocks_Inv : s.phase id ≡ owner → Inv (unlocked id s)
  unfolding unlocked Fits holds_as note
  unlocks_Inv e =
      let (l, q) = Fits-at s v id owner e in
      release_Inv id finished w _ s _ v
        (Local-stay id finished w s s.mutex.state _ v.good (same_nodes s v id)) l
        (inr (holds_at s v id owner e)) refl

  destroys_unsuspended :
      (p : Phase)
      → s.phase id ≡ p
      → Fits p w (contains id s.mutex.waiters) (contains id s.to_schedule)
      → w.suspended ≡ false
      → (let (o, m) = destroy id s.mutex in Inv (moves id p o m s))
  unfolding destroy
  destroys_unsuspended p e f q = rw q (same_waiter_keep s v id p p e f refl)

  -- A linked waiter has not been granted the lock.
  linked-not_granted :
      (linked pending : Bool) → Standing w linked pending → linked ≡ true → w.grant_pending ≡ false
  linked-not_granted linked pending (queues l d g q u) h = g
  linked-not_granted linked pending (leaves d g k q a) h = g
  linked-not_granted linked pending (has l g k q u d) h = cc
  linked-not_granted linked pending (is_chosen l g q u d) h = cc
  linked-not_granted linked pending (wakes l g q a) h = cc

  destroys_parked :
      s.phase id ≡ parked → (let (o, m) = destroy id s.mutex in Inv (moves id finished o m s))
  unfolding Fits holds_as note remove
  destroys_parked e =
      let p = Fits-at s v id parked e in
      let x = gone w in
      let held = holds_at s v id parked e in
      let left : Option ℕ × Mutex → Type 0 = λ r. Inv (moves id finished r.0 r.1 s) in
      elim (Bool-cases (contains id s.mutex.waiters)) [
        | inl l ↦ subst left (sym (destroy_linked id s.mutex p.suspended l)) (
            keep_Inv id finished x _ s _ v
              (Local-remove id finished x s s.mutex.state _ v.good
                (update-Changed id x s.mutex.nodes))
              refl refl (λ z n. ap (remove id) n)
              (sym (held ∙ linked-not_granted _ _ p.standing l)))
        | inr l ↦ elim (Bool-cases w.grant_pending) [
          | inl g ↦ subst left (sym (destroy_granted id s.mutex p.suspended l g p.not_resumed)) (
              release_Inv id finished (given_up w) _ s _ v
                (Local-stay id finished (given_up w) s s.mutex.state _ v.good
                  (update-Changed id (given_up w) s.mutex.nodes))
                l (inr (held ∙ g)) refl)
          | inr g ↦ subst left (sym (destroy_dropped id s.mutex p.suspended l g)) (
              keep_Inv id finished x _ s _ v
                (Local-stay id finished x s s.mutex.state _ v.good
                  (update-Changed id x s.mutex.nodes))
                l refl (λ z n. n) (sym (held ∙ g)))
        ]
      ]

  destroys_as :
      (p : Phase)
      → s.phase id ≡ p
      → can_destroy p ≡ true
      → (let (o, m) = destroy id s.mutex in Inv (moves id (after_destroy p) o m s))
  unfolding can_destroy after_destroy Fits
  destroys_as parked e c = destroys_parked e
  destroys_as owner e c = let f = Fits-at s v id owner e in destroys_unsuspended owner e f f.1
  destroys_as refused e c = let f = Fits-at s v id refused e in destroys_unsuspended refused e f f.1
  destroys_as fresh e c = cc
  destroys_as built e c = cc
  destroys_as contended e c = cc
  destroys_as ready e c = cc
  destroys_as finished e c = cc

  pub destroys_Inv : can_destroy (s.phase id) ≡ true → Inv (destroyed id s)
  unfolding destroyed
  destroys_Inv c = destroys_as (s.phase id) refl c
