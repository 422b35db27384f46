-- ===== src/Sync/Mutex/Rewaking.antt =====
-- What the callback of the token and the scheduler make of a waiter.
use elio.Prelude.{◌≡◌, refl, inl, inr, Bool, true, arith}
use elio.Sync.WakeState.{WakeState, request_cancel, schedule_selected}
use elio.Sync.WakeState.Cases.{
  request_cancel_idle, request_cancel-waiting, request_cancel_decided, schedule_selected_open,
  schedule_selected_done,
}
use elio.Sync.Semaphore.{Waiter}
use elio.Sync.Mutex.Clients.{
  Phase, fresh, built, contended, parked, ready, owner, refused, finished, holds_as, is_woken,
}
use elio.Sync.Mutex.Fits.{Begun, Standing, queues, leaves, has, is_chosen, wakes, Ready, Fits}

-- A waiter with another wake state.
abbrev pub rewoken : Waiter → WakeState → Waiter
rewoken w x = record w { wake = x }

cancelled_Standing :
    (w : Waiter) (linked pending : Bool)
    → w.cancellable ≡ true
    → Standing w linked pending
    → Standing (rewoken w (request_cancel w.wake).1) linked pending
unfolding is_woken
cancelled_Standing w linked pending c (queues l d g q u) =
    rw (request_cancel-waiting w.wake q) (leaves d g c refl refl)
cancelled_Standing w linked pending c (leaves d g k q a) =
    rw (request_cancel_decided w.wake (inr (inl q))) (leaves d g k q a)
cancelled_Standing w linked pending c (has l g k q u d) = cc
cancelled_Standing w linked pending c (is_chosen l g q u d) =
    rw (request_cancel_decided w.wake (inr (inr (inr (inl q))))) (is_chosen l g q u d)
cancelled_Standing w linked pending c (wakes l g q a) =
    rw (request_cancel_decided w.wake (inr (inr (inr (inr q))))) (wakes l g q a)

cancelled_Begun :
    (w : Waiter) (linked pending : Bool)
    → w.cancellable ≡ true
    → Begun w linked pending
    → Begun (rewoken w (request_cancel w.wake).1) linked pending
cancelled_Begun w linked pending c b = elim b.undecided [
  | inl q ↦ rw (request_cancel_idle w.wake q) (record {
    unlinked = b.unlinked;
    no_schedule = b.no_schedule;
    not_suspended = b.not_suspended;
    not_resumed = b.not_resumed;
    not_granted = b.not_granted;
    unscheduled = b.unscheduled;
    undecided = inr (c, refl);
  })
  | inr (k, q) ↦ rw (request_cancel_decided w.wake (inl q)) b
]

cancelled_Ready :
    (w : Waiter) (linked pending : Bool)
    → w.cancellable ≡ true
    → Ready w linked pending
    → (request_cancel w.wake).1 ≡ w.wake
cancelled_Ready w linked pending c r = elim r.decided [
  | inl k ↦ cc
  | inr (inl q) ↦ request_cancel_decided w.wake (inr (inr (inl q)))
  | inr (inr q) ↦ request_cancel_decided w.wake (inl q)
]

pub cancelled_Fits :
    (p : Phase) (w : Waiter) (linked pending : Bool)
    → w.cancellable ≡ true
    → Fits p w linked pending
    → Fits p (rewoken w (request_cancel w.wake).1) linked pending
      × (holds_as p (rewoken w (request_cancel w.wake).1) ≡ holds_as p w)
unfolding Fits holds_as
cancelled_Fits fresh w linked pending c f = (f, refl)
cancelled_Fits built w linked pending c f = (cancelled_Begun w linked pending c f, refl)
cancelled_Fits contended w linked pending c f = (cancelled_Begun w linked pending c f, refl)
cancelled_Fits parked w linked pending c f = (
  record {
    suspended = f.suspended;
    not_resumed = f.not_resumed;
    standing = cancelled_Standing w linked pending c f.standing;
  },
  refl,
)
cancelled_Fits ready w linked pending c f = rw (cancelled_Ready w linked pending c f) (f, refl)
cancelled_Fits owner w linked pending c f = (f, refl)
cancelled_Fits refused w linked pending c f = (f, refl)
cancelled_Fits finished w linked pending c f = (f, refl)

-- Only a parked waiter that was granted the lock, or one that is past its wait, is to be scheduled.
scheduled_Standing :
    (w : Waiter) (linked : Bool)
    → Standing w linked true
    → Standing (rewoken w (schedule_selected w.wake).1) linked true
unfolding is_woken
scheduled_Standing w linked (queues l d g q u) = cc
scheduled_Standing w linked (leaves d g k q a) = cc
scheduled_Standing w linked (has l g k q u d) =
    rw (schedule_selected_open w.wake (inl q)) (wakes l g refl refl)
scheduled_Standing w linked (is_chosen l g q u d) =
    rw (schedule_selected_open w.wake (inr q)) (wakes l g refl refl)
scheduled_Standing w linked (wakes l g q a) = rw (schedule_selected_done w.wake q) (wakes l g q a)

pub scheduled_Fits :
    (p : Phase) (w : Waiter) (linked : Bool)
    → Fits p w linked true
    → Fits p (rewoken w (schedule_selected w.wake).1) linked true
      × (holds_as p (rewoken w (schedule_selected w.wake).1) ≡ holds_as p w)
unfolding Fits holds_as
scheduled_Fits fresh w linked f = cc
scheduled_Fits built w linked f = ground (arith, f.no_schedule)
scheduled_Fits contended w linked f = ground (arith, f.no_schedule)
scheduled_Fits parked w linked f = (
  record {
    suspended = f.suspended;
    not_resumed = f.not_resumed;
    standing = scheduled_Standing w linked f.standing;
  },
  refl,
)
scheduled_Fits ready w linked f = ground (arith, f.no_schedule)
scheduled_Fits owner w linked f = (f, refl)
scheduled_Fits refused w linked f = (f, refl)
scheduled_Fits finished w linked f = (f, refl)
