-- ===== src/Sync/Mutex/Fits.antt =====
-- What is true of a waiter at each phase of its client.
use elio.Prelude.{ℕ, ◌≡◌, ◌≢◌, ◌⊎◌, Bool, true, false, [], Option, none, some}
use elio.Sync.WakeState.{
  idle, waiting, cancelled_inline, notified_inline, notification_claimed, notification_scheduling,
  cancellation_scheduling,
}
use elio.Sync.Semaphore.{Waiter, contains}
use elio.Sync.Semaphore.Permits.{IsDistinct}
use elio.Sync.Mutex.Clients.{
  Phase, fresh, built, contended, parked, ready, finished, System, holds, is_woken,
}

-- A waiter that has not suspended, while its wake state is undecided or the token has cancelled it.
pub record Begun (w : Waiter) (linked pending : Bool) : Type 0 where
  pub unlinked : linked ≡ false
  pub no_schedule : pending ≡ false
  pub not_suspended : w.suspended ≡ false
  pub not_resumed : w.resumed ≡ false
  pub not_granted : w.grant_pending ≡ false
  pub unscheduled : w.wake.scheduled ≡ []
  pub undecided :
      (w.wake.state ≡ idle) ⊎ ((w.cancellable ≡ true) × (w.wake.state ≡ cancelled_inline))

-- A suspended waiter: queued; cancelled; granted without and with a token; and scheduled.
pub data Standing (w : Waiter) (linked pending : Bool) : Type 0 where
  queues :
      linked ≡ true
      → pending ≡ false
      → w.grant_pending ≡ false
      → w.wake.state ≡ waiting
      → w.wake.scheduled ≡ []
      → Standing w linked pending
  leaves :
      pending ≡ false
      → w.grant_pending ≡ false
      → w.cancellable ≡ true
      → w.wake.state ≡ cancellation_scheduling
      → is_woken w ≡ true
      → Standing w linked pending
  has :
      linked ≡ false
      → w.grant_pending ≡ true
      → w.cancellable ≡ false
      → w.wake.state ≡ waiting
      → w.wake.scheduled ≡ []
      → pending ≡ true
      → Standing w linked pending
  is_chosen :
      linked ≡ false
      → w.grant_pending ≡ true
      → w.wake.state ≡ notification_claimed
      → w.wake.scheduled ≡ []
      → pending ≡ true
      → Standing w linked pending
  wakes :
      linked ≡ false
      → w.grant_pending ≡ true
      → w.wake.state ≡ notification_scheduling
      → is_woken w ≡ true
      → Standing w linked pending

pub record Parked (w : Waiter) (linked pending : Bool) : Type 0 where
  pub suspended : w.suspended ≡ true
  pub not_resumed : w.resumed ≡ false
  pub standing : Standing w linked pending

-- A waiter whose await_resume comes without a suspension.
pub record Ready (w : Waiter) (linked pending : Bool) : Type 0 where
  pub unlinked : linked ≡ false
  pub no_schedule : pending ≡ false
  pub not_suspended : w.suspended ≡ false
  pub decided :
      (w.cancellable ≡ false)
      ⊎ ((w.wake.state ≡ notified_inline) ⊎ (w.wake.state ≡ cancelled_inline))

unfoldable pub Fits : Phase → Waiter → Bool → Bool → Type 0
Fits fresh w linked pending = (linked ≡ false) × (pending ≡ false) × (w.suspended ≡ false)
Fits built w linked pending = Begun w linked pending
Fits contended w linked pending = Begun w linked pending
Fits parked w linked pending = Parked w linked pending
Fits ready w linked pending = Ready w linked pending
Fits finished w linked pending = linked ≡ false
Fits p w linked pending = (linked ≡ false) × (w.suspended ≡ false)

-- Every waiter fits its client's phase, and none is linked twice.
pub record Good (s : System) : Type 0 where
  pub fits :
      (i : ℕ)
      → Fits (s.phase i) (s.mutex.nodes i) (contains i s.mutex.waiters) (contains i s.to_schedule)
  pub distinct : IsDistinct s.mutex.waiters

-- The mutex is free, nobody holds it and nobody waits, or it is locked and one client holds it and no other.
unfoldable pub Owned : System → Option ℕ → Type 0
Owned s none = (s.mutex.state ≡ 0) × (s.mutex.waiters ≡ []) × ((i : ℕ) → holds s i ≡ false)
Owned s (some i) = (s.mutex.state ≢ 0) × (holds s i ≡ true) × ((j : ℕ) → i ≢ j → holds s j ≡ false)

pub record Inv (s : System) : Type 0 where
  pub good : Good s
  pub holder : Option ℕ
  pub owned : Owned s holder
