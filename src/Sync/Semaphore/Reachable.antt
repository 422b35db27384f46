-- ===== src/Sync/Semaphore/Reachable.antt =====
-- The semaphore under any order of operations of any waiters.
use elio.Prelude.{ℕ, ◌≡◌, refl, inr, Bool, false, arith}
use elio.Sync.Semaphore.{
  Semaphore, new_waiter, new_semaphore, contains, try_acquire, release_locked, schedule_wake_state,
  cancel_waiter, await_ready, await_suspend_non_cancellable, await_suspend_cancellable,
  await_resume, destroy, put,
}
use elio.Sync.Semaphore.Permits.{
  IsValid, IsDistinct, try_acquire-IsValid, release_locked-IsValid, await_ready-IsValid,
  suspend_non_cancellable-IsValid, suspend_take-IsValid, suspend_wait-IsValid, await_resume-IsValid,
  destroy-IsValid,
}

-- One operation. A waiter is built, and suspends, while it is not linked.
pub data Step (s : Semaphore) : Semaphore → Type 0 where
  builds :
      (cancellable : Bool) (id : ℕ)
      → contains id s.waiters ≡ false
      → Step s (put id (new_waiter cancellable) s)
  tries : Step s (try_acquire s).1
  readies : (late : Bool) (id : ℕ) → Step s (await_ready late id s).1
  suspends :
      (handle id : ℕ)
      → contains id s.waiters ≡ false
      → Step s (await_suspend_non_cancellable handle id s).1
  suspends_cancellable :
      (early late : Bool) (handle id : ℕ)
      → contains id s.waiters ≡ false
      → Step s (await_suspend_cancellable early late handle id s).1
  resumes : (id : ℕ) → Step s (await_resume id s).1
  cancels : (id : ℕ) → Step s (cancel_waiter id s)
  releases : (n : ℕ) → Step s (release_locked n s).1
  schedules : (id : ℕ) → Step s (schedule_wake_state id s)
  destroys : (id : ℕ) → Step s (destroy id s)

pub data Reachable : Semaphore → Type 0 where
  initially : (n : ℕ) → Reachable (new_semaphore n)
  then_by : {s s' : Semaphore} → Reachable s → Step s s' → Reachable s'

suspend_cancellable-IsValid :
    (early late : Bool) (handle id : ℕ) (s : Semaphore)
    → contains id s.waiters ≡ false
    → IsValid s
    → IsValid (await_suspend_cancellable early late handle id s).1
unfolding await_suspend_cancellable
suspend_cancellable-IsValid early late handle id s h v =
    ground (arith, suspend_take-IsValid early id s v, suspend_wait-IsValid early late handle id s)

schedule_wake_state-IsValid :
    (id : ℕ) (s : Semaphore) → IsValid s → IsValid (schedule_wake_state id s)
unfolding IsValid schedule_wake_state
schedule_wake_state-IsValid id s v = v

cancel_waiter-IsValid : (id : ℕ) (s : Semaphore) → IsValid s → IsValid (cancel_waiter id s)
unfolding IsValid cancel_waiter
cancel_waiter-IsValid id s v = v

Step-IsValid : {s s' : Semaphore} → Step s s' → IsValid s → IsValid s'
unfolding IsValid
Step-IsValid (builds cancellable id h) v = v
Step-IsValid tries v = try_acquire-IsValid _ v
Step-IsValid (readies late id) v = await_ready-IsValid late id _ v
Step-IsValid (suspends handle id h) v = suspend_non_cancellable-IsValid handle id _ h v
Step-IsValid (suspends_cancellable early late handle id h) v =
    suspend_cancellable-IsValid early late handle id _ h v
Step-IsValid (resumes id) v = await_resume-IsValid id _ v
Step-IsValid (cancels id) v = cancel_waiter-IsValid id _ v
Step-IsValid (releases n) v = release_locked-IsValid n _ v
Step-IsValid (schedules id) v = schedule_wake_state-IsValid id _ v
Step-IsValid (destroys id) v = destroy-IsValid id _ v

new_semaphore-IsValid : (n : ℕ) → IsValid (new_semaphore n)
unfolding IsValid new_semaphore IsDistinct
new_semaphore-IsValid n = (inr refl, tt)

-- Whatever operations of whatever waiters have run, in whatever order, with cancellations between
-- them, if no waiter is built again or suspends while it is linked: the semaphore keeps no permit while a waiter is linked, and no waiter is linked twice.
pub Reachable-IsValid : {s : Semaphore} → Reachable s → IsValid s
Reachable-IsValid (initially n) = new_semaphore-IsValid n
Reachable-IsValid (then_by r t) = Step-IsValid t (Reachable-IsValid r)
