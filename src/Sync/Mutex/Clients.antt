-- ===== src/Sync/Mutex/Clients.antt =====
-- Any number of coroutines that use one mutex. A client is one wait: it builds its waiter, waits on
-- it as co_await does (await_ready, then await_suspend if that returns false, then await_resume), and
-- unlocks the mutex if it got it; a client that only calls try_lock builds none.
use elio.Prelude.{
  ℕ, ◌≡◌, ◌≢◌, Bool, true, false, not, ◌&&◌, List, [], ◌∷◌, Option, none, some, ◌==◌, if◌then◌else◌,
}
use elio.Sync.WakeState.{was_cancelled}
use elio.Sync.Semaphore.{Waiter, new_waiter, contains, CancelResult, completed, cancelled}
use elio.Sync.Mutex.{
  Mutex, new_mutex, put, try_lock, take_state, unlock_locked, schedule_wake_state, cancel_waiter,
  await_ready, suspend_locked, await_suspend_cancellable, await_resume, destroy,
}

-- Where a client stands. `ready`: it runs, and await_resume comes next; `parked`: it is suspended.
pub data Phase : Type 0 where
  fresh built contended parked ready owner refused finished : Phase

-- `to_schedule` lists the waiters whose wake state some thread has been given to schedule.
pub record System : Type 0 where
  pub mutex : Mutex
  pub phase : ℕ → Phase
  pub to_schedule : List ℕ

abbrev pub new_system : System
new_system = record { mutex = new_mutex; phase = λ i. fresh; to_schedule = [] }

unfoldable pub enter : (ℕ → Phase) → ℕ → Phase → ℕ → Phase
enter phase id p i = if i == id then p else phase i

unfoldable pub note : Option ℕ → List ℕ → List ℕ
note none l = l
note (some id) l = id ∷ l

-- A client goes to a phase by an operation that left this mutex.
abbrev pub moves : ℕ → Phase → Option ℕ → Mutex → System → System
moves id p o m s = record {
  mutex = m;
  phase = enter s.phase id p;
  to_schedule = note o s.to_schedule;
}

unfoldable pub after_try : Bool → Phase
after_try true = owner
after_try false = fresh

unfoldable pub after_ready : Bool → Phase
after_ready true = ready
after_ready false = contended

unfoldable pub after_recheck : Bool → Phase
after_recheck true = ready
after_recheck false = contended

unfoldable pub after_suspend : Bool → Phase
after_suspend true = parked
after_suspend false = ready

unfoldable pub after_resume : CancelResult → Phase
after_resume completed = owner
after_resume cancelled = refused

-- Whether the runtime has been given the waiter's coroutine to resume.
unfoldable pub is_woken : Waiter → Bool
is_woken w = elim w.wake.scheduled [ [] ↦ false | h ∷ hs ↦ true ]

-- Whether await_resume comes next: the client never suspended, or its handle has been scheduled.
unfoldable pub can_resume : Phase → Waiter → Bool
unfolding is_woken
can_resume ready w = true
can_resume parked w = is_woken w
can_resume p w = false

-- When a waiter may be destroyed: while its coroutine is suspended, or after its co_await.
unfoldable pub can_destroy : Phase → Bool
can_destroy parked = true
can_destroy owner = true
can_destroy refused = true
can_destroy p = false

-- Destroying a waiter ends a suspended client; an owner still owns the mutex.
unfoldable pub after_destroy : Phase → Phase
after_destroy parked = finished
after_destroy p = p

unfoldable pub readied : Bool → ℕ → System → System
readied late id s = let (b, o, m) = await_ready late id s.mutex in moves id (after_ready b) o m s

unfoldable pub suspended_cancellable : Bool → Bool → ℕ → ℕ → System → System
suspended_cancellable early late handle id s =
    let (b, o, m) = await_suspend_cancellable early late handle id s.mutex in
    moves id (after_suspend b) o m s

unfoldable pub unlocked : ℕ → System → System
unlocked id s = let (o, m) = unlock_locked s.mutex in moves id finished o m s

unfoldable pub destroyed : ℕ → System → System
destroyed id s = let (o, m) = destroy id s.mutex in moves id (after_destroy (s.phase id)) o m s

-- One step of one thread. The address of a coroutine is not null. Only an owner unlocks.
pub data Step (s : System) : System → Type 0 where
  builds :
      (cancellable : Bool) (id : ℕ)
      → s.phase id ≡ fresh
      → Step s (moves id built none (put id (new_waiter cancellable) s.mutex) s)
  tries :
      (id : ℕ)
      → s.phase id ≡ fresh
      → Step s (moves id (after_try (try_lock s.mutex).0) none (try_lock s.mutex).1 s)
  readies : (late : Bool) (id : ℕ) → s.phase id ≡ built → Step s (readied late id s)
  rechecks :
      (handle id : ℕ)
      → handle ≢ 0
      → s.phase id ≡ contended
      → (s.mutex.nodes id).cancellable ≡ false
      → Step s (
          moves id
            (after_recheck (take_state handle s.mutex).0)
            none
            (take_state handle s.mutex).1
            s)
  suspends :
      (handle id : ℕ)
      → handle ≢ 0
      → s.phase id ≡ contended
      → (s.mutex.nodes id).cancellable ≡ false
      → Step s (
          moves id
            (after_suspend (suspend_locked handle id s.mutex).0)
            none
            (suspend_locked handle id s.mutex).1
            s)
  suspends_cancellable :
      (early late : Bool) (handle id : ℕ)
      → handle ≢ 0
      → s.phase id ≡ contended
      → (s.mutex.nodes id).cancellable ≡ true
      → Step s (suspended_cancellable early late handle id s)
  resumes :
      (id : ℕ)
      → can_resume (s.phase id) (s.mutex.nodes id) ≡ true
      → Step s
          (moves id (after_resume (await_resume id s.mutex).0) none (await_resume id s.mutex).1 s)
  cancels :
      (id : ℕ)
      → s.phase id ≢ fresh
      → (s.mutex.nodes id).cancellable ≡ true
      → Step s (record s { mutex = cancel_waiter id s.mutex })
  unlocks : (id : ℕ) → s.phase id ≡ owner → Step s (unlocked id s)
  schedules :
      (id : ℕ)
      → contains id s.to_schedule ≡ true
      → Step s (record s { mutex = schedule_wake_state id s.mutex })
  destroys : (id : ℕ) → can_destroy (s.phase id) ≡ true → Step s (destroyed id s)

pub data Reach : System → Type 0 where
  start : Reach new_system
  later : {s t : System} → Reach s → Step s t → Reach t

-- Whether a client has the lock, or will have it when await_resume returns.
unfoldable pub holds_as : Phase → Waiter → Bool
holds_as owner w = true
holds_as ready w = not (w.cancellable && was_cancelled w.wake)
holds_as parked w = w.grant_pending
holds_as p w = false

unfoldable pub holds : System → ℕ → Bool
holds s i = holds_as (s.phase i) (s.mutex.nodes i)
