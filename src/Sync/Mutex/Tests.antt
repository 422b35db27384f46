-- ===== src/Sync/Mutex/Tests.antt =====
-- Runs of the mutex, and instances of its theorems.
use elio.Prelude.{ℕ, ◌≡◌, refl, ◌↔◌, true, false, [], ◌∷◌, arith, some}
use elio.Sync.WakeState.{
  claim_notification, set_handle_blocked, unblock_after_publish, make_wake_state, was_cancelled,
}
use elio.Sync.Semaphore.{new_waiter, contains, update, claim_from, can_claim, grant}
use elio.Sync.Semaphore.Permits.{IsDistinct}
use elio.Sync.Mutex.{
  Mutex, new_mutex, put, try_lock, take_state, is_locked, await_ready, await_suspend_cancellable,
  suspend_wait, cancel_if, recover_cancelled_handoff, granted_nodes, unlock_locked, destroy,
}
use elio.Sync.Mutex.Clients.{
  built, System, new_system, moves, holds, holds_as, builds, tries, suspends_cancellable, readies,
  unlocks, Reach, start, later, after_try, readied, suspended_cancellable, unlocked, enter,
  after_ready, after_suspend,
}
use elio.Sync.Mutex.Exclusion.{Reach-exclusive, Reach-locked_iff}
use elio.Sync.Mutex.Handoff.{Handed, unlock-Handed, destroy-Handed}
use elio.Prelude.{none}

-- Client 1 locks the mutex, and client 2 waits for it with a token.
abbrev locked : System
locked =
    moves 1 (after_try (try_lock new_system.mutex).0) none (try_lock new_system.mutex).1 new_system

abbrev waiting : System
waiting =
    suspended_cancellable false false 8 2
      (readied false 2 (moves 2 built none (put 2 (new_waiter true) locked.mutex) locked))

abbrev handed : System
handed = unlocked 1 waiting

waiting_reached : Reach waiting
unfolding enter after_try try_lock take_state new_mutex readied await_ready update new_waiter
    was_cancelled make_wake_state after_ready
waiting_reached =
    later (later (later (later start (tries 1 refl)) (builds true 2 refl)) (readies false 2 refl))
      (suspends_cancellable false false 8 2 (omega arith) refl refl)

handed_reached : Reach handed
unfolding enter after_try try_lock take_state new_mutex readied await_ready update new_waiter
    was_cancelled make_wake_state after_ready suspended_cancellable await_suspend_cancellable
    after_suspend
handed_reached = later waiting_reached (unlocks 1 refl)

handed-holds : holds handed 2 ≡ true
unfolding enter after_try try_lock take_state new_mutex readied await_ready update new_waiter
    was_cancelled make_wake_state after_ready suspended_cancellable await_suspend_cancellable
    suspend_wait after_suspend holds holds_as unlocked recover_cancelled_handoff claim_from
    can_claim grant granted_nodes claim_notification set_handle_blocked unblock_after_publish
    cancel_if
handed-holds = refl

Reach-exclusive_example : ◌≡◌ {A = ℕ} 2 2
Reach-exclusive_example = Reach-exclusive 2 2 handed_reached handed-holds handed-holds

Reach-locked_iff_example : (is_locked handed.mutex ≡ true) ↔ ((i : ℕ) × (holds handed i ≡ true))
Reach-locked_iff_example = Reach-locked_iff handed_reached

waiting-IsDistinct : IsDistinct waiting.mutex.waiters
unfolding IsDistinct contains enter after_try try_lock take_state new_mutex readied await_ready
    update new_waiter was_cancelled make_wake_state after_ready suspended_cancellable
    await_suspend_cancellable suspend_wait after_suspend set_handle_blocked unblock_after_publish
    cancel_if
waiting-IsDistinct = (refl, tt)

unlock-Handed_example :
    Handed waiting.mutex (unlock_locked waiting.mutex).0 (unlock_locked waiting.mutex).1
unlock-Handed_example = unlock-Handed waiting.mutex waiting-IsDistinct

-- Waiter 3 has been given the lock and is destroyed before it resumes; waiter 4 waits.
abbrev granted : Mutex
granted = record {
  state = 1;
  waiters = 4 ∷ [];
  nodes =
      update (λ i. new_waiter false) 3
        (record (new_waiter false) { suspended = true; grant_pending = true });
}

granted_pending :
    IsDistinct granted.waiters
    × ((granted.nodes 3).suspended ≡ true)
    × ((granted.nodes 3).grant_pending ≡ true)
    × ((granted.nodes 3).resumed ≡ false)
    × (contains 3 granted.waiters ≡ false)
unfolding IsDistinct contains update new_waiter
granted_pending = ((refl, tt), refl, refl, refl, refl)

destroy-Handed_example : Handed granted (destroy 3 granted).0 (destroy 3 granted).1
destroy-Handed_example =
    destroy-Handed 3 granted granted_pending.0 granted_pending.1 granted_pending.2 granted_pending.3
      granted_pending.4

destroyed_passes_on : (destroy 3 granted).0 ≡ some 4
unfolding destroy contains update new_waiter recover_cancelled_handoff claim_from can_claim
destroyed_passes_on = refl
