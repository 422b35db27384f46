-- ===== src/Sync/WakeState/Runs.antt =====
-- Any interleaving of the atomic steps that threads make on one wake_state.
use elio.Prelude.{
  ℕ, ◌≤◌, ◌≡◌, refl, ◌⊎◌, Bool, true, false, List, [], ◌∷◌, All, length, some, arith,
}
use elio.Sync.WakeState.{
  Status, waiting, notified_inline, cancelled_inline, notification_claimed, cancellation_claimed,
  notification_scheduling, cancellation_scheduling, abandoned, WakeState, make_wake_state,
  set_handle, set_handle_blocked, unblock_after_publish, claim_notification, claim_cancel,
  schedule_claimed, schedule_selected, was_cancelled, notification_was_selected, abandon,
}

-- request_cancel is the step `cancels`, and then `schedules_claimed` if it found a waiter.
pub data Op : Type 0 where
  sets_handle sets_handle_blocked : ℕ → Op
  unblocks claims cancels schedules_claimed schedules_selected abandons : Op

pub apply : Op → WakeState → WakeState
apply (sets_handle h) w = set_handle h w
apply (sets_handle_blocked h) w = (set_handle_blocked h w).1
apply unblocks w = (unblock_after_publish w).1
apply claims w = (claim_notification w).1
apply cancels w = (claim_cancel w).2
apply schedules_claimed w = (schedule_claimed w).1
apply schedules_selected w = (schedule_selected w).1
apply abandons w = abandon w

pub run : List Op → WakeState → WakeState
run [] w = w
run (o ∷ os) w = run os (apply o w)

-- How often a state says that the coroutine has been handed to the scheduler.
calls : Status → ℕ
calls notification_scheduling = 1
calls cancellation_scheduling = 1
calls s = 0

apply-calls :
    (o : Op) (w : WakeState)
    → length w.scheduled ≡ calls w.state
    → length (apply o w).scheduled ≡ calls (apply o w).state
unfolding apply calls set_handle set_handle_blocked unblock_after_publish claim_notification
    claim_cancel schedule_claimed schedule_selected abandon
apply-calls (sets_handle h) w i = ground arith
apply-calls o w i = ground arith

run-calls :
    (os : List Op) (w : WakeState)
    → length w.scheduled ≡ calls w.state
    → length (run os w).scheduled ≡ calls (run os w).state
unfolding run
run-calls [] w i = i
run-calls (o ∷ os) w i = run-calls os (apply o w) (apply-calls o w i)

calls-le : (s : Status) → calls s ≤ 1
unfolding calls
calls-le s = ground arith

-- However the threads' steps interleave, the coroutine is handed to the scheduler at most once.
pub run_scheduled_once : (os : List Op) → length (run os make_wake_state).scheduled ≤ 1
unfolding make_wake_state calls
run_scheduled_once os =
    omega (arith, run-calls os make_wake_state refl, calls-le (run os make_wake_state).state)

-- The states after completion was selected, with those of an abandoned waiter.
completing : Status → Bool
completing notified_inline = true
completing notification_claimed = true
completing notification_scheduling = true
completing abandoned = true
completing s = false

-- The states after cancellation was selected, likewise.
cancelling : Status → Bool
cancelling cancelled_inline = true
cancelling cancellation_claimed = true
cancelling cancellation_scheduling = true
cancelling abandoned = true
cancelling s = false

apply-completing :
    (o : Op) (w : WakeState) → completing w.state ≡ true → completing (apply o w).state ≡ true
unfolding apply completing set_handle set_handle_blocked unblock_after_publish claim_notification
    claim_cancel schedule_claimed schedule_selected abandon
apply-completing (sets_handle h) w c = ground arith
apply-completing o w c = ground arith

apply-cancelling :
    (o : Op) (w : WakeState) → cancelling w.state ≡ true → cancelling (apply o w).state ≡ true
unfolding apply cancelling set_handle set_handle_blocked unblock_after_publish claim_notification
    claim_cancel schedule_claimed schedule_selected abandon
apply-cancelling (sets_handle h) w c = ground arith
apply-cancelling o w c = ground arith

run-completing :
    (os : List Op) (w : WakeState) → completing w.state ≡ true → completing (run os w).state ≡ true
unfolding run
run-completing [] w c = c
run-completing (o ∷ os) w c = run-completing os (apply o w) (apply-completing o w c)

run-cancelling :
    (os : List Op) (w : WakeState) → cancelling w.state ≡ true → cancelling (run os w).state ≡ true
unfolding run
run-cancelling [] w c = c
run-cancelling (o ∷ os) w c = run-cancelling os (apply o w) (apply-cancelling o w c)

completing-not_cancelled : (w : WakeState) → completing w.state ≡ true → was_cancelled w ≡ false
unfolding completing was_cancelled
completing-not_cancelled w c = ground arith

cancelling-not_selected :
    (w : WakeState) → cancelling w.state ≡ true → notification_was_selected w ≡ false
unfolding cancelling notification_was_selected
cancelling-not_selected w c = ground arith

selected-completing :
    (w : WakeState) → notification_was_selected w ≡ true → completing w.state ≡ true
unfolding completing notification_was_selected
selected-completing w h = ground arith

cancelled-cancelling : (w : WakeState) → was_cancelled w ≡ true → cancelling w.state ≡ true
unfolding cancelling was_cancelled
cancelled-cancelling w h = ground arith

-- The terminal result is selected once: after completion was selected no steps make the wait a
-- cancelled one, and after cancellation was selected none make it a completed one.
pub run_decided :
    (os : List Op) (w : WakeState)
    → (notification_was_selected w ≡ true → was_cancelled (run os w) ≡ false)
      × (was_cancelled w ≡ true → notification_was_selected (run os w) ≡ false)
run_decided os w = (
  λ h. completing-not_cancelled (run os w) (run-completing os w (selected-completing w h)),
  λ h. cancelling-not_selected (run os w) (run-cancelling os w (cancelled-cancelling w h)),
)

-- Steps of other threads than the one that owns the waiter: these neither set its handle nor
-- abandon it.
unfoldable pub foreign : Op → Bool
foreign (sets_handle h) = false
foreign (sets_handle_blocked h) = false
foreign abandons = false
foreign o = true

-- Claimed for the coroutine `h` and not scheduled yet, or scheduled.
HandsOver : ℕ → WakeState → Type 0
HandsOver h w =
    (w.handle ≡ some h)
    × (((w.state ≡ notification_claimed) × (w.scheduled ≡ []))
        ⊎ ((w.state ≡ notification_scheduling) × (w.scheduled ≡ some h ∷ [])))

apply-HandsOver :
    (o : Op) (h : ℕ) (w : WakeState) → foreign o ≡ true → HandsOver h w → HandsOver h (apply o w)
unfolding apply foreign HandsOver set_handle set_handle_blocked unblock_after_publish
    claim_notification claim_cancel schedule_claimed schedule_selected abandon
apply-HandsOver (sets_handle k) h w f v = cc
apply-HandsOver o h w f v = ground arith

run-HandsOver :
    (os : List Op) (h : ℕ) (w : WakeState)
    → All (λ o. foreign o ≡ true) os
    → HandsOver h w
    → HandsOver h (run os w)
unfolding run
run-HandsOver [] h w f v = v
run-HandsOver (o ∷ os) h w f v = run-HandsOver os h (apply o w) f.1 (apply-HandsOver o h w f.0 v)

-- A waiter that waits for the coroutine `h`, with nothing scheduled before, is resumed when it is
-- claimed: when the claimant calls schedule_selected, after whatever steps of other threads, the
-- coroutine has been scheduled, once. The other threads neither set the handle nor abandon the waiter.
pub claim-schedule_selected :
    (os : List Op) (h : ℕ) (w : WakeState)
    → w.state ≡ waiting
    → w.handle ≡ some h
    → w.scheduled ≡ []
    → All (λ o. foreign o ≡ true) os
    → (schedule_selected (run os (claim_notification w).1)).1.scheduled ≡ some h ∷ []
unfolding HandsOver claim_notification schedule_selected
claim-schedule_selected os h w s e n f =
    ground (arith, run-HandsOver os h (claim_notification w).1 f)
