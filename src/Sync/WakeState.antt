-- ===== src/Sync/WakeState.antt =====
-- include/elio/sync/detail/wake_state.hpp. An operation's compare-exchange loop writes once, by the
-- exchange that succeeds, and is one atomic step from the state that this exchange finds; a
-- coroutine handle is a number.
pub mod Runs
pub mod Cases
use elio.Prelude.{ℕ, Bool, true, false, List, [], ◌∷◌, Option, none, some}

pub data Status : Type 0 where
  idle blocked waiting notified_inline cancelled_inline notification_claimed : Status
  cancellation_claimed notification_scheduling cancellation_scheduling abandoned : Status

pub data WakeAction : Type 0 where
  rejected completed_inline schedule : WakeAction

-- `scheduled` lists the calls of runtime::schedule_handle, the last one first.
pub record WakeState : Type 0 where
  pub handle : Option ℕ
  pub state : Status
  pub scheduled : List (Option ℕ)

unfoldable pub make_wake_state : WakeState
make_wake_state = record { handle = none; state = idle; scheduled = [] }

abbrev to : WakeState → Status → WakeState
to w s = record w { state = s }

-- A change of state with the call of schedule_handle behind it.
abbrev resuming : WakeState → Status → WakeState
resuming w s = record w { state = s; scheduled = w.handle ∷ w.scheduled }

-- The exchange from `idle` fails in silence.
set_handle_at : WakeState → Status → WakeState
set_handle_at w idle = to w waiting
set_handle_at w s = w

unfoldable pub set_handle : ℕ → WakeState → WakeState
unfolding set_handle_at
set_handle h w = set_handle_at (record w { handle = some h }) w.state

set_handle_blocked_at : WakeState → Status → Bool × WakeState
set_handle_blocked_at w idle = (true, to w blocked)
set_handle_blocked_at w s = (false, w)

unfoldable pub set_handle_blocked : ℕ → WakeState → Bool × WakeState
unfolding set_handle_blocked_at
set_handle_blocked h w = set_handle_blocked_at (record w { handle = some h }) w.state

unblock_at : WakeState → Status → Bool × WakeState
unblock_at w blocked = (true, to w waiting)
unblock_at w s = (false, w)

unfoldable pub unblock_after_publish : WakeState → Bool × WakeState
unfolding unblock_at
unblock_after_publish w = unblock_at w w.state

claim_at : WakeState → Status → WakeAction × WakeState
claim_at w idle = (completed_inline, to w notified_inline)
claim_at w blocked = (completed_inline, to w notified_inline)
claim_at w waiting = (schedule, to w notification_claimed)
claim_at w s = (rejected, w)

unfoldable pub claim_notification : WakeState → WakeAction × WakeState
unfolding claim_at
claim_notification w = claim_at w w.state

-- The result of request_cancel, and whether it goes on to schedule_claimed.
claim_cancel_at : WakeState → Status → Bool × Bool × WakeState
claim_cancel_at w idle = (true, false, to w cancelled_inline)
claim_cancel_at w blocked = (true, false, to w cancelled_inline)
claim_cancel_at w waiting = (true, true, to w cancellation_claimed)
claim_cancel_at w cancelled_inline = (true, false, w)
claim_cancel_at w cancellation_claimed = (true, false, w)
claim_cancel_at w cancellation_scheduling = (true, false, w)
claim_cancel_at w s = (false, false, w)

-- The first atomic step of request_cancel.
unfoldable pub claim_cancel : WakeState → Bool × Bool × WakeState
unfolding claim_cancel_at
claim_cancel w = claim_cancel_at w w.state

schedule_claimed_at : WakeState → Status → Bool × WakeState
schedule_claimed_at w notification_claimed = (true, resuming w notification_scheduling)
schedule_claimed_at w cancellation_claimed = (true, resuming w cancellation_scheduling)
schedule_claimed_at w s = (false, w)

unfoldable pub schedule_claimed : WakeState → Bool × WakeState
unfolding schedule_claimed_at
schedule_claimed w = schedule_claimed_at w w.state

-- request_cancel with no other thread between its two steps.
unfoldable pub request_cancel : WakeState → Bool × WakeState
unfolding claim_cancel schedule_claimed
request_cancel w =
    let (result, more, w') = claim_cancel w in
    elim more [ true ↦ (result, (schedule_claimed w').1) | false ↦ (result, w') ]

schedule_selected_at : WakeState → Status → Bool × WakeState
schedule_selected_at w waiting = (true, resuming w notification_scheduling)
schedule_selected_at w notification_claimed = (true, resuming w notification_scheduling)
schedule_selected_at w cancellation_claimed = (true, resuming w cancellation_scheduling)
schedule_selected_at w blocked = (false, to w notified_inline)
schedule_selected_at w s = (false, w)

unfoldable pub schedule_selected : WakeState → Bool × WakeState
unfolding schedule_selected_at
schedule_selected w = schedule_selected_at w w.state

cancelled_at : Status → Bool
cancelled_at cancelled_inline = true
cancelled_at cancellation_claimed = true
cancelled_at cancellation_scheduling = true
cancelled_at s = false

unfoldable pub was_cancelled : WakeState → Bool
unfolding cancelled_at
was_cancelled w = cancelled_at w.state

selected_at : Status → Bool
selected_at notified_inline = true
selected_at notification_claimed = true
selected_at notification_scheduling = true
selected_at s = false

unfoldable pub notification_was_selected : WakeState → Bool
unfolding selected_at
notification_was_selected w = selected_at w.state

abandon_at : WakeState → Status → WakeState
abandon_at w notification_scheduling = w
abandon_at w cancellation_scheduling = w
abandon_at w s = to w abandoned

unfoldable pub abandon : WakeState → WakeState
unfolding abandon_at
abandon w = abandon_at w w.state
