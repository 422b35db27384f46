-- ===== src/Sync/WakeState/Cases.antt =====
-- The operations of the wake state from a state that is known.
use elio.Prelude.{ℕ, ◌≡◌, ◌⊎◌, inl, inr, true, false, some, ◌∷◌, [], arith}
use elio.Sync.WakeState.{
  WakeState, rejected, completed_inline, idle, blocked, waiting, notified_inline, cancelled_inline,
  notification_claimed, notification_scheduling, cancellation_scheduling, claim_notification,
  request_cancel, schedule_selected, set_handle_blocked, unblock_after_publish, set_handle,
  make_wake_state,
}

pub claim_idle :
    (w : WakeState)
    → w.state ≡ idle
    → claim_notification w ≡ (completed_inline, record w { state = notified_inline })
unfolding claim_notification
claim_idle w e = ground arith

pub claim_cancelled :
    (w : WakeState) → w.state ≡ cancelled_inline → claim_notification w ≡ (rejected, w)
unfolding claim_notification
claim_cancelled w e = ground arith

pub request_cancel_idle :
    (w : WakeState)
    → w.state ≡ idle
    → request_cancel w ≡ (true, record w { state = cancelled_inline })
unfolding request_cancel
request_cancel_idle w e = ground arith

pub request_cancel-waiting :
    (w : WakeState)
    → w.state ≡ waiting
    → request_cancel w
      ≡ (true, record w { state = cancellation_scheduling; scheduled = w.handle ∷ w.scheduled })
unfolding request_cancel
request_cancel-waiting w e = ground arith

pub request_cancel_blocked :
    (w : WakeState)
    → w.state ≡ blocked
    → request_cancel w ≡ (true, record w { state = cancelled_inline })
unfolding request_cancel
request_cancel_blocked w e = ground arith

pub set_handle_blocked_idle :
    (h : ℕ) (w : WakeState)
    → w.state ≡ idle
    → set_handle_blocked h w ≡ (true, record w { handle = some h; state = blocked })
unfolding set_handle_blocked
set_handle_blocked_idle h w e = ground arith

pub set_handle_blocked_cancelled :
    (h : ℕ) (w : WakeState)
    → w.state ≡ cancelled_inline
    → set_handle_blocked h w ≡ (false, record w { handle = some h })
unfolding set_handle_blocked
set_handle_blocked_cancelled h w e = ground arith

pub unblock_blocked :
    (w : WakeState)
    → w.state ≡ blocked
    → unblock_after_publish w ≡ (true, record w { state = waiting })
unfolding unblock_after_publish
unblock_blocked w e = ground arith

pub unblock_cancelled :
    (w : WakeState) → w.state ≡ cancelled_inline → unblock_after_publish w ≡ (false, w)
unfolding unblock_after_publish
unblock_cancelled w e = ground arith

pub set_handle_new :
    (h : ℕ)
    → set_handle h make_wake_state ≡ record { handle = some h; state = waiting; scheduled = [] }
unfolding set_handle make_wake_state
set_handle_new h = ground arith

-- A decided wake state is not cancelled any more.
pub request_cancel_decided :
    (w : WakeState)
    → (w.state ≡ cancelled_inline)
      ⊎ ((w.state ≡ cancellation_scheduling)
          ⊎ ((w.state ≡ notified_inline)
              ⊎ ((w.state ≡ notification_claimed) ⊎ (w.state ≡ notification_scheduling))))
    → (request_cancel w).1 ≡ w
unfolding request_cancel
request_cancel_decided w (inl e) = ground arith
request_cancel_decided w (inr (inl e)) = ground arith
request_cancel_decided w (inr (inr (inl e))) = ground arith
request_cancel_decided w (inr (inr (inr (inl e)))) = ground arith
request_cancel_decided w (inr (inr (inr (inr e)))) = ground arith

pub schedule_selected_open :
    (w : WakeState)
    → (w.state ≡ waiting) ⊎ (w.state ≡ notification_claimed)
    → schedule_selected w
      ≡ (true, record w { state = notification_scheduling; scheduled = w.handle ∷ w.scheduled })
unfolding schedule_selected
schedule_selected_open w (inl e) = ground arith
schedule_selected_open w (inr e) = ground arith

pub schedule_selected_done :
    (w : WakeState) → w.state ≡ notification_scheduling → schedule_selected w ≡ (false, w)
unfolding schedule_selected
schedule_selected_done w e = ground arith
