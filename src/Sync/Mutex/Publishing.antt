-- ===== src/Sync/Mutex/Publishing.antt =====
-- await_suspend_cancellable_impl with the mutex taken: what is left, by when the token cancels.
use elio.Prelude.{ℕ, ◌≡◌, refl, Bool, true, false, [], ◌∷◌, ◌++◌, some, arith}
use elio.Sync.WakeState.{WakeState, idle, waiting, blocked, cancelled_inline}
use elio.Sync.WakeState.Cases.{
  set_handle_blocked_idle, set_handle_blocked_cancelled, unblock_blocked, unblock_cancelled,
  request_cancel_blocked,
}
use elio.Sync.Semaphore.{Waiter, update, remove}
use elio.Sync.Mutex.{Mutex, cancel_if, cancel_waiter, suspend_wait}
use elio.Sync.Mutex.Claiming.{called_off, cancel_idle}
use elio.Sync.Semaphore.Permits.{update_self}

-- The wake state when the handle is published, and the waiter with it.
abbrev blocks : ℕ → WakeState → WakeState
blocks handle x = record x { handle = some handle; state = blocked }

abbrev pub published : ℕ → Waiter → Waiter
published handle w = record w { wake = blocks handle w.wake; suspended = true }

abbrev pub unblocked : ℕ → Waiter → Waiter
unblocked handle w = record w {
  wake = record (w.wake) { handle = some handle; state = waiting };
  suspended = true;
}

abbrev pub withdrawn : ℕ → Waiter → Waiter
withdrawn handle w = record w {
  wake = record (w.wake) { handle = some handle; state = cancelled_inline };
  suspended = false;
}

module _ (handle id : ℕ) (m : Mutex) (q : (m.nodes id).wake.state ≡ idle) where
  pub suspend_wait_through : suspend_wait false false handle id m ≡ (
    true,
    record m {
      waiters = m.waiters ++ (id ∷ []);
      nodes =
          update
            (update m.nodes id (published handle (m.nodes id)))
            id
            (unblocked handle (m.nodes id));
    },
  )
  unfolding suspend_wait cancel_if
  suspend_wait_through =
      let w = m.nodes id in
      ground (
        arith,
        set_handle_blocked_idle handle w.wake q,
        update_self m.nodes id (published handle w),
        unblock_blocked (blocks handle w.wake) refl,
      )

  -- The token cancels after the handle is published.
  pub suspend_wait_back : suspend_wait false true handle id m ≡ (
    false,
    record m {
      waiters = remove id (m.waiters ++ (id ∷ []));
      nodes =
          update
            (update
              (update
                (update m.nodes id (published handle (m.nodes id)))
                id
                (record (withdrawn handle (m.nodes id)) { suspended = true }))
              id
              (record (withdrawn handle (m.nodes id)) { suspended = true }))
            id
            (withdrawn handle (m.nodes id));
    },
  )
  unfolding suspend_wait cancel_if cancel_waiter
  suspend_wait_back =
      let w = m.nodes id in
      let gone = record (withdrawn handle w) { suspended = true } in
      let nodes = update m.nodes id (published handle w) in
      ground (
        arith,
        set_handle_blocked_idle handle w.wake q,
        update_self m.nodes id (published handle w),
        request_cancel_blocked (blocks handle w.wake) refl,
        update_self nodes id gone,
        unblock_cancelled gone.wake refl,
        update_self (update nodes id gone) id gone,
      )

  -- The token cancels before the handle is published.
  pub suspend_wait_not :
      (late : Bool)
      → suspend_wait true late handle id m ≡ (
        false,
        record m {
          nodes =
              update
                (update m.nodes id (called_off (m.nodes id)))
                id
                (record (withdrawn handle (m.nodes id)) { suspended = (m.nodes id).suspended });
        },
      )
  unfolding suspend_wait cancel_if
  suspend_wait_not late =
      let w = m.nodes id in
      ground (
        arith,
        cancel_idle id m q,
        update_self m.nodes id (called_off w),
        set_handle_blocked_cancelled handle (called_off w).wake refl,
      )
