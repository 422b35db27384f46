-- ===== src/Sync/Mutex.antt =====
-- include/elio/sync/mutex.hpp. Waiters, their list and the claim of one are those of the semaphore,
-- whose code the mutex repeats; `state` is the address in state_, 0 for null. An operation returns
-- the waiter whose wake state it goes on to schedule, after the mutex's own lock is released, as
-- `to_schedule`. Boolean arguments say whether the token's callback runs between two of its steps.
pub mod Clients
pub mod Fits
pub mod Claims
pub mod Positions
pub mod Publishing
pub mod Rewaking
pub mod Recover
pub mod Local
pub mod Entering
pub mod Claiming
pub mod Waiting
pub mod Resuming
pub mod Leaving
pub mod Exclusion
pub mod Handoff
mod Tests
use elio.Prelude.{
  ℕ, zero, suc, ◌+◌, Bool, true, false, not, ◌&&◌, List, [], ◌∷◌, ◌++◌, Option, none, some, ◌==◌,
  if◌then◌else◌,
}
use elio.Sync.WakeState.{
  WakeAction, rejected, make_wake_state, set_handle, set_handle_blocked, unblock_after_publish,
  claim_notification, request_cancel, schedule_selected, was_cancelled, abandon,
}
use elio.Sync.Semaphore.{
  Waiter, new_waiter, update, contains, remove, claim_from, grant, CancelResult, completed,
  cancelled,
}

pub record Mutex : Type 0 where
  pub state : ℕ
  pub waiters : List ℕ
  pub nodes : ℕ → Waiter

unfoldable pub new_mutex : Mutex
new_mutex = record { state = 0; waiters = []; nodes = λ i. new_waiter false }

abbrev pub put : ℕ → Waiter → Mutex → Mutex
put id w m = record m { nodes = update m.nodes id w }

unfoldable pub is_locked : Mutex → Bool
is_locked m = not (m.state == 0)

-- The exchange of state_ from null to `value`.
unfoldable pub take_state : ℕ → Mutex → Bool × Mutex
take_state value m = if m.state == 0 then (true, record m { state = value }) else (false, m)

unfoldable pub try_lock : Mutex → Bool × Mutex
unfolding take_state
try_lock m = take_state 1 m

-- The node of the waiter that the lock goes to.
unfoldable pub granted_nodes : Option ℕ → (ℕ → Waiter) → ℕ → Waiter
granted_nodes none nodes = nodes
granted_nodes (some id) nodes = update nodes id (grant (nodes id))

unfoldable pub state_for : Option ℕ → ℕ
state_for none = 0
state_for (some id) = 1

unfoldable pub recover_cancelled_handoff : Mutex → Option ℕ × Mutex
recover_cancelled_handoff m =
    let (to_schedule, rest) = claim_from m.nodes m.waiters in
    (
      to_schedule,
      record {
        state = state_for to_schedule;
        waiters = rest;
        nodes = granted_nodes to_schedule m.nodes;
      },
    )

-- `unlock` under internal_mutex_
abbrev pub unlock_locked : Mutex → Option ℕ × Mutex
unlock_locked m = recover_cancelled_handoff m

unfoldable pub schedule_wake_state : ℕ → Mutex → Mutex
schedule_wake_state id m =
    let w = m.nodes id in put id (record w { wake = (schedule_selected w.wake).1 }) m

-- With no other thread between the lock and the scheduling.
unfoldable pub unlock : Mutex → Mutex
unlock m =
    let (to_schedule, m') = unlock_locked m in
    elim to_schedule [ none ↦ m' | some id ↦ schedule_wake_state id m' ]

-- The callback of the token.
unfoldable pub cancel_waiter : ℕ → Mutex → Mutex
cancel_waiter id m = let w = m.nodes id in put id (record w { wake = (request_cancel w.wake).1 }) m

unfoldable pub cancel_if : Bool → ℕ → Mutex → Mutex
cancel_if true id m = cancel_waiter id m
cancel_if false id m = m

-- The claim of the waiter's own wake state, with the lock held. A cancellation that came first hands
-- the lock on.
unfoldable pub claim_own : ℕ → Mutex → Option ℕ × Mutex
claim_own id m =
    let w = m.nodes id in
    let (action, state) = claim_notification w.wake in
    let m' = put id (record w { wake = state }) m in
    elim action [ rejected ↦ recover_cancelled_handoff m' | _ ↦ (none, m') ]

-- await_ready_impl. `late`: the token cancels between try_lock and the claim.
unfoldable pub await_ready : Bool → ℕ → Mutex → Bool × Option ℕ × Mutex
await_ready late id m =
    if not (m.nodes id).cancellable
    then (let (got, m') = try_lock m in (got, none, m'))
    else if was_cancelled (m.nodes id).wake
    then (true, none, m)
    else if not (try_lock m).0
    then (false, none, m)
    else (let (o, m') = claim_own id (cancel_if late id (try_lock m).1) in (true, o, m'))

-- await_suspend_non_cancellable_impl from emplace on, for the coroutine at `handle`
unfoldable pub suspend_locked : ℕ → ℕ → Mutex → Bool × Mutex
suspend_locked handle id m =
    let w = record (m.nodes id) { wake = make_wake_state } in
    let (got, m') = take_state handle (put id w m) in
    if got then (false, m') else (
      true,
      record (put id (record w { wake = set_handle handle w.wake; suspended = true }) m) {
        waiters = m.waiters ++ (id ∷ []);
      },
    )

-- With no other thread between its first look at state_ and the rest.
unfoldable pub await_suspend_non_cancellable : ℕ → ℕ → Mutex → Bool × Mutex
await_suspend_non_cancellable handle id m =
    let (got, m') = take_state handle m in if got then (false, m') else suspend_locked handle id m

-- The branch of await_suspend_cancellable_impl that queues the waiter. `early`: the token cancels
-- before set_handle_blocked; `late`: between set_handle_blocked and unblock_after_publish.
unfoldable pub suspend_wait : Bool → Bool → ℕ → ℕ → Mutex → Bool × Mutex
suspend_wait early late handle id m =
    let m1 = cancel_if early id m in
    let (published, state) = set_handle_blocked handle (m1.nodes id).wake in
    let m2 = put id (record (m1.nodes id) { wake = state; suspended = true }) m1 in
    let m3 = cancel_if late id (record m2 { waiters = m2.waiters ++ (id ∷ []) }) in
    let (unblocked, state') = unblock_after_publish (m3.nodes id).wake in
    let m4 = put id (record (m3.nodes id) { wake = state' }) m3 in
    if not published
    then (false, put id (record (m1.nodes id) { wake = state }) m1)
    else if unblocked
    then (true, m4)
    else (
      false,
      record (put id (record (m4.nodes id) { suspended = false }) m4) {
        waiters = remove id m4.waiters;
      },
    )

unfoldable pub await_suspend_cancellable : Bool → Bool → ℕ → ℕ → Mutex → Bool × Option ℕ × Mutex
await_suspend_cancellable early late handle id m =
    if was_cancelled (m.nodes id).wake
    then (false, none, m)
    else if (take_state handle m).0
    then (let (o, m') = claim_own id (cancel_if early id (take_state handle m).1) in (false, o, m'))
    else (let (parked, m') = suspend_wait early late handle id m in (parked, none, m'))

-- await_resume_impl
unfoldable pub await_resume : ℕ → Mutex → CancelResult × Mutex
await_resume id m =
    let w = m.nodes id in
    if w.cancellable && was_cancelled w.wake
    then (
      cancelled,
      (if w.suspended
          then record (put id (record w { suspended = false }) m) { waiters = remove id m.waiters }
          else m),
    )
    else (
      completed,
      put id (record w { resumed = true; grant_pending = false; suspended = false }) m,
    )

-- ~lock_waiter
unfoldable pub destroy : ℕ → Mutex → Option ℕ × Mutex
destroy id m =
    let w = m.nodes id in
    let gone = record w { wake = abandon w.wake } in
    if not w.suspended
    then (none, m)
    else if contains id m.waiters
    then (none, record (put id gone m) { waiters = remove id m.waiters })
    else if w.grant_pending && not w.resumed
    then recover_cancelled_handoff (put id (record gone { grant_pending = false }) m)
    else (none, put id gone m)
