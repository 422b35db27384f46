-- ===== src/Sync/Semaphore.antt =====
-- include/elio/sync/semaphore.hpp. Waiters are numbers, `nodes` is the memory they stand in, and
-- `waiters` the intrusive list, so that a waiter is linked if it is in the list. Code under the
-- mutex is one step; a Boolean argument says whether the token's callback, which takes no mutex,
-- cancels the waiter between two of its steps. The count is the one that the class documents, never
-- above INT_MAX.
pub mod Handoff
pub mod PassOn
pub mod Permits
pub mod Reachable
use elio.Prelude.{
  ℕ, zero, suc, ◌+◌, ◌-◌, Bool, true, false, not, ◌&&◌, List, [], ◌∷◌, ◌++◌, Option, none, some,
  ltb, ◌==◌, if◌then◌else◌,
}
use elio.Sync.WakeState.{
  WakeState, WakeAction, rejected, completed_inline, schedule, make_wake_state, set_handle,
  set_handle_blocked, unblock_after_publish, claim_notification, request_cancel, schedule_selected,
  was_cancelled, abandon,
}

-- acquire_waiter and its waiter_state. The wake state, which is shared, outlives the waiter.
pub record Waiter : Type 0 where
  pub cancellable : Bool
  pub suspended : Bool
  pub resumed : Bool
  pub grant_pending : Bool
  pub wake : WakeState

pub record Semaphore : Type 0 where
  pub count : ℕ
  pub waiters : List ℕ
  pub nodes : ℕ → Waiter

unfoldable pub new_waiter : Bool → Waiter
new_waiter cancellable = record {
  cancellable = cancellable;
  suspended = false;
  resumed = false;
  grant_pending = false;
  wake = make_wake_state;
}

unfoldable pub new_semaphore : ℕ → Semaphore
new_semaphore initial = record { count = initial; waiters = []; nodes = λ i. new_waiter false }

unfoldable pub update : (ℕ → Waiter) → ℕ → Waiter → ℕ → Waiter
update nodes id w i = if i == id then w else nodes i

abbrev pub put : ℕ → Waiter → Semaphore → Semaphore
put id w s = record s { nodes = update s.nodes id w }

unfoldable pub contains : ℕ → List ℕ → Bool
contains id [] = false
contains id (x ∷ xs) = if x == id then true else contains id xs

unfoldable pub remove : ℕ → List ℕ → List ℕ
remove id [] = []
remove id (x ∷ xs) = if x == id then xs else x ∷ remove id xs

-- Whether claim_waiter_locked takes the waiter: claim_wake_state does not reject it.
unfoldable pub can_claim : Waiter → Bool
can_claim w =
    if w.cancellable
    then elim (claim_notification w.wake).0 [ rejected ↦ false | _ ↦ true ]
    else true

-- The waiter that is handed a permit.
unfoldable pub grant : Waiter → Waiter
grant w =
    if w.cancellable
    then record w { wake = (claim_notification w.wake).1; grant_pending = true }
    else record w { grant_pending = true }

-- claim_waiter_locked: rejected waiters leave the list, and the first other one is granted.
unfoldable pub claim_from : (ℕ → Waiter) → List ℕ → Option ℕ × List ℕ
claim_from nodes [] = (none, [])
claim_from nodes (x ∷ xs) =
    let rest = claim_from nodes xs in if can_claim (nodes x) then (some x, xs) else rest

unfoldable pub claim_waiter : Semaphore → Option ℕ × Semaphore
claim_waiter s =
    let (o, rest) = claim_from s.nodes s.waiters in
    elim o [
      | none ↦ (none, record s { waiters = rest })
      | some id ↦
          (some id, record s { waiters = rest; nodes = update s.nodes id (grant (s.nodes id)) })
    ]

unfoldable pub recover_cancelled_handoff : Semaphore → Option ℕ × Semaphore
recover_cancelled_handoff s =
    let (o, s') = claim_waiter s in
    elim o [ some id ↦ (some id, s') | none ↦ (none, record s' { count = s'.count + 1 }) ]

-- schedule_wake_state, of the waiter's shared state
unfoldable pub schedule_wake_state : ℕ → Semaphore → Semaphore
schedule_wake_state id s =
    let w = s.nodes id in put id (record w { wake = (schedule_selected w.wake).1 }) s

unfoldable pub schedule_wake_states : List ℕ → Semaphore → Semaphore
schedule_wake_states [] s = s
schedule_wake_states (id ∷ ids) s = schedule_wake_states ids (schedule_wake_state id s)

unfoldable pub schedule_if_any : Option ℕ → Semaphore → Semaphore
schedule_if_any none s = s
schedule_if_any (some id) s = schedule_wake_state id s

unfoldable pub try_acquire : Semaphore → Bool × Semaphore
try_acquire s = if ltb 0 s.count then (true, record s { count = s.count - 1 }) else (false, s)

-- The loop of `release` under the mutex: who is to be scheduled, and the permits left over.
unfoldable pub release_loop : ℕ → Semaphore → List ℕ × ℕ × Semaphore
release_loop zero s = ([], 0, s)
release_loop (suc remaining) s =
    let (o, s') = claim_waiter s in
    let rest = release_loop remaining s' in
    elim o [ none ↦ ([], suc remaining, s') | some id ↦ (id ∷ rest.0, rest.1, rest.2) ]

unfoldable pub release_locked : ℕ → Semaphore → List ℕ × Semaphore
release_locked n s =
    let (to_schedule, remaining, s') = release_loop n s in
    (to_schedule, record s' { count = s'.count + remaining })

-- With no other thread between the mutex and the scheduling.
unfoldable pub release : ℕ → Semaphore → Semaphore
release n s = let (to_schedule, s') = release_locked n s in schedule_wake_states to_schedule s'

-- The callback of the token.
unfoldable pub cancel_waiter : ℕ → Semaphore → Semaphore
cancel_waiter id s = let w = s.nodes id in put id (record w { wake = (request_cancel w.wake).1 }) s

unfoldable pub cancel_if : Bool → ℕ → Semaphore → Semaphore
cancel_if true id s = cancel_waiter id s
cancel_if false id s = s

abbrev pub claim_wake : ℕ → Semaphore → WakeAction × Semaphore
claim_wake id s =
    let w = s.nodes id in
    let (action, state) = claim_notification w.wake in
    (action, put id (record w { wake = state }) s)

-- await_ready_impl. `late`: the token cancels between the count and the claim.
unfoldable pub await_ready : Bool → ℕ → Semaphore → Bool × Semaphore
await_ready late id s =
    if not (s.nodes id).cancellable
    then try_acquire s
    else if was_cancelled (s.nodes id).wake
    then (true, s)
    else if s.count == 0
    then (false, s)
    else let (action, s') = claim_wake id (cancel_if late id s) in
      elim action [ rejected ↦ (true, s') | _ ↦ (true, record s' { count = s'.count - 1 }) ]

-- await_suspend_non_cancellable_impl, for the coroutine `handle`
unfoldable pub await_suspend_non_cancellable : ℕ → ℕ → Semaphore → Bool × Semaphore
await_suspend_non_cancellable handle id s =
    let w = record (s.nodes id) { wake = make_wake_state } in
    if ltb 0 s.count then (false, record (put id w s) { count = s.count - 1 }) else (
      true,
      record (put id (record w { wake = set_handle handle w.wake; suspended = true }) s) {
        waiters = s.waiters ++ (id ∷ []);
      },
    )

-- The branch of await_suspend_cancellable_impl that takes a permit; `late` as in await_ready.
unfoldable pub suspend_take : Bool → ℕ → Semaphore → Bool × Semaphore
suspend_take late id s =
    let (action, s') = claim_wake id (cancel_if late id (record s { count = s.count - 1 })) in
    elim action [
      | rejected ↦ let (o, s'') = recover_cancelled_handoff s' in (false, schedule_if_any o s'')
      | _ ↦ (false, s')
    ]

-- The branch that queues the waiter. `early`: the token cancels before set_handle_blocked; `late`:
-- between set_handle_blocked and unblock_after_publish.
unfoldable pub suspend_wait : Bool → Bool → ℕ → ℕ → Semaphore → Bool × Semaphore
suspend_wait early late handle id s =
    let s1 = cancel_if early id s in
    let (published, state) = set_handle_blocked handle (s1.nodes id).wake in
    let s2 = put id (record (s1.nodes id) { wake = state; suspended = true }) s1 in
    let s3 = cancel_if late id (record s2 { waiters = s2.waiters ++ (id ∷ []) }) in
    let (unblocked, state') = unblock_after_publish (s3.nodes id).wake in
    let s4 = put id (record (s3.nodes id) { wake = state' }) s3 in
    if not published
    then (false, put id (record (s1.nodes id) { wake = state }) s1)
    else if unblocked
    then (true, s4)
    else (
      false,
      record (put id (record (s4.nodes id) { suspended = false }) s4) {
        waiters = remove id s4.waiters;
      },
    )

unfoldable pub await_suspend_cancellable : Bool → Bool → ℕ → ℕ → Semaphore → Bool × Semaphore
await_suspend_cancellable early late handle id s =
    if was_cancelled (s.nodes id).wake
    then (false, s)
    else if ltb 0 s.count
    then suspend_take early id s
    else suspend_wait early late handle id s

pub data CancelResult : Type 0 where
  completed cancelled : CancelResult

-- await_resume_impl
unfoldable pub await_resume : ℕ → Semaphore → CancelResult × Semaphore
await_resume id s =
    let w = s.nodes id in
    if w.cancellable && was_cancelled w.wake
    then (
      cancelled,
      (if w.suspended
          then record (put id (record w { suspended = false }) s) { waiters = remove id s.waiters }
          else s),
    )
    else (
      completed,
      put id (record w { resumed = true; grant_pending = false; suspended = false }) s,
    )

-- ~acquire_waiter
unfoldable pub destroy : ℕ → Semaphore → Semaphore
destroy id s =
    let w = s.nodes id in
    let gone = record w { wake = abandon w.wake } in
    if not w.suspended
    then s
    else if contains id s.waiters
    then record (put id gone s) { waiters = remove id s.waiters }
    else if w.grant_pending && not w.resumed
    then (let (o, s') =
          recover_cancelled_handoff (put id (record gone { grant_pending = false }) s) in
        schedule_if_any o s')
    else put id gone s
