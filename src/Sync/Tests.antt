-- ===== src/Sync/Tests.antt =====
-- Runs of the synchronisation model, and instances of its theorems.
use elio.Prelude.{
  ℕ, ◌+◌, ◌-◌, ◌≤◌, ◌≡◌, refl, inl, true, false, List, [], ◌∷◌, length, take, drop, All, some,
}
use elio.Sync.WakeState.{
  WakeState, waiting, notification_claimed, make_wake_state, claim_notification, request_cancel,
  schedule_selected, was_cancelled, notification_was_selected,
}
use elio.Sync.WakeState.Runs.{
  foreign, Op, sets_handle, claims, cancels, schedules_claimed, schedules_selected, run,
  run_scheduled_once, run_decided, claim-schedule_selected,
}
use elio.Sync.Semaphore.{
  Waiter, Semaphore, new_waiter, new_semaphore, update, release_loop, claim_waiter, claim_from,
  grant, contains, release_locked, can_claim, destroy, await_suspend_cancellable,
}
use elio.Sync.Semaphore.Permits.{IsValid, IsDistinct}
use elio.Sync.Semaphore.Reachable.{
  initially, then_by, suspends_cancellable, releases, Reachable-IsValid,
}
use elio.Sync.Semaphore.Handoff.{live, release_locked-live}
use elio.Sync.Semaphore.PassOn.{PassedOn, destroy-live}

abbrev raced : List Op
raced = sets_handle 7 ∷ claims ∷ cancels ∷ schedules_selected ∷ schedules_claimed ∷ []

run_scheduled_once_example : length (run raced make_wake_state).scheduled ≤ 1
run_scheduled_once_example = run_scheduled_once raced

abbrev claimed : WakeState
claimed = record { handle = some 7; state = notification_claimed; scheduled = [] }

run_decided_example :
    (notification_was_selected claimed ≡ true
      → was_cancelled (run (cancels ∷ schedules_claimed ∷ []) claimed) ≡ false)
    × (was_cancelled claimed ≡ true
        → notification_was_selected (run (cancels ∷ schedules_claimed ∷ []) claimed) ≡ false)
run_decided_example = run_decided (cancels ∷ schedules_claimed ∷ []) claimed

abbrev queued : WakeState
queued = record { handle = some 7; state = waiting; scheduled = [] }

others_foreign : All (λ o. foreign o ≡ true) (cancels ∷ claims ∷ [])
unfolding foreign
others_foreign = (refl, (refl, tt))

claim-schedule_selected_example :
    (schedule_selected (run (cancels ∷ claims ∷ []) (claim_notification queued).1)).1.scheduled
    ≡ some 7 ∷ []
claim-schedule_selected_example =
    claim-schedule_selected (cancels ∷ claims ∷ []) 7 queued refl refl refl others_foreign

-- Waiters that were queued with a token; the first has been cancelled.
abbrev nodes : ℕ → Waiter
nodes =
    update
      (update
        (update (λ i. new_waiter true) 1
          (record (new_waiter true) { wake = (request_cancel queued).1; suspended = true }))
        2 (record (new_waiter true) { wake = queued; suspended = true }))
      3 (record (new_waiter true) { wake = queued; suspended = true })

abbrev three_waiters : Semaphore
three_waiters = record { count = 0; waiters = 1 ∷ 2 ∷ 3 ∷ []; nodes = nodes }

three_waiters-IsValid : IsValid three_waiters
unfolding IsValid IsDistinct contains
three_waiters-IsValid = (inl refl, (refl, (refl, (refl, tt))))

release_skips_cancelled : (release_locked 1 three_waiters).0 ≡ 2 ∷ []
unfolding release_locked release_loop claim_waiter claim_from can_claim claim_notification
    request_cancel update new_waiter grant
release_skips_cancelled = refl

release_locked-live_example :
    ((release_locked 1 three_waiters).0 ≡ take 1 (live nodes (1 ∷ 2 ∷ 3 ∷ [])))
    × (live (release_locked 1 three_waiters).1.nodes (release_locked 1 three_waiters).1.waiters
        ≡ drop 1 (live nodes (1 ∷ 2 ∷ 3 ∷ [])))
    × ((release_locked 1 three_waiters).1.count ≡ 0 + (1 - length (live nodes (1 ∷ 2 ∷ 3 ∷ []))))
release_locked-live_example = release_locked-live 1 three_waiters three_waiters-IsValid

-- Waiter 4 was granted a permit, and is destroyed before it resumes.
abbrev granted : Semaphore
granted = record {
  count = 0;
  waiters = 2 ∷ 3 ∷ [];
  nodes =
      update nodes 4
        (record (new_waiter true) { wake = claimed; suspended = true; grant_pending = true });
}

granted-IsValid : IsValid granted
unfolding IsValid IsDistinct contains
granted-IsValid = (inl refl, (refl, (refl, tt)))

granted_pending :
    ((granted.nodes 4).suspended ≡ true)
    × ((granted.nodes 4).grant_pending ≡ true)
    × ((granted.nodes 4).resumed ≡ false)
    × (contains 4 granted.waiters ≡ false)
unfolding update new_waiter contains
granted_pending = (refl, refl, refl, refl)

destroy-live_example : PassedOn granted (live granted.nodes granted.waiters) (destroy 4 granted)
destroy-live_example =
    destroy-live 4 granted granted-IsValid granted_pending.0 granted_pending.1 granted_pending.2
      granted_pending.3

nobody_linked : contains 1 (new_semaphore 0).waiters ≡ false
unfolding contains new_semaphore
nobody_linked = refl

-- A waiter suspends and is granted a permit.
Reachable-IsValid_example :
    IsValid (release_locked 2 (await_suspend_cancellable false true 7 1 (new_semaphore 0)).1).1
Reachable-IsValid_example = Reachable-IsValid (
    then_by (then_by (initially 0) (suspends_cancellable false true 7 1 nobody_linked))
      (releases 2))
