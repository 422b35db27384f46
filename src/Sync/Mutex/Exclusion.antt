-- ===== src/Sync/Mutex/Exclusion.antt =====
-- What the clients of one mutex can rely on, over every order of their steps.
use elio.Prelude.{
  ℕ, ◌≡◌, ◌≢◌, refl, ◌∙◌, sym, ap, inl, inr, true, Option, none, some, arith, ◌==◌, Bool-cases,
  ==_iff, ◌↔◌,
}
use elio.Sync.Semaphore.{new_waiter, contains}
use elio.Sync.Mutex.{new_mutex, is_locked}
use elio.Sync.Mutex.Clients.{
  System, new_system, holds, holds_as, Step, builds, tries, readies, rechecks, suspends,
  suspends_cancellable, resumes, cancels, unlocks, schedules, destroys, Reach, start, later,
}
use elio.Sync.Mutex.Fits.{Fits, Owned, Inv}
use elio.Sync.Mutex.Entering.{builds_Inv, tries_Inv, rechecks_Inv}
use elio.Sync.Mutex.Claiming.{readied_Inv}
use elio.Sync.Mutex.Waiting.{suspends_Inv, suspended_cancellable_Inv}
use elio.Sync.Mutex.Resuming.{resumes_Inv}
use elio.Sync.Mutex.Leaving.{cancels_Inv, schedules_Inv, unlocks_Inv, destroys_Inv}
use elio.Sync.Semaphore.Permits.{IsDistinct}

new_system-Inv : Inv new_system
unfolding new_mutex new_waiter contains IsDistinct Fits Owned holds holds_as
new_system-Inv = record {
  good = record { fits = λ i. (refl, refl, refl); distinct = tt };
  holder = none;
  owned = (refl, refl, λ i. refl);
}

Step-Inv : {s t : System} → Inv s → Step s t → Inv t
Step-Inv v (builds cancellable id e) = builds_Inv _ v id cancellable e
Step-Inv v (tries id e) = tries_Inv _ v id e
Step-Inv v (readies late id e) = readied_Inv _ v id e late
Step-Inv v (rechecks handle id n e c) = rechecks_Inv _ v id handle n e c
Step-Inv v (suspends handle id n e c) = suspends_Inv _ v id e handle n c
Step-Inv v (suspends_cancellable early late handle id n e c) =
    suspended_cancellable_Inv _ v id e early late handle n c
Step-Inv v (resumes id c) = resumes_Inv _ v id c
Step-Inv v (cancels id n c) = cancels_Inv _ v id c
Step-Inv v (unlocks id e) = unlocks_Inv _ v id e
Step-Inv v (schedules id c) = schedules_Inv _ v id c
Step-Inv v (destroys id c) = destroys_Inv _ v id c

pub Reach-Inv : {s : System} → Reach s → Inv s
Reach-Inv start = new_system-Inv
Reach-Inv (later r t) = Step-Inv (Reach-Inv r) t

Owned-same : (s : System) (o : Option ℕ) (i : ℕ) → Owned s o → holds s i ≡ true → o ≡ some i
unfolding Owned
Owned-same s none i h e = (let free = h.2 i in cc)
Owned-same s (some k) i h e = elim (Bool-cases (k == i)) [
  | inl q ↦ ap some ((==_iff _ _).0 q)
  | inr q ↦ (let free = h.2 i (λ a. ground arith) in cc)
]

Owned-holds :
    (s : System) (o : Option ℕ) → Owned s o → s.mutex.state ≢ 0 → (i : ℕ) × (holds s i ≡ true)
unfolding Owned
Owned-holds s none h n = absurd (n h.0)
Owned-holds s (some k) h n = (k, h.1)

Owned-locked :
    (s : System) (o : Option ℕ) (i : ℕ) → Owned s o → holds s i ≡ true → s.mutex.state ≢ 0
unfolding Owned
Owned-locked s none i h e = (let free = h.2 i in cc)
Owned-locked s (some k) i h e = h.0

-- However the steps of any number of clients come in turn, with cancellations between them, if a
-- client unlocks only what it owns and no coroutine has the address null: two clients that have the
-- mutex, or have been given it and not yet resumed, are the same one.
pub Reach-exclusive : {s : System} (i j : ℕ) → Reach s → holds s i ≡ true → holds s j ≡ true → i ≡ j
Reach-exclusive {s} i j r a b =
    let v = Reach-Inv r in
    let same : some i ≡ some j =
      sym (Owned-same s v.holder i v.owned a) ∙ Owned-same s v.holder j v.owned b in
    ground (arith, same)

-- However the steps of any number of clients of one mutex come in turn, with cancellations between
-- them, if a client unlocks only what it owns and no coroutine has the address null: the mutex is
-- locked if and only if some client has it or has been given it, so that the lock is neither lost nor
-- kept by nobody.
pub Reach-locked_iff :
    {s : System} → Reach s → (is_locked s.mutex ≡ true) ↔ ((i : ℕ) × (holds s i ≡ true))
unfolding is_locked
Reach-locked_iff {s} r =
    let v = Reach-Inv r in
    (
      λ e. Owned-holds s v.holder v.owned (λ z. ground arith),
      λ (i, e). (let n = Owned-locked s v.holder i v.owned e in ground (arith, n)),
    )
