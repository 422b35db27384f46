-- ===== src/Sync/Semaphore/Permits.antt =====
-- The semaphore's invariant, over every order of the operations.
use elio.Prelude.{
  ◌≢◌, ℕ, zero, suc, ◌+◌, ◌-◌, ◌≡◌, refl, ◌⊎◌, inl, Bool, true, false, List, [], ◌∷◌, ◌++◌, Option,
  none, some, length, arith,
}
use elio.Sync.WakeState.{abandon}
use elio.Sync.Semaphore.{
  update, Waiter, Semaphore, contains, remove, claim_from, claim_waiter, recover_cancelled_handoff,
  schedule_wake_state, schedule_if_any, try_acquire, release_loop, release_locked, cancel_waiter,
  cancel_if, claim_wake, await_ready, await_suspend_non_cancellable, suspend_take, suspend_wait,
  await_resume, destroy, put,
}

pub update_self : (f : ℕ → Waiter) (id : ℕ) (w : Waiter) → update f id w id ≡ w
unfolding update
update_self f id w = ground arith

pub update_other : (f : ℕ → Waiter) (id : ℕ) (w : Waiter) (j : ℕ) → id ≢ j → update f id w j ≡ f j
unfolding update
update_other f id w j u = ground arith

-- No waiter is in a list twice.
unfoldable pub IsDistinct : List ℕ → Type 0
IsDistinct [] = Unit
IsDistinct (x ∷ xs) = (contains x xs ≡ false) × IsDistinct xs

-- A permit is not kept while someone waits for it, and no waiter is linked twice.
unfoldable pub IsValid : Semaphore → Type 0
IsValid s = ((s.count ≡ 0) ⊎ (s.waiters ≡ [])) × IsDistinct s.waiters

contains-remove :
    (x id : ℕ) (xs : List ℕ) → contains x xs ≡ false → contains x (remove id xs) ≡ false
unfolding contains remove
contains-remove x id [] h = refl
contains-remove x id (y ∷ xs) h = ground (arith, contains-remove x id xs)

remove-nil : (id : ℕ) (xs : List ℕ) → xs ≡ [] → remove id xs ≡ []
unfolding remove
remove-nil id [] h = refl
remove-nil id (x ∷ xs) h = cc

pub remove-IsDistinct : (id : ℕ) (xs : List ℕ) → IsDistinct xs → IsDistinct (remove id xs)
unfolding IsDistinct remove
remove-IsDistinct id [] d = d
remove-IsDistinct id (x ∷ xs) d =
    ground (arith, remove-IsDistinct id xs d.1, contains-remove x id xs d.0)

contains-push :
    (x id : ℕ) (xs : List ℕ)
    → contains x xs ≡ false
    → contains id (x ∷ xs) ≡ false
    → contains x (xs ++ (id ∷ [])) ≡ false
unfolding contains
contains-push x id [] h k = ground arith
contains-push x id (y ∷ xs) h k = ground (arith, contains-push x id xs)

pub push-IsDistinct :
    (id : ℕ) (xs : List ℕ) → IsDistinct xs → contains id xs ≡ false → IsDistinct (xs ++ (id ∷ []))
unfolding IsDistinct contains
push-IsDistinct id [] d h = (refl, d)
push-IsDistinct id (x ∷ xs) d h =
    (contains-push x id xs d.0 h, push-IsDistinct id xs d.1 (ground arith))

pub claim_from-lists :
    (nodes : ℕ → Waiter) (xs : List ℕ)
    → IsDistinct xs
    → IsDistinct (claim_from nodes xs).1
      × ((claim_from nodes xs).0 ≡ none → (claim_from nodes xs).1 ≡ [])
      × (xs ≡ [] → claim_from nodes xs ≡ (none, []))
unfolding IsDistinct claim_from
claim_from-lists nodes [] d = (d, λ h. refl, λ h. refl)
claim_from-lists nodes (x ∷ xs) d = ground (arith, claim_from-lists nodes xs d.1)

pub try_acquire-IsValid : (s : Semaphore) → IsValid s → IsValid (try_acquire s).1
unfolding IsValid try_acquire
try_acquire-IsValid s v = ground arith

pub claim_waiter-counts :
    (s : Semaphore)
    → IsDistinct s.waiters
    → IsDistinct (claim_waiter s).1.waiters
      × ((claim_waiter s).0 ≡ none → (claim_waiter s).1.waiters ≡ [])
      × (s.waiters ≡ [] → ((claim_waiter s).0 ≡ none) × ((claim_waiter s).1.waiters ≡ []))
      × ((claim_waiter s).1.count ≡ s.count)
unfolding claim_waiter
claim_waiter-counts s d = ground (arith, claim_from-lists s.nodes s.waiters d)

pub claim_waiter-IsValid : (s : Semaphore) → IsValid s → IsValid (claim_waiter s).1
unfolding IsValid
claim_waiter-IsValid s v = ground (arith, claim_waiter-counts s v.1)

pub recover-IsValid : (s : Semaphore) → IsValid s → IsValid (recover_cancelled_handoff s).1
unfolding IsValid recover_cancelled_handoff
recover-IsValid s v = ground (arith, claim_waiter-counts s v.1)

schedule_if_any-IsValid : (o : Option ℕ) (s : Semaphore) → IsValid s → IsValid (schedule_if_any o s)
unfolding IsValid schedule_if_any schedule_wake_state
schedule_if_any-IsValid none s v = v
schedule_if_any-IsValid (some id) s v = v

pub release_loop-counts :
    (n : ℕ) (s : Semaphore)
    → IsValid s
    → IsValid (release_loop n s).2
      × (((release_loop n s).1 ≡ 0) ⊎ ((release_loop n s).2.waiters ≡ []))
      × (length (release_loop n s).0 + (release_loop n s).1 ≡ n)
      × ((release_loop n s).2.count ≡ s.count)
unfolding release_loop IsValid
release_loop-counts zero s v = (v, inl refl, refl, refl)
release_loop-counts (suc n) s v = ground (
  arith,
  claim_waiter-counts s v.1,
  release_loop-counts n (claim_waiter s).1 (claim_waiter-IsValid s v),
)

pub release_locked-IsValid : (n : ℕ) (s : Semaphore) → IsValid s → IsValid (release_locked n s).1
unfolding IsValid release_locked
release_locked-IsValid n s v = ground (arith, release_loop-counts n s v)

cancel_if-IsValid : (b : Bool) (id : ℕ) (s : Semaphore) → IsValid s → IsValid (cancel_if b id s)
unfolding IsValid cancel_if cancel_waiter
cancel_if-IsValid true id s v = v
cancel_if-IsValid false id s v = v

pub await_ready-IsValid :
    (late : Bool) (id : ℕ) (s : Semaphore) → IsValid s → IsValid (await_ready late id s).1
unfolding IsValid await_ready try_acquire cancel_if cancel_waiter
await_ready-IsValid late id s v = ground arith

pub suspend_non_cancellable-IsValid :
    (handle id : ℕ) (s : Semaphore)
    → contains id s.waiters ≡ false
    → IsValid s
    → IsValid (await_suspend_non_cancellable handle id s).1
unfolding IsValid await_suspend_non_cancellable
suspend_non_cancellable-IsValid handle id s h v = ground (arith, push-IsDistinct id s.waiters v.1 h)

-- A permit passed on when its waiter is gone.
pass_on-IsValid :
    (s : Semaphore)
    → IsValid s
    → IsValid (schedule_if_any (recover_cancelled_handoff s).0 (recover_cancelled_handoff s).1)
pass_on-IsValid s v = schedule_if_any-IsValid _ _ (recover-IsValid s v)

claimed-IsValid :
    (late : Bool) (id : ℕ) (s : Semaphore)
    → IsValid s
    → IsValid (claim_wake id (cancel_if late id (record s { count = s.count - 1 }))).1
unfolding IsValid cancel_if cancel_waiter
claimed-IsValid late id s v = ground arith

pub suspend_take-IsValid :
    (late : Bool) (id : ℕ) (s : Semaphore) → IsValid s → IsValid (suspend_take late id s).1
unfolding suspend_take
suspend_take-IsValid late id s v =
    let t = (claim_wake id (cancel_if late id (record s { count = s.count - 1 }))).1 in
    grind (arith, pass_on-IsValid t (claimed-IsValid late id s v), claimed-IsValid late id s v)

pub suspend_wait-IsValid :
    (early late : Bool) (handle id : ℕ) (s : Semaphore)
    → s.count ≡ 0
    → contains id s.waiters ≡ false
    → IsValid s
    → IsValid (suspend_wait early late handle id s).1
unfolding IsValid suspend_wait cancel_if cancel_waiter
suspend_wait-IsValid early late handle id s z h v = ground (
  arith,
  push-IsDistinct id s.waiters v.1 h,
  remove-IsDistinct id (s.waiters ++ (id ∷ [])) (push-IsDistinct id s.waiters v.1 h),
)

pub await_resume-IsValid : (id : ℕ) (s : Semaphore) → IsValid s → IsValid (await_resume id s).1
unfolding IsValid await_resume
await_resume-IsValid id s v =
    ground (arith, remove-IsDistinct id s.waiters v.1, remove-nil id s.waiters)

pub destroy-IsValid : (id : ℕ) (s : Semaphore) → IsValid s → IsValid (destroy id s)
unfolding destroy IsValid
destroy-IsValid id s v = ground (
  arith,
  pass_on-IsValid
      (put id (record (s.nodes id) { wake = abandon (s.nodes id).wake; grant_pending = false }) s)
      v,
  remove-IsDistinct id s.waiters v.1,
  remove-nil id s.waiters,
)
