-- ===== src/Sync/Semaphore/PassOn.antt =====
-- What becomes of a permit whose waiter is destroyed before it resumes.
use elio.Prelude.{
  List, [], ◌∷◌, ◌∙◌, ap, sym, subst, ℕ, ◌+◌, ◌≡◌, true, false, length, take, drop, arith, Option,
  some, none, refl,
}
use elio.Sync.WakeState.{WakeState, Status, waiting, claim_notification, abandon, schedule_selected}
use elio.Sync.Semaphore.{
  Waiter, Semaphore, contains, grant, claim_from, claim_waiter, recover_cancelled_handoff,
  schedule_wake_state, schedule_if_any, destroy, put, update,
}
use elio.Sync.Semaphore.Permits.{update_other, claim_from-lists, IsDistinct, IsValid}
use elio.Sync.Semaphore.Handoff.{live, live-nil, live-update, claim_from-live}

-- The semaphore after a permit is passed on.
abbrev passed_on : Semaphore → Semaphore
passed_on s = schedule_if_any (recover_cancelled_handoff s).0 (recover_cancelled_handoff s).1

passed_on-live_at :
    (s : Semaphore) (o : Option ℕ)
    → IsDistinct s.waiters
    → (claim_from s.nodes s.waiters).0 ≡ o
    → (passed_on s).count + length (take 1 (live s.nodes s.waiters)) ≡ s.count + 1
unfolding schedule_if_any schedule_wake_state recover_cancelled_handoff claim_waiter
passed_on-live_at s none d h = ground (arith, (claim_from-live s.nodes s.waiters d).0 h)
passed_on-live_at s (some id) d h = ground (arith, (claim_from-live s.nodes s.waiters d).1 id h)

passed_on-rest_at :
    (s : Semaphore) (o : Option ℕ)
    → IsDistinct s.waiters
    → (claim_from s.nodes s.waiters).0 ≡ o
    → live (passed_on s).nodes (passed_on s).waiters ≡ drop 1 (live s.nodes s.waiters)
unfolding schedule_if_any schedule_wake_state recover_cancelled_handoff claim_waiter
passed_on-rest_at s none d h = ground (
  arith,
  (claim_from-live s.nodes s.waiters d).0 h,
  claim_from-lists s.nodes s.waiters d,
  live-nil s.nodes (claim_from s.nodes s.waiters).1,
)
passed_on-rest_at s (some id) d h =
    let nodes = update s.nodes id (grant (s.nodes id)) in
    let w = record (nodes id) { wake = (schedule_selected (nodes id).wake).1 } in
    let rest = (claim_from s.nodes s.waiters).1 in
    ground (
      arith,
      (claim_from-live s.nodes s.waiters d).1 id h,
      live-update s.nodes id (grant (s.nodes id)) rest,
      live-update nodes id w rest,
    )

-- What a waiter that waits for its coroutine is given, from `w` to `w'`: the coroutine is scheduled.
abbrev pub Resumes : Status → WakeState → WakeState → Type 0
Resumes waiting w w' = w'.scheduled ≡ w.handle ∷ w.scheduled
Resumes _ w w' = Unit

-- From `s` a permit goes to the first of the live waiters, or without any back to the count.
abbrev pub PassedOn : Semaphore → List ℕ → Semaphore → Type 0
PassedOn s [] s' = (s'.count ≡ s.count + 1) × (live s'.nodes s'.waiters ≡ [])
PassedOn s (next ∷ rest) s' =
    (s'.count ≡ s.count)
    × (live s'.nodes s'.waiters ≡ rest)
    × ((s'.nodes next).grant_pending ≡ true)
    × Resumes (s.nodes next).wake.state (s.nodes next).wake (s'.nodes next).wake

-- A waiter that is granted a permit and whose wake state is scheduled.
abbrev woken : Waiter → Waiter
woken w = record (grant w) { wake = (schedule_selected (grant w).wake).1 }

woken_pending : (w : Waiter) → (woken w).grant_pending ≡ true
unfolding grant
woken_pending w = ground arith

woken-Resumes : (st : Status) (w : Waiter) → w.wake.state ≡ st → Resumes st w.wake (woken w).wake
unfolding grant claim_notification schedule_selected
woken-Resumes waiting w e = ground arith
woken-Resumes _ w e = tt

passed_on-woken :
    (s : Semaphore) (id : ℕ)
    → (claim_from s.nodes s.waiters).0 ≡ some id
    → (passed_on s).nodes id ≡ woken (s.nodes id)
unfolding schedule_if_any schedule_wake_state recover_cancelled_handoff claim_waiter update
passed_on-woken s id h = ground arith

claim_from-contained :
    (nodes : ℕ → Waiter) (xs : List ℕ) (id : ℕ)
    → (claim_from nodes xs).0 ≡ some id
    → contains id xs ≡ true
unfolding claim_from contains
claim_from-contained nodes [] id h = cc
claim_from-contained nodes (x ∷ xs) id h = ground (arith, claim_from-contained nodes xs id)

passed_on-PassedOn_at :
    (s : Semaphore) (o : Option ℕ)
    → IsDistinct s.waiters
    → (claim_from s.nodes s.waiters).0 ≡ o
    → PassedOn s (live s.nodes s.waiters) (passed_on s)
passed_on-PassedOn_at s none d h =
    let alone = (claim_from-live s.nodes s.waiters d).0 h in
    let count = passed_on-live_at s none d h in
    let rest = passed_on-rest_at s none d h in
    rw alone (ground (arith, count, alone), rest ∙ ap (drop 1) alone)
passed_on-PassedOn_at s (some id) d h =
    let first = ((claim_from-live s.nodes s.waiters d).1 id h).0 in
    let count = passed_on-live_at s (some id) d h in
    let rest = passed_on-rest_at s (some id) d h in
    let now = passed_on-woken s id h in
    let w = s.nodes id in
    rw first (
      ground (arith, count, first),
      rest ∙ ap (drop 1) first,
      ap (λ (w : Waiter). w.grant_pending) now ∙ woken_pending w,
      subst (λ (x : Waiter). Resumes w.wake.state w.wake x.wake) (sym now)
          (woken-Resumes w.wake.state w refl),
    )

-- A suspended waiter that was granted a permit gives it up and passes it on.
destroy_granted :
    (id : ℕ) (s : Semaphore)
    → (s.nodes id).suspended ≡ true
    → (s.nodes id).grant_pending ≡ true
    → (s.nodes id).resumed ≡ false
    → contains id s.waiters ≡ false
    → destroy id s
      ≡ passed_on (
          put id
            (record (s.nodes id) { wake = abandon (s.nodes id).wake; grant_pending = false })
            s)
unfolding destroy
destroy_granted id s a b c e = ground arith

-- The nodes of other waiters may differ.
PassedOn-from :
    (s t s' : Semaphore) (o : Option ℕ)
    → t.count ≡ s.count
    → (claim_from t.nodes t.waiters).0 ≡ o
    → ((next : ℕ) → o ≡ some next → t.nodes next ≡ s.nodes next)
    → IsDistinct t.waiters
    → PassedOn t (live t.nodes t.waiters) s'
    → PassedOn s (live t.nodes t.waiters) s'
PassedOn-from s t s' none c h same d k =
    let alone = (claim_from-live t.nodes t.waiters d).0 h in
    let k' = subst (λ l. PassedOn t l s') alone k in rw alone (k'.0 ∙ ap (λ n. n + 1) c, k'.1)
PassedOn-from s t s' (some next) c h same d k =
    let first = ((claim_from-live t.nodes t.waiters d).1 next h).0 in
    let k' = subst (λ l. PassedOn t l s') first k in
    rw first (
      k'.0 ∙ c,
      k'.1,
      k'.2,
      subst (λ (x : Waiter). Resumes x.wake.state x.wake (s'.nodes next).wake) (same next refl)
          k'.3,
    )

-- In a valid semaphore, a waiter that suspended, left the list with a permit, and is destroyed before
-- it resumes loses none. The permit goes to the live waiter who has waited longest: it is marked as
-- granted, leaves the list, and its coroutine is scheduled if it waits for one; the other live waiters
-- keep their order, and the count stays. Without a live waiter the permit goes back to the count.
pub destroy-live :
    (id : ℕ) (s : Semaphore)
    → IsValid s
    → (s.nodes id).suspended ≡ true
    → (s.nodes id).grant_pending ≡ true
    → (s.nodes id).resumed ≡ false
    → contains id s.waiters ≡ false
    → PassedOn s (live s.nodes s.waiters) (destroy id s)
unfolding IsValid
destroy-live id s v a b c e =
    let w = record (s.nodes id) { wake = abandon (s.nodes id).wake; grant_pending = false } in
    let t = put id w s in
    let same = live-update s.nodes id w s.waiters e in
    let handed = passed_on-PassedOn_at t _ v.1 refl in
    let others : (next : ℕ)
        → (claim_from t.nodes t.waiters).0 ≡ some next
        → t.nodes next ≡ s.nodes next =
      λ next f.
        let linked = claim_from-contained t.nodes t.waiters next f in
        update_other s.nodes id w next (λ q. ground (arith, linked, e, q)) in
    subst (λ x. PassedOn s (live s.nodes s.waiters) x) (sym (destroy_granted id s a b c e))
      (subst (λ l. PassedOn s l (passed_on t)) same
        (PassedOn-from s t (passed_on t) _ refl refl others v.1 handed))
