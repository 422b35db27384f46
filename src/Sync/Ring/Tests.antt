-- ===== src/Sync/Ring/Tests.antt =====
-- Runs of the ring, and instances of its theorems.
use elio.Prelude.{ℕ, ◌^◌, ◌≡◌, ◌≢◌, refl, false, [], arith, some}
use elio.Sync.Ring.{
  Thread, idle, push_load, push_claim, popped, new_ring, advance, store, slot, sign_of_difference,
  after_push_look, after_pop_look,
}
use elio.Sync.Ring.Threads.{System, Reach, start, later, calls_push, advances, act}
use elio.Sync.Ring.Refinement.{act-QueueStep}
use elio.Sync.Ring.Queue.{QueueStep, Popper, Pusher, contents, doing}

-- Thread 0 is about to claim a place for 5 in a ring of two slots.
abbrev called : System ℕ
called = record { ring = new_ring; thread = store (λ i. idle) 0 (push_load 5); log = [] }

abbrev looked : System ℕ
looked = act 1 0 false (act 1 0 false called)

at_claim : looked.thread 0 ≡ push_claim 5 0
unfolding advance store sign_of_difference after_push_look slot new_ring
at_claim = refl

looked_reached : Reach 1 3 looked
looked_reached =
    later (later (later start (calls_push 0 5 refl)) (advances 0 false)) (advances 0 false)

act-QueueStep_example :
    QueueStep
      (2 ^ 1)
      (Popper looked)
      (Pusher looked)
      (contents looked)
      (doing looked.log (looked.thread 0))
      (contents (act 1 0 false looked))
      (doing (act 1 0 false looked).log ((act 1 0 false looked).thread 0))
    × ((j : ℕ)
        → 0 ≢ j
        → doing (act 1 0 false looked).log ((act 1 0 false looked).thread j)
          ≡ doing looked.log (looked.thread j))
act-QueueStep_example = act-QueueStep 1 3 looked 0 false (omega arith) (omega arith) looked_reached

-- Another thread pops what thread 0 has pushed.
abbrev both : System ℕ
both = act 1 1 false (
    act 1 1 false (
      act 1 1 false (
        act 1 1 false (
          act 1 1 false (record (act 1 0 false (act 1 0 false (act 1 0 false looked))) {
            thread =
                store (act 1 0 false (act 1 0 false (act 1 0 false looked))).thread 1
                  Thread.pop_load;
          })))))

pops_pushed : both.thread 1 ≡ popped (some 5)
unfolding advance store sign_of_difference after_push_look after_pop_look slot new_ring
pops_pushed = refl
