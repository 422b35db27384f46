-- ===== src/Sync/Ring/Invariant/Reached.antt =====
-- What holds in every state that fewer than about 2 ^ 63 steps reach.
use elio.Prelude.{◌≡◌, true, none, ℕ, suc, ◌+◌, ◌^◌, ◌≤◌, ◌<◌, refl, inl, arith}
use elio.Sync.Ring.{Thread, push_load, pop_load, new_ring}
use elio.Sync.Ring.Threads.{
  System, Step, calls_push, calls_pop, advances, Reach, start, later, new_system, Knows, is_outside,
  push_position, pop_position,
}
use elio.Sync.Ring.Slots.{slot-below, slot-small}
use elio.Sync.Ring.Invariant.{Inv, local, weaken}
use elio.Sync.Ring.Invariant.Claims.{After-advance}

outside_push : {A : Type 0} (pc : Thread A) → is_outside pc ≡ true → push_position pc ≡ none
unfolding push_position
outside_push pc o = ground arith

outside_pop : {A : Type 0} (pc : Thread A) → is_outside pc ≡ true → pop_position pc ≡ none
unfolding pop_position
outside_pop pc o = ground arith

Step-Inv :
    {A : Type 0} {k n : ℕ} {s t : System A}
    → 2 ≤ 2 ^ k
    → n + 2 ^ k < 2 ^ 63
    → Step k s t
    → Inv k n s
    → Inv k (suc n) t
unfolding Knows push_position pop_position
Step-Inv {k} {n} {s} two small (calls_push i v o) inv = weaken (
    local k n s inv i (push_load v) tt refl refl (outside_push (s.thread i) o)
      (outside_pop (s.thread i) o))
Step-Inv {k} {n} {s} two small (calls_pop i o) inv = weaken (
    local k n s inv i pop_load tt refl refl (outside_push (s.thread i) o)
      (outside_pop (s.thread i) o))
Step-Inv {k} {n} {s} two small (advances i b) inv =
    After-advance k n two small s inv i (s.thread i) b refl

Inv-start : {A : Type 0} (k : ℕ) → Inv {A = A} k 0 new_system
unfolding Knows push_position pop_position new_ring
Inv-start k = record {
  window = record {
    counted = refl;
    order = omega arith;
    room = omega arith;
    small = omega arith;
    limited = λ p. omega (arith, slot-small k p);
    queued = λ p a b. absurd (omega arith);
    free = λ p a b. inl (slot-below k p (omega arith));
  };
  knows = λ i. tt;
  push_unique = λ i j p e f. cc;
  pop_unique = λ i j p e f. cc;
  unpublished = λ p u. absurd (let a = u.1 in omega (arith, a));
  unreleased = λ t u. absurd (let a = u.0 in omega (arith, a));
}

pub Reach-Inv :
    {A : Type 0} {k n : ℕ} {s : System A} → 2 ≤ 2 ^ k → n + 2 ^ k < 2 ^ 63 → Reach k n s → Inv k n s
Reach-Inv {k} two small start = Inv-start k
Reach-Inv two small (later r st) = Step-Inv two (omega arith) st (Reach-Inv two (omega arith) r)
