-- ===== src/Sync/Ring.antt =====
-- include/elio/sync/lockfree_ring.hpp. A ring of 2 ^ k slots; its counters are words of 64 bits. The
-- loads, stores and exchanges of try_push and try_pop are the steps of a thread, which other
-- thread's steps may come between.
pub mod Slots
pub mod Threads
pub mod Work
pub mod Effects
pub mod Windows
pub mod Invariant
pub mod Refusals
pub mod Queue
pub mod Refinement
mod Tests
use elio.Prelude.{
  ℕ, zero, suc, ◌+◌, ◌-◌, ◌/◌, ◌%◌, ◌^◌, Bool, true, false, ltb, ◌==◌, if◌then◌else◌, Option, none,
  some, max, bit_and, bit_or,
}

-- The sign of static_cast<int64_t>(a) - static_cast<int64_t>(b), for an `a` and a `b` of 64 bits.
pub data Sign : Type 0 where
  negative equal positive : Sign

unfoldable pub sign_of_difference : ℕ → ℕ → Sign
sign_of_difference a b =
    if a == b
    then equal
    else if ltb ((a + 2 ^ 63) % 2 ^ 64) ((b + 2 ^ 63) % 2 ^ 64)
    then negative
    else positive

module _ (A : Type 0) where
  -- LockfreeMPMCRing: the slots' sequences and values, by index.
  pub record Ring : Type 0 where
    pub sequence : ℕ → ℕ
    pub value : ℕ → Option A
    pub head : ℕ
    pub tail : ℕ

  -- Where a thread stands in try_push or try_pop, with its local variables.
  pub data Thread : Type 0 where
    idle : Thread
    push_load : A → Thread
    push_look : A → ℕ → Thread
    push_claim : A → ℕ → Thread
    push_write : A → ℕ → Thread
    push_publish : ℕ → Thread
    pushed : Bool → Thread
    pop_load : Thread
    pop_look : ℕ → Thread
    pop_claim : ℕ → Thread
    pop_take : ℕ → Thread
    pop_release : ℕ → Option A → Thread
    popped : Option A → Thread

unfoldable pub store {ℓ} : {A : Type ℓ} → (ℕ → A) → ℕ → A → ℕ → A
store f i a j = if j == i then a else f j

unfoldable pub new_ring : {A : Type 0} → Ring A
new_ring = record { sequence = λ i. i; value = λ i. none; head = 0; tail = 0 }

-- `pos & mask_`
unfoldable pub slot : ℕ → ℕ → ℕ
slot k pos = bit_and pos (2 ^ k - 1)

module _ {A : Type 0} (k : ℕ) where
  unfoldable pub after_push_look : Ring A → A → ℕ → Sign → Ring A × Thread A
  after_push_look r v h equal = (r, push_claim v h)
  after_push_look r v h negative = (r, pushed false)
  after_push_look r v h positive = (r, push_look v r.head)

  unfoldable pub after_pop_look : Ring A → ℕ → Sign → Ring A × Thread A
  after_pop_look r t equal = (r, pop_claim t)
  after_pop_look r t negative = (r, popped none)
  after_pop_look r t positive = (r, pop_look r.tail)

  -- A thread's next step. `spurious`: the weak exchange fails although it need not. A thread that is
  -- outside of both functions does nothing.
  unfoldable pub advance : Bool → Ring A → Thread A → Ring A × Thread A
  unfolding after_push_look after_pop_look
  advance spurious r (push_load v) = (r, push_look v r.head)
  advance spurious r (push_look v h) =
      after_push_look r v h (sign_of_difference (r.sequence (slot k h)) h)
  advance spurious r (push_claim v h) =
      if spurious
      then (r, push_look v r.head)
      else if r.head == h
      then (record r { head = (h + 1) % 2 ^ 64 }, push_write v h)
      else (r, push_look v r.head)
  advance spurious r (push_write v h) =
      (record r { value = store r.value (slot k h) (some v) }, push_publish h)
  advance spurious r (push_publish h) =
      (record r { sequence = store r.sequence (slot k h) ((h + 1) % 2 ^ 64) }, pushed true)
  advance spurious r pop_load = (r, pop_look r.tail)
  advance spurious r (pop_look t) =
      after_pop_look r t (sign_of_difference (r.sequence (slot k t)) ((t + 1) % 2 ^ 64))
  advance spurious r (pop_claim t) =
      if spurious
      then (r, pop_look r.tail)
      else if r.tail == t
      then (record r { tail = (t + 1) % 2 ^ 64 }, pop_take t)
      else (r, pop_look r.tail)
  advance spurious r (pop_take t) =
      (record r { value = store r.value (slot k t) none }, pop_release t (r.value (slot k t)))
  advance spurious r (pop_release t v) =
      (record r { sequence = store r.sequence (slot k t) ((t + 2 ^ k) % 2 ^ 64) }, popped v)
  advance spurious r pc = (r, pc)
