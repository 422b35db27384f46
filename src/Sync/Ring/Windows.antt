-- ===== src/Sync/Ring/Windows.antt =====
-- The positions between the counters, and what the slots hold for them.
use elio.Prelude.{
  ℕ, suc, ◌+◌, ◌^◌, ◌≤◌, ◌<◌, ◌≡◌, ◌⊎◌, List, [], ◌∷◌, ◌++◌, Option, none, some, get_elem?, length,
  arith, length-append, get_elem?-append_left,
}
use elio.Sync.Ring.{Ring, push_write, push_publish, pop_take, pop_release, store, slot}
use elio.Sync.Ring.Threads.{Knows}
use elio.Sync.Ring.Slots.{slot-apart, slot-lap}

-- A position in the queue is claimed, or its value is there; the slot of one that can be claimed
-- next is free, or is being emptied by the thread that popped the lap before.
pub record Window {A : Type 0} (k n : ℕ) (r : Ring A) (log : List A) : Type 0 where
  pub counted : length log ≡ r.head
  pub order : r.tail ≤ r.head
  pub room : r.head ≤ r.tail + 2 ^ k
  pub small : r.head ≤ n
  pub limited : (p : ℕ) → r.sequence (slot k p) ≤ r.head + 2 ^ k
  pub queued :
      (p : ℕ)
      → r.tail ≤ p
      → p < r.head
      → (r.sequence (slot k p) ≡ p)
        ⊎ ((r.sequence (slot k p) ≡ suc p) × (r.value (slot k p) ≡ get_elem? log p))
  pub free :
      (p : ℕ)
      → r.head ≤ p
      → p < r.tail + 2 ^ k
      → (r.sequence (slot k p) ≡ p) ⊎ ((2 ^ k ≤ p) × (r.sequence (slot k p) + 2 ^ k ≡ suc p))

module _ {A : Type 0} (k n : ℕ) (two : 2 ≤ 2 ^ k) (r : Ring A) (log : List A)
    (w : Window k n r log) where
  pub Window-write :
      (v : A) (h : ℕ)
      → Knows k r log (push_write v h)
      → Window k n (record r { value = store r.value (slot k h) (some v) }) log
  unfolding Knows store
  Window-write v h m = record {
    counted = w.counted;
    order = w.order;
    room = w.room;
    small = w.small;
    limited = λ p. ground (arith, w.limited p, w.order);
    queued = λ p a b. ground (arith, w.queued p a b, slot-apart k h p, w.room);
    free = w.free;
  }

  pub Window-publish :
      (h : ℕ)
      → Knows k r log (push_publish h)
      → Window k n (record r { sequence = store r.sequence (slot k h) (suc h) }) log
  unfolding Knows store
  Window-publish h m = record {
    counted = w.counted;
    order = w.order;
    room = w.room;
    small = w.small;
    limited = λ p. ground (arith, w.limited p, w.order);
    queued = λ p a b. ground (arith, w.queued p a b, slot-apart k h p, w.room);
    free = λ p a b. ground (arith, w.free p a b, slot-apart k h p, w.room);
  }

  pub Window-take :
      (t : ℕ)
      → Knows k r log (pop_take t)
      → Window k n (record r { value = store r.value (slot k t) none }) log
  unfolding Knows store
  Window-take t m = record {
    counted = w.counted;
    order = w.order;
    room = w.room;
    small = w.small;
    limited = λ p. ground (arith, w.limited p, w.order);
    queued = λ p a b. ground (arith, w.queued p a b, slot-apart k t p);
    free = w.free;
  }

  pub Window-release :
      (t : ℕ) (o : Option A)
      → Knows k r log (pop_release t o)
      → Window k n (record r { sequence = store r.sequence (slot k t) (t + 2 ^ k) }) log
  unfolding Knows store
  Window-release t o m = record {
    counted = w.counted;
    order = w.order;
    room = w.room;
    small = w.small;
    limited = λ p. ground (arith, w.limited p, w.order);
    queued = λ p a b. ground (arith, w.queued p a b, slot-apart k t p);
    free = λ p a b. ground (arith, w.free p a b, slot-apart k (t + 2 ^ k) p, slot-lap k t);
  }

  pub Window-claim_push :
      (v : A)
      → r.sequence (slot k r.head) ≡ r.head
      → Window k (suc n) (record r { head = suc r.head }) (log ++ (v ∷ []))
  Window-claim_push v e = record {
    counted = omega (arith, length-append log (v ∷ []), w.counted);
    order = omega (arith, w.order);
    room = ground (arith, w.order, w.room, w.queued r.tail, slot-lap k r.tail);
    small = omega (arith, w.small);
    limited = λ p. omega (arith, w.limited p);
    queued = λ p a b. ground (arith, w.counted, w.queued p a, get_elem?-append_left log (v ∷ []) p);
    free = λ p a b. w.free p (omega arith) b;
  }

  pub Window-claim_pop :
      r.sequence (slot k r.tail) ≡ suc r.tail → Window k n (record r { tail = suc r.tail }) log
  Window-claim_pop e = record {
    counted = w.counted;
    order = ground (arith, w.order, w.free r.tail);
    room = omega (arith, w.room);
    small = w.small;
    limited = λ p. ground (arith, w.limited p, w.order);
    queued = λ p a b. w.queued p (omega arith) b;
    free = λ p a b. ground (arith, w.order, w.free p a, slot-lap k r.tail);
  }
