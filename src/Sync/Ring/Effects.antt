-- ===== src/Sync/Ring/Effects.antt =====
-- A thread's write to the ring leaves true what the other threads know.
use elio.Prelude.{
  ℕ, suc, ◌+◌, ◌^◌, ◌≤◌, ◌≡◌, ◌≢◌, List, [], ◌∷◌, ◌++◌, Option, none, some, length, arith,
  get_elem?-append_left,
}
use elio.Sync.Ring.{
  Ring, Thread, push_look, push_claim, push_write, push_publish, pop_look, pop_claim, pop_take,
  pop_release, store, slot,
}
use elio.Sync.Ring.Threads.{Knows, push_position, pop_position}
use elio.Sync.Ring.Slots.{slot-apart, slot-lap}

module _ {A : Type 0} (k : ℕ) (two : 2 ≤ 2 ^ k) (r : Ring A) (log : List A)
    (order : r.tail ≤ r.head) (room : r.head ≤ r.tail + 2 ^ k) (counted : length log ≡ r.head) where
  pub Knows-write :
      (v : A) (h : ℕ) (pc : Thread A)
      → Knows k r log (push_write v h)
      → push_position pc ≢ some h
      → Knows k r log pc
      → Knows k (record r { value = store r.value (slot k h) (some v) }) log pc
  unfolding Knows push_position store
  Knows-write v h (push_publish g) m u w = ground (arith, slot-apart k h g)
  Knows-write v h (pop_take t) m u w = ground (arith, slot-apart k h t)
  Knows-write v h pc m u w = w

  pub Knows-publish :
      (h : ℕ) (pc : Thread A)
      → Knows k r log (push_publish h)
      → push_position pc ≢ some h
      → Knows k r log pc
      → Knows k (record r { sequence = store r.sequence (slot k h) (suc h) }) log pc
  unfolding Knows push_position store
  Knows-publish h (push_look w g) m u x = ground arith
  Knows-publish h (pop_look t) m u x = ground arith
  Knows-publish h (push_claim w g) m u x = ground (arith, slot-apart k h g, slot-lap k h)
  Knows-publish h (push_write w g) m u x = ground (arith, slot-apart k h g)
  Knows-publish h (push_publish g) m u x = ground (arith, slot-apart k h g)
  Knows-publish h (pop_claim t) m u x = ground (arith, slot-apart k h t)
  Knows-publish h (pop_take t) m u x = ground (arith, slot-apart k h t)
  Knows-publish h (pop_release t o) m u x = ground (arith, slot-apart k h t)
  Knows-publish h pc m u x = x

  pub Knows-take :
      (t : ℕ) (pc : Thread A)
      → Knows k r log (pop_take t)
      → pop_position pc ≢ some t
      → Knows k r log pc
      → Knows k (record r { value = store r.value (slot k t) none }) log pc
  unfolding Knows pop_position store
  Knows-take t (push_publish g) m u x = ground (arith, slot-apart k t g)
  Knows-take t (pop_take g) m u x = ground (arith, slot-apart k t g)
  Knows-take t pc m u x = x

  pub Knows-release :
      (t : ℕ) (o : Option A) (pc : Thread A)
      → Knows k r log (pop_release t o)
      → pop_position pc ≢ some t
      → Knows k r log pc
      → Knows k (record r { sequence = store r.sequence (slot k t) (t + 2 ^ k) }) log pc
  unfolding Knows pop_position store
  Knows-release t o (push_look w g) m u x = ground arith
  Knows-release t o (pop_look g) m u x = ground arith
  Knows-release t o (push_claim w g) m u x = ground (arith, slot-apart k t g, slot-lap k t)
  Knows-release t o (push_write w g) m u x = ground (arith, slot-apart k t g)
  Knows-release t o (push_publish g) m u x = ground (arith, slot-apart k t g)
  Knows-release t o (pop_claim g) m u x = ground (arith, slot-apart k t g)
  Knows-release t o (pop_take g) m u x = ground (arith, slot-apart k t g)
  Knows-release t o (pop_release g q) m u x = ground (arith, slot-apart k t g)
  Knows-release t o pc m u x = x

  pub Knows-claim_push :
      (v : A) (pc : Thread A)
      → r.sequence (slot k r.head) ≡ r.head
      → Knows k r log pc
      → Knows k (record r { head = suc r.head }) (log ++ (v ∷ [])) pc
  unfolding Knows
  Knows-claim_push v (push_look w g) e x = ground arith
  Knows-claim_push v (push_claim w g) e x = ground arith
  Knows-claim_push v (push_write w g) e x = ground (arith, get_elem?-append_left log (v ∷ []) g)
  Knows-claim_push v (push_publish g) e x = ground (arith, get_elem?-append_left log (v ∷ []) g)
  Knows-claim_push v (pop_take t) e x =
      ground (arith, get_elem?-append_left log (v ∷ []) t, slot-lap k t)
  Knows-claim_push v (pop_release t o) e x =
      ground (arith, get_elem?-append_left log (v ∷ []) t, slot-lap k t)
  Knows-claim_push v pc e x = x

  pub Knows-claim_pop :
      (pc : Thread A)
      → r.sequence (slot k r.tail) ≡ suc r.tail
      → Knows k r log pc
      → Knows k (record r { tail = suc r.tail }) log pc
  unfolding Knows
  Knows-claim_pop (push_write w g) e x = ground arith
  Knows-claim_pop (push_publish g) e x = ground arith
  Knows-claim_pop (pop_look t) e x = ground arith
  Knows-claim_pop (pop_claim t) e x = ground arith
  Knows-claim_pop (pop_take t) e x = ground arith
  Knows-claim_pop (pop_release t o) e x = ground arith
  Knows-claim_pop pc e x = x
