-- ===== src/Sync/Ring/Threads.antt =====
-- Any number of threads on one ring, interleaved in any order.
use elio.Prelude.{
  ℕ, suc, ◌+◌, ◌^◌, ◌≤◌, ◌<◌, ◌≡◌, Bool, true, false, List, [], ◌∷◌, ◌++◌, Option, none, some,
  get_elem?,
}
use elio.Sync.Ring.{
  Ring, Thread, idle, push_load, push_look, push_claim, push_write, push_publish, pushed, pop_load,
  pop_look, pop_claim, pop_take, pop_release, popped, new_ring, advance, store, slot,
}

-- What was pushed, in the order of the claims, is kept in `log`, which no thread reads.
pub record System (A : Type 0) : Type 0 where
  pub ring : Ring A
  pub thread : ℕ → Thread A
  pub log : List A

module _ {A : Type 0} where
  -- Outside of try_push and try_pop.
  abbrev pub is_outside : Thread A → Bool
  is_outside idle = true
  is_outside (pushed b) = true
  is_outside (popped o) = true
  is_outside pc = false

  -- The value that a step claims a place for.
  abbrev pub claimed : Thread A → Thread A → List A
  claimed (push_claim v h) (push_write w i) = v ∷ []
  claimed pc pc' = []

  abbrev pub new_system : System A
  new_system = record { ring = new_ring; thread = λ i. idle; log = [] }

  abbrev pub act : ℕ → ℕ → Bool → System A → System A
  act k i spurious s =
      let (r, pc) = advance k spurious s.ring (s.thread i) in
      record { ring = r; thread = store s.thread i pc; log = s.log ++ claimed (s.thread i) pc }

  pub data Step (k : ℕ) (s : System A) : System A → Type 0 where
    calls_push :
        (i : ℕ) (v : A)
        → is_outside (s.thread i) ≡ true
        → Step k s (record s { thread = store s.thread i (push_load v) })
    calls_pop :
        (i : ℕ)
        → is_outside (s.thread i) ≡ true
        → Step k s (record s { thread = store s.thread i pop_load })
    advances : (i : ℕ) (spurious : Bool) → Step k s (act k i spurious s)

  -- After that many steps.
  pub data Reach (k : ℕ) : ℕ → System A → Type 0 where
    start : Reach k 0 new_system
    later : {n : ℕ} {s t : System A} → Reach k n s → Step k s t → Reach k (suc n) t

  -- What a thread that is inside knows about the ring.
  unfoldable pub Knows : ℕ → Ring A → List A → Thread A → Type 0
  Knows k r log (push_look v h) = (h ≤ r.head) × (h < r.head → h ≤ r.sequence (slot k h))
  Knows k r log (push_claim v h) = (h ≤ r.head) × (h ≡ r.head → r.sequence (slot k h) ≡ h)
  Knows k r log (push_write v h) =
      (r.tail ≤ h) × (h < r.head) × (r.sequence (slot k h) ≡ h) × (get_elem? log h ≡ some v)
  Knows k r log (push_publish h) =
      (r.tail ≤ h)
      × (h < r.head)
      × (r.sequence (slot k h) ≡ h)
      × (r.value (slot k h) ≡ get_elem? log h)
  Knows k r log (pop_look t) = (t ≤ r.tail) × (t < r.tail → t < r.sequence (slot k t))
  Knows k r log (pop_claim t) = (t ≤ r.tail) × (t ≡ r.tail → r.sequence (slot k t) ≡ t + 1)
  Knows k r log (pop_take t) =
      (t < r.tail)
      × (r.head ≤ t + 2 ^ k)
      × (r.sequence (slot k t) ≡ t + 1)
      × (r.value (slot k t) ≡ get_elem? log t)
  Knows k r log (pop_release t o) =
      (t < r.tail) × (r.head ≤ t + 2 ^ k) × (r.sequence (slot k t) ≡ t + 1) × (o ≡ get_elem? log t)
  Knows k r log pc = Unit

  -- The position that a thread has claimed for a push, or for a pop.
  unfoldable pub push_position : Thread A → Option ℕ
  push_position (push_write v h) = some h
  push_position (push_publish h) = some h
  push_position pc = none

  unfoldable pub pop_position : Thread A → Option ℕ
  pop_position (pop_take t) = some t
  pop_position (pop_release t o) = some t
  pop_position pc = none
