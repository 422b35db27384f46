-- ===== src/Sync/Ring/Queue.antt =====
-- A bounded queue that threads push to and pop from at once, and what a state of the ring is for it.
use elio.Prelude.{
  ◌⊎◌, ℕ, ◌<◌, ◌≡◌, refl, Bool, true, false, List, [], ◌∷◌, ◌++◌, Option, none, some, get_elem?,
  length, drop,
}
use elio.Sync.Ring.{
  Thread, idle, push_load, push_look, push_claim, push_write, push_publish, pushed, pop_load,
  pop_look, pop_claim, pop_take, pop_release, popped,
}
use elio.Sync.Ring.Threads.{System, push_position, pop_position}

module _ (A : Type 0) where
  -- Where a thread stands for a reader of the interface. It has pushed, or has the value that it
  -- popped, before its function returns.
  pub data Doing : Type 0 where
    quiet popping has_pushed : Doing
    pushing : A → Doing
    has_popped : Option A → Doing
    gave : Bool → Doing
    gave_value : Option A → Doing

module _ {A : Type 0} where
  unfoldable pub doing : List A → Thread A → Doing A
  doing log idle = quiet
  doing log (push_load v) = pushing v
  doing log (push_look v h) = pushing v
  doing log (push_claim v h) = pushing v
  doing log (push_write v h) = has_pushed
  doing log (push_publish h) = has_pushed
  doing log (pushed b) = gave b
  doing log pop_load = popping
  doing log (pop_look t) = popping
  doing log (pop_claim t) = popping
  doing log (pop_take t) = has_popped (get_elem? log t)
  doing log (pop_release t o) = has_popped o
  doing log (popped o) = gave_value o

  abbrev pub contents : System A → List A
  contents s = drop s.ring.tail s.log

  -- Some thread has the value that it popped, and some thread has pushed, and has not returned.
  abbrev pub Popper : System A → Type 0
  Popper s = (j : ℕ) × (o : Option A) × (doing s.log (s.thread j) ≡ has_popped o)

  abbrev pub Pusher : System A → Type 0
  Pusher s = (j : ℕ) × (doing s.log (s.thread j) ≡ has_pushed)

  -- A step of one thread on a queue of at most `capacity` elements, while there may be a popper or a
  -- pusher. A push is refused if the queue is full or a popper has not left its place yet, and a pop
  -- finds nothing if the queue is empty or a pusher has not filled its place yet.
  pub data QueueStep (capacity : ℕ) (popper pusher : Type 0) (q : List A) (d : Doing A)
      (q' : List A) (d' : Doing A) : Type 0 where
    stutters : q' ≡ q → d' ≡ d → QueueStep capacity popper pusher q d q' d'
    enqueues :
        (v : A)
        → d ≡ pushing v
        → length q < capacity
        → q' ≡ q ++ (v ∷ [])
        → d' ≡ has_pushed
        → QueueStep capacity popper pusher q d q' d'
    returns_true :
        d ≡ has_pushed → q' ≡ q → d' ≡ gave true → QueueStep capacity popper pusher q d q' d'
    refuses :
        (v : A)
        → d ≡ pushing v
        → (length q ≡ capacity) ⊎ popper
        → q' ≡ q
        → d' ≡ gave false
        → QueueStep capacity popper pusher q d q' d'
    dequeues :
        (x : A)
        → d ≡ popping
        → q ≡ x ∷ q'
        → d' ≡ has_popped (some x)
        → QueueStep capacity popper pusher q d q' d'
    returns_value :
        (o : Option A)
        → d ≡ has_popped o
        → q' ≡ q
        → d' ≡ gave_value o
        → QueueStep capacity popper pusher q d q' d'
    finds_nothing :
        d ≡ popping
        → (length q ≡ 0) ⊎ pusher
        → q' ≡ q
        → d' ≡ gave_value none
        → QueueStep capacity popper pusher q d q' d'

pub doing-pops :
    {A : Type 0} (log : List A) (pc : Thread A) (t : ℕ)
    → pop_position pc ≡ some t
    → (o : Option A) × (doing log pc ≡ has_popped o)
unfolding pop_position doing
doing-pops log (pop_take x) t e = (get_elem? log x, refl)
doing-pops log (pop_release x o) t e = (o, refl)
doing-pops log pc t e = cc

pub doing-pushes :
    {A : Type 0} (log : List A) (pc : Thread A) (p : ℕ)
    → push_position pc ≡ some p
    → doing log pc ≡ has_pushed
unfolding push_position doing
doing-pushes log (push_write v h) p e = refl
doing-pushes log (push_publish h) p e = refl
doing-pushes log pc p e = cc
