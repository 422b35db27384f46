-- ===== src/Sync/Ring/Refinement.antt =====
-- Each step of the ring is a step of the queue.
use elio.Prelude.{
  inl, inr, ℕ, suc, ◌+◌, ◌%◌, ◌^◌, ◌≤◌, ◌<◌, ◌≡◌, ◌≢◌, refl, sym, ap, ◌∙◌, subst, Bool, true, false,
  List, [], ◌∷◌, ◌++◌, some, get_elem?, drop, arith, append-nil, drop-append_left, drop-get_elem?,
  get_elem?-append_left, length-drop, ◌==◌, Bool-cases, ==_iff,
}
use elio.Sync.Ring.{
  sign_of_difference, Ring, Thread, idle, push_load, push_look, push_claim, push_write,
  push_publish, pushed, pop_load, pop_look, pop_claim, pop_take, pop_release, popped, advance,
  store, after_push_look, after_pop_look, slot, Sign, equal, negative, positive,
}
use elio.Sync.Ring.Threads.{System, Reach, act, claimed, Knows, push_position, pop_position}
use elio.Sync.Ring.Refusals.{push_turned_away, pop_turned_away}
use elio.Sync.Ring.Windows.{Window-claim_push, Window-claim_pop}
use elio.Sync.Ring.Invariant.{Inv}
use elio.Sync.Ring.Invariant.Reached.{Reach-Inv}
use elio.Sync.Ring.Queue.{
  has_popped, doing, contents, Popper, Pusher, QueueStep, stutters, enqueues, returns_true, refuses,
  dequeues, returns_value, finds_nothing, doing-pops, doing-pushes,
}

module _ {A : Type 0} (k n : ℕ) (two : 2 ≤ 2 ^ k) (bounded : n + 2 ^ k < 2 ^ 63) (s : System A)
    (inv : Inv k n s) (i : ℕ) where
  -- What the queue sees when the thread at `pc` gets to that ring and place.
  abbrev Seen : Thread A → Ring A × Thread A → Type 0
  Seen pc (r, pc') =
      QueueStep (2 ^ k) (Popper s) (Pusher s) (contents s) (doing s.log pc)
        (drop r.tail (s.log ++ claimed pc pc')) (doing (s.log ++ claimed pc pc') pc')

  same : (t : ℕ) → t ≡ s.ring.tail → drop t (s.log ++ []) ≡ contents s
  same t e = ap (λ x. drop x (s.log ++ [])) e ∙ ap (drop s.ring.tail) (append-nil s.log)

  Popper-from : (j : ℕ) × (t : ℕ) × (pop_position (s.thread j) ≡ some t) → Popper s
  Popper-from (j, t, e) = let (o, p) = doing-pops s.log (s.thread j) t e in (j, o, p)

  Pusher-from : (j : ℕ) × (p : ℕ) × (push_position (s.thread j) ≡ some p) → Pusher s
  Pusher-from (j, p, e) = (j, doing-pushes s.log (s.thread j) p e)

  Seen-push_look :
      (v : A) (h : ℕ) (sign : Sign)
      → s.thread i ≡ push_look v h
      → sign_of_difference (s.ring.sequence (slot k h)) h ≡ sign
      → Seen (push_look v h) (after_push_look k s.ring v h sign)
  unfolding after_push_look doing
  Seen-push_look v h equal e f = stutters (same _ refl) refl
  Seen-push_look v h negative e f =
      let own : Knows k s.ring s.log (push_look v h) =
        subst (Knows k s.ring s.log) e (inv.knows i) in
      refuses v refl
        (elim (push_turned_away k n two bounded s inv v h own f) [
          | inl a ↦ inl a
          | inr b ↦ inr (Popper-from b)
        ])
        (same _ refl) refl
  Seen-push_look v h positive e f = stutters (same _ refl) refl

  Seen-pop_look :
      (t : ℕ) (sign : Sign)
      → s.thread i ≡ pop_look t
      → sign_of_difference (s.ring.sequence (slot k t)) ((t + 1) % 2 ^ 64) ≡ sign
      → Seen (pop_look t) (after_pop_look k s.ring t sign)
  unfolding after_pop_look doing
  Seen-pop_look t equal e f = stutters (same _ refl) refl
  Seen-pop_look t negative e f =
      let own : Knows k s.ring s.log (pop_look t) = subst (Knows k s.ring s.log) e (inv.knows i) in
      finds_nothing refl
        (elim (pop_turned_away k n two bounded s inv t own f) [
          | inl a ↦ inl a
          | inr b ↦ inr (Pusher-from b)
        ])
        (same _ refl) refl
  Seen-pop_look t positive e f = stutters (same _ refl) refl

  Seen-push_claims :
      (v : A) (h : ℕ)
      → s.thread i ≡ push_claim v h
      → s.ring.head ≡ h
      → Seen (push_claim v h) (record (s.ring) { head = (h + 1) % 2 ^ 64 }, push_write v h)
  unfolding doing Knows
  Seen-push_claims v h e q =
      let own : Knows k s.ring s.log (push_claim v h) =
        subst (Knows k s.ring s.log) e (inv.knows i) in
      let free : s.ring.sequence (slot k s.ring.head) ≡ s.ring.head =
        subst (λ x. s.ring.sequence (slot k x) ≡ x) (sym q) (own.1 (sym q)) in
      let w = Window-claim_push k n two s.ring s.log inv.window v free in
      let size = length-drop s.ring.tail s.log in
      enqueues v refl (omega (arith, size, inv.window.counted, inv.window.order, w.room))
        (drop-append_left s.ring.tail s.log (v ∷ [])
          (omega (arith, inv.window.counted, inv.window.order)))
        refl

  Seen-pop_claims :
      (t : ℕ)
      → s.thread i ≡ pop_claim t
      → s.ring.tail ≡ t
      → Seen (pop_claim t) (record (s.ring) { tail = (t + 1) % 2 ^ 64 }, pop_take t)
  unfolding doing Knows
  Seen-pop_claims t e q =
      let own : Knows k s.ring s.log (pop_claim t) = subst (Knows k s.ring s.log) e (inv.knows i) in
      let full : s.ring.sequence (slot k t) ≡ t + 1 = own.1 (sym q) in
      let full' : s.ring.sequence (slot k s.ring.tail) ≡ suc s.ring.tail = ground (arith, full) in
      let w = Window-claim_pop k n two s.ring s.log inv.window full' in
      let (x, here, split) =
        drop-get_elem? s.log s.ring.tail (omega (arith, inv.window.counted, w.order)) in
      let next : suc s.ring.tail ≡ (t + 1) % 2 ^ 64 =
        omega (arith, inv.window.order, inv.window.small) in
      dequeues x refl
        (split
          ∙ ap (λ j. x ∷ drop j s.log) next
          ∙ ap (λ l. x ∷ drop ((t + 1) % 2 ^ 64) l) (sym (append-nil s.log)))
        (ap (λ l. has_popped (get_elem? l t)) (append-nil s.log)
          ∙ ap (λ j. has_popped (get_elem? s.log j)) (sym q)
          ∙ ap has_popped here)

  Seen-push_claim :
      (v : A) (h : ℕ) (b : Bool)
      → s.thread i ≡ push_claim v h
      → Seen (push_claim v h) (advance k b s.ring (push_claim v h))
  unfolding advance doing
  Seen-push_claim v h true e = stutters (same _ refl) refl
  Seen-push_claim v h false e = elim (Bool-cases (s.ring.head == h)) [
    | inl q ↦ rw q (Seen-push_claims v h e ((==_iff _ _).0 q))
    | inr q ↦ rw q (stutters (same _ refl) refl)
  ]

  Seen-pop_claim :
      (t : ℕ) (b : Bool)
      → s.thread i ≡ pop_claim t
      → Seen (pop_claim t) (advance k b s.ring (pop_claim t))
  unfolding advance doing
  Seen-pop_claim t true e = stutters (same _ refl) refl
  Seen-pop_claim t false e = elim (Bool-cases (s.ring.tail == t)) [
    | inl q ↦ rw q (Seen-pop_claims t e ((==_iff _ _).0 q))
    | inr q ↦ rw q (stutters (same _ refl) refl)
  ]

  Seen-advance : (pc : Thread A) (b : Bool) → s.thread i ≡ pc → Seen pc (advance k b s.ring pc)
  unfolding advance doing Knows
  Seen-advance idle b e = stutters (same _ refl) refl
  Seen-advance (push_load v) b e = stutters (same _ refl) refl
  Seen-advance (push_look v h) b e = Seen-push_look v h _ e refl
  Seen-advance (push_claim v h) b e = Seen-push_claim v h b e
  Seen-advance (push_write v h) b e = stutters (same _ refl) refl
  Seen-advance (push_publish h) b e = returns_true refl (same _ refl) refl
  Seen-advance (pushed o) b e = stutters (same _ refl) refl
  Seen-advance pop_load b e = stutters (same _ refl) refl
  Seen-advance (pop_look t) b e = Seen-pop_look t _ e refl
  Seen-advance (pop_claim t) b e = Seen-pop_claim t b e
  Seen-advance (pop_take t) b e =
      let own : Knows k s.ring s.log (pop_take t) = subst (Knows k s.ring s.log) e (inv.knows i) in
      stutters (same _ refl) (ap has_popped own.3)
  Seen-advance (pop_release t o) b e = returns_value o refl (same _ refl) refl
  Seen-advance (popped o) b e = stutters (same _ refl) refl

  -- What is claimed later changes no place of a thread that has its value.
  doing-append :
      (more : List A) (pc : Thread A)
      → Knows k s.ring s.log pc
      → doing (s.log ++ more) pc ≡ doing s.log pc
  unfolding doing Knows
  doing-append more (pop_take t) w =
      ap has_popped
        (get_elem?-append_left s.log more t (omega (arith, inv.window.counted, inv.window.order)))
  doing-append more idle w = refl
  doing-append more pc w = refl

store_self : {A : Type 0} (f : ℕ → A) (i : ℕ) (a : A) → store f i a i ≡ a
unfolding store
store_self f i a = ground arith

store_other : {A : Type 0} (f : ℕ → A) (i j : ℕ) (a : A) → i ≢ j → store f i a j ≡ f j
unfolding store
store_other f i j a u = ground arith

-- A step of one thread on the ring is a step of that thread on a queue of at most 2 ^ k elements, and
-- for the queue no other thread has moved: try_push appends its value at its claim, and returns true
-- after it; the value that try_pop returns was the first one at its claim. try_push is refused only when
-- the queue is full or some thread has popped and not returned, and try_pop finds nothing only when the
-- queue is empty or some thread has pushed and not returned. Every order of the steps
-- of any number of threads is covered, with at least two slots and as long as the counters stay below
-- 2 ^ 63.
pub act-QueueStep :
    {A : Type 0} (k n : ℕ) (s : System A) (i : ℕ) (spurious : Bool)
    → 2 ≤ 2 ^ k
    → n + 2 ^ k < 2 ^ 63
    → Reach k n s
    → let t = act k i spurious s in
      QueueStep
        (2 ^ k)
        (Popper s)
        (Pusher s)
        (contents s)
        (doing s.log (s.thread i))
        (contents t)
        (doing t.log (t.thread i))
      × ((j : ℕ) → i ≢ j → doing t.log (t.thread j) ≡ doing s.log (s.thread j))
act-QueueStep k n s i spurious two bounded r =
    let inv = Reach-Inv two bounded r in
    let place = (advance k spurious s.ring (s.thread i)).1 in
    let log = s.log ++ claimed (s.thread i) place in
    let queue = drop (advance k spurious s.ring (s.thread i)).0.tail log in
    (
      subst
          (λ pc.
            QueueStep (2 ^ k) (Popper s) (Pusher s) (contents s) (doing s.log (s.thread i)) queue
              (doing log pc))
          (sym (store_self s.thread i place))
          (Seen-advance k n two bounded s inv i (s.thread i) spurious refl),
      λ j u.
          ap (doing log) (store_other s.thread i j place u)
          ∙ doing-append k n two bounded s inv i (claimed (s.thread i) place) (s.thread j)
              (inv.knows j),
    )
