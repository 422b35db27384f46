-- ===== src/Sync/Ring/Invariant/Moves.antt =====
-- What each step of a thread that does not claim a position does to the invariant.
use elio.Prelude.{
  ℕ, suc, ◌+◌, ◌%◌, ◌^◌, ◌≤◌, ◌<◌, ◌≡◌, ◌≢◌, refl, sym, ap, ◌∙◌, subst, inr, Bool, true, false, [],
  ◌++◌, Option, none, some, arith, append-nil,
}
use elio.Sync.Ring.{
  Ring, Thread, push_look, push_claim, push_write, push_publish, pushed, pop_look, pop_claim,
  pop_take, pop_release, popped, advance, store, slot, Sign, negative, equal, positive,
  sign_of_difference, after_push_look, after_pop_look,
}
use elio.Sync.Ring.Work.{
  Unpublished, Unreleased, Unpublished-publish, Unreleased-publish, Unpublished-release,
  Unreleased-release,
}
use elio.Sync.Ring.Threads.{System, claimed, Knows, push_position, pop_position}
use elio.Sync.Ring.Windows.{Window, Window-write, Window-publish, Window-take, Window-release}
use elio.Sync.Ring.Effects.{Knows-write, Knows-publish, Knows-take, Knows-release}
use elio.Sync.Ring.Invariant.{
  Inv, StillPushes, StillPops, moved, local, weaken, sign-equal, some-injective,
}

module _ {A : Type 0} (k n : ℕ) (two : 2 ≤ 2 ^ k) (bounded : n + 2 ^ k < 2 ^ 63) (s : System A)
    (inv : Inv k n s) (i : ℕ) where
  -- The thread at `pc` goes on with that result.
  abbrev pub After : Thread A → Ring A × Thread A → Type 0
  After pc (r, pc') =
      Inv k (suc n)
        (record { ring = r; thread = store s.thread i pc'; log = s.log ++ claimed pc pc' })

  pub with_log :
      (r : Ring A) (pc' : Thread A)
      → Inv k n (record { ring = r; thread = store s.thread i pc'; log = s.log })
      → Inv k (suc n) (record { ring = r; thread = store s.thread i pc'; log = s.log ++ [] })
  with_log r pc' v =
      subst (λ l. Inv k (suc n) (record { ring = r; thread = store s.thread i pc'; log = l }))
        (sym (append-nil s.log)) (weaken v)

  -- A thread that only reads.
  pub reads :
      (pc' : Thread A)
      → Knows k s.ring s.log pc'
      → push_position pc' ≡ none
      → pop_position pc' ≡ none
      → push_position (s.thread i) ≡ none
      → pop_position (s.thread i) ≡ none
      → Inv k (suc n) (record { ring = s.ring; thread = store s.thread i pc'; log = s.log ++ [] })
  reads pc' own p q a b = with_log s.ring pc' (local k n s inv i pc' own p q a b)

  -- What the thread knows at `pc`.
  pub known : (pc : Thread A) → s.thread i ≡ pc → Knows k s.ring s.log pc
  known pc e = subst (Knows k s.ring s.log) e (inv.knows i)

  pub After-push_look :
      (v : A) (h : ℕ) (sign : Sign)
      → s.thread i ≡ push_look v h
      → sign_of_difference (s.ring.sequence (slot k h)) h ≡ sign
      → After (push_look v h) (after_push_look k s.ring v h sign)
  unfolding Knows push_position pop_position after_push_look
  After-push_look v h equal e f =
      reads (push_claim v h) ((known (push_look v h) e).0, λ q. sign-equal _ h f) refl refl
        (ap push_position e) (ap pop_position e)
  After-push_look v h negative e f =
      reads (pushed false) tt refl refl (ap push_position e) (ap pop_position e)
  After-push_look v h positive e f =
      reads (push_look v s.ring.head) (omega arith, λ q. omega arith) refl refl (ap push_position e)
        (ap pop_position e)

  pub After-pop_look :
      (t : ℕ) (sign : Sign)
      → s.thread i ≡ pop_look t
      → sign_of_difference (s.ring.sequence (slot k t)) ((t + 1) % 2 ^ 64) ≡ sign
      → After (pop_look t) (after_pop_look k s.ring t sign)
  unfolding Knows push_position pop_position after_pop_look
  After-pop_look t equal e f =
      let below : t ≤ s.ring.tail = (known (pop_look t) e).0 in
      let same = sign-equal _ _ f in
      reads (pop_claim t) (below, λ q. omega (arith, inv.window.order, inv.window.small)) refl refl
        (ap push_position e) (ap pop_position e)
  After-pop_look t negative e f =
      reads (popped none) tt refl refl (ap push_position e) (ap pop_position e)
  After-pop_look t positive e f =
      reads (pop_look s.ring.tail) (omega arith, λ q. omega arith) refl refl (ap push_position e)
        (ap pop_position e)

  -- The position of a claim belongs to no other thread.
  push_alone :
      (h : ℕ)
      → push_position (s.thread i) ≡ some h
      → (j : ℕ) → i ≢ j
      → push_position (s.thread j) ≢ some h
  push_alone h e j u f = u (inv.push_unique i j h e f)

  pop_alone :
      (t : ℕ)
      → pop_position (s.thread i) ≡ some t
      → (j : ℕ) → i ≢ j
      → pop_position (s.thread j) ≢ some t
  pop_alone t e j u f = u (inv.pop_unique i j t e f)

  -- A thread that claims nothing new writes.
  writes :
      (r : Ring A) (pc' : Thread A)
      → Window k n r s.log
      → Knows k r s.log pc'
      → ((j : ℕ) → i ≢ j → Knows k r s.log (s.thread j))
      → ((p : ℕ) → push_position pc' ≡ some p → push_position (s.thread i) ≡ some p)
      → ((p : ℕ) → pop_position pc' ≡ some p → pop_position (s.thread i) ≡ some p)
      → ((p : ℕ) → Unpublished k r p → StillPushes k n s inv i pc' p)
      → ((t : ℕ) → Unreleased k r t → StillPops k n s inv i pc' t)
      → Inv k (suc n) (record { ring = r; thread = store s.thread i pc'; log = s.log ++ [] })
  writes r pc' w own others pushes pops at_work popping = with_log r pc' (
      moved k n s inv i n r s.log pc' w own others (λ j p u e. push_alone p (pushes p e) j u)
        (λ j p u e. pop_alone p (pops p e) j u) at_work popping)

  pub After-push_write :
      (v : A) (h : ℕ) (b : Bool)
      → s.thread i ≡ push_write v h
      → After (push_write v h) (advance k b s.ring (push_write v h))
  unfolding advance push_position pop_position Knows store
  After-push_write v h b e =
      let own = known (push_write v h) e in
      writes _ (push_publish h) (Window-write k n two s.ring s.log inv.window v h own)
        (ground (arith, own))
        (λ j u.
          Knows-write k two s.ring s.log inv.window.order inv.window.room inv.window.counted v h
            (s.thread j) own (push_alone h (ap push_position e) j u) (inv.knows j))
        (λ p q. ap push_position e ∙ q) (λ p q. cc)
        (λ p u. inr (u, λ q. sym (ap push_position e) ∙ q))
        (λ p u. inr (u, λ q. sym (ap pop_position e) ∙ q))

  pub After-push_publish :
      (h : ℕ) (b : Bool)
      → s.thread i ≡ push_publish h
      → After (push_publish h) (advance k b s.ring (push_publish h))
  unfolding advance push_position pop_position Knows store
  After-push_publish h b e =
      let own = known (push_publish h) e in
      let next : suc h ≡ (h + 1) % 2 ^ 64 = omega (arith, own.1, inv.window.small) in
      subst
        (λ x.
          After (push_publish h)
            (record (s.ring) { sequence = store s.ring.sequence (slot k h) x }, pushed true))
        next
        (writes _ (pushed true) (Window-publish k n two s.ring s.log inv.window h own) tt
          (λ j u.
            Knows-publish k two s.ring s.log inv.window.order inv.window.room inv.window.counted h
              (s.thread j) own (push_alone h (ap push_position e) j u) (inv.knows j))
          (λ p q. cc) (λ p q. cc)
          (λ p u.
            let (old, apart) =
              Unpublished-publish k two s.ring s.log inv.window.order inv.window.room h p own u in
            inr (old, λ q. absurd (apart (some-injective (sym (ap push_position e) ∙ q)))))
          (λ p u. inr (
            Unreleased-publish k two s.ring s.log inv.window.order inv.window.room h p own u,
            λ q. sym (ap pop_position e) ∙ q,
          )))

  pub After-pop_take :
      (t : ℕ) (b : Bool)
      → s.thread i ≡ pop_take t
      → After (pop_take t) (advance k b s.ring (pop_take t))
  unfolding advance push_position pop_position Knows store
  After-pop_take t b e =
      let own = known (pop_take t) e in
      writes _ (pop_release t _) (Window-take k n two s.ring s.log inv.window t own) own
        (λ j u.
          Knows-take k two s.ring s.log inv.window.order inv.window.room inv.window.counted t
            (s.thread j) own (pop_alone t (ap pop_position e) j u) (inv.knows j))
        (λ p q. cc) (λ p q. ap pop_position e ∙ q)
        (λ p u. inr (u, λ q. sym (ap push_position e) ∙ q))
        (λ p u. inr (u, λ q. sym (ap pop_position e) ∙ q))

  pub After-pop_release :
      (t : ℕ) (o : Option A) (b : Bool)
      → s.thread i ≡ pop_release t o
      → After (pop_release t o) (advance k b s.ring (pop_release t o))
  unfolding advance push_position pop_position Knows store
  After-pop_release t o b e =
      let own = known (pop_release t o) e in
      let next : t + 2 ^ k ≡ (t + 2 ^ k) % 2 ^ 64 =
        omega (arith, own.0, inv.window.order, inv.window.small) in
      subst
        (λ x.
          After (pop_release t o)
            (record (s.ring) { sequence = store s.ring.sequence (slot k t) x }, popped o))
        next
        (writes _ (popped o) (Window-release k n two s.ring s.log inv.window t o own) tt
          (λ j u.
            Knows-release k two s.ring s.log inv.window.order inv.window.room inv.window.counted t o
              (s.thread j) own (pop_alone t (ap pop_position e) j u) (inv.knows j))
          (λ p q. cc) (λ p q. cc)
          (λ p u. inr (
            Unpublished-release k two s.ring s.log inv.window.order inv.window.room t o p own u,
            λ q. sym (ap push_position e) ∙ q,
          ))
          (λ p u.
            let (old, apart) =
              Unreleased-release k two s.ring s.log inv.window.order inv.window.room t o p own u in
            inr (old, λ q. absurd (apart (some-injective (sym (ap pop_position e) ∙ q))))))
