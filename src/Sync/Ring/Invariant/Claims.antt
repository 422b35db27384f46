-- ===== src/Sync/Ring/Invariant/Claims.antt =====
-- A claim of a position keeps the invariant, and so does each step of a thread.
use elio.Prelude.{
  ℕ, suc, ◌+◌, ◌%◌, ◌^◌, ◌≤◌, ◌<◌, ◌≡◌, refl, sym, ap, ◌∙◌, subst, inl, inr, Bool, true, false, [],
  ◌∷◌, ◌++◌, none, some, get_elem?, arith, get_elem?-push, ◌==◌, Bool-cases, ==_iff,
}
use elio.Sync.Ring.{
  Thread, idle, push_load, push_look, push_claim, push_write, push_publish, pushed, pop_load,
  pop_look, pop_claim, pop_take, pop_release, popped, advance, slot,
}
use elio.Sync.Ring.Threads.{System, Knows, push_position, pop_position}
use elio.Sync.Ring.Windows.{Window-claim_push, Window-claim_pop}
use elio.Sync.Ring.Effects.{Knows-claim_push, Knows-claim_pop}
use elio.Sync.Ring.Invariant.{Inv, decide, moved, some-injective, new_push, new_pop}
use elio.Sync.Ring.Invariant.Moves.{
  After, with_log, reads, known, After-push_look, After-pop_look, After-push_write,
  After-push_publish, After-pop_take, After-pop_release,
}

nowhere : {p : ℕ} → none ≡ some p → ⊥
nowhere e = cc

module _ {A : Type 0} (k n : ℕ) (two : 2 ≤ 2 ^ k) (bounded : n + 2 ^ k < 2 ^ 63) (s : System A)
    (inv : Inv k n s) (i : ℕ) where
  push_claims :
      (v : A) (h : ℕ)
      → s.thread i ≡ push_claim v h
      → s.ring.head ≡ h
      → After k n two bounded s inv i
          (push_claim v h)
          (record (s.ring) { head = (h + 1) % 2 ^ 64 }, push_write v h)
  unfolding push_position pop_position Knows
  push_claims v h e q =
      let own = known k n two bounded s inv i (push_claim v h) e in
      let free : s.ring.sequence (slot k s.ring.head) ≡ s.ring.head =
        subst (λ x. s.ring.sequence (slot k x) ≡ x) (sym q) (own.1 (sym q)) in
      let next : suc s.ring.head ≡ (h + 1) % 2 ^ 64 = omega (arith, inv.window.small) in
      let placed : get_elem? (s.log ++ (v ∷ [])) h ≡ some v =
        subst (λ x. get_elem? (s.log ++ (v ∷ [])) x ≡ some v) (inv.window.counted ∙ q)
          (get_elem?-push s.log v) in
      subst
        (λ x.
          After k n two bounded s inv i (push_claim v h)
            (record (s.ring) { head = x }, push_write v h))
        next
        (moved k n s inv i (suc n) (record (s.ring) { head = suc s.ring.head }) (s.log ++ (v ∷ []))
          (push_write v h) (Window-claim_push k n two s.ring s.log inv.window v free)
          (omega (arith, inv.window.order), omega arith, own.1 (sym q), placed)
          (λ j u.
            Knows-claim_push k two s.ring s.log inv.window.order inv.window.room inv.window.counted
              v (s.thread j) free (inv.knows j))
          (λ j p u x y.
            new_push k s.ring s.log (s.thread j) p (inv.knows j) y
              (omega (arith, some-injective x)))
          (λ j p u x y. cc)
          (λ p u. elim (decide h p) [
            | inl a ↦ inl (ap some a)
            | inr a ↦ inr (
              (u.0, omega (arith, u.1, a, q), u.2),
              λ x. absurd (nowhere (sym (ap push_position e) ∙ x)),
            )
          ])
          (λ p u. inr ((u.0, omega (arith, u.1), u.2), λ x. sym (ap pop_position e) ∙ x)))

  pop_claims :
      (t : ℕ)
      → s.thread i ≡ pop_claim t
      → s.ring.tail ≡ t
      → After k n two bounded s inv i
          (pop_claim t)
          (record (s.ring) { tail = (t + 1) % 2 ^ 64 }, pop_take t)
  unfolding push_position pop_position Knows
  pop_claims t e q =
      let own = known k n two bounded s inv i (pop_claim t) e in
      let full : s.ring.sequence (slot k t) ≡ t + 1 = own.1 (sym q) in
      let full' : s.ring.sequence (slot k s.ring.tail) ≡ suc s.ring.tail = ground (arith, full) in
      let w' = Window-claim_pop k n two s.ring s.log inv.window full' in
      let next : suc s.ring.tail ≡ (t + 1) % 2 ^ 64 =
        omega (arith, inv.window.order, inv.window.small) in
      let value : s.ring.value (slot k t) ≡ get_elem? s.log t =
        ground (arith, full, inv.window.queued t, w'.order) in
      subst
        (λ x.
          After k n two bounded s inv i (pop_claim t) (record (s.ring) { tail = x }, pop_take t))
        next
        (with_log k n two bounded s inv i _ (pop_take t) (
          moved k n s inv i n (record (s.ring) { tail = suc s.ring.tail }) s.log (pop_take t) w'
            (omega arith, omega (arith, inv.window.room), full, value)
            (λ j u.
              Knows-claim_pop k two s.ring s.log inv.window.order inv.window.room inv.window.counted
                (s.thread j) full' (inv.knows j))
            (λ j p u x y. cc)
            (λ j p u x y.
              new_pop k s.ring s.log (s.thread j) p (inv.knows j) y
                (omega (arith, some-injective x)))
            (λ p u. inr ((omega (arith, u.0), u.1, u.2), λ x. sym (ap push_position e) ∙ x))
            (λ p u. elim (decide t p) [
              | inl a ↦ inl (ap some a)
              | inr a ↦ inr (
                (omega (arith, u.0, a, q), u.1, u.2),
                λ x. absurd (nowhere (sym (ap pop_position e) ∙ x)),
              )
            ])))

  After-push_claim :
      (v : A) (h : ℕ) (b : Bool)
      → s.thread i ≡ push_claim v h
      → After k n two bounded s inv i (push_claim v h) (advance k b s.ring (push_claim v h))
  unfolding advance Knows push_position pop_position
  After-push_claim v h true e =
      reads k n two bounded s inv i (push_look v s.ring.head) (omega arith, λ q. omega arith) refl
        refl (ap push_position e) (ap pop_position e)
  After-push_claim v h false e = elim (Bool-cases (s.ring.head == h)) [
    | inl q ↦ rw q (push_claims v h e ((==_iff _ _).0 q))
    | inr q ↦ rw q (
        reads k n two bounded s inv i (push_look v s.ring.head) (omega arith, λ q. omega arith) refl
          refl (ap push_position e) (ap pop_position e))
  ]

  After-pop_claim :
      (t : ℕ) (b : Bool)
      → s.thread i ≡ pop_claim t
      → After k n two bounded s inv i (pop_claim t) (advance k b s.ring (pop_claim t))
  unfolding advance Knows push_position pop_position
  After-pop_claim t true e =
      reads k n two bounded s inv i (pop_look s.ring.tail) (omega arith, λ q. omega arith) refl refl
        (ap push_position e) (ap pop_position e)
  After-pop_claim t false e = elim (Bool-cases (s.ring.tail == t)) [
    | inl q ↦ rw q (pop_claims t e ((==_iff _ _).0 q))
    | inr q ↦ rw q (
        reads k n two bounded s inv i (pop_look s.ring.tail) (omega arith, λ q. omega arith) refl
          refl (ap push_position e) (ap pop_position e))
  ]

  pub After-advance :
      (pc : Thread A) (b : Bool)
      → s.thread i ≡ pc
      → After k n two bounded s inv i pc (advance k b s.ring pc)
  unfolding advance Knows push_position pop_position
  After-advance idle b e =
      reads k n two bounded s inv i idle tt refl refl (ap push_position e) (ap pop_position e)
  After-advance (push_load v) b e =
      reads k n two bounded s inv i (push_look v s.ring.head) (omega arith, λ q. omega arith) refl
        refl (ap push_position e) (ap pop_position e)
  After-advance (push_look v h) b e = After-push_look k n two bounded s inv i v h _ e refl
  After-advance (push_claim v h) b e = After-push_claim v h b e
  After-advance (push_write v h) b e = After-push_write k n two bounded s inv i v h b e
  After-advance (push_publish h) b e = After-push_publish k n two bounded s inv i h b e
  After-advance (pushed o) b e =
      reads k n two bounded s inv i (pushed o) tt refl refl (ap push_position e) (ap pop_position e)
  After-advance pop_load b e =
      reads k n two bounded s inv i (pop_look s.ring.tail) (omega arith, λ q. omega arith) refl refl
        (ap push_position e) (ap pop_position e)
  After-advance (pop_look t) b e = After-pop_look k n two bounded s inv i t _ e refl
  After-advance (pop_claim t) b e = After-pop_claim t b e
  After-advance (pop_take t) b e = After-pop_take k n two bounded s inv i t b e
  After-advance (pop_release t o) b e = After-pop_release k n two bounded s inv i t o b e
  After-advance (popped o) b e =
      reads k n two bounded s inv i (popped o) tt refl refl (ap push_position e) (ap pop_position e)
