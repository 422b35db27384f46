-- ===== src/Sync/Ring/Refusals.antt =====
-- When a look at a slot sends a thread away.
use elio.Prelude.{
  ℕ, suc, ◌+◌, ◌%◌, ◌^◌, ◌≤◌, ◌<◌, ◌≡◌, sym, ap, ◌∙◌, subst, ◌-◌, ◌⊎◌, inl, inr, some, length, drop,
  arith, length-drop,
}
use elio.Sync.Ring.{push_look, pop_look, slot, negative, sign_of_difference}
use elio.Sync.Ring.Threads.{System, Knows, push_position, pop_position}
use elio.Sync.Ring.Slots.{slot-lap}
use elio.Sync.Ring.Invariant.{Inv, decide}

sign-negative : (a b : ℕ) → a < 2 ^ 63 → b < 2 ^ 63 → sign_of_difference a b ≡ negative → a < b
unfolding sign_of_difference
sign-negative a b x y h = ground arith

module _ {A : Type 0} (k n : ℕ) (two : 2 ≤ 2 ^ k) (bounded : n + 2 ^ k < 2 ^ 63) (s : System A)
    (inv : Inv k n s) where
  full_or_emptied :
      (h : ℕ)
      → h ≡ s.ring.head
      → s.ring.sequence (slot k h) < h
      → (length (drop s.ring.tail s.log) ≡ 2 ^ k)
        ⊎ ((j : ℕ) × (t : ℕ) × (pop_position (s.thread j) ≡ some t))
  full_or_emptied h e l =
      let w = inv.window in
      let size = length-drop s.ring.tail s.log in
      elim (decide s.ring.head (s.ring.tail + 2 ^ k)) [
        | inl q ↦ inl (omega (arith, size, q, w.counted))
        | inr q ↦ inr (elim (w.free h (omega (arith, e)) (omega (arith, e, q, w.room))) [
          | inl a ↦ absurd (omega (arith, a, l))
          | inr (a, b) ↦
              let t = h - 2 ^ k in
              let back : t + 2 ^ k ≡ h = omega (arith, a) in
              let same : slot k h ≡ slot k t = sym (ap (slot k) back) ∙ slot-lap k t in
              let sequence : s.ring.sequence (slot k t) ≡ suc t =
                subst (λ x. s.ring.sequence x ≡ suc t) same (omega (arith, b, back)) in
              let (j, found) =
                inv.unreleased t
                  (omega (arith, back, e, q, w.room), omega (arith, back, e), sequence) in
              (j, t, found)
        ])
      ]

  pub push_turned_away :
      (v : A) (h : ℕ)
      → Knows k s.ring s.log (push_look v h)
      → sign_of_difference (s.ring.sequence (slot k h)) h ≡ negative
      → (length (drop s.ring.tail s.log) ≡ 2 ^ k)
        ⊎ ((j : ℕ) × (t : ℕ) × (pop_position (s.thread j) ≡ some t))
  unfolding Knows
  push_turned_away v h own f =
      let w = inv.window in
      let less =
        sign-negative _ h (omega (arith, w.limited h, w.small)) (omega (arith, own.0, w.small)) f in
      let now : h ≡ s.ring.head = ground (arith, own, less) in full_or_emptied h now less

  pub pop_turned_away :
      (t : ℕ)
      → Knows k s.ring s.log (pop_look t)
      → sign_of_difference (s.ring.sequence (slot k t)) ((t + 1) % 2 ^ 64) ≡ negative
      → (length (drop s.ring.tail s.log) ≡ 0)
        ⊎ ((j : ℕ) × (p : ℕ) × (push_position (s.thread j) ≡ some p))
  unfolding Knows
  pop_turned_away t own f =
      let w = inv.window in
      let next : (t + 1) % 2 ^ 64 ≡ t + 1 = omega (arith, own.0, w.small, w.order) in
      let less =
        sign-negative _ _ (omega (arith, w.limited t, w.small))
          (omega (arith, own.0, w.small, w.order, next)) f in
      let now : t ≡ s.ring.tail = ground (arith, own, less, next) in
      elim (decide s.ring.tail s.ring.head) [
        | inl q ↦
            inl (let size = length-drop s.ring.tail s.log in omega (arith, size, q, w.counted))
        | inr q ↦ inr (elim (w.queued t (omega (arith, now)) (omega (arith, now, q, w.order))) [
          | inl a ↦
              let (j, found) =
                inv.unpublished t (omega (arith, now), omega (arith, now, q, w.order), a) in
              (j, t, found)
          | inr (a, b) ↦ absurd (omega (arith, a, less, next))
        ])
      ]
