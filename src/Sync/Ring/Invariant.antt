-- ===== src/Sync/Ring/Invariant.antt =====
-- The invariant of the ring and its threads, and how a thread's move keeps it.
pub mod Moves
pub mod Claims
pub mod Reached
use elio.Prelude.{
  ℕ, zero, suc, ◌+◌, ◌%◌, ◌^◌, ◌≤◌, ◌<◌, ◌≡◌, ◌≢◌, refl, sym, ap, ◌∙◌, subst, ◌⊎◌, inl, inr, Bool,
  true, false, List, [], ◌∷◌, ◌++◌, Option, none, some, get_elem?, length, arith, append-nil,
  get_elem?-push, ◌==◌, if◌then◌else◌, Bool-cases, ==_iff,
}
use elio.Sync.Ring.{
  Ring, Thread, idle, push_load, push_look, push_claim, push_write, push_publish, pushed, pop_load,
  pop_look, pop_claim, pop_take, pop_release, popped, new_ring, advance, store, slot, Sign,
  negative, equal, positive, sign_of_difference, after_push_look, after_pop_look,
}
use elio.Sync.Ring.Threads.{
  System, Step, calls_push, calls_pop, advances, Reach, start, later, new_system, act, claimed,
  is_outside, Knows, push_position, pop_position,
}
use elio.Sync.Ring.Work.{Unpublished, Unreleased}
use elio.Sync.Ring.Slots.{slot-below}
use elio.Sync.Ring.Windows.{
  Window, Window-write, Window-publish, Window-take, Window-release, Window-claim_push,
  Window-claim_pop,
}
use elio.Sync.Ring.Effects.{
  Knows-write, Knows-publish, Knows-take, Knows-release, Knows-claim_push, Knows-claim_pop,
}

pub decide : (i j : ℕ) → (i ≡ j) ⊎ (i ≢ j)
decide i j = elim (Bool-cases (i == j)) [
  | inl q ↦ inl ((==_iff _ _).0 q)
  | inr q ↦ inr (λ e. ground arith)
]

-- The window, what each thread knows, that no position is claimed twice, and that some thread works
-- on each position that is claimed and not done with.
pub record Inv {A : Type 0} (k n : ℕ) (s : System A) : Type 0 where
  pub window : Window k n s.ring s.log
  pub knows : (i : ℕ) → Knows k s.ring s.log (s.thread i)
  pub push_unique :
      (i j p : ℕ)
      → push_position (s.thread i) ≡ some p
      → push_position (s.thread j) ≡ some p
      → i ≡ j
  pub pop_unique :
      (i j p : ℕ) → pop_position (s.thread i) ≡ some p → pop_position (s.thread j) ≡ some p → i ≡ j
  pub unpublished :
      (p : ℕ) → Unpublished k s.ring p → (j : ℕ) × (push_position (s.thread j) ≡ some p)
  pub unreleased : (t : ℕ) → Unreleased k s.ring t → (j : ℕ) × (pop_position (s.thread j) ≡ some t)

module _ {A : Type 0} (k n : ℕ) (s : System A) (inv : Inv k n s) (i : ℕ) where
  -- The thread that works on a position is `i` from now on, or the same as before.
  abbrev pub StillPushes : Thread A → ℕ → Type 0
  StillPushes pc p =
      (push_position pc ≡ some p)
      ⊎ (Unpublished k s.ring p × (push_position (s.thread i) ≡ some p → push_position pc ≡ some p))

  abbrev pub StillPops : Thread A → ℕ → Type 0
  StillPops pc t =
      (pop_position pc ≡ some t)
      ⊎ (Unreleased k s.ring t × (pop_position (s.thread i) ≡ some t → pop_position pc ≡ some t))

  -- Thread `i` goes to `pc`, and writes the ring and the log.
  pub moved :
      (m : ℕ) (r : Ring A) (log : List A) (pc : Thread A)
      → Window k m r log
      → Knows k r log pc
      → ((j : ℕ) → i ≢ j → Knows k r log (s.thread j))
      → ((j p : ℕ) → i ≢ j → push_position pc ≡ some p → push_position (s.thread j) ≢ some p)
      → ((j p : ℕ) → i ≢ j → pop_position pc ≡ some p → pop_position (s.thread j) ≢ some p)
      → ((p : ℕ) → Unpublished k r p → StillPushes pc p)
      → ((t : ℕ) → Unreleased k r t → StillPops pc t)
      → Inv k m (record { ring = r; thread = store s.thread i pc; log = log })
  unfolding store
  moved m r log pc w own others push_fresh pop_fresh pushes pops = record {
    window = w;
    knows = λ j. ground (arith, others j);
    push_unique =
        λ a b p e f. ground (arith, inv.push_unique a b p, push_fresh a p, push_fresh b p);
    pop_unique = λ a b p e f. ground (arith, inv.pop_unique a b p, pop_fresh a p, pop_fresh b p);
    unpublished = λ p u. elim (pushes p u) [
      | inl e ↦ (i, ground (arith, e))
      | inr (old, f) ↦
          let (j, e) = inv.unpublished p old in
          elim (decide i j) [
            | inl a ↦
                (i, ground (arith, f (subst (λ x. push_position (s.thread x) ≡ some p) (sym a) e)))
            | inr a ↦ (j, ground (arith, a, e))
          ]
    ];
    unreleased = λ t u. elim (pops t u) [
      | inl e ↦ (i, ground (arith, e))
      | inr (old, f) ↦
          let (j, e) = inv.unreleased t old in
          elim (decide i j) [
            | inl a ↦
                (i, ground (arith, f (subst (λ x. pop_position (s.thread x) ≡ some t) (sym a) e)))
            | inr a ↦ (j, ground (arith, a, e))
          ]
    ];
  }

  -- Neither the ring nor the claims change.
  pub local :
      (pc : Thread A)
      → Knows k s.ring s.log pc
      → push_position pc ≡ none
      → pop_position pc ≡ none
      → push_position (s.thread i) ≡ none
      → pop_position (s.thread i) ≡ none
      → Inv k n (record s { thread = store s.thread i pc })
  local pc own p q a b =
      moved n s.ring s.log pc inv.window own (λ j u. inv.knows j) (λ j x u e. cc) (λ j x u e. cc)
        (λ x u. inr (u, λ e. cc)) (λ x u. inr (u, λ e. cc))

pub sign-equal : (a b : ℕ) → sign_of_difference a b ≡ equal → a ≡ b
unfolding sign_of_difference
sign-equal a b h = ground arith

pub some-injective : {a b : ℕ} → some a ≡ some b → a ≡ b
some-injective e = cc

pub new_push :
    {A : Type 0} (k : ℕ) (r : Ring A) (log : List A) (pc : Thread A) (p : ℕ)
    → Knows k r log pc
    → push_position pc ≡ some p
    → r.head ≤ p
    → ⊥
unfolding Knows push_position
new_push k r log pc p x e h = ground arith

pub new_pop :
    {A : Type 0} (k : ℕ) (r : Ring A) (log : List A) (pc : Thread A) (p : ℕ)
    → Knows k r log pc
    → pop_position pc ≡ some p
    → r.tail ≤ p
    → ⊥
unfolding Knows pop_position
new_pop k r log pc p x e h = ground arith

pub weaken : {A : Type 0} {k n : ℕ} {s : System A} → Inv k n s → Inv k (suc n) s
weaken inv = record {
  window = record {
    counted = inv.window.counted;
    order = inv.window.order;
    room = inv.window.room;
    small = omega (arith, inv.window.small);
    limited = inv.window.limited;
    queued = inv.window.queued;
    free = inv.window.free;
  };
  knows = inv.knows;
  push_unique = inv.push_unique;
  pop_unique = inv.pop_unique;
  unpublished = inv.unpublished;
  unreleased = inv.unreleased;
}
