-- ===== src/Sync/Mutex/Local.antt =====
-- Steps that change one client and its waiter.
use elio.Prelude.{
  ℕ, ◌≡◌, ◌≢◌, refl, ◌∙◌, sym, ◌⊎◌, inl, inr, Bool, true, false, List, [], ◌∷◌, ◌++◌, Option, none,
  some, arith, subst, ◌==◌, Bool-cases, ==_iff,
}
use elio.Sync.Semaphore.{Waiter, contains, remove, update}
use elio.Sync.Semaphore.Permits.{IsDistinct, push-IsDistinct, remove-IsDistinct}
use elio.Sync.Mutex.Clients.{Phase, System, holds, holds_as, note, moves}
use elio.Sync.Mutex.Fits.{Fits, Good, Owned, Inv}
use elio.Sync.Mutex.Recover.{recovered, recovered-Inv}
use elio.Sync.Mutex.Positions.{
  enter_self, enter_other, contains-push_other, contains-push_self, contains-remove_other,
  contains-remove_self,
}
use elio.Sync.Semaphore.Permits.{update_self, update_other}

-- Client `id` goes to phase `p` with the waiter `w`; the others stay as they are.
pub record Local (id : ℕ) (p : Phase) (w : Waiter) (linked : Bool) (s t : System) : Type 0 where
  pub phase_self : t.phase id ≡ p
  pub node_self : t.mutex.nodes id ≡ w
  pub linked_self : contains id t.mutex.waiters ≡ linked
  pub schedule_self : contains id t.to_schedule ≡ contains id s.to_schedule
  pub phase_other : (j : ℕ) → id ≢ j → t.phase j ≡ s.phase j
  pub node_other : (j : ℕ) → id ≢ j → t.mutex.nodes j ≡ s.mutex.nodes j
  pub linked_other : (j : ℕ) → id ≢ j → contains j t.mutex.waiters ≡ contains j s.mutex.waiters
  pub schedule_other : (j : ℕ) → id ≢ j → contains j t.to_schedule ≡ contains j s.to_schedule
  pub distinct : IsDistinct t.mutex.waiters

-- The nodes of all but one waiter are the same.
pub record Changed (id : ℕ) (w : Waiter) (f g : ℕ → Waiter) : Type 0 where
  pub self : g id ≡ w
  pub other : (j : ℕ) → id ≢ j → g j ≡ f j

pub update-Changed : (id : ℕ) (w : Waiter) (f : ℕ → Waiter) → Changed id w f (update f id w)
update-Changed id w f = record { self = update_self f id w; other = λ j u. update_other f id w j u }

pub unchanged-Changed : (id : ℕ) (w : Waiter) (f : ℕ → Waiter) → f id ≡ w → Changed id w f f
unchanged-Changed id w f e = record { self = e; other = λ j u. refl }

pub update-Changed_again :
    (id : ℕ) (v w : Waiter) (f g : ℕ → Waiter) → Changed id v f g → Changed id w f (update g id w)
update-Changed_again id v w f g c = record {
  self = update_self g id w;
  other = λ j u. update_other g id w j u ∙ c.other j u;
}

module _ (id : ℕ) (p : Phase) (w : Waiter) (s : System) (state : ℕ) (nodes : ℕ → Waiter)
    (g : Good s) (c : Changed id w s.mutex.nodes nodes) where
  abbrev pub left_by : List ℕ → System
  left_by xs = moves id p none (record { state = state; waiters = xs; nodes = nodes }) s

  -- The list of waiters stays, gets the waiter at its end, or loses it.
  pub Local-stay : Local id p w (contains id s.mutex.waiters) s (left_by s.mutex.waiters)
  unfolding note
  Local-stay = record {
    phase_self = enter_self s.phase id p;
    node_self = c.self;
    linked_self = refl;
    schedule_self = refl;
    phase_other = λ j u. enter_other s.phase id p j u;
    node_other = c.other;
    linked_other = λ j u. refl;
    schedule_other = λ j u. refl;
    distinct = g.distinct;
  }

  pub Local-push :
      contains id s.mutex.waiters ≡ false
      → Local id p w true s (left_by (s.mutex.waiters ++ (id ∷ [])))
  unfolding note
  Local-push h = record {
    phase_self = enter_self s.phase id p;
    node_self = c.self;
    linked_self = contains-push_self id s.mutex.waiters;
    schedule_self = refl;
    phase_other = λ j u. enter_other s.phase id p j u;
    node_other = c.other;
    linked_other = λ j u. contains-push_other id j s.mutex.waiters u;
    schedule_other = λ j u. refl;
    distinct = push-IsDistinct id s.mutex.waiters g.distinct h;
  }

  pub Local-remove : Local id p w false s (left_by (remove id s.mutex.waiters))
  unfolding note
  Local-remove = record {
    phase_self = enter_self s.phase id p;
    node_self = c.self;
    linked_self = contains-remove_self id s.mutex.waiters g.distinct;
    schedule_self = refl;
    phase_other = λ j u. enter_other s.phase id p j u;
    node_other = c.other;
    linked_other = λ j u. contains-remove_other id j s.mutex.waiters u;
    schedule_other = λ j u. refl;
    distinct = remove-IsDistinct id s.mutex.waiters g.distinct;
  }

  pub Local-push_remove :
      contains id s.mutex.waiters ≡ false
      → Local id p w false s (left_by (remove id (s.mutex.waiters ++ (id ∷ []))))
  unfolding note
  Local-push_remove h =
      let pushed = push-IsDistinct id s.mutex.waiters g.distinct h in
      record {
        phase_self = enter_self s.phase id p;
        node_self = c.self;
        linked_self = contains-remove_self id _ pushed;
        schedule_self = refl;
        phase_other = λ j u. enter_other s.phase id p j u;
        node_other = c.other;
        linked_other =
            λ j u. contains-remove_other id j _ u ∙ contains-push_other id j s.mutex.waiters u;
        schedule_other = λ j u. refl;
        distinct = remove-IsDistinct id _ pushed;
      }

decide : (i j : ℕ) → (i ≡ j) ⊎ (i ≢ j)
decide i j = elim (Bool-cases (i == j)) [
  | inl q ↦ inl ((==_iff _ _).0 q)
  | inr q ↦ inr (λ e. ground arith)
]

module _ (id : ℕ) (p : Phase) (w : Waiter) (linked : Bool) (s t : System) (v : Inv s)
    (l : Local id p w linked s t) (f : Fits p w linked (contains id s.to_schedule)) where
  Local-Good : Good t
  Local-Good = record {
    fits = λ j. elim (decide id j) [
      | inl e ↦
          subst
            (λ i.
              Fits (t.phase i) (t.mutex.nodes i) (contains i t.mutex.waiters)
                (contains i t.to_schedule))
            e (rw l.phase_self (rw l.node_self (rw l.linked_self (rw l.schedule_self f))))
      | inr u ↦ rw (l.phase_other j u) (
          rw (l.node_other j u)
            (rw (l.linked_other j u) (rw (l.schedule_other j u) (v.good.fits j))))
    ];
    distinct = l.distinct;
  }

  holds_self : holds t id ≡ holds_as p w
  unfolding holds
  holds_self = rw l.phase_self (rw l.node_self refl)

  holds_other : (j : ℕ) → id ≢ j → holds t j ≡ holds s j
  unfolding holds
  holds_other j u = rw (l.phase_other j u) (rw (l.node_other j u) refl)

  -- Nobody else holds a mutex that is free, or that the client holds.
  others_free :
      (o : Option ℕ)
      → Owned s o
      → (s.mutex.state ≡ 0) ⊎ (holds s id ≡ true)
      → (j : ℕ) → id ≢ j
      → holds t j ≡ false
  unfolding Owned
  others_free none h c j u = holds_other j u ∙ h.2 j
  others_free (some k) h (inl c) j u = absurd (h.0 c)
  others_free (some k) h (inr c) j u = elim (decide k j) [
    | inr a ↦ holds_other j u ∙ h.2 j a
    | inl e ↦ (let apart : k ≢ id = λ q. u (sym q ∙ e) in let gone = h.2 id apart in cc)
  ]

  keep_at :
      (o : Option ℕ)
      → Owned s o
      → t.mutex.state ≡ s.mutex.state
      → (s.mutex.state ≡ 0 → s.mutex.waiters ≡ [] → t.mutex.waiters ≡ [])
      → holds_as p w ≡ holds s id
      → Owned t o
  unfolding Owned
  keep_at none h e n q = (
    e ∙ h.0,
    n h.0 h.1,
    λ j. elim (decide id j) [
      | inl a ↦ subst (λ i. holds t i ≡ false) a (holds_self ∙ q ∙ h.2 id)
      | inr a ↦ holds_other j a ∙ h.2 j
    ],
  )
  keep_at (some k) h e n q = (
    λ z. h.0 (sym e ∙ z),
    (elim (decide id k) [
      | inl a ↦
          subst (λ i. holds t i ≡ true) a
            (holds_self ∙ q ∙ subst (λ i. holds s i ≡ true) (sym a) h.1)
      | inr a ↦ holds_other k a ∙ h.1
    ]),
    λ j u. elim (decide id j) [
      | inl a ↦ subst (λ i. holds t i ≡ false) a (holds_self ∙ q ∙ h.2 id (λ b. u (b ∙ a)))
      | inr a ↦ holds_other j a ∙ h.2 j u
    ],
  )

  -- The client's hold on the mutex does not change.
  pub keep_Inv :
      t.mutex.state ≡ s.mutex.state
      → (s.mutex.state ≡ 0 → s.mutex.waiters ≡ [] → t.mutex.waiters ≡ [])
      → holds_as p w ≡ holds s id
      → Inv t
  keep_Inv e n q = record {
    good = Local-Good;
    holder = v.holder;
    owned = keep_at v.holder v.owned e n q;
  }

  -- The client takes a free mutex.
  pub acquire_Inv : s.mutex.state ≡ 0 → t.mutex.state ≢ 0 → holds_as p w ≡ true → Inv t
  unfolding Owned
  acquire_Inv z n q = record {
    good = Local-Good;
    holder = some id;
    owned = (n, holds_self ∙ q, others_free v.holder v.owned (inl z));
  }

  -- The client gives up a mutex that it holds, or has just taken, and hands it on.
  pub release_Inv :
      (s.mutex.state ≡ 0) ⊎ (holds s id ≡ true) → holds_as p w ≡ false → Inv (recovered t)
  release_Inv c q = recovered-Inv t Local-Good (λ j. elim (decide id j) [
    | inl a ↦ subst (λ i. holds t i ≡ false) a (holds_self ∙ q)
    | inr a ↦ others_free v.holder v.owned c j a
  ])
