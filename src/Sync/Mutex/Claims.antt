-- ===== src/Sync/Mutex/Claims.antt =====
-- What the claim of a waiter leaves, of the list and of each waiter.
use elio.Prelude.{
  ℕ, ◌≡◌, ◌≢◌, refl, ap, ◌⊎◌, inl, inr, Bool, true, false, List, [], ◌∷◌, Option, none, some, arith,
  subst, ◌==◌, Bool-cases, ==_iff,
}
use elio.Sync.WakeState.{waiting, cancellation_scheduling, claim_notification}
use elio.Sync.Semaphore.{Waiter, contains, claim_from, can_claim, grant, update}
use elio.Sync.Semaphore.Permits.{IsDistinct}
use elio.Sync.Mutex.{granted_nodes}
use elio.Sync.Mutex.Clients.{
  Phase, fresh, built, contended, parked, ready, owner, refused, finished, holds_as, note,
}
use elio.Sync.Mutex.Fits.{Standing, queues, leaves, has, is_chosen, wakes, Parked, Fits}

-- What the claim leaves of a list: the waiter that it takes is out, and those that it drops could
-- not be claimed.
pub record Claimed (nodes : ℕ → Waiter) (xs : List ℕ) (o : Option ℕ) (rest : List ℕ) : Type 0 where
  pub from : (i : ℕ) → contains i xs ≡ false → contains i rest ≡ false
  pub dropped :
      (i : ℕ)
      → contains i xs ≡ true
      → contains i rest ≡ false
      → (o ≡ some i) ⊎ (can_claim (nodes i) ≡ false)
  pub taken :
      (i : ℕ)
      → o ≡ some i
      → (contains i xs ≡ true) × (contains i rest ≡ false) × (can_claim (nodes i) ≡ true)

pub claim_from-Claimed :
    (nodes : ℕ → Waiter) (xs : List ℕ)
    → IsDistinct xs
    → Claimed nodes xs (claim_from nodes xs).0 (claim_from nodes xs).1
unfolding claim_from contains IsDistinct
claim_from-Claimed nodes [] d = record {
  from = λ i h. refl;
  dropped = λ i h e. cc;
  taken = λ i h. cc;
}
claim_from-Claimed nodes (x ∷ xs) d =
    let c = claim_from-Claimed nodes xs d.1 in
    record {
      from = λ i h. ground (arith, c.from i);
      dropped = λ i h e. ground (arith, c.dropped i);
      taken = λ i h. ground (arith, c.taken i);
    }

Fits-linked :
    (p : Phase) (w : Waiter) (linked pending : Bool)
    → Fits p w linked pending
    → linked ≡ true
    → p ≡ parked
unfolding Fits
Fits-linked fresh w linked pending f h = cc
Fits-linked built w linked pending f h = ground (arith, f.unlinked)
Fits-linked contended w linked pending f h = ground (arith, f.unlinked)
Fits-linked parked w linked pending f h = refl
Fits-linked ready w linked pending f h = ground (arith, f.unlinked)
Fits-linked owner w linked pending f h = cc
Fits-linked refused w linked pending f h = cc
Fits-linked finished w linked pending f h = cc

can_claim-waiting : (w : Waiter) → w.wake.state ≡ waiting → can_claim w ≡ true
unfolding can_claim claim_notification
can_claim-waiting w e = ground arith

can_claim-cancelled :
    (w : Waiter)
    → w.cancellable ≡ true
    → w.wake.state ≡ cancellation_scheduling
    → can_claim w ≡ false
unfolding can_claim claim_notification
can_claim-cancelled w c e = ground arith

grant-Standing :
    (w : Waiter) (pending : Bool)
    → Standing w true pending
    → can_claim w ≡ true
    → Standing (grant w) false true
unfolding grant claim_notification
grant-Standing w pending (queues l p g e u) c = elim (Bool-cases w.cancellable) [
  | inl q ↦ is_chosen refl (ground arith) (ground arith) (ground arith) refl
  | inr q ↦ has refl (ground arith) (ground arith) (ground arith) (ground arith) refl
]
grant-Standing w pending (leaves p g c' e a) c = ground (arith, can_claim-cancelled w c' e)
grant-Standing w pending (has l g c' e u d) c = cc
grant-Standing w pending (is_chosen l g e u d) c = cc
grant-Standing w pending (wakes l g e a) c = cc

grant-Parked :
    (w : Waiter) (pending : Bool)
    → Parked w true pending
    → can_claim w ≡ true
    → Parked (grant w) false true × (grant w).grant_pending ≡ true
unfolding grant
grant-Parked w pending f c = (
  record {
    suspended = ground (arith, f.suspended);
    not_resumed = ground (arith, f.not_resumed);
    standing = grant-Standing w pending f.standing c;
  },
  ground arith,
)

-- A waiter that the claim drops from the list.
drop-Standing :
    (w : Waiter) (pending linked : Bool)
    → Standing w true pending
    → can_claim w ≡ false
    → Standing w linked pending
drop-Standing w pending linked (queues l p g e u) c = ground (arith, can_claim-waiting w e)
drop-Standing w pending linked (leaves p g c' e a) c = leaves p g c' e a
drop-Standing w pending linked (has l g c' e u d) c = cc
drop-Standing w pending linked (is_chosen l g e u d) c = cc
drop-Standing w pending linked (wakes l g e a) c = cc

Fits-dropped :
    (p : Phase) (w : Waiter) (pending linked : Bool)
    → Fits p w true pending
    → can_claim w ≡ false
    → Fits p w linked pending
unfolding Fits
Fits-dropped parked w pending linked f c = record {
  suspended = f.suspended;
  not_resumed = f.not_resumed;
  standing = drop-Standing w pending linked f.standing c;
}
Fits-dropped fresh w pending linked f c = cc
Fits-dropped built w pending linked f c = ground (arith, f.unlinked)
Fits-dropped contended w pending linked f c = ground (arith, f.unlinked)
Fits-dropped ready w pending linked f c = ground (arith, f.unlinked)
Fits-dropped owner w pending linked f c = cc
Fits-dropped refused w pending linked f c = cc
Fits-dropped finished w pending linked f c = cc

pub granted_nodes_other :
    (o : Option ℕ) (nodes : ℕ → Waiter) (l : List ℕ) (i : ℕ)
    → o ≢ some i
    → (granted_nodes o nodes i ≡ nodes i) × (contains i (note o l) ≡ contains i l)
unfolding granted_nodes note update contains
granted_nodes_other none nodes l i u = (refl, refl)
granted_nodes_other (some j) nodes l i u =
    let apart : j ≢ i = λ e. u (ap some e) in ground (arith, apart)

granted_nodes_self :
    (nodes : ℕ → Waiter) (l : List ℕ) (i : ℕ)
    → (granted_nodes (some i) nodes i ≡ grant (nodes i)) × (contains i (note (some i) l) ≡ true)
unfolding granted_nodes note update contains
granted_nodes_self nodes l i = ground arith

pub takes : (o : Option ℕ) (i : ℕ) → (o ≡ some i) ⊎ (o ≢ some i)
takes none i = inr (λ e. cc)
takes (some j) i = elim (Bool-cases (j == i)) [
  | inl q ↦ inl (ap some ((==_iff _ _).0 q))
  | inr q ↦ inr (λ e. let same : j ≡ i = cc in ground (arith, same))
]

module _ (nodes : ℕ → Waiter) (xs rest l : List ℕ) (o : Option ℕ) (c : Claimed nodes xs o rest)
    (i : ℕ) where
  pub Fits-taken :
      (p : Phase)
      → Fits p (nodes i) (contains i xs) (contains i l)
      → o ≡ some i
      → Fits p (granted_nodes o nodes i) (contains i rest) (contains i (note o l))
        × (holds_as p (granted_nodes o nodes i) ≡ true)
  unfolding Fits holds_as
  Fits-taken p f e =
      let (linked, out, can) = c.taken i e in
      let is_parked = Fits-linked p (nodes i) _ _ f linked in
      let self = granted_nodes_self nodes l i in
      let parked_now : Parked (nodes i) true (contains i l) =
        subst (λ b. Parked (nodes i) b (contains i l)) linked
          (subst (λ q. Fits q (nodes i) (contains i xs) (contains i l)) is_parked f) in
      let (after, mark) = grant-Parked (nodes i) (contains i l) parked_now can in
      rw is_parked (rw e (rw self.0 (rw self.1 (rw out (after, mark)))))

  pub Fits-other :
      (p : Phase)
      → Fits p (nodes i) (contains i xs) (contains i l)
      → o ≢ some i
      → Fits p (granted_nodes o nodes i) (contains i rest) (contains i (note o l))
  unfolding Fits
  Fits-other p f u =
      let same = granted_nodes_other o nodes l i u in
      rw same.0 (
        rw same.1 (elim (Bool-cases (contains i xs)) [
          | inr q ↦ rw (c.from i q) (subst (λ b. Fits p (nodes i) b (contains i l)) q f)
          | inl q ↦ elim (Bool-cases (contains i rest)) [
            | inl r ↦ rw r (subst (λ b. Fits p (nodes i) b (contains i l)) q f)
            | inr r ↦
                Fits-dropped p (nodes i) (contains i l) (contains i rest)
                  (subst (λ b. Fits p (nodes i) b (contains i l)) q f)
                  (elim (c.dropped i q r) [ inl e ↦ absurd (u e) | inr e ↦ e ])
          ]
        ]))
