-- ===== src/Sync/Mutex/Claiming.antt =====
-- The steps that take a free mutex for a waiter with a token.
use elio.Prelude.{
  ℕ, ◌≡◌, ◌≢◌, refl, ◌∙◌, sym, ap, inl, inr, Bool, true, false, none, arith, subst, ◌==◌,
  Bool-cases, ==_iff,
}
use elio.Sync.WakeState.{idle, cancelled_inline, notified_inline, was_cancelled}
use elio.Sync.WakeState.Cases.{claim_idle, claim_cancelled, request_cancel_idle}
use elio.Sync.Semaphore.{Waiter, contains}
use elio.Sync.Mutex.{
  Mutex, try_lock, take_state, put, cancel_if, cancel_waiter, claim_own, await_ready,
  recover_cancelled_handoff,
}
use elio.Sync.Mutex.Clients.{
  built, contended, ready, System, holds_as, note, moves, after_ready, readied,
}
use elio.Sync.Mutex.Fits.{Begun, Fits, Inv}
use elio.Sync.Mutex.Entering.{Fits-at, Ready-plain, take_state_Inv, same_waiter_keep, cancelled_Inv}
use elio.Sync.Mutex.Local.{
  Local-stay, update-Changed, update-Changed_again, acquire_Inv, release_Inv,
}
use elio.Sync.Semaphore.Permits.{update_self}

-- The waiter after its own claim, and after a cancellation and a claim that it rejects.
abbrev chosen : Waiter → Waiter
chosen w = record w { wake = record (w.wake) { state = notified_inline } }

abbrev pub called_off : Waiter → Waiter
called_off w = record w { wake = record (w.wake) { state = cancelled_inline } }

claim_own_at_once :
    (id : ℕ) (m : Mutex)
    → (m.nodes id).wake.state ≡ idle
    → claim_own id m ≡ (none, put id (chosen (m.nodes id)) m)
unfolding claim_own
claim_own_at_once id m e = ground (arith, claim_idle (m.nodes id).wake e)

claim_own_rejected :
    (id : ℕ) (m : Mutex)
    → (m.nodes id).wake.state ≡ cancelled_inline
    → claim_own id m ≡ recover_cancelled_handoff (put id (m.nodes id) m)
unfolding claim_own
claim_own_rejected id m e = ground (arith, claim_cancelled (m.nodes id).wake e)

pub cancel_idle :
    (id : ℕ) (m : Mutex)
    → (m.nodes id).wake.state ≡ idle
    → cancel_waiter id m ≡ put id (called_off (m.nodes id)) m
unfolding cancel_waiter
cancel_idle id m e = rw (request_cancel_idle (m.nodes id).wake e) refl

abbrev claimed_own : Bool → ℕ → ℕ → System → System
claimed_own late value id s =
    let (o, m) = claim_own id (cancel_if late id (record (s.mutex) { state = value })) in
    moves id ready o m s

module _ (s : System) (v : Inv s) (id : ℕ)
    (b : Begun (s.mutex.nodes id) (contains id s.mutex.waiters) (contains id s.to_schedule))
    (token : (s.mutex.nodes id).cancellable ≡ true)
    (undecided : (s.mutex.nodes id).wake.state ≡ idle) (unlocked : s.mutex.state ≡ 0) (value : ℕ)
    (address : value ≢ 0) where
  abbrev m0 : Mutex
  m0 = record (s.mutex) { state = value }

  claims : Inv (claimed_own false value id s)
  unfolding cancel_if Fits holds_as was_cancelled note
  claims =
      let w = chosen (s.mutex.nodes id) in
      subst (λ r. Inv (moves id ready r.0 r.1 s)) (sym (claim_own_at_once id m0 undecided))
        (acquire_Inv id ready w _ s _ v
          (Local-stay id ready w s value _ v.good (update-Changed id w s.mutex.nodes))
          (record {
            unlinked = b.unlinked;
            no_schedule = b.no_schedule;
            not_suspended = b.not_suspended;
            decided = inr (inl refl);
          })
          unlocked address (ground arith))

  is_refused : Inv (claimed_own true value id s)
  unfolding cancel_if Fits holds_as was_cancelled note
  is_refused =
      let w = called_off (s.mutex.nodes id) in
      let m1 = put id w m0 in
      let here : m1.nodes id ≡ w = update_self s.mutex.nodes id w in
      let e : claim_own id (cancel_waiter id m0) ≡ recover_cancelled_handoff (put id w m1) =
        ap (claim_own id) (cancel_idle id m0 undecided)
        ∙ claim_own_rejected id m1 (ap (λ x. x.wake.state) here)
        ∙ ap (λ x. recover_cancelled_handoff (put id x m1)) here in
      subst (λ r. Inv (moves id ready r.0 r.1 s)) (sym e)
        (release_Inv id ready w _ s _ v
          (Local-stay id ready w s value _ v.good
            (update-Changed_again id w w s.mutex.nodes _ (update-Changed id w s.mutex.nodes)))
          (record {
            unlinked = b.unlinked;
            no_schedule = b.no_schedule;
            not_suspended = b.not_suspended;
            decided = inr (inr refl);
          })
          (inl unlocked) (ground arith))

  pub claim_own_Inv : (late : Bool) → Inv (claimed_own late value id s)
  claim_own_Inv true = is_refused
  claim_own_Inv false = claims

-- A waiter that no cancellation has reached yet is undecided.
pub not_cancelled-idle :
    (w : Waiter) (linked pending : Bool)
    → Begun w linked pending
    → was_cancelled w.wake ≡ false
    → w.wake.state ≡ idle
unfolding was_cancelled
not_cancelled-idle w linked pending b h = elim b.undecided [ inl e ↦ e | inr (c, e) ↦ ground arith ]

module _ (s : System) (v : Inv s) (id : ℕ) (e : s.phase id ≡ built) where
  readied_plain : (late : Bool) → (s.mutex.nodes id).cancellable ≡ false → Inv (readied late id s)
  unfolding readied await_ready try_lock Fits after_ready holds_as
  readied_plain late c =
      let b = Fits-at s v id built e in
      let (r, h) = Ready-plain s v id b c in
      rw c (
        take_state_Inv s v id 1 after_ready (omega arith) r h
          (same_waiter_keep s v id built contended e b refl))

  readied_token : (late : Bool) → (s.mutex.nodes id).cancellable ≡ true → Inv (readied late id s)
  unfolding readied await_ready try_lock Fits after_ready holds_as take_state
  readied_token late c =
      let b = Fits-at s v id built e in
      rw c (elim (Bool-cases (was_cancelled (s.mutex.nodes id).wake)) [
        | inl q ↦ rw q (cancelled_Inv s v id built e b refl q)
        | inr q ↦ rw q (elim (Bool-cases (s.mutex.state == 0)) [
          | inr z ↦ rw z (same_waiter_keep s v id built contended e b refl)
          | inl z ↦ rw z (
              claim_own_Inv s v id b c (not_cancelled-idle _ _ _ b q) ((==_iff _ _).0 z) 1
                (omega arith) late)
        ])
      ])

  pub readied_Inv : (late : Bool) → Inv (readied late id s)
  readied_Inv late = elim (Bool-cases (s.mutex.nodes id).cancellable) [
    | inl c ↦ readied_token late c
    | inr c ↦ readied_plain late c
  ]
