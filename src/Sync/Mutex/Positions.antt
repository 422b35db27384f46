-- ===== src/Sync/Mutex/Positions.antt =====
-- Where a client stands and whether its waiter is linked, after a change.
use elio.Prelude.{ℕ, ◌≡◌, ◌≢◌, refl, true, false, List, [], ◌∷◌, ◌++◌, arith}
use elio.Sync.Semaphore.{contains, remove}
use elio.Sync.Semaphore.Permits.{IsDistinct}
use elio.Sync.Mutex.Clients.{Phase, enter}

pub enter_self : (f : ℕ → Phase) (id : ℕ) (p : Phase) → enter f id p id ≡ p
unfolding enter
enter_self f id p = ground arith

pub enter_other : (f : ℕ → Phase) (id : ℕ) (p : Phase) (j : ℕ) → id ≢ j → enter f id p j ≡ f j
unfolding enter
enter_other f id p j u = ground arith

pub contains-push_other :
    (id j : ℕ) (xs : List ℕ) → id ≢ j → contains j (xs ++ (id ∷ [])) ≡ contains j xs
unfolding contains
contains-push_other id j [] u = ground arith
contains-push_other id j (x ∷ xs) u = ground (arith, contains-push_other id j xs u)

pub contains-push_self : (id : ℕ) (xs : List ℕ) → contains id (xs ++ (id ∷ [])) ≡ true
unfolding contains
contains-push_self id [] = ground arith
contains-push_self id (x ∷ xs) = ground (arith, contains-push_self id xs)

pub contains-remove_other :
    (id j : ℕ) (xs : List ℕ) → id ≢ j → contains j (remove id xs) ≡ contains j xs
unfolding contains remove
contains-remove_other id j [] u = refl
contains-remove_other id j (x ∷ xs) u = ground (arith, contains-remove_other id j xs u)

pub contains-remove_self :
    (id : ℕ) (xs : List ℕ) → IsDistinct xs → contains id (remove id xs) ≡ false
unfolding contains remove IsDistinct
contains-remove_self id [] d = refl
contains-remove_self id (x ∷ xs) d = ground (arith, contains-remove_self id xs d.1)
