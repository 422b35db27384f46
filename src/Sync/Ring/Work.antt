-- ===== src/Sync/Ring/Work.antt =====
-- Which positions still have a thread at work after a write of a sequence.
use elio.Prelude.{ℕ, suc, ◌+◌, ◌^◌, ◌≤◌, ◌<◌, ◌≡◌, ◌≢◌, List, Option, arith}
use elio.Sync.Ring.{Ring, push_publish, pop_release, store, slot}
use elio.Sync.Ring.Threads.{Knows}
use elio.Sync.Ring.Slots.{slot-apart}

-- A position that is claimed for a push whose value is not there yet, and one whose value is popped
-- while its slot is not free yet.
abbrev pub Unpublished : {A : Type 0} (k : ℕ) → Ring A → ℕ → Type 0
Unpublished k r p = (r.tail ≤ p) × (p < r.head) × (r.sequence (slot k p) ≡ p)

abbrev pub Unreleased : {A : Type 0} (k : ℕ) → Ring A → ℕ → Type 0
Unreleased k r t = (t < r.tail) × (r.head ≤ t + 2 ^ k) × (r.sequence (slot k t) ≡ suc t)

module _ {A : Type 0} (k : ℕ) (two : 2 ≤ 2 ^ k) (r : Ring A) (log : List A)
    (order : r.tail ≤ r.head) (room : r.head ≤ r.tail + 2 ^ k) where
  abbrev published : ℕ → Ring A
  published h = record r { sequence = store r.sequence (slot k h) (suc h) }

  abbrev released : ℕ → Ring A
  released t = record r { sequence = store r.sequence (slot k t) (t + 2 ^ k) }

  pub Unpublished-publish :
      (h p : ℕ)
      → Knows k r log (push_publish h)
      → Unpublished k (published h) p
      → Unpublished k r p × (h ≢ p)
  unfolding Knows store
  Unpublished-publish h p m (a, b, c) =
      let apart : h ≢ p = λ e. ground arith in ((a, b, ground (arith, slot-apart k h p)), apart)

  pub Unreleased-publish :
      (h t : ℕ) → Knows k r log (push_publish h) → Unreleased k (published h) t → Unreleased k r t
  unfolding Knows store
  Unreleased-publish h t m (a, b, c) = (a, b, ground arith)

  pub Unpublished-release :
      (t : ℕ) (o : Option A) (p : ℕ)
      → Knows k r log (pop_release t o)
      → Unpublished k (released t) p
      → Unpublished k r p
  unfolding Knows store
  Unpublished-release t o p m (a, b, c) = (a, b, ground arith)

  pub Unreleased-release :
      (t : ℕ) (o : Option A) (p : ℕ)
      → Knows k r log (pop_release t o)
      → Unreleased k (released t) p
      → Unreleased k r p × (t ≢ p)
  unfolding Knows store
  Unreleased-release t o p m (a, b, c) =
      let apart : t ≢ p = λ e. ground arith in ((a, b, ground (arith, slot-apart k t p)), apart)
