-- ===== src/Http/Parser/Cut/Shift.antt =====
-- The count of consumed bytes only grows: a run of parse that starts with more of it is the same.
use elio.Prelude.{
  ℕ, ◌+◌, ◌≤◌, ◌≡◌, refl, sym, subst, Bool, ◌||◌, List, length, ◌==◌, arith, Bool-cases, inl, inr,
}
use elio.Prelude.Loop.{Pass, again, leave, Ends, stops, goes}
use elio.Http.Parser.Request.{RequestParser}
use elio.Http.Parser.Request.Parse.{
  is_final, Turn, breaks, returns, after_turn, Return, turn, parse_round,
}
use elio.Http.Parser.Request.States.{Inv}
use elio.Http.Parser.Request.Steps.{size}
use elio.Http.Parser.Request.Turning.{
  Turned, turn-Turned, Going, parse_round-stops, parse_round-turns, parse_round-lowers,
}

-- A return of a call that comes behind `k` consumed bytes.
abbrev pub behind : ℕ → Return → Return
behind k r = record r { consumed = k + r.consumed }

abbrev pub Shifts : ℕ → Pass (ℕ × RequestParser) Return → Pass (ℕ × RequestParser) Return → Type 0
Shifts k (again s) w = w ≡ again (k + s.0, s.1)
Shifts k (leave r) w = w ≡ leave (behind k r)

pub after_turn-Shifts :
    (k n m : ℕ) (a b : RequestParser) (t : Turn)
    → Turned (size b) t
    → n + size a ≡ k + m + size b
    → size b ≤ size a
    → Shifts k (after_turn m b t) (after_turn n a t)
unfolding after_turn
after_turn-Shifts k n m a b (breaks q) h e l = ground (arith, h.1, e, l)
after_turn-Shifts k n m a b (returns r q) h e l = ground (arith, h.1, e, l)

module _ (is_ipv6 : List ℕ → Bool) where
  pub along_shift :
      (k : ℕ) {r r' w w' : Pass (ℕ × RequestParser) Return}
      → r ≡ r'
      → w ≡ w'
      → Shifts k r' w'
      → Shifts k r w
  along_shift k {r' = r'} {w = w} e f t =
      subst (λ r. Shifts k r w) (sym e) (subst (λ w. Shifts k r' w) (sym f) t)

  parse_round-Shifts :
      (k m : ℕ) (p : RequestParser)
      → Inv p.fields
      → Shifts k (parse_round is_ipv6 (m, p)) (parse_round is_ipv6 (k + m, p))
  parse_round-Shifts k m p h =
      elim (Bool-cases ((length p.buffer_ == 0) || is_final p.fields.state_)) [
        | inl b ↦
            along_shift k (parse_round-stops is_ipv6 m p b) (parse_round-stops is_ipv6 (k + m) p b)
              refl
        | inr b ↦
            along_shift k (parse_round-turns is_ipv6 m p b) (parse_round-turns is_ipv6 (k + m) p b)
              (after_turn-Shifts k (k + m) m p p (turn is_ipv6 p)
                (turn-Turned is_ipv6 p h (ground (arith, b))) refl (omega arith))
      ]

  -- A run whose first round is shifted is shifted as a whole.
  pub Ends-shift :
      (k : ℕ) {s : ℕ × RequestParser} (s' : ℕ × RequestParser) {r : Return}
      → Going s
      → Shifts k (parse_round is_ipv6 s) (parse_round is_ipv6 s')
      → Ends (parse_round is_ipv6) s r
      → Ends (parse_round is_ipv6) s' (behind k r)
  Ends-shift k {s = s} s' h e (stops f) =
      stops (subst (λ t. Shifts k t (parse_round is_ipv6 s')) f e)
  Ends-shift k {s = s} s' h e (goes {s' = next} f run) =
      let i = (parse_round-lowers is_ipv6 s next h f).0 in
      goes (subst (λ t. Shifts k t (parse_round is_ipv6 s')) f e)
        (Ends-shift k (k + next.0, next.1) i (parse_round-Shifts k next.0 next.1 i) run)

  pub Ends-later :
      (k : ℕ) (p : RequestParser) {r : Return}
      → Inv p.fields
      → Ends (parse_round is_ipv6) (0, p) r
      → Ends (parse_round is_ipv6) (k, p) (behind k r)
  Ends-later k p {r = r} h run =
      subst (λ m. Ends (parse_round is_ipv6) (m, p) (behind k r)) (omega arith)
        (Ends-shift k (k + 0, p) h (parse_round-Shifts k 0 p h) run)
