-- ===== src/Http/Parser/Cut/Append.antt =====
-- request_parser::parse does not depend on how its input is cut.
use elio.Prelude.{
  ℕ, ◌+◌, ◌-◌, ◌≤◌, ◌≡◌, refl, sym, subst, ap, ◌∙◌, Bool, true, false, ◌||◌, List, [], ◌∷◌, ◌++◌,
  append-nil, length, length-append, ◌==◌, arith, Bool-cases, inl, inr,
}
use elio.Prelude.Loop.{Pass, again, leave, Ends, stops, goes}
use elio.Http.Parser.Request.{ParseState, complete, error, RequestParser}
use elio.Http.Parser.Request.Parse.{
  at, is_final, is_error, Turn, breaks, returns, need_more, completed, failed, result_of,
  after_turn, Return, turn, parse_round,
}
use elio.Http.Parser.Request.States.{Inv}
use elio.Http.Parser.Request.Steps.{size}
use elio.Http.Parser.Request.Turning.{
  Turned, turn-Turned, Going, parse_round-stops, parse_round-turns, parse_round-lowers,
}
use elio.Http.Parser.Cut.{extend}
use elio.Http.Parser.Cut.Turns.{TurnGoes, turn-TurnGoes}
use elio.Http.Parser.Cut.Shift.{behind, along_shift, after_turn-Shifts, Ends-shift, Ends-later}

pub error_is_final :
    (s : ParseState) → is_error s ≡ true → (is_final s ≡ true) × (result_of s ≡ failed)
unfolding result_of
error_is_final error e = (refl, refl)
error_is_final _ e = ground (arith, e)

pub going_on : (s : ParseState) → is_final s ≡ false → result_of s ≡ need_more
unfolding result_of
going_on complete e = ground (arith, e)
going_on error e = ground (arith, e)
going_on _ e = refl

pub same_left :
    {t : Pass (ℕ × RequestParser) Return} {r s : Return} → t ≡ leave r → t ≡ leave s → r ≡ s
same_left e k = cc

nil_of : (xs : List ℕ) → length xs ≡ 0 → xs ≡ []
nil_of [] e = refl
nil_of (x ∷ xs) e = absurd (omega (arith, e))

stopped :
    (is_ipv6 : List ℕ → Bool) (n : ℕ) (p : RequestParser) {r : Return}
    → (length p.buffer_ == 0) || is_final p.fields.state_ ≡ true
    → Ends (parse_round is_ipv6) (n, p) r
    → record { result = result_of p.fields.state_; consumed = n; parser = p } ≡ r
stopped is_ipv6 n p b (stops e) = same_left (parse_round-stops is_ipv6 n p b) e
stopped is_ipv6 n p b (goes e run) = absurd (ground (arith, parse_round-stops is_ipv6 n p b, e))

module _ (is_ipv6 : List ℕ → Bool) (x : List ℕ) where
  -- There is still something to do with `x` behind the buffer.
  still_going :
      (p : RequestParser)
      → (length p.buffer_ == 0) || is_final p.fields.state_ ≡ false
      → (length (p.buffer_ ++ x) == 0) || is_final p.fields.state_ ≡ false
  still_going p b = ground (arith, b, length-append p.buffer_ x)

  -- The run of the whole input from `s`, given that of the part and the one that follows it.
  abbrev Whole : ℕ × RequestParser → Return → Type 0
  Whole s r =
      (r' : Return)
      → Ends (parse_round is_ipv6) (0, extend x r.parser) r'
      → Ends (parse_round is_ipv6) (s.0, extend x s.1) (behind r.consumed r')

  after_error :
      (n : ℕ) (p q : RequestParser)
      → (length p.buffer_ == 0) || is_final p.fields.state_ ≡ false
      → size q ≤ size p
      → is_error q.fields.state_ ≡ true
      → turn is_ipv6 (extend x p) ≡ returns failed (extend x q)
      → Whole (n, p) (record { result = failed; consumed = n + (size p - size q); parser = q })
  unfolding after_turn
  after_error n p q b l f e r' run =
      let (final, as_failed) = error_is_final q.fields.state_ f in
      subst (λ r. Ends (parse_round is_ipv6) (n, extend x p) (behind (n + (size p - size q)) r))
        (stopped is_ipv6 0 (extend x q) (ground (arith, final)) run)
        (stops (
          parse_round-turns is_ipv6 n (extend x p) (still_going p b)
          ∙ ap (after_turn n (extend x p)) e
          ∙ ground (arith, as_failed, l, length-append p.buffer_ x, length-append q.buffer_ x)))

  after_waiting :
      (n : ℕ) (p q : RequestParser)
      → Inv q.fields
      → (length p.buffer_ == 0) || is_final p.fields.state_ ≡ false
      → size q ≤ size p
      → turn is_ipv6 p ≡ returns need_more q
      → is_final q.fields.state_ ≡ false
      → turn is_ipv6 (extend x p) ≡ turn is_ipv6 (extend x q)
      → Whole (n, p) (record { result = need_more; consumed = n + (size p - size q); parser = q })
  unfolding after_turn
  after_waiting n p q h b l e f t r' run = elim (Bool-cases (length (q.buffer_ ++ x) == 0)) [
    | inl z ↦
        let none_left : x ≡ [] = nil_of x (ground (arith, z, length-append q.buffer_ x)) in
        let same : (o : RequestParser) → extend x o ≡ o = λ o.
          ap (λ y. at (o.buffer_ ++ y) o.fields) none_left
          ∙ ap (λ b. at b o.fields) (append-nil o.buffer_) in
        subst (λ r. Ends (parse_round is_ipv6) (n, extend x p) (behind (n + (size p - size q)) r))
          (stopped is_ipv6 0 (extend x q) (ground (arith, z)) run)
          (stops (
            ap (λ o. parse_round is_ipv6 (n, o)) (same p)
            ∙ parse_round-turns is_ipv6 n p b
            ∙ ap (after_turn n p) e
            ∙ ground (arith, going_on q.fields.state_ f, same q)))
    | inr z ↦
        Ends-shift is_ipv6 (n + (size p - size q)) (n, extend x p) h
          (along_shift is_ipv6 (n + (size p - size q))
            (parse_round-turns is_ipv6 0 (extend x q) (ground (arith, z, f)))
            (parse_round-turns is_ipv6 n (extend x p) (still_going p b)
              ∙ ap (after_turn n (extend x p)) t)
            (after_turn-Shifts (n + (size p - size q)) n 0 (extend x p) (extend x q)
              (turn is_ipv6 (extend x q)) (turn-Turned is_ipv6 (extend x q) h f)
              (omega (arith, l, length-append p.buffer_ x, length-append q.buffer_ x))
              (omega (arith, l, length-append p.buffer_ x, length-append q.buffer_ x))))
          run
  ]

  -- The case that ends the first run.
  last_turn :
      (n : ℕ) (p : RequestParser) (t : Turn) (r : Return)
      → turn is_ipv6 p ≡ t
      → Turned (size p) t
      → TurnGoes is_ipv6 x t (turn is_ipv6 (extend x p))
      → (length p.buffer_ == 0) || is_final p.fields.state_ ≡ false
      → after_turn n p t ≡ leave r
      → Whole (n, p) r
  unfolding after_turn
  last_turn n p (breaks q) r e h g b f = absurd (ground (arith, f))
  last_turn n p (returns failed q) r e h g b f =
      subst (Whole (n, p)) (same_left refl f) (after_error n p q b h.1 g.1 g.0)
  last_turn n p (returns need_more q) r e h g b f =
      subst (Whole (n, p)) (same_left refl f) (after_waiting n p q h.0 b h.1 e g.1 g.0)
  last_turn n p (returns completed q) r e h g b f = absurd g

  next_turn :
      (n : ℕ) (p : RequestParser) (t : Turn) (s : ℕ × RequestParser) (r : Return)
      → Turned (size p) t
      → TurnGoes is_ipv6 x t (turn is_ipv6 (extend x p))
      → (length p.buffer_ == 0) || is_final p.fields.state_ ≡ false
      → after_turn n p t ≡ again s
      → Whole s r
      → Whole (n, p) r
  unfolding after_turn
  next_turn n p (breaks q) s r h g b f rest r' run =
      goes
        (parse_round-turns is_ipv6 n (extend x p) (still_going p b)
          ∙ ap (after_turn n (extend x p)) g
          ∙ ground (arith, f, h.1, length-append p.buffer_ x, length-append q.buffer_ x))
        (rest r' run)
  next_turn n p (returns o q) s r h g b f rest r' run = absurd (ground (arith, f))

  pub runs_append :
      {s : ℕ × RequestParser} {r : Return} → Going s → Ends (parse_round is_ipv6) s r → Whole s r
  runs_append {s = (n, p)} {r = r} h (stops e) =
      elim (Bool-cases ((length p.buffer_ == 0) || is_final p.fields.state_)) [
        | inl b ↦
            subst (Whole (n, p)) (same_left (parse_round-stops is_ipv6 n p b) e)
              (λ r' run. Ends-later is_ipv6 n (extend x p) h run)
        | inr b ↦
            let f : is_final p.fields.state_ ≡ false = ground (arith, b) in
            last_turn n p (turn is_ipv6 p) r refl (turn-Turned is_ipv6 p h f)
              (turn-TurnGoes is_ipv6 x p h f) b (sym (parse_round-turns is_ipv6 n p b) ∙ e)
      ]
  runs_append {s = (n, p)} {r = r} h (goes {s' = s} e run) =
      elim (Bool-cases ((length p.buffer_ == 0) || is_final p.fields.state_)) [
        | inl b ↦ absurd (ground (arith, parse_round-stops is_ipv6 n p b, e))
        | inr b ↦
            let f : is_final p.fields.state_ ≡ false = ground (arith, b) in
            next_turn n p (turn is_ipv6 p) s r (turn-Turned is_ipv6 p h f)
              (turn-TurnGoes is_ipv6 x p h f) b (sym (parse_round-turns is_ipv6 n p b) ∙ e)
              (runs_append (parse_round-lowers is_ipv6 (n, p) s h e).0 run)
      ]
