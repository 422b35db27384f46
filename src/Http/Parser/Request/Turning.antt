-- ===== src/Http/Parser/Request/Turning.antt =====
-- The loop of request_parser::parse ends, and keeps what is known in each state.
use elio.Prelude.{
  ℕ, suc, ◌+◌, ◌-◌, ◌≤◌, ◌<◌, ◌≡◌, refl, sym, ◌∙◌, Bool, true, false, ◌||◌, List, ◌++◌, some,
  length, ◌==◌, if◌then◌else◌, arith, Bool-cases, inl, inr, ◌⊎◌, if_cases,
}
use elio.Prelude.Loop.{again, leave, Ends, ends, iterate-Ends}
use elio.Http.Parser.Errors.{chunk_line_too_long, trailer_line_too_long}
use elio.Http.Parser.Request.{
  ParseState, start, request_line, status_line, headers, body, chunk_size, chunk_data,
  chunk_trailer, complete, error, RequestParser,
}
use elio.Http.Parser.Request.Parse.{
  at, is_final, is_error, Turn, breaks, returns, parse_chunk_size, parse_chunk_trailer, size_fields,
  trailer_fields, result_of, after_turn, checked_turn, unchecked_turn, Return, turn_in, turn,
  parse_round, parse,
}
use elio.Http.Parser.Request.States.{Inv, InState, Inv_in}
use elio.Http.Parser.Request.Steps.{
  Steps, size, size_fields-Kept, trailer_fields-Kept, parse_line-Steps, parse_request_line-Steps,
  parse_body-Steps, parse_chunk_data-Steps,
}
use elio.Http.Parser.Request.Rounds.{parse_headers-Steps}

-- A case of the switch: a `break` has consumed something or ended the message.
abbrev pub Turned : ℕ → Turn → Type 0
Turned n (breaks q) =
    Inv q.fields × (size q ≤ n) × ((is_final q.fields.state_ ≡ true) ⊎ (size q < n))
Turned n (returns r q) = Inv q.fields × (size q ≤ n)

checked_turn-Turned : (n : ℕ) (r : Bool × RequestParser) → Steps n r → Turned n (checked_turn r)
unfolding checked_turn
checked_turn-Turned n (true, q) s = (s.inv, s.at_most, s.progress refl)
checked_turn-Turned n (false, q) s =
    if_cases (Turned n) (is_error q.fields.state_) (λ e. (s.inv, s.at_most))
      (λ e. (s.inv, s.at_most))

unchecked_turn-Turned : (n : ℕ) (r : Bool × RequestParser) → Steps n r → Turned n (unchecked_turn r)
unfolding unchecked_turn
unchecked_turn-Turned n (true, q) s = (s.inv, s.at_most, s.progress refl)
unchecked_turn-Turned n (false, q) s = (s.inv, s.at_most)

-- What is left to do.
abbrev pub work : ℕ × RequestParser → ℕ
work s = if is_final s.1.fields.state_ then 0 else size s.1

abbrev pub Going : ℕ × RequestParser → Type 0
Going s = Inv s.1.fields

module _ (is_ipv6 : List ℕ → Bool) where
  turn_in-Turned :
      (s : ParseState) (p : RequestParser)
      → p.fields.state_ ≡ s
      → is_final s ≡ false
      → InState s p.fields
      → Turned (size p) (turn_in is_ipv6 s p)
  unfolding turn_in parse_chunk_size parse_chunk_trailer
  turn_in-Turned start p e f h = absurd h
  turn_in-Turned status_line p e f h = absurd h
  turn_in-Turned complete p e f h = absurd (ground (arith, f))
  turn_in-Turned error p e f h = absurd (ground (arith, f))
  turn_in-Turned request_line p e f h =
      checked_turn-Turned _ _ (parse_request_line-Steps is_ipv6 p e h)
  turn_in-Turned headers p e f h = checked_turn-Turned _ _ (parse_headers-Steps p (e, h))
  turn_in-Turned body p e f h = unchecked_turn-Turned _ _ (parse_body-Steps p e h)
  turn_in-Turned chunk_size p e f h = unchecked_turn-Turned _ _ (
      parse_line-Steps size_fields chunk_line_too_long p (Inv_in chunk_size p.fields e h)
        (λ line. size_fields-Kept line p.fields h))
  turn_in-Turned chunk_data p e f h = unchecked_turn-Turned _ _ (parse_chunk_data-Steps p e h)
  turn_in-Turned chunk_trailer p e f h = unchecked_turn-Turned _ _ (
      parse_line-Steps trailer_fields trailer_line_too_long p (Inv_in chunk_trailer p.fields e h)
        (λ line. trailer_fields-Kept line p.fields e h))

  pub turn-Turned :
      (p : RequestParser)
      → Inv p.fields
      → is_final p.fields.state_ ≡ false
      → Turned (size p) (turn is_ipv6 p)
  unfolding turn
  turn-Turned p h f = turn_in-Turned p.fields.state_ p refl f h

  pub parse_round-stops :
      (n : ℕ) (p : RequestParser)
      → (length p.buffer_ == 0) || is_final p.fields.state_ ≡ true
      → parse_round is_ipv6 (n, p)
        ≡ leave (record { result = result_of p.fields.state_; consumed = n; parser = p })
  unfolding parse_round
  parse_round-stops n p e = rw e refl

  pub parse_round-turns :
      (n : ℕ) (p : RequestParser)
      → (length p.buffer_ == 0) || is_final p.fields.state_ ≡ false
      → parse_round is_ipv6 (n, p) ≡ after_turn n p (turn is_ipv6 p)
  unfolding parse_round
  parse_round-turns n p e = rw e refl

  after_turn-lowers :
      (n : ℕ) (p : RequestParser) (t : Turn) (s' : ℕ × RequestParser)
      → Turned (size p) t
      → (length p.buffer_ == 0) || is_final p.fields.state_ ≡ false
      → after_turn n p t ≡ again s'
      → Going s' × (work s' < work (n, p))
  unfolding after_turn
  after_turn-lowers n p (breaks q) s' h b e =
      let same : s' ≡ (n + (length p.buffer_ - length q.buffer_), q) = cc in
      rw same (h.0, ground (arith, b, h.2))
  after_turn-lowers n p (returns r q) s' h b e = ground (arith, e)

  pub parse_round-lowers :
      (s s' : ℕ × RequestParser)
      → Going s
      → parse_round is_ipv6 s ≡ again s'
      → Going s' × (work s' < work s)
  parse_round-lowers (n, p) s' h e =
      elim (Bool-cases ((length p.buffer_ == 0) || is_final p.fields.state_)) [
        | inl b ↦ absurd (ground (arith, parse_round-stops n p b))
        | inr b ↦
            after_turn-lowers n p (turn is_ipv6 p) s' (turn-Turned p h (ground (arith, b))) b
              (sym (parse_round-turns n p b) ∙ e)
      ]

  pub parse_ends :
      (n : ℕ) (p : RequestParser)
      → Inv p.fields
      → (r : Return) × Ends (parse_round is_ipv6) (n, p) r
  parse_ends n p h = ends (parse_round is_ipv6) Going work parse_round-lowers (n, p) h

  pub parse-Ends :
      (input : List ℕ) (p : RequestParser) {r : Return}
      → Inv p.fields
      → Ends (parse_round is_ipv6) (0, at (p.buffer_ ++ input) p.fields) r
      → parse is_ipv6 input p ≡ some r
  unfolding parse
  parse-Ends input p h run =
      iterate-Ends (parse_round is_ipv6) Going work parse_round-lowers
        (suc (length (p.buffer_ ++ input))) h run (ground arith)

  -- parse ends on every input.
  pub parse_total :
      (input : List ℕ) (p : RequestParser)
      → Inv p.fields
      → (r : Return) × (parse is_ipv6 input p ≡ some r)
  parse_total input p h =
      let (r, run) = parse_ends 0 (at (p.buffer_ ++ input) p.fields) h in
      (r, parse-Ends input p h run)
