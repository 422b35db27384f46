-- ===== src/Http/Parser/Cut/Turns.antt =====
-- The cases of the switch of request_parser::parse, with more input behind what is buffered.
use elio.Prelude.{
  ℕ, ◌+◌, ◌-◌, ◌≡◌, refl, sym, subst, ap, ◌∙◌, Bool, true, false, ◌||◌, List, length, ◌==◌,
  if◌then◌else◌, arith, if_cases, option_cases, ltb, leb, min, get_or, not,
}
use elio.Http.Parser.Lines.{split_line, buffered_line_size}
use elio.Http.Parser.Errors.{HttpError, chunk_line_too_long, trailer_line_too_long}
use elio.Http.Parser.Request.{
  ParseState, start, request_line, status_line, headers, body, chunk_size, chunk_data,
  chunk_trailer, complete, error, Fields, RequestParser,
}
use elio.Http.Parser.Request.Parse.{
  is_final, is_error, parse_line, parse_headers, parse_body, size_fields, trailer_fields,
  parse_chunk_size, parse_chunk_trailer, parse_chunk_data, parse_request_line, Turn, breaks,
  returns, need_more, completed, failed, checked_turn, unchecked_turn, turn_in, turn,
}
use elio.Http.Parser.Request.States.{Inv, InState}
use elio.Http.Parser.Cut.{
  extend, Extends, parse_request_line-Extends, parse_line-Extends, size_fields_long,
  trailer_fields_long,
}
use elio.Http.Parser.Cut.Bodies.{parse_chunk_data-Extends, parse_body-Extends}
use elio.Http.Parser.Cut.Headers.{parse_headers-Extends}

module _ (is_ipv6 : List ℕ → Bool) (x : List ℕ) where
  -- What a case of the switch does, and the same case with `x` behind the buffer. In the state `s` a
  -- case that needs more input goes on from where it stopped.
  abbrev TurnExtends : (RequestParser → Turn) → ParseState → Turn → Turn → Type 0
  TurnExtends go s (breaks q) w = w ≡ breaks (extend x q)
  TurnExtends go s (returns failed q) w =
      (w ≡ returns failed (extend x q)) × (is_error q.fields.state_ ≡ true)
  TurnExtends go s (returns need_more q) w = (w ≡ go (extend x q)) × (q.fields.state_ ≡ s)
  TurnExtends go s (returns completed q) w = ⊥

  checked_turn-error :
      (q : RequestParser)
      → is_error q.fields.state_ ≡ true
      → checked_turn (false, q) ≡ returns failed q
  unfolding checked_turn
  checked_turn-error q e = ap (λ b. if b then returns failed q else returns need_more q) e

  checked_false :
      (s : ParseState) (f : RequestParser → Bool × RequestParser) (q : RequestParser)
      → (w : Bool × RequestParser) (b : Bool) → is_error q.fields.state_ ≡ b
      → (if b then w ≡ (false, extend x q) else (q.fields.state_ ≡ s) × (w ≡ f (extend x q)))
      → TurnExtends
          (λ q. checked_turn (f q))
          s
          (if b then returns failed q else returns need_more q)
          (checked_turn w)
  checked_false s f q w true b e = (ap checked_turn e ∙ checked_turn-error (extend x q) b, b)
  checked_false s f q w false b e = (ap checked_turn e.1, e.0)

  checked_turn-Extends :
      (s : ParseState) (f : RequestParser → Bool × RequestParser) (r w : Bool × RequestParser)
      → Extends x s f r w
      → TurnExtends (λ q. checked_turn (f q)) s (checked_turn r) (checked_turn w)
  unfolding checked_turn
  checked_turn-Extends s f (true, q) w e = ap checked_turn e
  checked_turn-Extends s f (false, q) w e = checked_false s f q w (is_error q.fields.state_) refl e

  else_of {ℓ} : (A B : Type ℓ) (b : Bool) → b ≡ false → (if b then A else B) → B
  else_of A B true e t = absurd (ground (arith, e))
  else_of A B false e t = t

  -- A function that returns false leaves the state as it was.
  abbrev Stays : ParseState → Bool × RequestParser → Type 0
  Stays s r = r.0 ≡ false → r.1.fields.state_ ≡ s

  unchecked_turn-Extends :
      (s : ParseState) (f : RequestParser → Bool × RequestParser) (r w : Bool × RequestParser)
      → is_error s ≡ false
      → Stays s r
      → Extends x s f r w
      → TurnExtends (λ q. unchecked_turn (f q)) s (unchecked_turn r) (unchecked_turn w)
  unfolding unchecked_turn
  unchecked_turn-Extends s f (true, q) w n k e = ap unchecked_turn e
  unchecked_turn-Extends s f (false, q) w n k e =
      let (same, t) = else_of _ _ (is_error q.fields.state_) (ap is_error (k refl) ∙ n) e in
      (ap unchecked_turn t, same)

  parse_line-Stays :
      (line_fields : List ℕ → Fields → Bool × Fields) (long : HttpError) (p : RequestParser)
      → Stays p.fields.state_ (parse_line line_fields long p)
  unfolding parse_line
  parse_line-Stays line_fields long p =
      option_cases (Stays p.fields.state_) (split_line p.buffer_)
        (λ n.
          if_cases (Stays p.fields.state_)
            (ltb p.fields.max_header_size_ (buffered_line_size p.buffer_))
            (λ q t. ground (arith, t)) (λ q t. refl))
        (λ l n t. ground (arith, t))

  parse_chunk_data-Stays : (p : RequestParser) → Stays p.fields.state_ (parse_chunk_data p)
  unfolding parse_chunk_data
  parse_chunk_data-Stays p =
      let n = p.fields.chunk_size_ in
      if_cases (Stays p.fields.state_) (ltb (length p.buffer_) (n + 2)) (λ q t. refl)
        λ q.
          if_cases (Stays p.fields.state_)
            (not (get_or p.buffer_ n 0 == b'\r') || not (get_or p.buffer_ (n + 1) 0 == b'\n'))
            (λ r t. ground (arith, t)) (λ r t. ground (arith, t))

  parse_body-Stays : (p : RequestParser) → Stays p.fields.state_ (parse_body p)
  unfolding parse_body
  parse_body-Stays p =
      let n = min (p.fields.content_length_ - p.fields.body_received_) (length p.buffer_) in
      if_cases (Stays p.fields.state_) (leb p.fields.content_length_ (p.fields.body_received_ + n))
        (λ q t. ground (arith, t)) (λ q t. refl)

  turn_in-Extends :
      (s : ParseState) (p : RequestParser)
      → p.fields.state_ ≡ s
      → is_final s ≡ false
      → InState s p.fields
      → TurnExtends (turn_in is_ipv6 s) s (turn_in is_ipv6 s p) (turn_in is_ipv6 s (extend x p))
  unfolding turn_in parse_chunk_size parse_chunk_trailer
  turn_in-Extends start p e f h = absurd h
  turn_in-Extends status_line p e f h = absurd h
  turn_in-Extends complete p e f h = absurd (ground (arith, f))
  turn_in-Extends error p e f h = absurd (ground (arith, f))
  turn_in-Extends request_line p e f h =
      checked_turn-Extends request_line (parse_request_line is_ipv6) _ _
        (parse_request_line-Extends x is_ipv6 p e h)
  turn_in-Extends headers p e f h =
      checked_turn-Extends headers parse_headers _ _ (parse_headers-Extends x p (e, h))
  turn_in-Extends body p e f h =
      unchecked_turn-Extends body parse_body _ _ refl
        (subst (λ s. Stays s (parse_body p)) e (parse_body-Stays p)) (parse_body-Extends x p e h.1)
  turn_in-Extends chunk_size p e f h =
      unchecked_turn-Extends chunk_size (parse_line size_fields chunk_line_too_long) _ _ refl
        (subst (λ s. Stays s (parse_line size_fields chunk_line_too_long p)) e
          (parse_line-Stays size_fields chunk_line_too_long p))
        (parse_line-Extends x size_fields chunk_line_too_long chunk_size p refl e
          (λ l k. size_fields_long x l p.fields k))
  turn_in-Extends chunk_data p e f h =
      unchecked_turn-Extends chunk_data parse_chunk_data _ _ refl
        (subst (λ s. Stays s (parse_chunk_data p)) e (parse_chunk_data-Stays p))
        (parse_chunk_data-Extends x p e)
  turn_in-Extends chunk_trailer p e f h =
      unchecked_turn-Extends chunk_trailer (parse_line trailer_fields trailer_line_too_long) _ _
        refl
        (subst (λ s. Stays s (parse_line trailer_fields trailer_line_too_long p)) e
          (parse_line-Stays trailer_fields trailer_line_too_long p))
        (parse_line-Extends x trailer_fields trailer_line_too_long chunk_trailer p refl e
          (λ l k. trailer_fields_long x l p.fields k))

  -- The same of the whole switch.
  abbrev pub TurnGoes : Turn → Turn → Type 0
  TurnGoes (breaks q) w = w ≡ breaks (extend x q)
  TurnGoes (returns failed q) w =
      (w ≡ returns failed (extend x q)) × (is_error q.fields.state_ ≡ true)
  TurnGoes (returns need_more q) w =
      (w ≡ turn is_ipv6 (extend x q)) × (is_final q.fields.state_ ≡ false)
  TurnGoes (returns completed q) w = ⊥

  turn_goes :
      (s : ParseState) (t w : Turn)
      → is_final s ≡ false
      → TurnExtends (turn_in is_ipv6 s) s t w
      → TurnGoes t w
  unfolding turn
  turn_goes s (breaks q) w f e = e
  turn_goes s (returns failed q) w f e = e
  turn_goes s (returns need_more q) w f e =
      (e.0 ∙ ap (λ r. turn_in is_ipv6 r (extend x q)) (sym e.1), ap is_final e.1 ∙ f)
  turn_goes s (returns completed q) w f e = e

  pub turn-TurnGoes :
      (p : RequestParser)
      → Inv p.fields
      → is_final p.fields.state_ ≡ false
      → TurnGoes (turn is_ipv6 p) (turn is_ipv6 (extend x p))
  unfolding turn
  turn-TurnGoes p h f = turn_goes p.fields.state_ _ _ f (turn_in-Extends p.fields.state_ p refl f h)
