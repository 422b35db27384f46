-- ===== src/Http/Parser/Request/Reached.antt =====
-- The parsers that come of the calls of request_parser, and what holds of them.
use elio.Prelude.{
  ℕ, ◌+◌, ◌≡◌, refl, sym, subst, ◌∙◌, Bool, true, false, ◌&&◌, List, [], ◌++◌, some, length, ◌==◌,
  ◌||◌, arith, Bool-cases, inl, inr, ◌⊎◌, codes, if◌then◌else◌, append_assoc,
}
use elio.Prelude.Loop.{leave, Ends, stops, goes}
use elio.Http.Headers.{contains, content_length, get_all, content_length_name, same_text}
use elio.Http.Headers.Coding.{is_chunked, transfer_encoding_name}
use elio.Http.Parser.Request.{
  complete, RequestParser, new_request_parser, reset, take_remaining, declared_content_length,
}
use elio.Http.Parser.Request.Parse.{
  at, is_final, Turn, breaks, returns, after_turn, need_more, completed, failed, result_of, Return,
  turn, parse_round, parse,
}
use elio.Http.Parser.Request.States.{Inv, Inv_out}
use elio.Http.Parser.Request.Steps.{size}
use elio.Http.Parser.Request.Turning.{
  Turned, turn-Turned, Going, parse_round-stops, parse_round-turns, parse_round-lowers, parse_ends,
  parse-Ends,
}
use elio.Http.Parser.Cut.{extend}
use elio.Http.Parser.Cut.Shift.{behind}
use elio.Http.Parser.Cut.Append.{runs_append, error_is_final, going_on, same_left}
use elio.Http.Parser.Cut.Turns.{TurnGoes, turn-TurnGoes}

module _ (is_ipv6 : List ℕ → Bool) where
  after_turn-Inv :
      (n : ℕ) (p : RequestParser) (t : Turn) (r : Return)
      → Turned (size p) t
      → after_turn n p t ≡ leave r
      → Inv r.parser.fields
  unfolding after_turn
  after_turn-Inv n p (breaks q) r h e = absurd (ground (arith, e))
  after_turn-Inv n p (returns o q) r h e =
      let same : q ≡ r.parser = cc in subst (λ o. Inv o.fields) same h.0

  pub Ends-Inv :
      {s : ℕ × RequestParser} {r : Return}
      → Going s
      → Ends (parse_round is_ipv6) s r
      → Inv r.parser.fields
  Ends-Inv {s = (n, p)} {r = r} h (stops e) =
      elim (Bool-cases ((length p.buffer_ == 0) || is_final p.fields.state_)) [
        | inl b ↦
            let same : p ≡ r.parser = cc (parse_round-stops is_ipv6 n p b) in
            subst (λ o. Inv o.fields) same h
        | inr b ↦
            after_turn-Inv n p (turn is_ipv6 p) r (turn-Turned is_ipv6 p h (ground (arith, b)))
              (sym (parse_round-turns is_ipv6 n p b) ∙ e)
      ]
  Ends-Inv {s = s} h (goes {s' = s'} e run) = Ends-Inv (parse_round-lowers is_ipv6 s s' h e).0 run

-- The parsers that a program can hold.
pub data Reach (is_ipv6 : List ℕ → Bool) : RequestParser → Type 0 where
  fresh :
      (max_headers max_header_size : ℕ)
      → Reach is_ipv6 (new_request_parser max_headers max_header_size)
  was_reset : {p : RequestParser} → Reach is_ipv6 p → Reach is_ipv6 (reset p)
  parsed :
      (input : List ℕ) {p : RequestParser} {r : Return}
      → Reach is_ipv6 p
      → parse is_ipv6 input p ≡ some r
      → Reach is_ipv6 r.parser
  taken : {p : RequestParser} → Reach is_ipv6 p → Reach is_ipv6 (take_remaining p).1

module _ (is_ipv6 : List ℕ → Bool) where
  -- What a call returns, with the rounds of its loop.
  parse_runs :
      (input : List ℕ) (p : RequestParser)
      → Inv p.fields
      → (r : Return) × (parse is_ipv6 input p ≡ some r)
        × Ends (parse_round is_ipv6) (0, extend input p) r
  parse_runs input p h =
      let (r, run) = parse_ends is_ipv6 0 (extend input p) h in
      (r, parse-Ends is_ipv6 input p h run, run)

  parse-Inv :
      (input : List ℕ) (p : RequestParser) (r : Return)
      → Inv p.fields
      → parse is_ipv6 input p ≡ some r
      → Inv r.parser.fields
  parse-Inv input p r h e =
      let (s, k, run) = parse_runs input p h in
      let same : s ≡ r = cc in subst (λ o. Inv o.parser.fields) same (Ends-Inv is_ipv6 h run)

  Reach-Inv : {p : RequestParser} → Reach is_ipv6 p → Inv p.fields
  unfolding new_request_parser reset take_remaining
  Reach-Inv (fresh m k) = (refl, refl, refl, refl)
  Reach-Inv (was_reset h) = (refl, refl, refl, refl)
  Reach-Inv (parsed input {p = p} {r = r} h e) = parse-Inv input p r (Reach-Inv h) e
  Reach-Inv (taken h) = Reach-Inv h

  -- For a parser that the calls of the class can give, a call of parse returns on every input, and
  -- it does not matter how the input is cut: with the input in two parts, the second call leaves the
  -- same parser, and returns the same result, as one call with the whole, and the counts of the two
  -- calls add up to its count. This holds too if the first call fails or completes the request.
  pub parse_in_parts :
      (a b : List ℕ) {p : RequestParser}
      → Reach is_ipv6 p
      → (r : Return) × (s : Return) × (parse is_ipv6 a p ≡ some r)
        × (parse is_ipv6 b r.parser ≡ some s)
        × (parse is_ipv6 (a ++ b) p ≡ some (record s { consumed = r.consumed + s.consumed }))
  parse_in_parts a b {p = p} h =
      let i = Reach-Inv h in
      let (r, first, run) = parse_runs a p i in
      let (s, second, more) = parse_runs b r.parser (Ends-Inv is_ipv6 i run) in
      let whole = runs_append is_ipv6 b i run s more in
      (
        r,
        s,
        first,
        second,
        parse-Ends is_ipv6 (a ++ b) p i (
            subst (λ c. Ends (parse_round is_ipv6) (0, at c p.fields) (behind r.consumed s))
              (append_assoc p.buffer_ a b) whole),
      )

  -- The result of a run is that of the state.
  after_turn-result :
      (n : ℕ) (p : RequestParser) (t w : Turn) (r : Return)
      → TurnGoes is_ipv6 [] t w
      → after_turn n p t ≡ leave r
      → r.result ≡ result_of r.parser.fields.state_
  unfolding after_turn
  after_turn-result n p (breaks q) w r g e = absurd (ground (arith, e))
  after_turn-result n p (returns failed q) w r g e =
      subst (λ o. o.result ≡ result_of o.parser.fields.state_) (same_left refl e)
        (sym (error_is_final q.fields.state_ g.1).1)
  after_turn-result n p (returns need_more q) w r g e =
      subst (λ o. o.result ≡ result_of o.parser.fields.state_) (same_left refl e)
        (sym (going_on q.fields.state_ g.1))
  after_turn-result n p (returns completed q) w r g e = absurd g

  Ends-result :
      {s : ℕ × RequestParser} {r : Return}
      → Going s
      → Ends (parse_round is_ipv6) s r
      → r.result ≡ result_of r.parser.fields.state_
  Ends-result {s = (n, p)} {r = r} h (stops e) =
      elim (Bool-cases ((length p.buffer_ == 0) || is_final p.fields.state_)) [
        | inl b ↦
            subst (λ o. o.result ≡ result_of o.parser.fields.state_)
              (same_left (parse_round-stops is_ipv6 n p b) e) refl
        | inr b ↦
            after_turn-result n p (turn is_ipv6 p) (turn is_ipv6 (extend [] p)) r
              (turn-TurnGoes is_ipv6 [] p h (ground (arith, b)))
              (sym (parse_round-turns is_ipv6 n p b) ∙ e)
      ]
  Ends-result {s = s} h (goes {s' = s'} e run) =
      Ends-result (parse_round-lowers is_ipv6 s s' h e).0 run

  -- What parse returns agrees with the state that it leaves, for a parser that the calls of the class
  -- can give: error in the state error, complete in the state complete, and need_more otherwise.
  pub parse-result :
      (input : List ℕ) {p : RequestParser} {r : Return}
      → Reach is_ipv6 p
      → parse is_ipv6 input p ≡ some r
      → r.result ≡ result_of r.parser.fields.state_
  parse-result input {p = p} {r = r} h e =
      let i = Reach-Inv h in
      let (s, k, run) = parse_runs input p i in
      let same : s ≡ r = cc in
      subst (λ o. o.result ≡ result_of o.parser.fields.state_) same (Ends-result i run)

  -- A request that is complete is framed in one way: Transfer-Encoding and Content-Length are not
  -- both there, an HTTP/1.1 request has one Host, and either the final coding is chunked, or there is
  -- no Transfer-Encoding and the body is as long as declared_content_length says, which is the number
  -- in Content-Length, and 0 if there is none.
  pub complete_request :
      {p : RequestParser}
      → Reach is_ipv6 p
      → p.fields.state_ ≡ complete
      → (contains transfer_encoding_name p.fields.headers_
            && contains content_length_name p.fields.headers_
          ≡ false)
        × ((same_text p.fields.version_ (codes "HTTP/1.1") ≡ false)
            ⊎ (length (get_all (codes "Host") p.fields.headers_) ≡ 1))
        × ((is_chunked p.fields.headers_ ≡ true)
            ⊎ (contains transfer_encoding_name p.fields.headers_ ≡ false)
              × (declared_content_length p ≡ some (length p.fields.body_))
              × (if contains content_length_name p.fields.headers_
                  then content_length p.fields.headers_ ≡ some (length p.fields.body_)
                  else length p.fields.body_ ≡ 0))
  unfolding declared_content_length
  complete_request {p = p} h e = elim (Inv_out complete p.fields e (Reach-Inv h)) [
    | inl (framed, chunks, te, coding) ↦ (framed.0, framed.1, inl coding)
    | inr (m, whole) ↦
        let (framed, not_chunked, received, te, cl) = m in
        let n : p.fields.content_length_ ≡ length p.fields.body_ = sym (received ∙ whole) in
        (
          framed.0,
          framed.1,
          inr (
            te,
            ground (arith, e, not_chunked, n),
            subst
                (λ n.
                  if contains content_length_name p.fields.headers_
                  then content_length p.fields.headers_ ≡ some n
                  else n ≡ 0)
                n cl,
          ),
        )
  ]
