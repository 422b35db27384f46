-- ===== src/Http/Parser/Response/Reached.antt =====
-- response_parser::parse is the reference that goes byte by byte, and so does not depend on how its
-- input is cut.
use elio.Prelude.{
  ℕ, ◌+◌, ◌-◌, ◌*◌, ◌≡◌, refl, sym, subst, ap, ◌∙◌, List, [], ◌++◌, append_assoc, some, length,
  drop, arith,
}
use elio.Prelude.Loop.{iterate, ends, iterate-Ends}
use elio.Http.Targets.{Method}
use elio.Http.Parser.Errors.{closed_before_complete}
use elio.Http.Parser.Response.{DecoderState, close_body, complete, error, Decoder, reset_decoder}
use elio.Http.Parser.Response.Decode.{
  decode, decode_from, decode_round, ResponseParser, ResponseReturn, reset_response,
  parse_response_bytes, set_request_method, take_remaining_response, finish_eof, finish_response,
  closed, result_kind,
}
use elio.Http.Parser.Response.Counted.{Counted, fail-Counted, reset_decoder-Counted}
use elio.Http.Parser.Response.Bytes.{run_bytes, left_at, Left, run_bytes-append, resume}
use elio.Http.Parser.Response.Rounds.{Standing, Sound, to_go, round_lowers, run_ends}
use elio.Http.Parser.Response.Rest.{Rest, run_bytes-Rest, restart}

-- What a parser holds, as the reference leaves it.
abbrev pub held : ResponseParser → Left
held p = left_at p.decoder_ p.body_ p.buffer_

-- A call returns, with the parser that the reference gives on what was left and the new input.
parse_response_runs :
    (input : List ℕ) (p : ResponseParser)
    → Counted p.decoder_
    → (r : ResponseReturn) × (parse_response_bytes input p ≡ some r)
      × Counted r.parser.decoder_
      × (held r.parser ≡ run_bytes (p.buffer_ ++ input) p.decoder_ p.body_)
      × (r.result ≡ result_kind r.parser.decoder_.state_)
unfolding parse_response_bytes
parse_response_runs input p h =
    let buffer = p.buffer_ ++ input in
    let s : Standing = (p.decoder_, p.body_, 0) in
    let sound : Sound buffer s = (h, omega arith) in
    let (t, run) =
      ends (decode_round buffer) (Sound buffer) (to_go buffer) (round_lowers buffer) s sound in
    let (final, over) = run_ends buffer sound run in
    let done : iterate (2 * length buffer + 2) (decode_round buffer) s ≡ some t =
      iterate-Ends (decode_round buffer) (Sound buffer) (to_go buffer) (round_lowers buffer)
        (2 * length buffer + 2) sound run (omega arith) in
    (
      record {
        result = result_kind t.0.state_;
        retired = length p.decoder_.line_ + t.2 - length t.0.line_;
        parser = record { decoder_ = t.0; body_ = t.1; buffer_ = drop t.2 buffer };
      },
      ground (arith, done),
      final.0,
      sym over,
      refl,
    )

-- The parsers that a program can hold.
pub data ReachResponse : ResponseParser → Type 0 where
  created :
      (d : Decoder)
      → ReachResponse (record { decoder_ = reset_decoder d; body_ = []; buffer_ = [] })
  was_reset : {p : ResponseParser} → ReachResponse p → ReachResponse (reset_response p)
  for_method :
      (m : Method) {p : ResponseParser} → ReachResponse p → ReachResponse (set_request_method m p)
  parsed :
      (input : List ℕ) {p : ResponseParser} {r : ResponseReturn}
      → ReachResponse p
      → parse_response_bytes input p ≡ some r
      → ReachResponse r.parser
  finished : {p : ResponseParser} → ReachResponse p → ReachResponse (finish_response p).1
  taken : {p : ResponseParser} → ReachResponse p → ReachResponse (take_remaining_response p).1

closed-Counted : (s : DecoderState) (d : Decoder) → d.state_ ≡ s → Counted d → Counted (closed s d)
unfolding closed
closed-Counted close_body d e h = record { left = tt }
closed-Counted complete d e h = h
closed-Counted error d e h = h
closed-Counted _ d e h = fail-Counted closed_before_complete d

finish-Counted : (d : Decoder) → Counted d → Counted (finish_eof d).1
unfolding finish_eof decode decode_from
finish-Counted d h = closed-Counted d.state_ d refl h

ReachResponse-Counted : {p : ResponseParser} → ReachResponse p → Counted p.decoder_
unfolding reset_response set_request_method finish_response take_remaining_response
ReachResponse-Counted (created d) = reset_decoder-Counted d
ReachResponse-Counted (was_reset {p = p} h) = reset_decoder-Counted p.decoder_
ReachResponse-Counted (for_method m h) = record { left = (ReachResponse-Counted h).left }
ReachResponse-Counted (parsed input {p = p} {r = r} h e) =
    let (s, k, c, run, shown) = parse_response_runs input p (ReachResponse-Counted h) in
    let same : s ≡ r = cc in subst (λ (r : ResponseReturn). Counted r.parser.decoder_) same c
ReachResponse-Counted (finished {p = p} h) = finish-Counted p.decoder_ (ReachResponse-Counted h)
ReachResponse-Counted (taken h) = record { left = (ReachResponse-Counted h).left }

-- For a parser that the calls of the class can give, a call of parse returns on every input, and it
-- leaves the decoder, the body and the unconsumed input that the reference run_bytes leaves, which goes
-- through what was unconsumed and the new input byte by byte; its result is that of the decoder's state.
pub parse_response_bytes-run_bytes :
    (input : List ℕ) {p : ResponseParser}
    → ReachResponse p
    → (r : ResponseReturn) × (parse_response_bytes input p ≡ some r)
      × (held r.parser ≡ run_bytes (p.buffer_ ++ input) p.decoder_ p.body_)
      × (r.result ≡ result_kind r.parser.decoder_.state_)
parse_response_bytes-run_bytes input {p = p} h =
    let (r, e, c, run, shown) = parse_response_runs input p (ReachResponse-Counted h) in
    (r, e, run, shown)

as_parser : Left → ResponseParser
as_parser l = record { decoder_ = l.decoder; body_ = l.content; buffer_ = l.rest }

-- For a parser that the calls of the class can give, a call of parse returns on every input, and it
-- does not matter how the input is cut: with the input in two parts, the second call leaves the same
-- parser, with the same body and the same unconsumed input, and returns the same result, as one call
-- with the whole. This holds too if the first call fails or completes the response.
pub parse_response_in_parts :
    (a b : List ℕ) {p : ResponseParser}
    → ReachResponse p
    → (r : ResponseReturn) × (s : ResponseReturn) × (t : ResponseReturn) × (parse_response_bytes a p
        ≡ some r)
      × (parse_response_bytes b r.parser ≡ some s)
      × (parse_response_bytes (a ++ b) p ≡ some t)
      × (t.parser ≡ s.parser)
      × (t.result ≡ s.result)
unfolding as_parser
parse_response_in_parts a b {p = p} h =
    let (r, e, c, first, k) = parse_response_runs a p (ReachResponse-Counted h) in
    let (s, e', c', second, k') = parse_response_runs b r.parser c in
    let (t, e'', c'', whole, k'') = parse_response_runs (a ++ b) p (ReachResponse-Counted h) in
    let full : Rest (held r.parser) =
      subst Rest (sym first) (run_bytes-Rest (p.buffer_ ++ a) p.decoder_ p.body_) in
    let agree : held t.parser ≡ held s.parser =
      whole
      ∙ ap (λ xs. run_bytes xs p.decoder_ p.body_) (sym (append_assoc p.buffer_ a b))
      ∙ run_bytes-append b (p.buffer_ ++ a) p.decoder_ p.body_
      ∙ ap (resume b) (sym first)
      ∙ sym (restart b (held r.parser) full)
      ∙ sym second in
    let same : t.parser ≡ s.parser = ap as_parser agree in
    (
      r,
      s,
      t,
      e,
      e',
      e'',
      same,
      k'' ∙ ap (λ (q : ResponseParser). result_kind q.decoder_.state_) same ∙ sym k',
    )
