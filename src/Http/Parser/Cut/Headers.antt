-- ===== src/Http/Parser/Cut/Headers.antt =====
-- The loop of parse_headers, with more input behind what is buffered.
use elio.Prelude.{
  ℕ, ◌<◌, ◌≡◌, refl, sym, subst, ap, ◌∙◌, Bool, true, false, List, [], ◌∷◌, ◌++◌, none, length, ltb,
  if◌then◌else◌, arith, Option-cases, Bool-cases, inl, inr,
}
use elio.Prelude.Loop.{Pass, again, leave, Ends, stops, goes}
use elio.Http.Parser.Errors.{header_line_too_long}
use elio.Http.Parser.Lines.{
  split_line, buffered_line_size, split_line-append, buffered_line_size-le,
  buffered_line_size-append,
}
use elio.Http.Parser.Request.{
  headers, Fields, RequestParser, set_error, refusal, end_of_headers, header_fields,
}
use elio.Http.Parser.Request.Parse.{at, is_error, line_round, header_round, parse_headers}
use elio.Http.Parser.Request.States.{Inv_out, Kept, Lined, end_of_headers-Kept, header_fields-Lined}
use elio.Http.Parser.Request.Rounds.{
  InHeaders, header_round-empty, header_round-line, header_round-lowers, headers_ends,
  parse_headers-Ends, headers-Steps,
}
use elio.Http.Parser.Cut.{extend, Extends, pick_then, pick_else, along_if}

module _ (x : List ℕ) where
  abbrev LeftExtends : Bool × RequestParser → Pass RequestParser (Bool × RequestParser) → Type 0
  LeftExtends (true, q) w = w ≡ leave (true, extend x q)
  LeftExtends (false, q) w =
      if is_error q.fields.state_
      then w ≡ leave (false, extend x q)
      else (q.fields.state_ ≡ headers) × (w ≡ header_round (extend x q))

  -- A round, and the same round with `x` behind the buffer.
  abbrev RoundExtends :
      Pass RequestParser (Bool × RequestParser) → Pass RequestParser (Bool × RequestParser) → Type 0
  RoundExtends (again q) w = w ≡ again (extend x q)
  RoundExtends (leave r) w = LeftExtends r w

  along_round :
      {r r' w w' : Pass RequestParser (Bool × RequestParser)}
      → r ≡ r'
      → w ≡ w'
      → RoundExtends r' w'
      → RoundExtends r w
  along_round {r' = r'} {w = w} e k t =
      subst (λ r. RoundExtends r w) (sym e) (subst (λ w. RoundExtends r' w) (sym k) t)

  line_round-Extends :
      (left : Bool × Fields) (rest buffer : List ℕ)
      → Lined left
      → RoundExtends (line_round left rest buffer) (line_round left (rest ++ x) (buffer ++ x))
  unfolding line_round
  line_round-Extends (true, f) rest buffer k = refl
  line_round-Extends (false, f) rest buffer k =
      pick_then _ _ (is_error f.state_) (ap is_error k.lined.0) refl

  end_of_headers-Extends :
      (left : Bool × Fields) (rest : List ℕ)
      → Kept left
      → RoundExtends (leave (left.0, at rest left.1)) (leave (left.0, at (rest ++ x) left.1))
  end_of_headers-Extends (true, f) rest k = refl
  end_of_headers-Extends (false, f) rest k =
      pick_then _ _ (is_error f.state_) (ap is_error (k.refuses refl)) refl

  header_round-too_long :
      (p : RequestParser)
      → split_line p.buffer_ ≡ none
      → ltb p.fields.max_header_size_ (buffered_line_size p.buffer_) ≡ true
      → header_round p ≡ leave (false, at p.buffer_ (set_error header_line_too_long p.fields))
  unfolding header_round
  header_round-too_long p n q = ground (arith, n, q)

  header_round-short :
      (p : RequestParser)
      → split_line p.buffer_ ≡ none
      → ltb p.fields.max_header_size_ (buffered_line_size p.buffer_) ≡ false
      → header_round p ≡ leave (false, p)
  unfolding header_round
  header_round-short p n q = ground (arith, n, q)

  waiting : (p : RequestParser) → InHeaders p → LeftExtends (false, p) (header_round (extend x p))
  waiting p h = pick_else _ _ (is_error p.fields.state_) (ap is_error h.0) (h.0, refl)

  line_round_long :
      (p : RequestParser) (c : ℕ) (cs r : List ℕ)
      → p.fields.max_header_size_ < length (c ∷ cs)
      → line_round (header_fields (c ∷ cs) p.fields) r (p.buffer_ ++ x)
        ≡ leave (false, at (p.buffer_ ++ x) (set_error header_line_too_long p.fields))
  unfolding line_round header_fields refusal
  line_round_long p c cs r h = ground (arith, h)

  -- A line that is too long is so with more behind it.
  header_round_long :
      (p : RequestParser)
      → split_line p.buffer_ ≡ none
      → ltb p.fields.max_header_size_ (buffered_line_size p.buffer_) ≡ true
      → header_round (extend x p)
        ≡ leave (false, at (p.buffer_ ++ x) (set_error header_line_too_long p.fields))
  header_round_long p n q = elim (Option-cases (split_line (p.buffer_ ++ x))) [
    | inl m ↦
        header_round-too_long (extend x p) m
          (ground (arith, q, buffered_line_size-append p.buffer_ x))
    | inr (([], r), m) ↦ absurd (ground (arith, q, buffered_line_size-le p.buffer_ x [] r n m))
    | inr ((c ∷ cs, r), m) ↦
        header_round-line (extend x p) c cs r m
        ∙ line_round_long p c cs r
            (ground (arith, q, buffered_line_size-le p.buffer_ x (c ∷ cs) r n m))
  ]

  header_round-Extends :
      (p : RequestParser) → InHeaders p → RoundExtends (header_round p) (header_round (extend x p))
  unfolding set_error
  header_round-Extends p h = elim (Option-cases (split_line p.buffer_)) [
    | inl n ↦ elim (Bool-cases (ltb p.fields.max_header_size_ (buffered_line_size p.buffer_))) [
      | inl q ↦ along_round (header_round-too_long p n q) (header_round_long p n q) refl
      | inr q ↦ along_round (header_round-short p n q) refl (waiting p h)
    ]
    | inr (([], r), n) ↦
        along_round (header_round-empty p r n)
          (header_round-empty (extend x p) (r ++ x) (split_line-append p.buffer_ x [] r n))
          (end_of_headers-Extends (end_of_headers p.fields) r (end_of_headers-Kept p.fields h.1))
    | inr ((c ∷ cs, r), n) ↦
        along_round (header_round-line p c cs r n)
          (header_round-line (extend x p) c cs (r ++ x)
            (split_line-append p.buffer_ x (c ∷ cs) r n))
          (line_round-Extends (header_fields (c ∷ cs) p.fields) r p.buffer_
            (header_fields-Lined (c ∷ cs) p.fields h.0 h.1))
  ]

  behind_round :
      (p q : RequestParser) (r : Bool × RequestParser)
      → header_round p ≡ header_round q
      → Ends header_round q r
      → Ends header_round p r
  behind_round p q r e (stops k) = stops (e ∙ k)
  behind_round p q r e (goes k run) = goes (e ∙ k) run

  -- The whole loop from `p` with `x` behind its buffer.
  abbrev RunExtends : RequestParser → Bool × RequestParser → Type 0
  RunExtends p (true, q) = Ends header_round (extend x p) (true, extend x q)
  RunExtends p (false, q) =
      if is_error q.fields.state_
      then Ends header_round (extend x p) (false, extend x q)
      else (q.fields.state_ ≡ headers)
        × ((r : Bool × RequestParser)
            → Ends header_round (extend x q) r
            → Ends header_round (extend x p) r)

  left-RunExtends :
      (p : RequestParser) (r : Bool × RequestParser)
      → LeftExtends r (header_round (extend x p))
      → RunExtends p r
  left-RunExtends p (true, q) e = stops e
  left-RunExtends p (false, q) e =
      along_if _ _ _ _ (is_error q.fields.state_) (λ k. stops k)
        (λ k. (k.0, λ r run. behind_round (extend x p) (extend x q) r k.1 run)) e

  round-RunExtends :
      (p q : RequestParser) (r : Bool × RequestParser)
      → header_round (extend x p) ≡ again (extend x q)
      → RunExtends q r
      → RunExtends p r
  round-RunExtends p q (true, s) e run = goes e run
  round-RunExtends p q (false, s) e run =
      along_if _ _ _ _ (is_error s.fields.state_) (λ k. goes e k)
        (λ k. (k.0, λ r more. goes e (k.1 r more))) run

  run-RunExtends :
      {p : RequestParser} {r : Bool × RequestParser}
      → InHeaders p
      → Ends header_round p r
      → RunExtends p r
  run-RunExtends {p = p} {r = r} h (stops e) =
      left-RunExtends p r
        (subst (λ t. RoundExtends t (header_round (extend x p))) e (header_round-Extends p h))
  run-RunExtends {p = p} {r = r} h (goes {s' = q} e run) =
      round-RunExtends p q r
        (subst (λ t. RoundExtends t (header_round (extend x p))) e (header_round-Extends p h))
        (run-RunExtends (header_round-lowers p q h e).0 run)

  left-Extends :
      (p : RequestParser) (r : Bool × RequestParser)
      → InHeaders p
      → Ends header_round p r
      → RunExtends p r
      → Extends x headers parse_headers r (parse_headers (extend x p))
  left-Extends p (true, q) h run k = parse_headers-Ends h k
  left-Extends p (false, q) h run k =
      along_if _ _ _ _ (is_error q.fields.state_) (λ t. parse_headers-Ends h t)
        (λ t.
          let i : InHeaders q = (t.0, Inv_out headers q.fields t.0 (headers-Steps h run).inv) in
          let (s, more) = headers_ends (extend x q) i in
          (t.0, parse_headers-Ends h (t.1 s more) ∙ sym (parse_headers-Ends i more)))
        k

  pub parse_headers-Extends :
      (p : RequestParser)
      → InHeaders p
      → Extends x headers parse_headers (parse_headers p) (parse_headers (extend x p))
  parse_headers-Extends p h =
      let (r, run) = headers_ends p h in
      subst (λ t. Extends x headers parse_headers t (parse_headers (extend x p)))
        (sym (parse_headers-Ends h run)) (left-Extends p r h run (run-RunExtends h run))
