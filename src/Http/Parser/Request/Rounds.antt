-- ===== src/Http/Parser/Request/Rounds.antt =====
-- The loop of parse_headers ends, and keeps what is known in the state headers.
use elio.Prelude.{
  ℕ, suc, ◌≤◌, ◌<◌, ◌≡◌, refl, sym, subst, ◌∙◌, Bool, true, false, List, [], ◌∷◌, none, some,
  length, ltb, if◌then◌else◌, arith, Option-cases, inl, inr, if_cases,
}
use elio.Prelude.Loop.{Pass, again, leave, Ends, stops, goes, ends, iterate-Ends}
use elio.Http.Parser.Errors.{header_line_too_long}
use elio.Http.Parser.Lines.{split_line, length-split_line, buffered_line_size}
use elio.Http.Parser.Request.{
  headers, Fields, RequestParser, set_error, end_of_headers, header_fields,
}
use elio.Http.Parser.Request.Parse.{at, line_round, header_round, parse_headers}
use elio.Http.Parser.Request.States.{
  Inv, Fresh, Kept, Inv_in, Lined, end_of_headers-Kept, header_fields-Lined,
}
use elio.Http.Parser.Request.Steps.{Steps, size, waits-Steps, fails-Steps}

-- The loop of parse_headers goes round in the state headers.
abbrev pub InHeaders : RequestParser → Type 0
InHeaders p = (p.fields.state_ ≡ headers) × Fresh p.fields

line_round-InHeaders :
    (left : Bool × Fields) (rest buffer : List ℕ) (q : RequestParser)
    → Lined left
    → line_round left rest buffer ≡ again q
    → InHeaders q × (q.buffer_ ≡ rest)
unfolding line_round
line_round-InHeaders (true, f) rest buffer q k e = ground (arith, k.lined, e)
line_round-InHeaders (false, f) rest buffer q k e = ground (arith, e)

pub header_round-line :
    (p : RequestParser) (c : ℕ) (cs rest : List ℕ)
    → split_line p.buffer_ ≡ some (c ∷ cs, rest)
    → header_round p ≡ line_round (header_fields (c ∷ cs) p.fields) rest p.buffer_
unfolding header_round
header_round-line p c cs rest s = ground (arith, s)

pub header_round-empty :
    (p : RequestParser) (rest : List ℕ)
    → split_line p.buffer_ ≡ some ([], rest)
    → header_round p ≡ leave ((end_of_headers p.fields).0, at rest (end_of_headers p.fields).1)
unfolding header_round
header_round-empty p rest s = ground (arith, s)

pub header_round-waits :
    (p : RequestParser)
    → split_line p.buffer_ ≡ none
    → header_round p
      ≡ leave (
        false,
        if ltb p.fields.max_header_size_ (buffered_line_size p.buffer_)
            then at p.buffer_ (set_error header_line_too_long p.fields)
            else p,
      )
unfolding header_round
header_round-waits p s = ground (arith, s)

pub header_round-lowers :
    (p q : RequestParser) → InHeaders p → header_round p ≡ again q → InHeaders q × (size q < size p)
header_round-lowers p q h e = elim (Option-cases (split_line p.buffer_)) [
  | inl n ↦ ground (arith, header_round-waits p n)
  | inr (([], rest), s) ↦ ground (arith, header_round-empty p rest s)
  | inr ((c ∷ cs, rest), s) ↦
      let k = header_fields-Lined (c ∷ cs) p.fields h.0 h.1 in
      let (i, b) =
        line_round-InHeaders (header_fields (c ∷ cs) p.fields) rest p.buffer_ q k
          (sym (header_round-line p c cs rest s) ∙ e) in
      (i, ground (arith, b, length-split_line p.buffer_ (c ∷ cs) rest s))
]

pub parse_headers-Ends :
    {p : RequestParser} {r : Bool × RequestParser}
    → InHeaders p
    → Ends header_round p r
    → parse_headers p ≡ r
unfolding parse_headers
parse_headers-Ends {p = p} {r = r} h run = ground (
  arith,
  iterate-Ends header_round InHeaders size header_round-lowers (suc (size p)) h run (omega arith),
)

same_left :
    {t : Pass RequestParser (Bool × RequestParser)} {r s : Bool × RequestParser}
    → t ≡ leave r
    → t ≡ leave s
    → r ≡ s
same_left e k = cc

waiting-Steps :
    (p : RequestParser)
    → Inv p.fields
    → Steps (size p) (
      false,
      if ltb p.fields.max_header_size_ (buffered_line_size p.buffer_)
          then at p.buffer_ (set_error header_line_too_long p.fields)
          else p,
    )
waiting-Steps p h =
    if_cases (λ q. Steps (size p) (false, q))
      (ltb p.fields.max_header_size_ (buffered_line_size p.buffer_))
      (λ e. fails-Steps false header_line_too_long p) (λ e. waits-Steps p h)

empty-Steps :
    (p : RequestParser) (rest : List ℕ)
    → Kept (end_of_headers p.fields)
    → length rest < size p
    → Steps (size p) ((end_of_headers p.fields).0, at rest (end_of_headers p.fields).1)
empty-Steps p rest k h = record { inv = k.kept; at_most = omega arith; progress = λ _. inr h }

line_round-Steps :
    (left : Bool × Fields) (rest buffer : List ℕ) (r : Bool × RequestParser)
    → Lined left
    → line_round left rest buffer ≡ leave r
    → Steps (length buffer) r
unfolding line_round
line_round-Steps (true, f) rest buffer r k e = ground (arith, e)
line_round-Steps (false, f) rest buffer r k e =
    subst (Steps (length buffer)) (same_left refl e)
      (record { inv = k.lined.1; at_most = omega arith; progress = λ q. ground (arith, q) })

-- The last round of parse_headers.
last_round-Steps :
    (p : RequestParser) (r : Bool × RequestParser)
    → InHeaders p
    → header_round p ≡ leave r
    → Steps (size p) r
last_round-Steps p r h e = elim (Option-cases (split_line p.buffer_)) [
  | inl n ↦
      subst (Steps (size p)) (same_left (header_round-waits p n) e)
        (waiting-Steps p (Inv_in headers p.fields h.0 h.1))
  | inr (([], rest), s) ↦ subst (Steps (size p)) (same_left (header_round-empty p rest s) e) (
      empty-Steps p rest (end_of_headers-Kept p.fields h.1)
        (omega (arith, length-split_line p.buffer_ [] rest s)))
  | inr ((c ∷ cs, rest), s) ↦
      line_round-Steps (header_fields (c ∷ cs) p.fields) rest p.buffer_ r
        (header_fields-Lined (c ∷ cs) p.fields h.0 h.1) (sym (header_round-line p c cs rest s) ∙ e)
]

Steps-more : (n m : ℕ) (r : Bool × RequestParser) → n ≤ m → Steps n r → Steps m r
Steps-more n m r h s = record {
  inv = s.inv;
  at_most = omega (arith, s.at_most);
  progress = λ e. elim (s.progress e) [ inl f ↦ inl f | inr l ↦ inr (omega (arith, l)) ];
}

pub headers-Steps :
    {p : RequestParser} {r : Bool × RequestParser}
    → InHeaders p
    → Ends header_round p r
    → Steps (size p) r
headers-Steps {p = p} {r = r} h (stops e) = last_round-Steps p r h e
headers-Steps {p = p} {r = r} h (goes {s' = q} e run) =
    let (i, l) = header_round-lowers p q h e in
    Steps-more (size q) (size p) r (omega (arith, l)) (headers-Steps i run)

pub headers_ends :
    (p : RequestParser) → InHeaders p → (r : Bool × RequestParser) × Ends header_round p r
headers_ends p h = ends header_round InHeaders size header_round-lowers p h

pub parse_headers-Steps : (p : RequestParser) → InHeaders p → Steps (size p) (parse_headers p)
parse_headers-Steps p h =
    let (r, run) = headers_ends p h in
    subst (Steps (size p)) (sym (parse_headers-Ends h run)) (headers-Steps h run)
