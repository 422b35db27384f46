-- ===== src/Http/Parser/Request/Steps.antt =====
-- What the functions of request_parser on buffer_ keep, and that none of them puts bytes back.
use elio.Prelude.{
  length-take_min, ℕ, ◌+◌, ◌-◌, ◌≤◌, ◌<◌, ◌≡◌, refl, Bool, true, false, not, ◌||◌, List, [], ◌∷◌,
  ◌++◌, length, length-append, take, min, get_or, length-drop, leb, ltb, ◌==◌, arith, inl, inr,
  if_cases, option_cases, ◌⊎◌,
}
use elio.Http.Parser.Errors.{HttpError}
use elio.Http.Parser.Lines.{split_line, length-split_line, buffered_line_size}
use elio.Http.Parser.Chunks.{parse_chunk_size_line, validate_chunk_trailer_line}
use elio.Http.Parser.Request.{
  request_line, body, chunk_data, chunk_trailer, Fields, RequestParser, set_error,
  request_line_fields,
}
use elio.Http.Parser.Request.Parse.{
  at, is_final, consume_if, parse_body, parse_line, size_fields, trailer_fields, parse_chunk_data,
  parse_request_line,
}
use elio.Http.Parser.Request.States.{
  Inv, InState, Fresh, Chunked, Kept, Inv_in, error-Inv, accepted, request_line_fields-Kept,
}

abbrev pub size : RequestParser → ℕ
size p = length p.buffer_

-- A function on a parser whose buffer has `n` bytes leaves `r`: it has consumed something, or has
-- ended the message, if it returns true.
pub record Steps (n : ℕ) (r : Bool × RequestParser) : Type 0 where
  pub inv : Inv r.1.fields
  pub at_most : size r.1 ≤ n
  pub progress : r.0 ≡ true → (is_final r.1.fields.state_ ≡ true) ⊎ (size r.1 < n)

failing : (m : HttpError) (f : Fields) → Kept (false, set_error m f)
unfolding set_error
failing m f = record { kept = (m, refl); refuses = λ _. refl }

pub size_fields-Kept : (line : List ℕ) (f : Fields) → Chunked f → Kept (size_fields line f)
unfolding size_fields
size_fields-Kept line f h =
    if_cases Kept (ltb f.max_header_size_ (length line)) (λ q. failing _ _)
      λ q.
        option_cases Kept (parse_chunk_size_line line).1 (λ e. accepted _ (ground (arith, h)))
          (λ m e. failing _ _)

pub trailer_fields-Kept :
    (line : List ℕ) (f : Fields)
    → f.state_ ≡ chunk_trailer
    → Chunked f
    → Kept (trailer_fields line f)
unfolding trailer_fields
trailer_fields-Kept [] f e h = accepted _ (inl h)
trailer_fields-Kept (c ∷ cs) f e h =
    if_cases Kept (ltb f.max_header_size_ (length (c ∷ cs))) (λ q. failing _ _)
      λ q.
        if_cases Kept (leb f.max_headers_ f.header_count_) (λ r. failing _ _)
          λ r.
            if_cases Kept (not (validate_chunk_trailer_line (c ∷ cs))) (λ s. failing _ _)
              λ s.
                accepted _
                  (Inv_in chunk_trailer (record f { header_count_ = f.header_count_ + 1 }) e h)

-- A line that was found ends the message or makes the buffer shorter.
line-Steps :
    (left : Bool × Fields) (rest buffer : List ℕ)
    → Kept left
    → length rest < length buffer
    → Steps (length buffer) (consume_if left rest buffer)
      × Steps (length buffer) (true, (consume_if left rest buffer).1)
unfolding consume_if
line-Steps (true, f) rest buffer k h =
    let s : Steps (length buffer) (true, at rest f) = record {
      inv = k.kept;
      at_most = omega arith;
      progress = λ _. inr (omega arith);
    } in
    (s, s)
line-Steps (false, f) rest buffer k h = (
  record { inv = k.kept; at_most = omega arith; progress = λ e. ground (arith, e) },
  record { inv = k.kept; at_most = omega arith; progress = λ _. inl (rw (k.refuses refl) refl) },
)

pub waits-Steps : (p : RequestParser) → Inv p.fields → Steps (size p) (false, p)
waits-Steps p h = record { inv = h; at_most = omega arith; progress = λ e. ground (arith, e) }

pub fails-Steps :
    (b : Bool) (m : HttpError) (p : RequestParser)
    → Steps (size p) (b, at p.buffer_ (set_error m p.fields))
unfolding set_error
fails-Steps b m p = record {
  inv = error-Inv m p.fields;
  at_most = omega arith;
  progress = λ _. inl refl;
}

pub parse_line-Steps :
    (line_fields : List ℕ → Fields → Bool × Fields) (long : HttpError) (p : RequestParser)
    → Inv p.fields
    → ((line : List ℕ) → Kept (line_fields line p.fields))
    → Steps (size p) (parse_line line_fields long p)
unfolding parse_line
parse_line-Steps line_fields long p h k =
    option_cases (Steps (size p)) (split_line p.buffer_)
      (λ e.
        if_cases (Steps (size p)) (ltb p.fields.max_header_size_ (buffered_line_size p.buffer_))
          (λ q. fails-Steps _ _ p) (λ q. waits-Steps p h))
      (λ l e.
        (line-Steps (line_fields l.0 p.fields) l.1 p.buffer_ (k l.0)
          (omega (arith, length-split_line p.buffer_ l.0 l.1 e))).1)

pub parse_request_line-Steps :
    (is_ipv6 : List ℕ → Bool) (p : RequestParser)
    → p.fields.state_ ≡ request_line
    → Fresh p.fields
    → Steps (size p) (parse_request_line is_ipv6 p)
unfolding parse_request_line
parse_request_line-Steps is_ipv6 p e h =
    option_cases (Steps (size p)) (split_line p.buffer_)
      (λ n. waits-Steps p (Inv_in request_line p.fields e h))
      (λ l n.
        (line-Steps (request_line_fields is_ipv6 l.0 p.fields) l.1 p.buffer_
          (request_line_fields-Kept is_ipv6 l.0 p.fields h)
          (omega (arith, length-split_line p.buffer_ l.0 l.1 n))).0)

pub parse_body-Steps :
    (p : RequestParser)
    → p.fields.state_ ≡ body
    → InState body p.fields
    → Steps (size p) (parse_body p)
unfolding parse_body
parse_body-Steps p e h =
    let n = min (p.fields.content_length_ - p.fields.body_received_) (length p.buffer_) in
    let f = record p.fields {
      body_ = p.fields.body_ ++ take n p.buffer_;
      body_received_ = p.fields.body_received_ + n;
    } in
    let (m, short) = h in
    let (framed, whole, received, te, cl) = m in
    let grown : length f.body_ ≡ f.body_received_ = omega (
      arith,
      received,
      length-append p.fields.body_ (take n p.buffer_),
      length-take_min n p.buffer_ (omega arith),
    ) in
    if_cases (Steps (size p)) (leb p.fields.content_length_ (p.fields.body_received_ + n))
      (λ q. record {
        inv = inr ((framed, whole, grown, te, cl), ground (arith, q));
        at_most = omega (arith, length-drop n p.buffer_);
        progress = λ _. inl refl;
      })
      (λ q. record {
        inv = Inv_in body f e ((framed, whole, grown, te, cl), ground (arith, q));
        at_most = omega (arith, length-drop n p.buffer_);
        progress = λ e. ground (arith, e);
      })

pub parse_chunk_data-Steps :
    (p : RequestParser)
    → p.fields.state_ ≡ chunk_data
    → Chunked p.fields
    → Steps (size p) (parse_chunk_data p)
unfolding parse_chunk_data
parse_chunk_data-Steps p e h =
    let n = p.fields.chunk_size_ in
    if_cases (Steps (size p)) (ltb (length p.buffer_) (n + 2))
      (λ q. waits-Steps p (Inv_in chunk_data p.fields e h))
      λ q.
        if_cases (Steps (size p))
          (not (get_or p.buffer_ n 0 == b'\r') || not (get_or p.buffer_ (n + 1) 0 == b'\n'))
          (λ r. fails-Steps _ _ p)
          (λ r. record {
            inv = h;
            at_most = omega (arith, length-drop (n + 2) p.buffer_);
            progress = λ _. inr (ground (arith, length-drop (n + 2) p.buffer_));
          })
