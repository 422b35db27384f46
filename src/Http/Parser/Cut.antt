-- ===== src/Http/Parser/Cut.antt =====
-- More input behind what is buffered: a function on buffer_ does the same and leaves the rest, or it
-- was waiting and goes on from where it stopped.
pub mod Bodies
pub mod Headers
pub mod Turns
pub mod Shift
pub mod Append
use elio.Prelude.{
  ℕ, zero, suc, ◌+◌, ◌-◌, ◌≤◌, ◌<◌, ◌≡◌, refl, sym, subst, ap, ◌∙◌, Bool, true, false, not, ◌&&◌,
  ◌||◌, List, [], ◌∷◌, ◌++◌, append_assoc, append-nil, Option, none, some, length, length-append,
  take, drop, get_or, min, leb, ltb, ◌==◌, if◌then◌else◌, arith, Option-cases, Bool-cases, inl, inr,
  ◌⊎◌, if_cases, option_cases, get_or-append_left, drop-append_left, take-append_left,
  take-append_right, drop-append_right, take_all, drop_all,
}
use elio.Prelude.Loop.{Pass, again, leave, Ends, stops, goes}
use elio.Http.Parser.Errors.{
  HttpError, header_line_too_long, chunk_line_too_long, trailer_line_too_long, missing_crlf,
}
use elio.Http.Parser.Lines.{
  split_line, buffered_line_size, split_line-append, buffered_line_size-le,
  buffered_line_size-append,
}
use elio.Http.Parser.Request.{
  ParseState, start, request_line, status_line, headers, body, chunk_size, chunk_data,
  chunk_trailer, complete, error, Fields, RequestParser, set_error, refusal, request_line_fields,
  end_of_headers, header_fields,
}
use elio.Http.Parser.Request.Parse.{
  at, is_final, is_error, consume_if, line_round, header_round, parse_headers, parse_body,
  parse_line, size_fields, trailer_fields, parse_chunk_size, parse_chunk_trailer, parse_chunk_data,
  parse_request_line, Turn, breaks, returns, need_more, completed, failed, checked_turn,
  unchecked_turn, turn_in, turn,
}
use elio.Http.Parser.Request.States.{
  Inv, InState, Fresh, Chunked, Kept, Inv_in, request_line_fields-Kept,
}
use elio.Http.Parser.Request.Steps.{size_fields-Kept, trailer_fields-Kept}
use elio.Http.Parser.Request.Rounds.{
  InHeaders, header_round-waits, header_round-empty, header_round-line, headers_ends,
  parse_headers-Ends,
}

abbrev pub extend : List ℕ → RequestParser → RequestParser
extend x p = at (p.buffer_ ++ x) p.fields

-- What a function of the state `s` leaves, and what it leaves with `x` behind the buffer.
abbrev pub Extends :
    List ℕ
    → ParseState
    → (RequestParser → Bool × RequestParser)
    → Bool × RequestParser
    → Bool × RequestParser
    → Type 0
Extends x s f (true, q) whole = whole ≡ (true, extend x q)
Extends x s f (false, q) whole =
    if is_error q.fields.state_
    then whole ≡ (false, extend x q)
    else (q.fields.state_ ≡ s) × (whole ≡ f (extend x q))

pub pick_then {ℓ} : (A B : Type ℓ) (b : Bool) → b ≡ true → A → if b then A else B
pick_then A B true e t = t
pick_then A B false e t = absurd (ground (arith, e))

pub pick_else {ℓ} : (A B : Type ℓ) (b : Bool) → b ≡ false → B → if b then A else B
pick_else A B true e t = absurd (ground (arith, e))
pick_else A B false e t = t

pub along_if {ℓ} :
    (A B C D : Type ℓ) (b : Bool) → (A → C) → (B → D) → (if b then A else B) → if b then C else D
along_if A B C D true f g t = f t
along_if A B C D false f g t = g t

module _ (x : List ℕ) where
  pub along :
      (s : ParseState) (f : RequestParser → Bool × RequestParser)
      → {r r' w w' : Bool × RequestParser} → r ≡ r'
      → w ≡ w'
      → Extends x s f r' w'
      → Extends x s f r w
  along s f {r' = r'} {w = w} e k t =
      subst (λ r. Extends x s f r w) (sym e) (subst (λ w. Extends x s f r' w) (sym k) t)

  pub waits-Extends :
      (s : ParseState) (f : RequestParser → Bool × RequestParser) (p : RequestParser)
      → is_error s ≡ false
      → p.fields.state_ ≡ s
      → Extends x s f (false, p) (f (extend x p))
  waits-Extends s f p e h = pick_else _ _ (is_error p.fields.state_) (ap is_error h ∙ e) (h, refl)

  consume_if-Extends :
      (s : ParseState) (f : RequestParser → Bool × RequestParser) (left : Bool × Fields)
      → (rest buffer : List ℕ) → Kept left
      → Extends x s f (consume_if left rest buffer) (consume_if left (rest ++ x) (buffer ++ x))
  unfolding consume_if
  consume_if-Extends s f (true, g) rest buffer k = refl
  consume_if-Extends s f (false, g) rest buffer k = rw (k.refuses refl) refl

  module _ (is_ipv6 : List ℕ → Bool) where
    parse_request_line-none :
        (p : RequestParser)
        → split_line p.buffer_ ≡ none
        → parse_request_line is_ipv6 p ≡ (false, p)
    unfolding parse_request_line
    parse_request_line-none p n = ground (arith, n)

    parse_request_line-some :
        (p : RequestParser) (l r : List ℕ)
        → split_line p.buffer_ ≡ some (l, r)
        → parse_request_line is_ipv6 p
          ≡ consume_if (request_line_fields is_ipv6 l p.fields) r p.buffer_
    unfolding parse_request_line
    parse_request_line-some p l r n = ground (arith, n)

    pub parse_request_line-Extends :
        (p : RequestParser)
        → p.fields.state_ ≡ request_line
        → Fresh p.fields
        → Extends x request_line
            (parse_request_line is_ipv6)
            (parse_request_line is_ipv6 p)
            (parse_request_line is_ipv6 (extend x p))
    parse_request_line-Extends p e h = elim (Option-cases (split_line p.buffer_)) [
      | inl n ↦
          along request_line (parse_request_line is_ipv6) (parse_request_line-none p n) refl
            (waits-Extends request_line (parse_request_line is_ipv6) p refl e)
      | inr ((l, r), n) ↦
          along request_line (parse_request_line is_ipv6) (parse_request_line-some p l r n)
            (parse_request_line-some (extend x p) l (r ++ x) (split_line-append p.buffer_ x l r n))
            (consume_if-Extends request_line (parse_request_line is_ipv6)
              (request_line_fields is_ipv6 l p.fields) r p.buffer_
              (request_line_fields-Kept is_ipv6 l p.fields h))
    ]

  refused_line :
      (f : Fields) (r b : List ℕ)
      → ◌≡◌ {A = Bool × RequestParser} (true, (consume_if (false, f) r b).1) (true, at b f)
  unfolding consume_if
  refused_line f r b = refl

  found_line :
      (s : ParseState) (f : RequestParser → Bool × RequestParser) (left : Bool × Fields)
      → (r b : List ℕ)
      → Extends x s f (true, (consume_if left r b).1) (true, (consume_if left (r ++ x) (b ++ x)).1)
  unfolding consume_if
  found_line s f (true, g) r b = refl
  found_line s f (false, g) r b = refl

  -- The error of a line that is too long, in a function that returns it with `b`.
  module _ (line_fields : List ℕ → Fields → Bool × Fields) (long : HttpError) where
    parse_line-none :
        (p : RequestParser)
        → split_line p.buffer_ ≡ none
        → ltb p.fields.max_header_size_ (buffered_line_size p.buffer_) ≡ true
        → parse_line line_fields long p ≡ (true, at p.buffer_ (set_error long p.fields))
    unfolding parse_line
    parse_line-none p n q = ground (arith, n, q)

    parse_line-some :
        (p : RequestParser) (l r : List ℕ)
        → split_line p.buffer_ ≡ some (l, r)
        → parse_line line_fields long p
          ≡ (true, (consume_if (line_fields l p.fields) r p.buffer_).1)
    unfolding parse_line
    parse_line-some p l r e = ground (arith, e)

    -- Every whole line that is too long is refused with the same error.
    abbrev RefusesLong : Fields → Type 0
    RefusesLong f =
        (l : List ℕ) → f.max_header_size_ < length l → line_fields l f ≡ (false, set_error long f)

    parse_line_long :
        (p : RequestParser)
        → RefusesLong p.fields
        → split_line p.buffer_ ≡ none
        → ltb p.fields.max_header_size_ (buffered_line_size p.buffer_) ≡ true
        → parse_line line_fields long (extend x p)
          ≡ (true, at (p.buffer_ ++ x) (set_error long p.fields))
    parse_line_long p k n q = elim (Option-cases (split_line (p.buffer_ ++ x))) [
      | inl m ↦
          parse_line-none (extend x p) m (ground (arith, q, buffered_line_size-append p.buffer_ x))
      | inr ((l, r), m) ↦
          parse_line-some (extend x p) l r m
          ∙ ap (λ left. (true, (consume_if left r (p.buffer_ ++ x)).1))
              (k l (ground (arith, q, buffered_line_size-le p.buffer_ x l r n m)))
          ∙ refused_line (set_error long p.fields) r (p.buffer_ ++ x)
    ]

    parse_line-waits :
        (p : RequestParser)
        → split_line p.buffer_ ≡ none
        → ltb p.fields.max_header_size_ (buffered_line_size p.buffer_) ≡ false
        → parse_line line_fields long p ≡ (false, p)
    unfolding parse_line
    parse_line-waits p n q = ground (arith, n, q)

    pub parse_line-Extends :
        (s : ParseState) (p : RequestParser)
        → is_error s ≡ false
        → p.fields.state_ ≡ s
        → RefusesLong p.fields
        → Extends x s
            (parse_line line_fields long)
            (parse_line line_fields long p)
            (parse_line line_fields long (extend x p))
    parse_line-Extends s p e h k = elim (Option-cases (split_line p.buffer_)) [
      | inl n ↦ elim (Bool-cases (ltb p.fields.max_header_size_ (buffered_line_size p.buffer_))) [
        | inl q ↦ along s f (parse_line-none p n q) (parse_line_long p k n q) refl
        | inr q ↦ along s f (parse_line-waits p n q) refl (waits-Extends s f p e h)
      ]
      | inr ((l, r), n) ↦
          along s f (parse_line-some p l r n)
            (parse_line-some (extend x p) l (r ++ x) (split_line-append p.buffer_ x l r n))
            (found_line s f (line_fields l p.fields) r p.buffer_)
    ]
      where
        f : RequestParser → Bool × RequestParser
        f = parse_line line_fields long

  pub size_fields_long :
      (l : List ℕ) (f : Fields)
      → f.max_header_size_ < length l
      → size_fields l f ≡ (false, set_error chunk_line_too_long f)
  unfolding size_fields
  size_fields_long l f h = ground (arith, h)

  pub trailer_fields_long :
      (l : List ℕ) (f : Fields)
      → f.max_header_size_ < length l
      → trailer_fields l f ≡ (false, set_error trailer_line_too_long f)
  unfolding trailer_fields
  trailer_fields_long [] f h = absurd (omega (arith, h))
  trailer_fields_long (c ∷ cs) f h = ground (arith, h)
