-- ===== src/Http/Parser/Request/Parse.antt =====
-- The class request_parser: the functions on buffer_, and the loop of parse.
use elio.Prelude.{
  ℕ, suc, ◌+◌, ◌-◌, Bool, true, false, not, ◌||◌, List, [], ◌∷◌, ◌++◌, Option, none, some, length,
  take, drop, get_or, min, leb, ltb, ◌==◌, if◌then◌else◌,
}
use elio.Prelude.Loop.{Pass, again, leave, iterate}
use elio.Http.Parser.Errors.{
  HttpError, header_line_too_long, too_many_headers, chunk_line_too_long, missing_crlf,
  trailer_line_too_long, invalid_trailer,
}
use elio.Http.Parser.Lines.{split_line, buffered_line_size}
use elio.Http.Parser.Chunks.{parse_chunk_size_line, validate_chunk_trailer_line}
use elio.Http.Parser.Request.{
  ParseState, request_line, headers, body, chunk_size, chunk_data, chunk_trailer, complete, error,
  Fields, RequestParser, set_error, request_line_fields, end_of_headers, header_fields,
}

abbrev pub at : List ℕ → Fields → RequestParser
at buffer f = record { buffer_ = buffer; fields = f }

abbrev pub is_final : ParseState → Bool
is_final complete = true
is_final error = true
is_final _ = false

abbrev pub is_error : ParseState → Bool
is_error error = true
is_error _ = false

-- A line is consumed if it was accepted.
unfoldable pub consume_if : Bool × Fields → List ℕ → List ℕ → Bool × RequestParser
consume_if (true, f) rest buffer = (true, at rest f)
consume_if (false, f) rest buffer = (false, at buffer f)

unfoldable pub line_round :
    Bool × Fields → List ℕ → List ℕ → Pass RequestParser (Bool × RequestParser)
line_round (true, f) rest buffer = again (at rest f)
line_round (false, f) rest buffer = leave (false, at buffer f)

-- A round of the loop of parse_headers.
unfoldable pub header_round : RequestParser → Pass RequestParser (Bool × RequestParser)
header_round p = elim (split_line p.buffer_) [
  | none ↦ leave (
    false,
    if ltb p.fields.max_header_size_ (buffered_line_size p.buffer_)
        then at p.buffer_ (set_error header_line_too_long p.fields)
        else p,
  )
  | some (line, rest) ↦ elim line [
    | [] ↦ let (good, f) = end_of_headers p.fields in leave (good, at rest f)
    | c ∷ cs ↦ line_round (header_fields (c ∷ cs) p.fields) rest p.buffer_
  ]
]

-- Every round consumes a line, so that the fuel does not run out.
unfoldable pub parse_headers : RequestParser → Bool × RequestParser
parse_headers p = elim (iterate (suc (length p.buffer_)) header_round p) [
  | some left ↦ left
  | none ↦ (false, p)
]

unfoldable pub parse_body : RequestParser → Bool × RequestParser
parse_body p =
    let remaining = p.fields.content_length_ - p.fields.body_received_ in
    let available = min remaining (length p.buffer_) in
    let received = p.fields.body_received_ + available in
    let f = record p.fields {
      body_ = p.fields.body_ ++ take available p.buffer_;
      body_received_ = received;
    } in
    let rest = drop available p.buffer_ in
    if leb p.fields.content_length_ received
    then (true, at rest (record f { state_ = complete }))
    else (false, at rest f)

-- A chunk size line that was found, and whether it is accepted.
unfoldable pub size_fields : List ℕ → Fields → Bool × Fields
size_fields line f =
    if ltb f.max_header_size_ (length line)
    then (false, set_error chunk_line_too_long f)
    else let (n, wrong) = parse_chunk_size_line line in
      elim wrong [
        | some message ↦ (false, set_error message (record f { chunk_size_ = n }))
        | none ↦ (
          true,
          record f { chunk_size_ = n; state_ = if n == 0 then chunk_trailer else chunk_data },
        )
      ]

unfoldable pub trailer_fields : List ℕ → Fields → Bool × Fields
trailer_fields [] f = (true, record f { state_ = complete })
trailer_fields (c ∷ cs) f =
    if ltb f.max_header_size_ (length (c ∷ cs))
    then (false, set_error trailer_line_too_long f)
    else if leb f.max_headers_ f.header_count_
    then (false, set_error too_many_headers f)
    else if not (validate_chunk_trailer_line (c ∷ cs))
    then (false, set_error invalid_trailer f)
    else (true, record f { header_count_ = f.header_count_ + 1 })

-- parse_chunk_size and parse_chunk_trailer, which return true on an error too. The error for a line
-- that is too long is `long`.
unfoldable pub parse_line :
    (List ℕ → Fields → Bool × Fields) → HttpError → RequestParser → Bool × RequestParser
parse_line line_fields long p = elim (split_line p.buffer_) [
  | none ↦
      if ltb p.fields.max_header_size_ (buffered_line_size p.buffer_)
      then (true, at p.buffer_ (set_error long p.fields))
      else (false, p)
  | some (line, rest) ↦ (true, (consume_if (line_fields line p.fields) rest p.buffer_).1)
]

unfoldable pub parse_chunk_size : RequestParser → Bool × RequestParser
parse_chunk_size p = parse_line size_fields chunk_line_too_long p

unfoldable pub parse_chunk_trailer : RequestParser → Bool × RequestParser
parse_chunk_trailer p = parse_line trailer_fields trailer_line_too_long p

unfoldable pub parse_chunk_data : RequestParser → Bool × RequestParser
parse_chunk_data p =
    let n = p.fields.chunk_size_ in
    if ltb (length p.buffer_) (n + 2)
    then (false, p)
    else if not (get_or p.buffer_ n 0 == b'\r') || not (get_or p.buffer_ (n + 1) 0 == b'\n')
    then (true, at p.buffer_ (set_error missing_crlf p.fields))
    else (
      true,
      at (drop (n + 2) p.buffer_)
          (record p.fields { body_ = p.fields.body_ ++ take n p.buffer_; state_ = chunk_size }),
    )

pub data ParseResult : Type 0 where
  need_more completed failed : ParseResult

-- What a case of the switch does: `break`, or a return from parse.
pub data Turn : Type 0 where
  breaks : RequestParser → Turn
  returns : ParseResult → RequestParser → Turn

unfoldable pub checked_turn : Bool × RequestParser → Turn
checked_turn (true, q) = breaks q
checked_turn (false, q) = if is_error q.fields.state_ then returns failed q else returns need_more q

unfoldable pub unchecked_turn : Bool × RequestParser → Turn
unchecked_turn (true, q) = breaks q
unchecked_turn (false, q) = returns need_more q

pub record Return : Type 0 where
  pub result : ParseResult
  pub consumed : ℕ
  pub parser : RequestParser

-- Behind the loop.
unfoldable pub result_of : ParseState → ParseResult
result_of error = failed
result_of complete = completed
result_of _ = need_more

unfoldable pub after_turn : ℕ → RequestParser → Turn → Pass (ℕ × RequestParser) Return
after_turn consumed p (breaks q) = again (consumed + (length p.buffer_ - length q.buffer_), q)
after_turn consumed p (returns r q) =
    leave (record {
      result = r;
      consumed = consumed + (length p.buffer_ - length q.buffer_);
      parser = q;
    })

module _ (is_ipv6 : List ℕ → Bool) where
  unfoldable pub parse_request_line : RequestParser → Bool × RequestParser
  parse_request_line p = elim (split_line p.buffer_) [
    | none ↦ (false, p)
    | some (line, rest) ↦ consume_if (request_line_fields is_ipv6 line p.fields) rest p.buffer_
  ]

  unfoldable pub turn_in : ParseState → RequestParser → Turn
  turn_in request_line p = checked_turn (parse_request_line p)
  turn_in headers p = checked_turn (parse_headers p)
  turn_in body p = unchecked_turn (parse_body p)
  turn_in chunk_size p = unchecked_turn (parse_chunk_size p)
  turn_in chunk_data p = unchecked_turn (parse_chunk_data p)
  turn_in chunk_trailer p = unchecked_turn (parse_chunk_trailer p)
  turn_in _ p = breaks p

  unfoldable pub turn : RequestParser → Turn
  turn p = turn_in p.fields.state_ p

  -- A round of the loop of parse, with what is consumed so far.
  unfoldable pub parse_round : ℕ × RequestParser → Pass (ℕ × RequestParser) Return
  parse_round (consumed, p) =
      if (length p.buffer_ == 0) || is_final p.fields.state_
      then leave (record { result = result_of p.fields.state_; consumed = consumed; parser = p })
      else after_turn consumed p (turn p)

  -- none: the loop has not ended within as many rounds as the buffer has bytes.
  unfoldable pub parse : List ℕ → RequestParser → Option Return
  parse input p =
      let buffer = p.buffer_ ++ input in
      iterate (suc (length buffer)) parse_round (0, at buffer p.fields)
