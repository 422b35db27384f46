-- ===== src/Http/Parser/Response/Decode.antt =====
-- The class response_decoder: decode and finish_eof; and the class response_parser.
use elio.Prelude.{
  ℕ, ◌+◌, ◌-◌, ◌*◌, Bool, true, false, not, ◌&&◌, List, [], ◌∷◌, ◌++◌, Option, none, some, length,
  take, drop, min, leb, ◌==◌, if◌then◌else◌,
}
use elio.Prelude.Loop.{Pass, again, leave, iterate}
use elio.Http.Targets.{Method}
use elio.Http.Parser.Errors.{
  HttpError, missing_crlf, header_line_too_long, chunk_line_too_long, trailer_line_too_long,
  status_line_too_long, invalid_line_ending, closed_before_complete,
}
use elio.Http.Parser.Request.Parse.{ParseResult, need_more, completed, failed}
use elio.Http.Parser.Response.{
  DecoderState, status_line, headers, fixed_body, close_body, chunk_size, chunk_body, chunk_cr,
  chunk_lf, trailers, complete, error, Decoder, reset_decoder, fail, fail_limit, process_line,
}

pub data ResponseEvent : Type 0 where
  more_needed headers_done body_part message_done protocol_handoff decode_error : ResponseEvent

pub record DecodeResult : Type 0 where
  pub event : ResponseEvent
  pub consumed : ℕ
  pub body : List ℕ

abbrev pub is_ended : DecoderState → Bool
is_ended complete = true
is_ended error = true
is_ended _ = false

abbrev pub in_body : DecoderState → Bool
in_body fixed_body = true
in_body close_body = true
in_body chunk_body = true
in_body _ = false

abbrev pub in_crlf : DecoderState → Bool
in_crlf chunk_cr = true
in_crlf chunk_lf = true
in_crlf _ = false

abbrev pub plain_event : ResponseEvent → ℕ → DecodeResult
plain_event e used = record { event = e; consumed = used; body = [] }

-- What is returned when there is nothing to decode: at the end of the message, or of the input.
unfoldable pub event_in : DecoderState → Bool → ResponseEvent
event_in error handoff = decode_error
event_in complete handoff = if handoff then protocol_handoff else message_done
event_in _ handoff = more_needed

unfoldable pub ended_event : ℕ → Decoder → DecodeResult
ended_event used d = plain_event (event_in d.state_ d.handoff_) used

unfoldable pub after_body : DecoderState → DecoderState
after_body fixed_body = complete
after_body _ = chunk_cr

-- The decoder behind `count` bytes of a body.
unfoldable pub counted : ℕ → Decoder → Decoder
counted count d = elim d.state_ [
  | close_body ↦ d
  | _ ↦ record d {
    remaining_ = d.remaining_ - count;
    state_ = if d.remaining_ - count == 0 then after_body d.state_ else d.state_;
  }
]

unfoldable pub body_count : ℕ → Decoder → ℕ
body_count size d = elim d.state_ [ close_body ↦ size | _ ↦ min d.remaining_ size ]

-- A byte of the CRLF behind a chunk; none: it is another one.
unfoldable pub crlf_byte : ℕ → Decoder → Option Decoder
crlf_byte c d = elim d.state_ [
  | chunk_cr ↦ if not (c == b'\r') then none else some (record d { state_ = chunk_lf })
  | _ ↦ if not (c == b'\n') then none else some (record d { state_ = chunk_size })
]

unfoldable pub too_long : DecoderState → HttpError
too_long status_line = status_line_too_long
too_long chunk_size = chunk_line_too_long
too_long trailers = trailer_line_too_long
too_long _ = header_line_too_long

-- The line without the carriage return at its end; none: there is none.
unfoldable pub without_cr : List ℕ → Option (List ℕ)
without_cr [] = none
without_cr (c ∷ []) = if c == b'\r' then some [] else none
without_cr (c ∷ d ∷ cs) = elim (without_cr (d ∷ cs)) [ none ↦ none | some line ↦ some (c ∷ line) ]

abbrev pub is_headers : DecoderState → Bool
is_headers headers = true
is_headers _ = false

abbrev pub has_error : Decoder → Bool
has_error d = elim d.state_ [ error ↦ true | _ ↦ false ]

-- A line that is whole. True: it ends the headers.
unfoldable pub line_end : List ℕ → Decoder → Bool × Decoder
line_end line d =
    let done = record (process_line line d) { line_ = [] } in
    if has_error done
    then (false, done)
    else if is_headers d.state_ && (length line == 0)
    then (true, record done { headers_complete_ = true })
    else (false, done)

-- A byte of a framing line.
unfoldable pub line_byte : ℕ → Decoder → Bool × Decoder
line_byte c d = elim (without_cr d.line_) [
  | some line ↦ if not (c == b'\n') then (false, fail invalid_line_ending d) else line_end line d
  | none ↦
      if c == b'\n'
      then (false, fail invalid_line_ending d)
      else if not (c == b'\r') && leb d.max_header_size_ (length d.line_)
      then (false, fail_limit (too_long d.state_) d)
      else (false, record d { line_ = d.line_ ++ (c ∷ []) })
]

unfoldable pub decode_from : ℕ → List ℕ → Decoder → DecodeResult × Decoder
decode_from used [] d = (ended_event used d, d)
decode_from used (c ∷ cs) d =
    let (boundary, after_line) = line_byte c d in
    let rest = decode_from (used + 1) cs after_line in
    let behind = λ (d' : Decoder). decode_from (used + 1) cs d' in
    if is_ended d.state_
    then (ended_event used d, d)
    else if in_body d.state_
    then (let count = body_count (length (c ∷ cs)) d in
        (
          record { event = body_part; consumed = used + count; body = take count (c ∷ cs) },
          counted count d,
        ))
    else if in_crlf d.state_
    then elim (crlf_byte c d) [
      | none ↦ (ended_event used (fail missing_crlf d), fail missing_crlf d)
      | some d' ↦ behind d'
    ]
    else if boundary
    then (plain_event headers_done (used + 1), after_line)
    else rest

unfoldable pub decode : List ℕ → Decoder → DecodeResult × Decoder
decode input d = decode_from 0 input d

-- The decoder when the connection has ended.
unfoldable pub closed : DecoderState → Decoder → Decoder
closed close_body d = record d { state_ = complete }
closed complete d = d
closed error d = d
closed _ d = fail closed_before_complete d

unfoldable pub finish_eof : Decoder → DecodeResult × Decoder
finish_eof d = decode [] (closed d.state_ d)

pub record ResponseParser : Type 0 where
  pub decoder_ : Decoder
  pub body_ : List ℕ
  pub buffer_ : List ℕ

unfoldable pub reset_response : ResponseParser → ResponseParser
reset_response p = record {
  decoder_ = reset_decoder p.decoder_;
  body_ = [];
  buffer_ = p.decoder_.line_ ++ p.buffer_;
}

unfoldable pub set_request_method : Method → ResponseParser → ResponseParser
set_request_method m p = record p { decoder_ = record p.decoder_ { request_method_ = some m } }

unfoldable pub take_remaining_response : ResponseParser → List ℕ × ResponseParser
take_remaining_response p = (
  p.decoder_.line_ ++ p.buffer_,
  record p { decoder_ = record p.decoder_ { line_ = [] }; buffer_ = [] },
)

unfoldable pub goes_on : ResponseEvent → Bool
goes_on body_part = true
goes_on headers_done = true
goes_on _ = false

-- A round of the loop of response_parser::parse: the decoder, the body and the offset.
unfoldable pub decode_round :
    List ℕ → Decoder × List ℕ × ℕ → Pass (Decoder × List ℕ × ℕ) (Decoder × List ℕ × ℕ)
decode_round buffer (d, content, offset) =
    let (r, d') = decode (drop offset buffer) d in
    let next : Decoder × List ℕ × ℕ = (d', content ++ r.body, offset + r.consumed) in
    if goes_on r.event then again next else leave next

unfoldable pub result_kind : DecoderState → ParseResult
result_kind error = failed
result_kind complete = completed
result_kind _ = need_more

pub record ResponseReturn : Type 0 where
  pub result : ParseResult
  pub retired : ℕ
  pub parser : ResponseParser

-- Every round that goes on consumes a byte, so that the fuel is enough.
unfoldable pub parse_response_bytes : List ℕ → ResponseParser → Option ResponseReturn
parse_response_bytes input p =
    let buffer = p.buffer_ ++ input in
    elim (iterate (2 * length buffer + 2) (decode_round buffer) (p.decoder_, p.body_, 0)) [
      | none ↦ none
      | some (d, content, offset) ↦ some (record {
        result = result_kind d.state_;
        retired = length p.decoder_.line_ + offset - length d.line_;
        parser = record { decoder_ = d; body_ = content; buffer_ = drop offset buffer };
      })
    ]

unfoldable pub finish_response : ResponseParser → ParseResult × ResponseParser
finish_response p =
    let d = (finish_eof p.decoder_).1 in (result_kind d.state_, record p { decoder_ = d })
