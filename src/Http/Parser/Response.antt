-- ===== src/Http/Parser/Response.antt =====
-- The class response_decoder: its members, and what it does with a whole framing line. A status is
-- its code, a uint16_t.
pub mod Decode
pub mod Counted
pub mod Bytes
pub mod Adding
pub mod Events
pub mod Rounds
pub mod Rest
pub mod Reached
use elio.Prelude.{
  ℕ, ◌+◌, Bool, true, false, not, ◌&&◌, ◌||◌, List, [], ◌∷◌, Option, none, some, length, leb, ltb,
  ◌==◌, if◌then◌else◌, codes,
}
use elio.Http.Text.{trim_ows, ascii_iequals, is_valid_header_name, is_valid_header_value}
use elio.Http.Headers.{
  Headers, Outcome, done, throws, new_headers, get, contains, add, set, content_length, same_text,
  content_length_name, read_digits, is_digit,
}
use elio.Http.Headers.Coding.{transfer_encoding_name}
use elio.Http.Targets.{Method, head_method, is_connect, split_at, is_valid_http_version}
use elio.Http.Parser.Errors.{
  HttpError, invalid_status_line, invalid_version, invalid_status_code, too_many_headers,
  invalid_trailer, invalid_header_line, invalid_header_name, invalid_header_value,
  conflicting_lengths, encoding_and_length, unsupported_encoding, invalid_length,
}
use elio.Http.Parser.Chunks.{parse_chunk_size_line, validate_chunk_trailer_line}

pub data DecoderState : Type 0 where
  status_line headers fixed_body close_body chunk_size chunk_body chunk_cr chunk_lf trailers
        complete error :
      DecoderState

pub record Decoder : Type 0 where
  pub state_ : DecoderState
  pub status_ : ℕ
  pub version_ : List ℕ
  pub reason_ : List ℕ
  pub headers_ : Headers
  pub line_ : List ℕ
  pub error_message_ : Option HttpError
  pub request_method_ : Option Method
  pub remaining_ : ℕ
  pub max_headers_ : ℕ
  pub max_header_size_ : ℕ
  pub header_count_ : ℕ
  pub headers_complete_ : Bool
  pub close_delimited_ : Bool
  pub handoff_ : Bool
  pub limit_exceeded_ : Bool

-- `reset` leaves the limits.
unfoldable pub reset_decoder : Decoder → Decoder
reset_decoder d = record {
  state_ = status_line;
  status_ = 200;
  version_ = [];
  reason_ = [];
  headers_ = new_headers;
  line_ = [];
  error_message_ = none;
  request_method_ = none;
  remaining_ = 0;
  max_headers_ = d.max_headers_;
  max_header_size_ = d.max_header_size_;
  header_count_ = 0;
  headers_complete_ = false;
  close_delimited_ = false;
  handoff_ = false;
  limit_exceeded_ = false;
}

unfoldable pub fail : HttpError → Decoder → Decoder
fail message d = record d { error_message_ = some message; state_ = error }

unfoldable pub fail_limit : HttpError → Decoder → Decoder
fail_limit message d = fail message (record d { limit_exceeded_ = true })

-- std::from_chars of three characters into a uint16_t
unfoldable pub status_number : List ℕ → Option ℕ
status_number (a ∷ b ∷ c ∷ []) =
    if is_digit a && (is_digit b && is_digit c)
    then some (read_digits 0 (a ∷ b ∷ c ∷ [])).0
    else none
status_number _ = none

-- The status code with the reason behind it, if there is one.
unfoldable pub take_status : List ℕ → Option (List ℕ) → Decoder → Decoder
take_status code reason d = elim (status_number code) [
  | none ↦ fail invalid_status_code d
  | some number ↦ elim reason [
    | none ↦ record d { status_ = number; state_ = headers }
    | some text ↦ record d { status_ = number; reason_ = text; state_ = headers }
  ]
]

unfoldable pub process_status_line : List ℕ → Decoder → Decoder
process_status_line line d = elim (split_at b' ' line) [
  | none ↦ fail invalid_status_line d
  | some (version, rest) ↦
      if not (is_valid_http_version version)
      then fail invalid_version d
      else elim (split_at b' ' rest) [
        | none ↦ take_status rest none (record d { version_ = version })
        | some (code, reason) ↦ take_status code (some reason) (record d { version_ = version })
      ]
]

unfoldable pub process_chunk_size : List ℕ → Decoder → Decoder
process_chunk_size line d =
    let (n, wrong) = parse_chunk_size_line line in
    elim wrong [
      | some message ↦ fail message (record d { remaining_ = n })
      | none ↦ record d { remaining_ = n; state_ = if n == 0 then trailers else chunk_body }
    ]

unfoldable pub process_trailer : List ℕ → Decoder → Decoder
process_trailer [] d = record d { state_ = complete }
process_trailer (c ∷ cs) d =
    if leb d.max_headers_ d.header_count_
    then fail_limit too_many_headers d
    else if not (validate_chunk_trailer_line (c ∷ cs))
    then fail invalid_trailer d
    else record d { header_count_ = d.header_count_ + 1 }

abbrev pub is_success : ℕ → Bool
is_success code = leb 200 code && ltb code 300

unfoldable pub for_connect : Option Method → Bool
for_connect none = false
for_connect (some m) = is_connect m

unfoldable pub for_head : Option Method → Bool
for_head (some head_method) = true
for_head _ = false

unfoldable pub status_forbids_response_body : ℕ → Bool
status_forbids_response_body code =
    (leb 100 code && ltb code 200) || (code == 204) || (code == 205) || (code == 304)

unfoldable pub select_body : Decoder → Decoder
select_body d =
    let has_te = contains transfer_encoding_name d.headers_ in
    let has_cl = contains content_length_name d.headers_ in
    if has_te && has_cl
    then fail encoding_and_length d
    else if has_te
    then (if not
          (ascii_iequals (trim_ows (get transfer_encoding_name d.headers_)) (codes "chunked"))
        then fail unsupported_encoding d
        else record d { state_ = chunk_size })
    else if has_cl
    then elim (content_length d.headers_) [
      | none ↦ fail invalid_length d
      | some n ↦ record d { remaining_ = n; state_ = if n == 0 then complete else fixed_body }
    ]
    else record d { close_delimited_ = true; state_ = close_body }

unfoldable pub select_framing : Decoder → Decoder
select_framing d =
    let handoff = (d.status_ == 101) || (for_connect d.request_method_ && is_success d.status_) in
    if handoff || for_head d.request_method_ || status_forbids_response_body d.status_
    then record d { handoff_ = handoff; state_ = complete }
    else select_body (record d { handoff_ = handoff })

-- A Content-Length that a successful CONNECT ignores.
unfoldable pub is_tunnel_length : List ℕ → Decoder → Bool
is_tunnel_length name d =
    for_connect d.request_method_ && is_success d.status_ && ascii_iequals name content_length_name

-- The first check of a field line that fails.
unfoldable pub response_field_error : List ℕ → List ℕ → Decoder → Option HttpError
response_field_error name value d =
    if not (is_valid_header_name name)
    then some invalid_header_name
    else if not (is_valid_header_value value)
    then some invalid_header_value
    else if not (is_tunnel_length name d)
        && (ascii_iequals name content_length_name
            && (contains content_length_name d.headers_
                && not (same_text (trim_ows (get content_length_name d.headers_)) value)))
    then some conflicting_lengths
    else none

-- `set` and `add` do not throw behind those checks.
unfoldable pub add_response_field : List ℕ → List ℕ → Decoder → Decoder
add_response_field name value d = record d {
  header_count_ = d.header_count_ + 1;
  headers_ =
      elim (if is_tunnel_length name d
        then set name value d.headers_
        else add name value d.headers_) [ done h ↦ h | throws e ↦ d.headers_ ];
}

unfoldable pub process_field : List ℕ → Decoder → Decoder
process_field line d = elim (split_at b':' line) [
  | none ↦ fail invalid_header_line d
  | some (name, behind) ↦ elim (response_field_error name (trim_ows behind) d) [
    | some message ↦ fail message d
    | none ↦
        if leb d.max_headers_ d.header_count_
        then fail_limit too_many_headers d
        else add_response_field name (trim_ows behind) d
  ]
]

unfoldable pub process_header : List ℕ → Decoder → Decoder
process_header [] d = select_framing d
process_header (c ∷ cs) d = process_field (c ∷ cs) d

unfoldable pub process_line : List ℕ → Decoder → Decoder
process_line line d = elim d.state_ [
  | status_line ↦ process_status_line line d
  | chunk_size ↦ process_chunk_size line d
  | trailers ↦ process_trailer line d
  | _ ↦ process_header line d
]
