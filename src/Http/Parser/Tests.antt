-- ===== src/Http/Parser/Tests.antt =====
-- The parsers on concrete messages, and instances of their theorems.
use elio.Prelude.{
  ℕ, ◌+◌, ◌≤◌, ◌≡◌, refl, ◌⊎◌, Bool, true, false, ◌&&◌, List, [], ◌∷◌, ◌++◌, none, some, length,
  codes, if◌then◌else◌,
}
use elio.Prelude.Loop.{iterate}
use elio.Http.Text.{
  trim_ows, trim_front, trim_back, tolower, ascii_iequals, is_tchar, all_tchar, is_valid_token,
  is_valid_header_name, is_valid_header_value,
}
use elio.Http.Headers.{
  new_headers, done, add, add_checked, checked, find, get, get_all, contains, content_length,
  unsigned_number, whole_number, read_digits, content_length_name, same_text,
}
use elio.Http.Headers.Coding.{is_chunked, transfer_encoding_name}
use elio.Http.Targets.{
  string_to_method, is_connect, has_request_target_forbidden_char, is_valid_request_target,
  split_at, is_valid_http_version, starts_with, is_version_numbers,
}
use elio.Http.Parser.Errors.{HttpError}
use elio.Http.Parser.Lines.{split_line}
use elio.Http.Parser.Chunks.{parse_chunk_size_line, max_chunk_size}
use elio.Http.Parser.Chunks.Size.{hex_value, parse_chunk_size_line-hex_value}
use elio.Http.Parser.Request.{
  RequestParser, new_request_parser, complete, has_control, split_query, take_version, take_target,
  request_line_fields, body_framing, host_and_body, end_of_headers, field_error, add_field,
  header_fields, declared_content_length,
}
use elio.Http.Parser.Request.Parse.{
  parse, Return, completed, result_of, consume_if, line_round, header_round, parse_headers,
  parse_body, checked_turn, unchecked_turn, parse_request_line, turn_in, turn, after_turn,
  parse_round,
}
use elio.Http.Parser.Response.{
  DecoderState, Decoder, reset_decoder, process_status_line, take_status, status_number,
}
use elio.Http.Parser.Response.Decode.{
  ResponseParser, ResponseReturn, parse_response_bytes, result_kind,
}
use elio.Http.Parser.Response.Bytes.{run_bytes}
use elio.Http.Parser.Response.Reached.{
  created, held, parse_response_bytes-run_bytes, parse_response_in_parts,
}
use elio.Http.Parser.Request.Adding.{add_field-add}
use elio.Http.Parser.Request.Reached.{fresh, parsed, parse_in_parts, parse-result, complete_request}

abbrev no_ipv6 : List ℕ → Bool
no_ipv6 s = false

abbrev crlf : List ℕ
crlf = 13 ∷ 10 ∷ []

abbrev first_part : List ℕ
first_part = codes "POST /a?b HTTP/1.1" ++ crlf ++ codes "Host: x" ++ crlf ++ codes "Content-Le"

abbrev second_part : List ℕ
second_part = codes "ngth: 3" ++ crlf ++ crlf ++ codes "abcGET"

abbrev new_parser : RequestParser
new_parser = new_request_parser 100 8192

-- The parser that both parts leave.
abbrev left : RequestParser
left = elim (parse no_ipv6 (first_part ++ second_part) new_parser) [
  | none ↦ new_parser
  | some r ↦ r.parser
]

abbrev both_parts : Return
both_parts = record { result = completed; consumed = 53; parser = left }

both_parts_parsed : parse no_ipv6 (first_part ++ second_part) new_parser ≡ some both_parts
unfolding parse iterate parse_round after_turn turn turn_in checked_turn unchecked_turn
    parse_request_line parse_headers parse_body header_round line_round consume_if
    request_line_fields take_target take_version split_query has_control is_valid_request_target
    has_request_target_forbidden_char string_to_method split_at split_line is_connect
    is_valid_http_version starts_with is_version_numbers end_of_headers host_and_body body_framing
    header_fields field_error add_field add add_checked checked find get get_all contains
    content_length unsigned_number whole_number read_digits is_valid_header_name
    is_valid_header_value trim_ows trim_front trim_back ascii_iequals tolower same_text new_headers
    new_request_parser is_tchar all_tchar is_valid_token result_of
both_parts_parsed = refl

left_is_complete : left.fields.state_ ≡ complete
unfolding parse iterate parse_round after_turn turn turn_in checked_turn unchecked_turn
    parse_request_line parse_headers parse_body header_round line_round consume_if
    request_line_fields take_target take_version split_query has_control is_valid_request_target
    has_request_target_forbidden_char string_to_method split_at split_line is_connect
    is_valid_http_version starts_with is_version_numbers end_of_headers host_and_body body_framing
    header_fields field_error add_field add add_checked checked find get get_all contains
    content_length unsigned_number whole_number read_digits is_valid_header_name
    is_valid_header_value trim_ows trim_front trim_back ascii_iequals tolower same_text new_headers
    new_request_parser is_tchar all_tchar is_valid_token result_of
left_is_complete = refl

parse_in_parts_example :
    (r : Return) × (s : Return) × (parse no_ipv6 first_part new_parser ≡ some r)
    × (parse no_ipv6 second_part r.parser ≡ some s)
    × (parse no_ipv6 (first_part ++ second_part) new_parser
        ≡ some (record s { consumed = r.consumed + s.consumed }))
parse_in_parts_example = parse_in_parts no_ipv6 first_part second_part (fresh 100 8192)

parse-result_example : both_parts.result ≡ result_of both_parts.parser.fields.state_
parse-result_example =
    parse-result no_ipv6 (first_part ++ second_part) (fresh 100 8192) both_parts_parsed

complete_request_example :
    (contains transfer_encoding_name left.fields.headers_
        && contains content_length_name left.fields.headers_
      ≡ false)
    × ((same_text left.fields.version_ (codes "HTTP/1.1") ≡ false)
        ⊎ (length (get_all (codes "Host") left.fields.headers_) ≡ 1))
    × ((is_chunked left.fields.headers_ ≡ true)
        ⊎ (contains transfer_encoding_name left.fields.headers_ ≡ false)
          × (declared_content_length left ≡ some (length left.fields.body_))
          × (if contains content_length_name left.fields.headers_
              then content_length left.fields.headers_ ≡ some (length left.fields.body_)
              else length left.fields.body_ ≡ 0))
complete_request_example =
    complete_request no_ipv6 (parsed (first_part ++ second_part) (fresh 100 8192) both_parts_parsed)
      left_is_complete

parse_chunk_size_line-hex_value_example :
    (((parse_chunk_size_line (codes "1aF;x")).1 ≡ none)
      × ((parse_chunk_size_line (codes "1aF;x")).0 ≡ hex_value 0 (codes "1aF;x"))
      × (hex_value 0 (codes "1aF;x") ≤ max_chunk_size))
    ⊎ ((m : HttpError) × ((parse_chunk_size_line (codes "1aF;x")).1 ≡ some m))
parse_chunk_size_line-hex_value_example = parse_chunk_size_line-hex_value (codes "1aF;x")

-- A second Content-Length with the value of the first
again_accepted : field_error (codes "content-length") (trim_ows (codes " 3 ")) left.fields ≡ none
unfolding parse iterate parse_round after_turn turn turn_in checked_turn unchecked_turn
    parse_request_line parse_headers parse_body header_round line_round consume_if
    request_line_fields take_target take_version split_query has_control is_valid_request_target
    has_request_target_forbidden_char string_to_method split_at split_line is_connect
    is_valid_http_version starts_with is_version_numbers end_of_headers host_and_body body_framing
    header_fields field_error add_field add add_checked checked find get get_all contains
    content_length unsigned_number whole_number read_digits is_valid_header_name
    is_valid_header_value trim_ows trim_front trim_back ascii_iequals tolower same_text new_headers
    new_request_parser is_tchar all_tchar is_valid_token result_of
again_accepted = refl

add_field-add_example :
    add (codes "content-length") (trim_ows (codes " 3 ")) left.fields.headers_
    ≡ done (add_field (codes "content-length") (trim_ows (codes " 3 ")) left.fields).headers_
add_field-add_example =
    add_field-add (codes "content-length") (codes " 3 ") left.fields again_accepted

abbrev old_decoder : Decoder
old_decoder = record {
  state_ = DecoderState.error;
  status_ = 404;
  version_ = [];
  reason_ = [];
  headers_ = new_headers;
  line_ = [];
  error_message_ = none;
  request_method_ = none;
  remaining_ = 0;
  max_headers_ = 100;
  max_header_size_ = 8192;
  header_count_ = 0;
  headers_complete_ = false;
  close_delimited_ = false;
  handoff_ = false;
  limit_exceeded_ = false;
}

abbrev new_response : ResponseParser
new_response = record { decoder_ = reset_decoder old_decoder; body_ = []; buffer_ = [] }

abbrev response_head : List ℕ
response_head =
    codes "HTTP/1.1 200 OK" ++ crlf ++ codes "Transfer-Encoding: chunked" ++ crlf ++ (13 ∷ [])

abbrev response_tail : List ℕ
response_tail =
    (10 ∷ codes "3") ++ crlf ++ codes "abc" ++ crlf ++ codes "0" ++ crlf ++ crlf ++ codes "HTTP"

parse_response_bytes-run_bytes_example :
    (r : ResponseReturn) × (parse_response_bytes response_head new_response ≡ some r)
    × (held r.parser ≡ run_bytes ([] ++ response_head) (reset_decoder old_decoder) [])
    × (r.result ≡ result_kind r.parser.decoder_.state_)
parse_response_bytes-run_bytes_example =
    parse_response_bytes-run_bytes response_head (created old_decoder)

parse_response_in_parts_example :
    (r : ResponseReturn) × (s : ResponseReturn) × (t : ResponseReturn) × (parse_response_bytes
        response_head new_response
      ≡ some r)
    × (parse_response_bytes response_tail r.parser ≡ some s)
    × (parse_response_bytes (response_head ++ response_tail) new_response ≡ some t)
    × (t.parser ≡ s.parser)
    × (t.result ≡ s.result)
parse_response_in_parts_example =
    parse_response_in_parts response_head response_tail (created old_decoder)

-- A status line without a version is accepted.
no_version_accepted :
    (process_status_line (codes " 200 OK") old_decoder).state_ ≡ DecoderState.headers
unfolding process_status_line take_status status_number split_at is_valid_http_version read_digits
no_version_accepted = refl
