-- ===== src/Http/WebSocket/Tests.antt =====
-- Runs of the WebSocket model on small inputs, and instances of its theorems.
use elio.Prelude.{
  drop, ◌++◌, ℕ, ◌+◌, ◌≡◌, refl, subst, inl, inr, true, false, List, [], ◌∷◌, length, none, some,
  arith, ◌↔◌,
}
use elio.Http.WebSocket.Opcode.{text, ping, close, of_code, is_control_frame, is_valid_opcode}
use elio.Http.WebSocket.Header.{
  no_key, parse_frame_header, parse_second, on_length, parse_length, finish_header, first_byte,
  length_16,
}
use elio.Http.WebSocket.Mask.{
  Entropy, done, apply_mask, apply_mask_twice, generate_mask_key, done-injective,
}
use elio.Http.WebSocket.Encode.{
  encode_frame, first_byte_of, length_bytes, frame_key, is_zero_key, encode_close_frame,
  encode_simple, simple_header, close_payload, wire_code,
}
use elio.Http.WebSocket.Encode.RoundTrip.{
  header_of, IsKey, GivesKeys, ReadsBack, sent_key, parse-encode_frame,
}
use elio.Http.WebSocket.Utf8.{
  is_valid_utf8, utf8_loop, sequence, sequence_length, continued, is_excluded,
}
use elio.Http.WebSocket.Utf8.Scalars.{IsUtf8, is_valid_utf8_iff}
use elio.Http.WebSocket.Close.{parse_close_payload, is_valid_close_code, no_status}
use elio.Http.WebSocket.Parser.{
  FrameParser, Message, message, control, new_parser, set_role, server, check_role, check_frame,
  check_data, is_continuation, extract_payload, accumulate, deliver, process_frame, take_frame,
  on_checked, on_header, round, next_round, stop, Outcome, consumed, process_buffer, parse,
}
use elio.Http.WebSocket.Parser.Progress.{parse_settles}
use elio.Http.WebSocket.Parser.Chunks.{parse_unless_refused, parse-append}
use elio.Http.WebSocket.Parser.Invariant.{IsValid, IsDelivered, new_parser-IsValid, parse-IsValid}
use elio.Http.WebSocket.Parser.Delivery.{
  after_data, with_control, parse_data_frame, parse_control_frame,
}
use elio.Http.WebSocket.Parser.CloseFrame.{
  CloseRead, parse-encode_close_frame, parse_close_payload_lem,
}
use elio.Http.WebSocket.Queues.Order.{items, NextIs, get_next-items, length-items}

-- The single-frame unmasked "Hello" and the masked one of RFC 6455 §5.7.
abbrev hello : List ℕ
hello = 0x48 ∷ 0x65 ∷ 0x6c ∷ 0x6c ∷ 0x6f ∷ []

abbrev hello_frame : List ℕ
hello_frame = 0x81 ∷ 0x05 ∷ hello

abbrev rfc_key : List ℕ
rfc_key = 0x37 ∷ 0xfa ∷ 0x21 ∷ 0x3d ∷ []

abbrev masked_hello : List ℕ
masked_hello = 0x81 ∷ 0x85 ∷ 0x37 ∷ 0xfa ∷ 0x21 ∷ 0x3d ∷ 0x7f ∷ 0x9f ∷ 0x4d ∷ 0x51 ∷ 0x58 ∷ []

abbrev no_entropy_needed : Entropy
no_entropy_needed = record { getrandom = some rfc_key; urandom = none }

rfc_key-IsKey : IsKey rfc_key
rfc_key-IsKey = omega arith

entropy-GivesKeys : GivesKeys no_entropy_needed
unfolding generate_mask_key
entropy-GivesKeys key h = subst IsKey (done-injective h) rfc_key-IsKey

masked_hello_encodes :
    encode_frame no_entropy_needed (header_of true text true rfc_key 0) hello ≡ done masked_hello
unfolding encode_frame frame_key is_zero_key first_byte_of length_bytes apply_mask is_control_frame
masked_hello_encodes = refl

hello_encodes :
    encode_frame no_entropy_needed (header_of true text false no_key 0) hello ≡ done hello_frame
unfolding encode_frame first_byte_of length_bytes is_control_frame
hello_encodes = refl

-- `parse`, with all that it calls.
run : FrameParser → List ℕ → Outcome × FrameParser
unfolding parse process_buffer next_round round on_header on_checked take_frame process_frame
    deliver accumulate extract_payload check_frame check_data check_role is_continuation new_parser
    parse_frame_header parse_second on_length parse_length finish_header first_byte length_16
    is_control_frame is_valid_opcode of_code is_valid_utf8 utf8_loop sequence sequence_length
    continued is_excluded
run = parse

-- A parser after the first nine bytes waits, and delivers after the others.
hello_in_two_parts :
    (parse
      (parse new_parser (0x81 ∷ 0x05 ∷ 0x48 ∷ [])).1
      (0x65 ∷ 0x6c ∷ 0x6c ∷ 0x6f ∷ [])).1.messages
    ≡ record { type = text; payload = hello; complete = true } ∷ []
unfolding run
hello_in_two_parts = refl

-- A server's parser.
abbrev at_server : FrameParser
at_server = set_role server new_parser

hello_facts :
    (is_control_frame text ≡ false)
    × (check_role at_server.role true ≡ none)
    × (is_continuation text ≡ at_server.has_initial)
unfolding run set_role
hello_facts = (refl, refl, refl)

apply_mask_twice_example : apply_mask (apply_mask hello rfc_key 2) rfc_key 2 ≡ hello
apply_mask_twice_example = apply_mask_twice hello rfc_key 2 (omega arith) (omega arith)

parse-encode_frame_example :
    (k : List ℕ) × (sent_key no_entropy_needed true rfc_key ≡ done k)
    × ReadsBack true text true k hello masked_hello (0x81 ∷ [])
parse-encode_frame_example =
    parse-encode_frame no_entropy_needed true text true rfc_key 0 hello (0x81 ∷ []) masked_hello
      rfc_key-IsKey entropy-GivesKeys (omega arith) (omega arith) masked_hello_encodes

parse-append_example :
    parse new_parser hello_frame
    ≡ parse_unless_refused
        (parse new_parser (0x81 ∷ 0x05 ∷ 0x48 ∷ []))
        (0x65 ∷ 0x6c ∷ 0x6c ∷ 0x6f ∷ [])
parse-append_example =
    parse-append new_parser (0x81 ∷ 0x05 ∷ 0x48 ∷ []) (0x65 ∷ 0x6c ∷ 0x6c ∷ 0x6f ∷ [])

abbrev first_part : List ℕ
first_part = 0x81 ∷ 0x05 ∷ 0x48 ∷ []

-- The parser that holds the first part.
abbrev waiting : FrameParser
waiting = record new_parser { buffer = first_part }

new_parser-stop : next_round new_parser ≡ stop
unfolding next_round new_parser
new_parser-stop = refl

waiting_lem : parse new_parser first_part ≡ (consumed 0, waiting)
unfolding run
waiting_lem = refl

parse_settles_example :
    (next_round waiting ≡ stop)
    × (0 + length waiting.buffer ≡ length new_parser.buffer + 3)
    × (waiting.buffer ≡ drop 0 (new_parser.buffer ++ first_part))
parse_settles_example = parse_settles new_parser waiting first_part 0 new_parser-stop waiting_lem

parse-IsValid_example : IsValid (parse new_parser masked_hello).1
parse-IsValid_example = parse-IsValid new_parser masked_hello new_parser-IsValid

is_valid_utf8_iff_example :
    (is_valid_utf8 (0xE2 ∷ 0x82 ∷ 0xAC ∷ []) ≡ true) ↔ IsUtf8 (0xE2 ∷ 0x82 ∷ 0xAC ∷ [])
is_valid_utf8_iff_example = is_valid_utf8_iff (0xE2 ∷ 0x82 ∷ 0xAC ∷ []) (omega arith)

abbrev hello_message : Message
hello_message = record { type = text; payload = hello; complete = true }

-- A ping and a message wait, the ping for longer.
abbrev loaded : FrameParser
loaded = record new_parser {
  messages = hello_message ∷ [];
  control_frames = (ping, []) ∷ [];
  queued = control ∷ message ∷ [];
}

hello-IsDelivered : IsDelivered loaded.max_message_size hello_message
unfolding new_parser run
hello-IsDelivered = record { whole = refl; within = inr (omega arith); is_text = λ e. refl }

loaded-IsValid : IsValid loaded
unfolding new_parser
loaded-IsValid = record {
  message_count = refl;
  control_count = refl;
  current_within = inr (omega arith);
  between = λ e. refl;
  delivered = (hello-IsDelivered, tt);
}

get_next-items_example : NextIs loaded (items loaded)
get_next-items_example = get_next-items loaded loaded-IsValid

length-items_example : length (items loaded) ≡ 2
length-items_example = length-items loaded loaded-IsValid

-- A client's text in a masked frame, between the fragments of no message.
parse_data_frame_example :
    parse at_server masked_hello
    ≡ (consumed 11, record (after_data at_server true text hello) { buffer = [] })
unfolding new_parser set_role is_continuation
parse_data_frame_example =
    parse_data_frame at_server no_entropy_needed true text true rfc_key 0 hello masked_hello refl
      rfc_key-IsKey entropy-GivesKeys (omega arith) (omega arith) masked_hello_encodes hello_facts.0
      hello_facts.1 hello_facts.2 (inr (omega arith)) (λ e t. hello-IsDelivered.is_text refl)

abbrev ping_frame : List ℕ
ping_frame = 0x89 ∷ 0x80 ∷ 0x37 ∷ 0xfa ∷ 0x21 ∷ 0x3d ∷ []

ping_encodes :
    encode_frame no_entropy_needed (header_of true ping true rfc_key 0) [] ≡ done ping_frame
unfolding encode_frame frame_key is_zero_key first_byte_of length_bytes apply_mask is_control_frame
ping_encodes = refl

ping_is_control : is_control_frame ping ≡ true
unfolding is_control_frame
ping_is_control = refl

parse_control_frame_example :
    parse at_server ping_frame
    ≡ (consumed 6, record (with_control at_server ping []) { buffer = [] })
unfolding new_parser set_role
parse_control_frame_example =
    parse_control_frame at_server no_entropy_needed true ping true rfc_key 0 [] ping_frame refl
      rfc_key-IsKey entropy-GivesKeys tt (omega arith) ping_encodes refl ping_is_control
      hello_facts.1

abbrev close_frame : List ℕ
close_frame = 0x88 ∷ 0x82 ∷ 0x37 ∷ 0xfa ∷ 0x21 ∷ 0x3d ∷ 0x34 ∷ 0x10 ∷ []

-- `no_status` is sent as a protocol error.
close_encodes :
    encode_close_frame no_entropy_needed no_entropy_needed no_status [] true ≡ done close_frame
unfolding encode_close_frame encode_simple simple_header generate_mask_key close_payload wire_code
    encode_frame frame_key is_zero_key first_byte_of length_bytes apply_mask is_control_frame
close_encodes = refl

empty_reason : is_valid_utf8 [] ≡ true
unfolding run
empty_reason = refl

parse-encode_close_frame_example :
    (payload : List ℕ) × (parse at_server close_frame
      ≡ (consumed 8, record (with_control at_server close payload) { buffer = [] }))
    × (parse_close_payload payload ≡ (wire_code no_status, []))
unfolding new_parser set_role
parse-encode_close_frame_example =
    parse-encode_close_frame at_server no_entropy_needed no_entropy_needed no_status [] close_frame
      true refl hello_facts.1 entropy-GivesKeys entropy-GivesKeys tt (inr (inl refl)) empty_reason
      close_encodes

-- 1005 on the wire.
abbrev status_on_the_wire : List ℕ
status_on_the_wire = 0x03 ∷ 0xED ∷ []

parse_close_payload_lem_example :
    CloseRead status_on_the_wire (parse_close_payload status_on_the_wire)
parse_close_payload_lem_example = parse_close_payload_lem status_on_the_wire (omega arith)

reserved_is_fault : parse_close_payload status_on_the_wire ≡ (1002, [])
unfolding parse_close_payload is_valid_close_code
reserved_is_fault = refl
