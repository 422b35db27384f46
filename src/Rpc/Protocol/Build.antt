-- ===== src/Rpc/Protocol/Build.antt =====
-- The builders and parsers of frames of include/elio/rpc/rpc_protocol.hpp. A payload is a struct with
-- ELIO_RPC_FIELDS, as the list of its fields; one in another stands for its own fields.
pub mod Agree
pub mod Control
use elio.Prelude.{
  ℕ, ◌+◌, ◌-◌, ◌%◌, ◌^◌, ◌≡◌, Bool, true, false, List, [], ◌++◌, length, ltb, bit_or, if◌then◌else◌,
  Option, none, some, ◌⊎◌, inl, inr, ◌==◌,
}
use elio.Rpc.Buffer.{SerializationError, BufferView, read, write}
use elio.Rpc.Buffer.Fields.{Field, Kind, write_fields, read_fields}
use elio.Rpc.Protocol.{
  FrameHeader, and_then, has_flag, protocol_magic, protocol_version, max_message_size, request,
  response, ping, pong, cancel, has_timeout, has_checksum, no_response,
}

-- What the frames' functions throw, beside what the buffers do.
pub data FrameError : Type 0 where
  buffer_error : SerializationError → FrameError
  payload_exceeds_uint32 payload_too_large trailing_bytes : FrameError

unfoldable pub frame_of : ℕ → ℕ → ℕ → ℕ → ℕ → FrameHeader
frame_of request_id kind flags method_id payload_length = record {
  magic = protocol_magic;
  request_id = request_id;
  kind = kind;
  flags = flags;
  method_id = method_id;
  payload_length = payload_length;
  version = protocol_version;
}

unfoldable pub build_ping : ℕ → FrameHeader
build_ping ping_id = frame_of ping_id ping 0 0 0

unfoldable pub build_pong : ℕ → FrameHeader
build_pong ping_id = frame_of ping_id pong 0 0 0

unfoldable pub build_cancel : ℕ → FrameHeader
build_cancel request_id = frame_of request_id cancel 0 0 0

-- The error that it throws, if any.
unfoldable pub validate_payload_size : ℕ → Option FrameError
validate_payload_size size =
    if ltb (2 ^ 32 - 1) size
    then some payload_exceeds_uint32
    else if ltb max_message_size size
    then some payload_too_large
    else none

-- The header gets the size of a payload that passes.
unfoldable pub with_size : (ℕ → FrameHeader) → List ℕ → FrameError ⊎ (FrameHeader × List ℕ)
with_size header payload = elim (validate_payload_size (length payload)) [
  | some e ↦ inl e
  | none ↦ inr (header (length payload % 2 ^ 32), payload)
]

unfoldable pub timeout_flag : Option ℕ → ℕ
timeout_flag none = 0
timeout_flag (some timeout_ms) = has_timeout

unfoldable pub timeout_bytes : Option ℕ → List ℕ
timeout_bytes none = []
timeout_bytes (some timeout_ms) = write 4 timeout_ms []

unfoldable pub checksum_flag : Bool → ℕ
checksum_flag true = has_checksum
checksum_flag false = 0

-- A payload that was written behind the timeout, or what that threw.
unfoldable pub with_written :
    (ℕ → FrameHeader) → SerializationError ⊎ List ℕ → FrameError ⊎ (FrameHeader × List ℕ)
with_written header m = elim m [ inl e ↦ inl (buffer_error e) | inr bytes ↦ with_size header bytes ]

unfoldable pub build_request :
    ℕ → ℕ → List Field → Option ℕ → Bool → FrameError ⊎ (FrameHeader × List ℕ)
build_request request_id method_id payload timeout_ms enable_checksum =
    with_written
      (frame_of request_id request
        (bit_or (timeout_flag timeout_ms) (checksum_flag enable_checksum)) method_id)
      (write_fields payload (timeout_bytes timeout_ms))

unfoldable pub build_oneway_request :
    ℕ → ℕ → List Field → Bool → FrameError ⊎ (FrameHeader × List ℕ)
build_oneway_request request_id method_id payload enable_checksum =
    elim (build_request request_id method_id payload none enable_checksum) [
      | inl e ↦ inl e
      | inr frame ↦ inr (record (frame.0) { flags = bit_or (frame.0).flags no_response }, frame.1)
    ]

unfoldable pub build_response : ℕ → List Field → Bool → FrameError ⊎ (FrameHeader × List ℕ)
build_response request_id payload enable_checksum =
    with_written (frame_of request_id response (checksum_flag enable_checksum) 0)
      (write_fields payload [])

-- The payload's type is the list of the types of its fields.
unfoldable pub parse_typed_payload : List Kind → BufferView → FrameError ⊎ List Field
parse_typed_payload kinds v = elim (read_fields kinds v) [
  | inl e ↦ inl (buffer_error e)
  | inr r ↦ if length (r.1).data_ - (r.1).pos == 0 then inr (r.0) else inl trailing_bytes
]

unfoldable pub parse_request : List Kind → BufferView → ℕ → FrameError ⊎ (Option ℕ × List Field)
parse_request kinds v flags =
    if has_flag flags has_timeout
    then (elim (read 4 v) [
      | inl e ↦ inl (buffer_error e)
      | inr r ↦ elim (parse_typed_payload kinds r.1) [ inl e ↦ inl e | inr a ↦ inr (some r.0, a) ]
    ])
    else (elim (parse_typed_payload kinds v) [ inl e ↦ inl e | inr a ↦ inr (none, a) ])
