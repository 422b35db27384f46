-- ===== src/Rpc/Protocol.antt =====
-- include/elio/rpc/rpc_protocol.hpp: the frame header and the request identifiers. An enumerator is
-- its byte, since a header that was read can hold any byte.
pub mod Header
pub mod Valid
pub mod RequestIds
pub mod Build
use elio.Prelude.{
  ℕ, ◌+◌, ◌-◌, ◌*◌, ◌%◌, ◌^◌, Bool, true, false, not, ◌&&◌, ◌||◌, List, [], ◌∷◌, ◌++◌, take, drop,
  get_or, leb, ltb, ◌==◌, bit_and, bit_or, if◌then◌else◌, ◌⊎◌, inl, inr,
}
use elio.Rpc.Buffer.{SerializationError, BufferView, read_le, write_le, read, write}

abbrev pub protocol_magic : ℕ
protocol_magic = 0x454C494F

abbrev pub protocol_version : ℕ
protocol_version = 1

abbrev pub max_message_size : ℕ
max_message_size = 16 * 1024 * 1024

-- message_type
abbrev pub request : ℕ
request = 0

abbrev pub response : ℕ
response = 1

abbrev pub error : ℕ
error = 2

abbrev pub ping : ℕ
ping = 3

abbrev pub pong : ℕ
pong = 4

abbrev pub cancel : ℕ
cancel = 5

-- message_flags
abbrev pub has_timeout : ℕ
has_timeout = 1

abbrev pub has_checksum : ℕ
has_checksum = 2

abbrev pub no_response : ℕ
no_response = 16

pub record FrameHeader : Type 0 where
  pub magic : ℕ
  pub request_id : ℕ
  pub kind : ℕ
  pub flags : ℕ
  pub method_id : ℕ
  pub payload_length : ℕ
  pub version : ℕ

unfoldable pub has_flag : ℕ → ℕ → Bool
has_flag flags flag = not (bit_and flags flag == 0)

unfoldable pub is_valid_message_type : ℕ → Bool
is_valid_message_type kind =
    (kind == request)
    || (kind == response)
    || (kind == error)
    || (kind == ping)
    || (kind == pong)
    || (kind == cancel)

unfoldable pub has_only_supported_message_flags : ℕ → Bool
has_only_supported_message_flags flags =
    bit_and flags (bit_or (bit_or has_timeout has_checksum) no_response) == flags

unfoldable pub has_allowed_flags_for_type : ℕ → ℕ → Bool
has_allowed_flags_for_type kind flags =
    if kind == request
    then bit_and flags (bit_or (bit_or has_timeout has_checksum) no_response) == flags
    else if is_valid_message_type kind
    then bit_and flags has_checksum == flags
    else false

unfoldable pub has_valid_shape : FrameHeader → Bool
has_valid_shape h =
    if h.kind == request
    then not (has_flag h.flags has_timeout) || leb 4 h.payload_length
    else if (h.kind == response) || (h.kind == error)
    then h.method_id == 0
    else if (h.kind == ping) || (h.kind == pong) || (h.kind == cancel)
    then (h.method_id == 0) && (h.payload_length == 0)
    else false

unfoldable pub is_valid : FrameHeader → Bool
is_valid h =
    (h.magic == protocol_magic)
    && (h.version == protocol_version)
    && is_valid_message_type h.kind
    && has_only_supported_message_flags h.flags
    && has_allowed_flags_for_type h.kind h.flags
    && has_valid_shape h
    && leb h.payload_length max_message_size

unfoldable pub serialize : FrameHeader → List ℕ → List ℕ
serialize h w = write 1 h.version (
    write 4 h.payload_length (
      write 4 h.method_id
        (write 1 h.flags (write 1 h.kind (write 4 h.request_id (write 4 h.magic w))))))

unfoldable pub to_bytes : FrameHeader → List ℕ
to_bytes h =
    write_le 4 h.magic
    ++ (write_le 4 h.request_id
        ++ (h.kind % 256 ∷ h.flags % 256 ∷ write_le 4 h.method_id
            ++ (write_le 4 h.payload_length ++ (h.version % 256 ∷ []))))

-- The next read of a sequence that a throw ends.
unfoldable pub and_then {ℓ κ} :
    {A : Type ℓ} {B : Type κ}
    → SerializationError ⊎ A
    → (A → SerializationError ⊎ B)
    → SerializationError ⊎ B
and_then (inl e) k = inl e
and_then (inr a) k = k a

unfoldable pub deserialize : BufferView → SerializationError ⊎ (FrameHeader × BufferView)
deserialize v = and_then (read 4 v) (λ magic. and_then (read 4 magic.1) (λ request_id.
    and_then (read 1 request_id.1) (λ kind. and_then (read 1 kind.1) (λ flags.
      and_then (read 4 flags.1) (λ method_id. and_then (read 4 method_id.1) (λ payload_length.
        and_then (read 1 payload_length.1) (λ version. inr (
          record {
            magic = magic.0;
            request_id = request_id.0;
            kind = kind.0;
            flags = flags.0;
            method_id = method_id.0;
            payload_length = payload_length.0;
            version = version.0;
          },
          version.1,
        ))))))))

unfoldable pub from_bytes : List ℕ → FrameHeader
from_bytes bytes = record {
  magic = read_le (take 4 bytes);
  request_id = read_le (take 4 (drop 4 bytes));
  kind = get_or bytes 8 0;
  flags = get_or bytes 9 0;
  method_id = read_le (take 4 (drop 10 bytes));
  payload_length = read_le (take 4 (drop 14 bytes));
  version = get_or bytes 18 0;
}

-- A request_id_generator is its counter.
unfoldable pub next : ℕ → ℕ × ℕ
next counter = (counter % (2 ^ 32 - 1) + 1, (counter + 1) % 2 ^ 64)
