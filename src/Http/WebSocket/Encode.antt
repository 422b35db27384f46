-- ===== src/Http/WebSocket/Encode.antt =====
-- encode_frame and its callers in include/elio/http/websocket_frame.hpp. The system's entropy is an
-- argument of what may generate a masking key.
pub mod Bytes
pub mod RoundTrip
use elio.Prelude.{
  ℕ, ◌/◌, ◌%◌, ◌^◌, Bool, true, false, not, ◌&&◌, ◌||◌, List, [], ◌∷◌, ◌++◌, length, ltb, leb, ◌==◌,
  if◌then◌else◌, bit_or,
}
use elio.Http.WebSocket.Opcode.{Opcode, text, binary, close, ping, pong, code, is_control_frame}
use elio.Http.WebSocket.Header.{FrameHeader, no_key}
use elio.Http.WebSocket.Mask.{
  Entropy, Attempt, done, thrown, ◌>>=◌, control_fragmented, control_too_large, apply_mask,
  generate_mask_key,
}

-- `static_cast<uint8_t>(x >> (8 * i))`
abbrev pub byte_of : ℕ → ℕ → ℕ
byte_of x shift = x / 2 ^ shift % 256

abbrev flag : Bool → ℕ → ℕ → ℕ
flag b bit byte = if b then bit_or byte bit else byte

unfoldable pub first_byte_of : FrameHeader → ℕ
first_byte_of h =
    flag h.rsv3 0x10 (flag h.rsv2 0x20 (flag h.rsv1 0x40 (flag h.fin 0x80 (code h.op))))

-- The second byte with the extended length, for a payload of `n` bytes.
unfoldable pub length_bytes : Bool → ℕ → List ℕ
length_bytes masked n =
    let byte2 = if masked then 0x80 else 0x00 in
    if leb n 125
    then bit_or byte2 n ∷ []
    else if leb n 65535
    then bit_or byte2 126 ∷ byte_of n 8 ∷ byte_of n 0 ∷ []
    else bit_or byte2 127
      ∷ byte_of n 56
      ∷ byte_of n 48
      ∷ byte_of n 40
      ∷ byte_of n 32
      ∷ byte_of n 24
      ∷ byte_of n 16
      ∷ byte_of n 8
      ∷ byte_of n 0
      ∷ []

-- `mask_key == std::array<uint8_t, 4>{}`
unfoldable pub is_zero_key : List ℕ → Bool
is_zero_key [] = true
is_zero_key (k ∷ ks) = k == 0 && is_zero_key ks

-- A key of zeros is replaced by a fresh one.
unfoldable pub frame_key : Entropy → List ℕ → Attempt (List ℕ)
frame_key e key = if is_zero_key key then generate_mask_key e else done key

unfoldable pub encode_frame : Entropy → FrameHeader → List ℕ → Attempt (List ℕ)
encode_frame e h payload =
    if is_control_frame h.op && not h.fin
    then thrown control_fragmented
    else if is_control_frame h.op && ltb 125 (length payload)
    then thrown control_too_large
    else if h.masked
    then (frame_key e h.mask_key >>= λ key. done (
        first_byte_of h
        ∷ (length_bytes true (length payload) ++ (key ++ apply_mask payload key 0))))
    else done (first_byte_of h ∷ (length_bytes false (length payload) ++ payload))

-- `frame_header` with its defaults, `op`, and a fresh key if `mask` asks for one.
unfoldable pub simple_header : Entropy → Opcode → Bool → Attempt FrameHeader
simple_header e op mask =
    if mask then generate_mask_key e >>= (λ key. done (header key)) else done (header no_key)
  where
    header : List ℕ → FrameHeader
    header key = record {
      fin = true;
      rsv1 = false;
      rsv2 = false;
      rsv3 = false;
      op = op;
      masked = mask;
      payload_len = 0;
      mask_key = key;
    }

-- `again` is the entropy of the second call, made if the first key is of zeros.
unfoldable pub encode_simple : Opcode → Entropy → Entropy → List ℕ → Bool → Attempt (List ℕ)
encode_simple op e again payload mask =
    simple_header e op mask >>= λ h. encode_frame again h payload

unfoldable pub encode_text_frame : Entropy → Entropy → List ℕ → Bool → Attempt (List ℕ)
encode_text_frame = encode_simple text

unfoldable pub encode_binary_frame : Entropy → Entropy → List ℕ → Bool → Attempt (List ℕ)
encode_binary_frame = encode_simple binary

unfoldable pub encode_ping_frame : Entropy → Entropy → List ℕ → Bool → Attempt (List ℕ)
encode_ping_frame = encode_simple ping

unfoldable pub encode_pong_frame : Entropy → Entropy → List ℕ → Bool → Attempt (List ℕ)
encode_pong_frame = encode_simple pong

-- The codes that must not be sent become `protocol_error`.
unfoldable pub wire_code : ℕ → ℕ
wire_code raw = if raw == 1005 || (raw == 1006 || raw == 1015) then 1002 else raw

unfoldable pub close_payload : ℕ → List ℕ → List ℕ
close_payload raw reason = let c = wire_code raw in byte_of c 8 ∷ byte_of c 0 ∷ reason

unfoldable pub encode_close_frame : Entropy → Entropy → ℕ → List ℕ → Bool → Attempt (List ℕ)
encode_close_frame e again raw reason = encode_simple close e again (close_payload raw reason)
