-- ===== src/Http/WebSocket/Header.antt =====
-- parse_frame_header of include/elio/http/websocket_frame.hpp. A byte is a number below 256, and
-- `data` with `len` is a list. `frame_parse_result` and the header that is filled in are one sum: a
-- header is read only when the result is complete.
pub mod Prefix
pub mod Sizes
use elio.Prelude.{
  ℕ, ◌+◌, ◌*◌, ◌^◌, Bool, false, not, ◌&&◌, ◌||◌, List, [], ◌∷◌, length, get_or, take, drop, ltb,
  leb, ◌==◌, if◌then◌else◌, bit_and, bit_or,
}
use elio.Http.WebSocket.Opcode.{Opcode, of_code, is_control_frame, is_valid_opcode}

pub data ParseError : Type 0 where
  invalid_opcode reserved_bits non_minimal_length invalid_length control_too_large : ParseError
  control_fragmented unmasked_from_client masked_from_server continuation_without_initial :
      ParseError
  new_message_before_completed message_too_large invalid_utf8 : ParseError

pub record FrameHeader : Type 0 where
  pub fin : Bool
  pub rsv1 : Bool
  pub rsv2 : Bool
  pub rsv3 : Bool
  pub op : Opcode
  pub masked : Bool
  pub payload_len : ℕ
  pub mask_key : List ℕ

pub data HeaderResult : Type 0 where
  incomplete : HeaderResult
  error : ParseError → HeaderResult
  complete : FrameHeader → ℕ → ℕ → HeaderResult

-- `(b & mask) != 0`
abbrev pub has_bit : ℕ → ℕ → Bool
has_bit b mask = not (bit_and b mask == 0)

abbrev pub no_key : List ℕ
no_key = 0 ∷ 0 ∷ 0 ∷ 0 ∷ []

-- The payload length and the header's size up to the masking key.
pub data LengthResult : Type 0 where
  more : LengthResult
  bad : ParseError → LengthResult
  len : ℕ → ℕ → LengthResult

-- `(data[2] << 8) | data[3]`
unfoldable pub length_16 : List ℕ → ℕ
length_16 bytes = bit_or (get_or bytes 2 0 * 2 ^ 8) (get_or bytes 3 0)

-- `(data[2] << 56) | ... | data[9]`
unfoldable pub length_64 : List ℕ → ℕ
length_64 bytes =
    let at = λ (i : ℕ). get_or bytes i 0 in
    bit_or
      (bit_or
        (bit_or
          (bit_or
            (bit_or (bit_or (bit_or (at 2 * 2 ^ 56) (at 3 * 2 ^ 48)) (at 4 * 2 ^ 40))
              (at 5 * 2 ^ 32))
            (at 6 * 2 ^ 24))
          (at 7 * 2 ^ 16))
        (at 8 * 2 ^ 8))
      (at 9)

unfoldable pub parse_length : List ℕ → LengthResult
parse_length bytes =
    let payload_len_7 = bit_and (get_or bytes 1 0) 0x7F in
    if payload_len_7 == 126
    then if ltb (length bytes) 4
      then more
      else if ltb (length_16 bytes) 126
      then bad non_minimal_length
      else len (length_16 bytes) 4
    else if payload_len_7 == 127
    then if ltb (length bytes) 10
      then more
      else if has_bit (length_64 bytes) (2 ^ 63)
      then bad invalid_length
      else if leb (length_64 bytes) 65535
      then bad non_minimal_length
      else len (length_64 bytes) 10
    else len payload_len_7 2

-- From the control-frame checks on; `size` is the header's size so far.
unfoldable pub finish_header : FrameHeader → List ℕ → ℕ → HeaderResult
finish_header header bytes size =
    if is_control_frame header.op && ltb 125 header.payload_len
    then error control_too_large
    else if is_control_frame header.op && not header.fin
    then error control_fragmented
    else if header.masked
    then if ltb (length bytes) (size + 4)
      then incomplete
      else complete (record header { mask_key = take 4 (drop size bytes) }) (size + 4)
          (size + 4 + header.payload_len)
    else complete header size (size + header.payload_len)

-- The second byte: MASK and the payload length.
unfoldable pub on_length : FrameHeader → List ℕ → LengthResult → HeaderResult
on_length header bytes more = incomplete
on_length header bytes (bad e) = error e
on_length header bytes (len n size) =
    finish_header (record header { masked = has_bit (get_or bytes 1 0) 0x80; payload_len = n })
      bytes size

unfoldable pub parse_second : FrameHeader → List ℕ → HeaderResult
parse_second header bytes = on_length header bytes (parse_length bytes)

-- What the first byte says; `header`'s other fields are the defaults of `frame_header`.
unfoldable pub first_byte : ℕ → FrameHeader
first_byte b = record {
  fin = has_bit b 0x80;
  rsv1 = has_bit b 0x40;
  rsv2 = has_bit b 0x20;
  rsv3 = has_bit b 0x10;
  op = of_code (bit_and b 0x0F);
  masked = false;
  payload_len = 0;
  mask_key = no_key;
}

unfoldable pub parse_frame_header : List ℕ → HeaderResult
parse_frame_header bytes =
    let b = get_or bytes 0 0 in
    let header = first_byte b in
    if ltb (length bytes) 1
    then incomplete
    else if not (is_valid_opcode (bit_and b 0x0F))
    then error invalid_opcode
    else if header.rsv1 || header.rsv2 || header.rsv3
    then error reserved_bits
    else if ltb (length bytes) 2
    then incomplete
    else parse_second header bytes
