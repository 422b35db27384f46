-- ===== src/Http/WebSocket/Parser.antt =====
-- frame_parser of include/elio/http/websocket_frame.hpp. A `std::vector` is a list, oldest first.
pub mod Progress
pub mod Chunks
pub mod CloseFrame
pub mod Invariant
pub mod Delivery
use elio.Prelude.{
  ℕ, zero, suc, ◌+◌, ◌-◌, ◌*◌, Bool, true, false, not, ◌&&◌, ◌||◌, List, [], ◌∷◌, ◌++◌, length,
  take, drop, Option, none, some, ltb, ◌==◌, if◌then◌else◌,
}
use elio.Http.WebSocket.Opcode.{Opcode, continuation, text, code, is_control_frame}
use elio.Http.WebSocket.Header.{
  FrameHeader, ParseError, unmasked_from_client, masked_from_server, continuation_without_initial,
  new_message_before_completed, message_too_large, invalid_utf8, HeaderResult, incomplete, error,
  complete, parse_frame_header,
}
use elio.Http.WebSocket.Mask.{apply_mask}
use elio.Http.WebSocket.Utf8.{is_valid_utf8}
use elio.Http.WebSocket.Close.{protocol_error, too_large, invalid_data}

pub record Message : Type 0 where
  pub type : Opcode
  pub payload : List ℕ
  pub complete : Bool

pub data EndpointRole : Type 0 where
  unspecified server client : EndpointRole

pub data QueuedFrameKind : Type 0 where
  message control : QueuedFrameKind

pub record FrameParser : Type 0 where
  pub buffer : List ℕ
  pub current : Message
  pub messages : List Message
  pub control_frames : List (Opcode × List ℕ)
  pub queued : List QueuedFrameKind
  pub max_message_size : ℕ
  pub has_error : Bool
  pub has_initial : Bool
  pub error_msg : Option ParseError
  pub error_close_code : ℕ
  pub role : EndpointRole

abbrev pub no_message : Message
no_message = record { type = text; payload = []; complete = false }

-- default_max_message_size
abbrev pub default_max : ℕ
default_max = 16 * 1024 * 1024

unfoldable pub new_parser : FrameParser
new_parser = record {
  buffer = [];
  current = no_message;
  messages = [];
  control_frames = [];
  queued = [];
  max_message_size = default_max;
  has_error = false;
  has_initial = false;
  error_msg = none;
  error_close_code = protocol_error;
  role = unspecified;
}

unfoldable pub set_max_message_size : ℕ → FrameParser → FrameParser
set_max_message_size n p = record p { max_message_size = n }

unfoldable pub set_role : EndpointRole → FrameParser → FrameParser
set_role r p = record p { role = r }

-- Limits and role stay.
unfoldable pub reset : FrameParser → FrameParser
reset p = record p {
  buffer = [];
  current = no_message;
  messages = [];
  control_frames = [];
  queued = [];
  has_error = false;
  has_initial = false;
  error_msg = none;
  error_close_code = protocol_error;
}

unfoldable pub is_continuation : Opcode → Bool
is_continuation op = code op == code continuation

-- RFC 6455 §5.1.
unfoldable pub check_role : EndpointRole → Bool → Option (ParseError × ℕ)
check_role server masked = if masked then none else some (unmasked_from_client, protocol_error)
check_role client masked = if masked then some (masked_from_server, protocol_error) else none
check_role unspecified masked = none

-- The fragmentation state and the size limit, for a data frame.
unfoldable pub check_data : FrameParser → FrameHeader → Option (ParseError × ℕ)
check_data p h =
    let size = length p.current.payload in
    if is_continuation h.op && not p.has_initial
    then some (continuation_without_initial, protocol_error)
    else if not (is_continuation h.op) && p.has_initial
    then some (new_message_before_completed, protocol_error)
    else if ltb 0 p.max_message_size
        && (ltb p.max_message_size size || ltb (p.max_message_size - size) h.payload_len)
    then some (message_too_large, too_large)
    else none

-- What is checked as soon as the header is complete.
unfoldable pub check_frame : FrameParser → FrameHeader → Option (ParseError × ℕ)
check_frame p h = elim (check_role p.role h.masked) [
  | some e ↦ some e
  | none ↦ if is_control_frame h.op then none else check_data p h
]

-- extract_payload
unfoldable pub extract_payload : List ℕ → FrameHeader → ℕ → List ℕ
extract_payload bytes h header_size =
    let raw = take h.payload_len (drop header_size bytes) in
    if h.masked then apply_mask raw h.mask_key 0 else raw

-- A data frame joins the current message.
unfoldable pub accumulate : FrameParser → FrameHeader → List ℕ → FrameParser
accumulate p h payload =
    if is_continuation h.op
    then record p { current = record (p.current) { payload = p.current.payload ++ payload } }
    else record p {
      current = record no_message { type = h.op; payload = payload };
      has_initial = true;
    }

-- The final frame delivers the message, unless a text is no UTF-8 (the parser is left as it is).
unfoldable pub deliver : FrameParser → Bool × FrameParser
deliver p =
    if code p.current.type == code text && not (is_valid_utf8 p.current.payload)
    then (false, p)
    else (
      true,
      record p {
        messages = p.messages ++ (record (p.current) { complete = true } ∷ []);
        queued = p.queued ++ (message ∷ []);
        current = no_message;
        has_initial = false;
      },
    )

-- A frame whose payload has arrived; the Boolean is false if it is refused.
unfoldable pub process_frame : FrameParser → FrameHeader → List ℕ → Bool × FrameParser
process_frame p h payload =
    if is_control_frame h.op
    then (
      true,
      record p {
        control_frames = p.control_frames ++ ((h.op, payload) ∷ []);
        queued = p.queued ++ (control ∷ []);
      },
    )
    else if h.fin
    then deliver (accumulate p h payload)
    else (true, accumulate p h payload)

unfoldable pub fail : FrameParser → ParseError → ℕ → FrameParser
fail p e c = record p { has_error = true; error_msg = some e; error_close_code = c }

-- One round of the loop of process_buffer: it stops for more bytes, takes a frame of so many bytes,
-- or fails.
pub data Round : Type 0 where
  stop : Round
  taken : FrameParser → ℕ → Round
  failed : FrameParser → Round

unfoldable pub take_frame : FrameParser → FrameHeader → ℕ → ℕ → Round
take_frame p h header_size frame_size =
    let (good, q) = process_frame p h (extract_payload p.buffer h header_size) in
    if good
    then taken (record q { buffer = drop frame_size p.buffer }) frame_size
    else failed (fail q invalid_utf8 invalid_data)

-- A complete header, with what `check_frame` says of it.
unfoldable pub on_checked : FrameParser → FrameHeader → ℕ → ℕ → Option (ParseError × ℕ) → Round
on_checked p h header_size frame_size (some (e, c)) = failed (fail p e c)
on_checked p h header_size frame_size none =
    if ltb (length p.buffer) frame_size then stop else take_frame p h header_size frame_size

unfoldable pub on_header : FrameParser → HeaderResult → Round
on_header p incomplete = stop
on_header p (error e) = failed (fail p e protocol_error)
on_header p (complete h header_size frame_size) =
    on_checked p h header_size frame_size (check_frame p h)

unfoldable pub round : FrameParser → Round
round p = on_header p (parse_frame_header p.buffer)

-- The loop ends where the buffer is empty.
unfoldable pub next_round : FrameParser → Round
next_round p = if length p.buffer == 0 then stop else round p

-- The result of `parse`: the bytes consumed, or -1.
pub data Outcome : Type 0 where
  consumed : ℕ → Outcome
  refused : Outcome

-- process_buffer, with `total` bytes consumed so far. A round takes two bytes or more.
unfoldable pub process_buffer : ℕ → FrameParser → ℕ → Outcome × FrameParser
process_buffer zero p total = (consumed total, p)
process_buffer (suc fuel) p total = elim (next_round p) [
  | stop ↦ (consumed total, p)
  | taken q size ↦ process_buffer fuel q (total + size)
  | failed q ↦ (refused, q)
]

unfoldable pub parse : FrameParser → List ℕ → Outcome × FrameParser
parse p [] = (consumed 0, p)
parse p (b ∷ bs) =
    let q = record p { buffer = p.buffer ++ (b ∷ bs) } in process_buffer (suc (length q.buffer)) q 0
