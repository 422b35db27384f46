-- ===== src/Http/WebSocket/Queues.antt =====
-- The consumer's side of frame_parser in include/elio/http/websocket_frame.hpp.
pub mod Order
use elio.Prelude.{ℕ, List, [], ◌∷◌, Option, none, some}
use elio.Http.WebSocket.Opcode.{Opcode}
use elio.Http.WebSocket.Parser.{FrameParser, Message, QueuedFrameKind, message, control}

unfoldable pub remove_first : QueuedFrameKind → List QueuedFrameKind → List QueuedFrameKind
remove_first kind [] = []
remove_first message (message ∷ ks) = ks
remove_first message (control ∷ ks) = control ∷ remove_first message ks
remove_first control (control ∷ ks) = ks
remove_first control (message ∷ ks) = message ∷ remove_first control ks

unfoldable pub get_message : FrameParser → Option Message × FrameParser
get_message p = elim p.messages [
  | [] ↦ (none, p)
  | m ∷ ms ↦ (some m, record p { messages = ms; queued = remove_first message p.queued })
]

unfoldable pub get_control_frame : FrameParser → Option (Opcode × List ℕ) × FrameParser
get_control_frame p = elim p.control_frames [
  | [] ↦ (none, p)
  | f ∷ fs ↦ (some f, record p { control_frames = fs; queued = remove_first control p.queued })
]

-- The oldest queued frame, if it is a message.
unfoldable pub get_next_message : FrameParser → Option Message × FrameParser
get_next_message p = elim p.queued [
  | [] ↦ (none, p)
  | k ∷ ks ↦ elim k [
    | control ↦ (none, p)
    | message ↦ elim p.messages [
      | [] ↦ (none, p)
      | m ∷ ms ↦ (some m, record p { messages = ms; queued = ks })
    ]
  ]
]

unfoldable pub get_next_control_frame : FrameParser → Option (Opcode × List ℕ) × FrameParser
get_next_control_frame p = elim p.queued [
  | [] ↦ (none, p)
  | k ∷ ks ↦ elim k [
    | message ↦ (none, p)
    | control ↦ elim p.control_frames [
      | [] ↦ (none, p)
      | f ∷ fs ↦ (some f, record p { control_frames = fs; queued = ks })
    ]
  ]
]
