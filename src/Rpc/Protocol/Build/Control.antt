-- ===== src/Rpc/Protocol/Build/Control.antt =====
-- The frames without a payload.
use elio.Prelude.{ℕ, ◌^◌, ◌<◌, ◌≡◌, refl, true, [], ◌∷◌, All, arith}
use elio.Rpc.Protocol.{
  FrameHeader, is_valid, has_flag, is_valid_message_type, has_only_supported_message_flags,
  has_allowed_flags_for_type, has_valid_shape, to_bytes, from_bytes,
}
use elio.Rpc.Protocol.Header.{IsHeader, from_bytes-to_bytes}
use elio.Rpc.Protocol.Build.{frame_of, build_ping, build_pong, build_cancel}

-- The header is let through, and read back from the wire.
abbrev pub IsCarried : FrameHeader → Type 0
IsCarried h = (is_valid h ≡ true) × (from_bytes (to_bytes h) ≡ h)

frame_of-IsHeader :
    (request_id kind : ℕ)
    → request_id < 2 ^ 32
    → kind < 2 ^ 8
    → IsHeader (frame_of request_id kind 0 0 0)
unfolding frame_of
frame_of-IsHeader request_id kind h k = record {
  magic_fits = omega arith;
  request_id_fits = h;
  kind_fits = k;
  flags_fits = omega arith;
  method_id_fits = omega arith;
  payload_length_fits = omega arith;
  version_fits = omega arith;
}

frame_of-from_bytes :
    (request_id kind : ℕ)
    → request_id < 2 ^ 32
    → kind < 2 ^ 8
    → from_bytes (to_bytes (frame_of request_id kind 0 0 0)) ≡ frame_of request_id kind 0 0 0
frame_of-from_bytes request_id kind h k =
    (from_bytes-to_bytes (frame_of request_id kind 0 0 0) (frame_of-IsHeader request_id kind h k)).0

-- A ping, a pong and a cancel with an identifier of 32 bits are let through by `is_valid`, and are read
-- back from their bytes.
pub build_control-IsCarried :
    (request_id : ℕ)
    → request_id < 2 ^ 32
    → All IsCarried (build_ping request_id ∷ build_pong request_id ∷ build_cancel request_id ∷ [])
unfolding build_ping build_pong build_cancel frame_of is_valid has_flag is_valid_message_type
    has_only_supported_message_flags has_allowed_flags_for_type has_valid_shape
build_control-IsCarried request_id h = (
  (refl, frame_of-from_bytes request_id 3 h (omega arith)),
  (
    (refl, frame_of-from_bytes request_id 4 h (omega arith)),
    ((refl, frame_of-from_bytes request_id 5 h (omega arith)), tt),
  ),
)
