-- ===== src/Rpc/Protocol/Build/Agree.antt =====
-- Frames that are built are let through and parsed by the other side.
use elio.Prelude.{
  [], All, ◌∙◌, Bool-cases, ◌%◌, ◌≤◌, ◌+◌, ◌↔◌, ℕ, ◌^◌, ◌<◌, ◌≡◌, refl, ap, sym, subst, Bool, true,
  false, List, [], ◌++◌, length, arith, Option, none, some, ◌⊎◌, inl, inr, bit_or, length-append,
  length-drop,
}
use elio.Rpc.Buffer.{BufferView, write, write_le, view, plus}
use elio.Rpc.Buffer.Words.{IsAt, Fits-32, read-write_le}
use elio.Rpc.Protocol.{
  request, response, FrameHeader, is_valid, has_flag, is_valid_message_type,
  has_only_supported_message_flags, has_allowed_flags_for_type, has_valid_shape, has_timeout,
  no_response,
}
use elio.Rpc.Buffer.Fields.{
  Field, IsField, kinds_of, all_encoded, write_fields, write_fields-encoded, read_fields-encoded,
}
use elio.Rpc.Protocol.Build.{
  with_written, frame_of, validate_payload_size, with_size, timeout_flag, timeout_bytes,
  checksum_flag, build_request, build_oneway_request, build_response, parse_typed_payload,
  parse_request,
}

-- What `is_valid` asks of a frame that is let through, with the size of its payload.
abbrev pub IsBuilt : FrameHeader × List ℕ → Type 0
IsBuilt frame = (is_valid (frame.0) ≡ true) × ((frame.0).payload_length ≡ length (frame.1))

-- A timeout is a number of 32 bits.
unfoldable pub IsTimeout : Option ℕ → Type 0
IsTimeout none = Unit
IsTimeout (some timeout_ms) = timeout_ms < 2 ^ 32

length-timeout_bytes : (t : Option ℕ) → (t ≡ none) ⊎ (length (timeout_bytes t) ≡ 4)
unfolding timeout_bytes write write_le
length-timeout_bytes none = inl refl
length-timeout_bytes (some t) = inr refl

-- Fields that fit are written behind the timeout.
written :
    (header : ℕ → FrameHeader) (fs : List Field) (w : List ℕ)
    → All IsField fs
    → with_written header (write_fields fs w) ≡ with_size header (w ++ all_encoded fs)
unfolding with_written
written header fs w f = rw (write_fields-encoded fs w f) refl

-- The bytes of a request.
abbrev request_bytes : List Field → Option ℕ → List ℕ
request_bytes fs t = timeout_bytes t ++ all_encoded fs

abbrev request_frame : ℕ → ℕ → Option ℕ → Bool → ℕ → FrameHeader
request_frame request_id method_id t checksum =
    frame_of request_id request (bit_or (timeout_flag t) (checksum_flag checksum)) method_id

build_request-written :
    (request_id method_id : ℕ) (fs : List Field) (t : Option ℕ) (checksum : Bool)
    → All IsField fs
    → build_request request_id method_id fs t checksum
      ≡ with_size (request_frame request_id method_id t checksum) (request_bytes fs t)
unfolding build_request
build_request-written request_id method_id fs t checksum f = written _ fs (timeout_bytes t) f

build_request-IsBuilt :
    (request_id method_id : ℕ) (payload : List Field) (timeout : Option ℕ) (checksum : Bool)
    (frame : FrameHeader × List ℕ)
    → with_size
        (request_frame request_id method_id timeout checksum)
        (request_bytes payload timeout)
      ≡ inr frame
    → IsBuilt frame
unfolding with_size validate_payload_size frame_of timeout_flag checksum_flag is_valid has_flag
    is_valid_message_type has_only_supported_message_flags has_allowed_flags_for_type
    has_valid_shape
build_request-IsBuilt request_id method_id payload none true frame e = ground arith
build_request-IsBuilt request_id method_id payload none false frame e = ground arith
build_request-IsBuilt request_id method_id payload (some t) true frame e = ground (
  arith,
  length-timeout_bytes (some t),
  length-append (timeout_bytes (some t)) (all_encoded payload),
)
build_request-IsBuilt request_id method_id payload (some t) false frame e = ground (
  arith,
  length-timeout_bytes (some t),
  length-append (timeout_bytes (some t)) (all_encoded payload),
)

parse_typed_payload-encoded :
    (a : List Field) (v : BufferView)
    → All IsField a
    → IsAt v (all_encoded a)
    → parse_typed_payload (kinds_of a) v ≡ inr a
unfolding parse_typed_payload
parse_typed_payload-encoded a v h at =
    let (v', got, end) = read_fields-encoded a v h at in
    let size = length-drop v'.pos v'.data_ in
    let rest = ap length end.unread in ground (arith, got, size, rest)

timeout_parsed :
    (a : List Field) (t : ℕ) (v : BufferView) (flags : ℕ)
    → All IsField a
    → t < 2 ^ 32
    → has_flag flags has_timeout ≡ true
    → IsAt v (write_le 4 t ++ all_encoded a)
    → parse_request (kinds_of a) v flags ≡ inr (some t, a)
unfolding parse_request
timeout_parsed a t v flags f b h at =
    let (got, at') = read-write_le v 4 t (all_encoded a) (Fits-32 t b) at in
    ground (arith, got, parse_typed_payload-encoded a (record v { pos = plus v.pos 4 }) f at')

no_timeout_parsed :
    (a : List Field) (v : BufferView) (flags : ℕ)
    → All IsField a
    → has_flag flags has_timeout ≡ false
    → IsAt v (all_encoded a)
    → parse_request (kinds_of a) v flags ≡ inr (none, a)
unfolding parse_request
no_timeout_parsed a v flags f h at = ground (arith, parse_typed_payload-encoded a v f at)

-- What a frame that was built consists of.
build_request-parts :
    (request_id method_id : ℕ) (payload : List Field) (timeout : Option ℕ) (checksum : Bool)
    (frame : FrameHeader × List ℕ)
    → with_size
        (request_frame request_id method_id timeout checksum)
        (request_bytes payload timeout)
      ≡ inr frame
    → (frame.1 ≡ timeout_bytes timeout ++ all_encoded payload)
      × ((frame.0).flags ≡ bit_or (timeout_flag timeout) (checksum_flag checksum))
      × (length frame.1 < 2 ^ 64)
unfolding with_size validate_payload_size frame_of
build_request-parts request_id method_id payload timeout checksum frame e = ground arith

view-IsAt :
    (bytes payload : List ℕ) → bytes ≡ payload → length bytes < 2 ^ 64 → IsAt (view bytes) payload
unfolding view
view-IsAt bytes payload e b = record { bounded = b; within = omega arith; unread = e }

parse_built :
    (payload : List Field) (timeout : Option ℕ) (checksum : Bool) (v : BufferView)
    → All IsField payload
    → IsTimeout timeout
    → IsAt v (timeout_bytes timeout ++ all_encoded payload)
    → parse_request (kinds_of payload) v (bit_or (timeout_flag timeout) (checksum_flag checksum))
      ≡ inr (timeout, payload)
unfolding timeout_bytes timeout_flag checksum_flag write has_flag IsTimeout
parse_built payload (some t) true v f b at = timeout_parsed payload t v 3 f b refl at
parse_built payload (some t) false v f b at = timeout_parsed payload t v 1 f b refl at
parse_built payload none true v f b at = no_timeout_parsed payload v 2 f refl at
parse_built payload none false v f b at = no_timeout_parsed payload v 0 f refl at

-- A request whose fields fit their types, their texts in fewer than 2 ^ 32 bytes, and that could be
-- built, with a timeout of 32 bits or none, has a header that `is_valid` lets through and that names
-- the payload's size; and parse_request for those types gives the timeout and the fields back.
pub parse_request-build_request :
    (request_id method_id : ℕ) (payload : List Field) (timeout : Option ℕ) (checksum : Bool)
    (frame : FrameHeader × List ℕ)
    → All IsField payload
    → IsTimeout timeout
    → build_request request_id method_id payload timeout checksum ≡ inr frame
    → IsBuilt frame
      × (parse_request (kinds_of payload) (view frame.1) (frame.0).flags ≡ inr (timeout, payload))
parse_request-build_request request_id method_id payload timeout checksum frame f b e =
    let e' = sym (build_request-written request_id method_id payload timeout checksum f) ∙ e in
    let (bytes, flags, size) =
      build_request-parts request_id method_id payload timeout checksum frame e' in
    (
      build_request-IsBuilt request_id method_id payload timeout checksum frame e',
      subst (λ x. parse_request (kinds_of payload) (view frame.1) x ≡ inr (timeout, payload))
          (sym flags)
          (parse_built payload timeout checksum (view frame.1) f b
            (view-IsAt frame.1 _ bytes size)),
    )

-- A request whose fields fit can be built exactly if its payload, with the four bytes of a timeout, is
-- at most 16 MiB.
pub build_request-size :
    (request_id method_id : ℕ) (payload : List Field) (timeout : Option ℕ) (checksum : Bool)
    → All IsField payload
    → ((frame : FrameHeader × List ℕ) × (build_request request_id method_id payload timeout checksum
          ≡ inr frame))
      ↔ (length (timeout_bytes timeout) + length (all_encoded payload) ≤ 16777216)
unfolding with_size validate_payload_size
build_request-size request_id method_id payload timeout checksum f =
    let size = length-append (timeout_bytes timeout) (all_encoded payload) in
    let bytes = request_bytes payload timeout in
    let frame : FrameHeader × List ℕ =
      (request_frame request_id method_id timeout checksum (length bytes % 2 ^ 32), bytes) in
    rw (build_request-written request_id method_id payload timeout checksum f)
      ((λ r. ground (arith, size, r.1)), (λ h. (frame, ground (arith, size))))

-- A one-way request whose fields fit and that could be built has a header that `is_valid` lets
-- through, that names the payload's size, and that asks for no response; and parse_request gives the
-- fields back, without a timeout.
pub build_oneway_request-IsBuilt :
    (request_id method_id : ℕ) (payload : List Field) (checksum : Bool)
    (frame : FrameHeader × List ℕ)
    → All IsField payload
    → build_oneway_request request_id method_id payload checksum ≡ inr frame
    → IsBuilt frame
      × (has_flag (frame.0).flags no_response ≡ true)
      × (parse_request (kinds_of payload) (view frame.1) (frame.0).flags ≡ inr (none, payload))
unfolding build_oneway_request with_size validate_payload_size frame_of timeout_flag timeout_bytes
    checksum_flag is_valid has_flag is_valid_message_type has_only_supported_message_flags
    has_allowed_flags_for_type has_valid_shape
build_oneway_request-IsBuilt request_id method_id payload true frame f e =
    let e' =
      rw (build_oneway_request, build_request-written request_id method_id payload none true f) at
        e in
    let small : length (frame.1) < 2 ^ 64 = ground (arith, e') in
    let at = view-IsAt frame.1 (all_encoded payload) (ground (arith, e')) small in
    (
      ground (arith, e'),
      ground (arith, e'),
      ground (arith, e', no_timeout_parsed payload (view frame.1) 18 f refl at),
    )
build_oneway_request-IsBuilt request_id method_id payload false frame f e =
    let e' =
      rw (build_oneway_request, build_request-written request_id method_id payload none false f) at
        e in
    let small : length (frame.1) < 2 ^ 64 = ground (arith, e') in
    let at = view-IsAt frame.1 (all_encoded payload) (ground (arith, e')) small in
    (
      ground (arith, e'),
      ground (arith, e'),
      ground (arith, e', no_timeout_parsed payload (view frame.1) 16 f refl at),
    )

-- A response whose fields fit and that could be built has a header that `is_valid` lets through and
-- that names the payload's size; and the fields are parsed back.
pub parse_response-build_response :
    (request_id : ℕ) (payload : List Field) (checksum : Bool) (frame : FrameHeader × List ℕ)
    → All IsField payload
    → build_response request_id payload checksum ≡ inr frame
    → IsBuilt frame × (parse_typed_payload (kinds_of payload) (view frame.1) ≡ inr payload)
unfolding build_response with_size validate_payload_size frame_of checksum_flag is_valid has_flag
    is_valid_message_type has_only_supported_message_flags has_allowed_flags_for_type
    has_valid_shape
parse_response-build_response request_id payload checksum frame f e =
    let e' =
      sym (written (frame_of request_id response (checksum_flag checksum) 0) payload [] f) ∙ e in
    let small : length (frame.1) < 2 ^ 64 = ground (arith, e') in
    let bytes : frame.1 ≡ all_encoded payload = ground (arith, e') in
    (
      elim (Bool-cases checksum) [ inl c ↦ ground (arith, e') | inr c ↦ ground (arith, e') ],
      parse_typed_payload-encoded payload (view frame.1) f (view-IsAt frame.1 _ bytes small),
    )
