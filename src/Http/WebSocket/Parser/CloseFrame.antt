-- ===== src/Http/WebSocket/Parser/CloseFrame.antt =====
-- A close frame from encode_close_frame through the parser to parse_close_payload.
use elio.Prelude.{
  ◌+◌, ◌≤◌, ◌≢◌, leb, ◌&&◌, Bool-cases, ℕ, ◌*◌, ◌/◌, ◌%◌, ◌^◌, ◌<◌, ◌≡◌, refl, sym, subst, ◌∙◌,
  none, ◌⊎◌, inl, inr, Bool, true, false, List, [], ◌∷◌, length, bit_or, arith, All,
}
use elio.Prelude.Bits.{bit_or_shift}
use elio.Http.WebSocket.Opcode.{Opcode, close, is_control_frame}
use elio.Http.WebSocket.Header.{no_key}
use elio.Http.WebSocket.Mask.{Entropy, done, IsByte, generate_mask_key, >>=-done, done-injective}
use elio.Http.WebSocket.Encode.{
  byte_of, encode_frame, simple_header, encode_simple, wire_code, close_payload, encode_close_frame,
}
use elio.Http.WebSocket.Encode.RoundTrip.{header_of, IsKey, GivesKeys}
use elio.Http.WebSocket.Utf8.{is_valid_utf8}
use elio.Http.WebSocket.Utf8.Scalars.{IsUtf8, is_valid_utf8_iff}
use elio.Http.WebSocket.Close.{is_valid_close_code, parse_close_payload}
use elio.Http.WebSocket.Parser.{FrameParser, consumed, check_role, parse}
use elio.Http.WebSocket.Parser.Delivery.{with_control, parse_control_frame}

-- The codes that stand for no code on the wire.
abbrev pub IsInternal : ℕ → Type 0
IsInternal raw = (raw ≡ 1005) ⊎ (raw ≡ 1006) ⊎ (raw ≡ 1015)

two_bytes : (c : ℕ) → c < 2 ^ 16 → bit_or (byte_of c 8 * 2 ^ 8) (byte_of c 0) ≡ c
two_bytes c h = bit_or_shift 8 (c / 2 ^ 8 % 256) (c / 2 ^ 0 % 256) (omega arith) ∙ omega arith

wire_code-valid :
    (raw : ℕ)
    → (is_valid_close_code raw ≡ true) ⊎ IsInternal raw
    → (is_valid_close_code (wire_code raw) ≡ true) × (wire_code raw < 2 ^ 16)
unfolding is_valid_close_code wire_code
wire_code-valid raw h = ground arith

-- A valid code comes back with its reason, and an internal code as a protocol error.
pub parse_close_payload-close_payload :
    (raw : ℕ) (reason : List ℕ)
    → (is_valid_close_code raw ≡ true) ⊎ IsInternal raw
    → is_valid_utf8 reason ≡ true
    → parse_close_payload (close_payload raw reason) ≡ (wire_code raw, reason)
unfolding parse_close_payload close_payload
parse_close_payload-close_payload raw reason h u =
    let w = wire_code-valid raw h in rw (two_bytes (wire_code raw) w.1, w.0, u)

-- The codes that an endpoint may send (RFC 6455 §7.4): the defined ones but 1004, 1005, 1006 and
-- 1015, and those for libraries and applications.
pub data MaySend (c : ℕ) : Type 0 where
  basic : 1000 ≤ c → c ≤ 1003 → MaySend c
  further : 1007 ≤ c → c ≤ 1014 → MaySend c
  registered_or_private : 3000 ≤ c → c ≤ 4999 → MaySend c

valid-MaySend : (c : ℕ) → is_valid_close_code c ≡ true → MaySend c
unfolding is_valid_close_code
valid-MaySend c h = elim (Bool-cases (leb 1000 c && leb c 1003)) [
  | inl a ↦ basic (ground (arith, a)) (ground (arith, a))
  | inr a ↦ elim (Bool-cases (leb 1007 c && leb c 1014)) [
    | inl b ↦ further (ground (arith, b)) (ground (arith, b))
    | inr b ↦ registered_or_private (ground (arith, a, b, h)) (ground (arith, a, b, h))
  ]
]

MaySend-valid : (c : ℕ) → MaySend c → is_valid_close_code c ≡ true
unfolding is_valid_close_code
MaySend-valid c (basic a b) = ground arith
MaySend-valid c (further a b) = ground arith
MaySend-valid c (registered_or_private a b) = ground arith

-- A payload of a code that may be sent, its high byte first, and a reason in UTF-8.
abbrev pub IsPayloadOf : List ℕ → ℕ → List ℕ → Type 0
IsPayloadOf payload c reason =
    MaySend c × IsUtf8 reason × (payload ≡ (c / 256) ∷ (c % 256) ∷ reason)

-- How a close payload is to be read.
pub data CloseRead : List ℕ → ℕ × List ℕ → Type 0 where
  nothing_sent : CloseRead [] (1005, [])
  as_sent :
      {payload reason : List ℕ} {c : ℕ}
      → IsPayloadOf payload c reason
      → CloseRead payload (c, reason)
  at_fault :
      {payload : List ℕ}
      → payload ≢ []
      → ((c : ℕ) (reason : List ℕ) → ¬ IsPayloadOf payload c reason)
      → CloseRead payload (1002, [])

code_bytes :
    (hi lo c : ℕ) (reason reason' : List ℕ)
    → hi ∷ lo ∷ reason ≡ (c / 256) ∷ (c % 256) ∷ reason'
    → (hi * 256 + lo ≡ c) × (reason ≡ reason')
code_bytes hi lo c reason reason' e =
    let high : hi ≡ c / 256 = cc in let low : lo ≡ c % 256 = cc in (omega (arith, high, low), cc)

close_code : (hi lo : ℕ) → lo < 256 → bit_or (hi * 2 ^ 8) lo ≡ hi * 256 + lo
close_code hi lo h = bit_or_shift 8 hi lo (omega (arith, h)) ∙ omega arith

-- A close payload of any bytes is read as its code and reason, if the code may be sent and the reason
-- is UTF-8; an empty one as 1005, which tells that there is no code; and any other one as 1002, a
-- protocol error. So the reserved codes on the wire are not passed on.
pub parse_close_payload_lem :
    (payload : List ℕ) → All IsByte payload → CloseRead payload (parse_close_payload payload)
unfolding parse_close_payload
parse_close_payload_lem [] h = nothing_sent
parse_close_payload_lem (hi ∷ []) h = at_fault (λ e. cc) (λ c reason s. cc)
parse_close_payload_lem (hi ∷ lo ∷ reason) h =
    let k = hi * 256 + lo in
    let same = close_code hi lo h.1.0 in
    let utf8 = is_valid_utf8_iff reason h.1.1 in
    elim (Bool-cases (is_valid_close_code k)) [
      | inr bad ↦
          rw (same, bad)
            (at_fault (λ e. cc)
              λ c reason' s.
                let (sum, rest) = code_bytes hi lo c reason reason' s.2 in
                ground (
                  arith,
                  bad,
                  subst (λ n. is_valid_close_code n ≡ true) (sym sum) (MaySend-valid c s.0),
                ))
      | inl good ↦ elim (Bool-cases (is_valid_utf8 reason)) [
        | inl u ↦
            rw (same, good, u) (as_sent (valid-MaySend k good, utf8.0 u, ground (arith, h.1.0)))
        | inr u ↦
            rw (same, good, u)
              (at_fault (λ e. cc)
                λ c reason' s.
                  let (sum, rest) = code_bytes hi lo c reason reason' s.2 in
                  ground (arith, u, utf8.1 (subst IsUtf8 (sym rest) s.1)))
      ]
    ]

encode_simple-ok :
    (op : Opcode) (e again : Entropy) (payload bytes : List ℕ) (mask : Bool)
    → GivesKeys e
    → encode_simple op e again payload mask ≡ done bytes
    → (key : List ℕ) × IsKey key
      × (encode_frame again (header_of true op mask key 0) payload ≡ done bytes)
unfolding encode_simple simple_header
encode_simple-ok op e again payload bytes true g h =
    let (header, made, sent) = >>=-done _ (simple_header e op true) h in
    let (key, generated, same) = >>=-done _ (generate_mask_key e) made in
    (
      key,
      g key generated,
      subst (λ r. encode_frame again r payload ≡ done bytes) (sym (done-injective same)) sent,
    )
encode_simple-ok op e again payload bytes false g h = (no_key, omega arith, h)

close_payload-IsByte :
    (raw : ℕ) (reason : List ℕ) → All IsByte reason → All IsByte (close_payload raw reason)
unfolding close_payload
close_payload-IsByte raw reason h = (omega arith, (omega arith, h))

close-control : is_control_frame close ≡ true
unfolding is_control_frame
close-control = refl

close-small :
    (e : Entropy) (mask : Bool) (key payload bytes : List ℕ)
    → encode_frame e (header_of true close mask key 0) payload ≡ done bytes
    → length payload < 2 ^ 63
unfolding encode_frame
close-small e mask key payload bytes h = ground (arith, close-control)

-- An encoded close frame, with a valid or an internal code and a reason in UTF-8, that comes to an
-- empty buffer, masked as the parser's role asks, is queued; and its payload is read as the code
-- sent, with an internal code replaced, and the reason. The random keys have four bytes.
pub parse-encode_close_frame :
    (p : FrameParser) (e again : Entropy) (raw : ℕ) (reason bytes : List ℕ) (mask : Bool)
    → p.buffer ≡ []
    → check_role p.role mask ≡ none
    → GivesKeys e
    → GivesKeys again
    → All IsByte reason
    → (is_valid_close_code raw ≡ true) ⊎ IsInternal raw
    → is_valid_utf8 reason ≡ true
    → encode_close_frame e again raw reason mask ≡ done bytes
    → (payload : List ℕ) × (parse p bytes
        ≡ (consumed (length bytes), record (with_control p close payload) { buffer = [] }))
      × (parse_close_payload payload ≡ (wire_code raw, reason))
unfolding encode_close_frame
parse-encode_close_frame p e again raw reason bytes mask empty admits g g' hr valid u sent =
    let payload = close_payload raw reason in
    let (key, ik, frame) = encode_simple-ok close e again payload bytes mask g sent in
    (
      payload,
      parse_control_frame p again true close mask key 0 payload bytes empty ik g'
          (close_payload-IsByte raw reason hr) (close-small again mask key payload bytes frame)
          frame refl close-control admits,
      parse_close_payload-close_payload raw reason valid u,
    )
