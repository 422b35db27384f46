-- ===== src/Http/WebSocket/Parser/Delivery.antt =====
-- From encode_frame through frame_parser::parse to the queues.
use elio.Prelude.{
  ℕ, suc, ◌+◌, ◌^◌, ◌≤◌, ◌<◌, ◌≡◌, refl, sym, ◌∙◌, ap, subst, Bool, true, false, List, [], ◌∷◌,
  ◌++◌, length, drop, ◌==◌, arith, All, none, append-nil, drop_all, if◌then◌else◌, ◌⊎◌,
}
use elio.Http.WebSocket.Opcode.{Opcode, text, code, is_control_frame}
use elio.Http.WebSocket.Header.{FrameHeader, complete, parse_frame_header}
use elio.Http.WebSocket.Mask.{Entropy, done, IsByte}
use elio.Http.WebSocket.Encode.{encode_frame}
use elio.Http.WebSocket.Encode.RoundTrip.{header_of, IsKey, GivesKeys, parse-encode_frame}
use elio.Http.WebSocket.Utf8.{is_valid_utf8}
use elio.Http.WebSocket.Header.Sizes.{parse_frame_header_sizes}
use elio.Http.WebSocket.Parser.{
  FrameParser, Message, message, control, no_message, check_role, check_data, check_frame,
  is_continuation, extract_payload, accumulate, deliver, process_frame, stop, taken, take_frame,
  on_checked, on_header, round, next_round, consumed, parse,
}
use elio.Http.WebSocket.Parser.Progress.{process_buffer-stop, process_buffer-taken}

-- A buffer that holds one frame, which is let through: the round takes it whole.
module _ (p q : FrameParser) (h : FrameHeader) (hs : ℕ) (payload bytes : List ℕ)
    (whole : p.buffer ≡ bytes) (read : parse_frame_header bytes ≡ complete h hs (length bytes))
    (inside : extract_payload bytes h hs ≡ payload) (checked : check_frame p h ≡ none)
    (processed : process_frame p h payload ≡ (true, q)) where
  takes : take_frame p h hs (length bytes) ≡ taken (record q { buffer = [] }) (length bytes)
  unfolding take_frame
  takes =
      let extracted : extract_payload p.buffer h hs ≡ payload =
        ap (λ b. extract_payload b h hs) whole ∙ inside in
      let emptied : drop (length bytes) p.buffer ≡ [] =
        ap (drop (length bytes)) (whole ∙ sym (append-nil bytes)) ∙ drop_all bytes [] in
      ground (arith, extracted, emptied, processed)

  checks : on_header p (complete h hs (length bytes)) ≡ take_frame p h hs (length bytes)
  unfolding on_header on_checked
  checks = rw (checked, on_checked) (ground (arith, ap (length {A = ℕ}) whole))

  one_round : next_round p ≡ taken (record q { buffer = [] }) (length bytes)
  unfolding next_round round
  one_round =
      let reads : parse_frame_header p.buffer ≡ complete h hs (length bytes) =
        ap parse_frame_header whole ∙ read in
      let sizes = parse_frame_header_sizes bytes h hs (length bytes) read in
      let some_bytes : 2 ≤ length p.buffer = subst (λ b. 2 ≤ length b) (sym whole) (omega arith) in
      ground (arith, reads, some_bytes, checks, takes)

empty-stop : (p : FrameParser) → p.buffer ≡ [] → next_round p ≡ stop
unfolding next_round
empty-stop p e = ground arith

check_frame-buffer :
    (p : FrameParser) (b : List ℕ) (h : FrameHeader)
    → check_frame (record p { buffer = b }) h ≡ check_frame p h
unfolding check_frame check_data
check_frame-buffer p b h = refl

abbrev with_buffer : List ℕ → Bool × FrameParser → Bool × FrameParser
with_buffer b (good, p) = (good, record p { buffer = b })

process_frame-buffer :
    (p : FrameParser) (b : List ℕ) (h : FrameHeader) (payload : List ℕ)
    → process_frame (record p { buffer = b }) h payload ≡ with_buffer b (process_frame p h payload)
unfolding process_frame deliver accumulate
process_frame-buffer p b h payload = ground arith

-- One call with one frame, from an empty buffer.
parse_one :
    (p q : FrameParser) (h : FrameHeader) (hs : ℕ) (payload bytes : List ℕ)
    → p.buffer ≡ []
    → parse_frame_header bytes ≡ complete h hs (length bytes)
    → extract_payload bytes h hs ≡ payload
    → check_frame p h ≡ none
    → process_frame p h payload ≡ (true, q)
    → parse p bytes ≡ (consumed (length bytes), record q { buffer = [] })
unfolding parse
parse_one p q h hs payload [] e read inside checked processed =
    absurd (omega (arith, parse_frame_header_sizes [] h hs 0 read))
parse_one p q h hs payload (b ∷ bs) e read inside checked processed =
    let whole : p.buffer ++ (b ∷ bs) ≡ b ∷ bs = ap (λ (l : List ℕ). l ++ (b ∷ bs)) e in
    let p' = record p { buffer = b ∷ bs } in
    let q' = record q { buffer = b ∷ bs } in
    let passed : check_frame p' h ≡ none = check_frame-buffer p (b ∷ bs) h ∙ checked in
    let kept : process_frame p' h payload ≡ (true, q') =
      process_frame-buffer p (b ∷ bs) h payload ∙ ap (with_buffer (b ∷ bs)) processed in
    rw whole (
      process_buffer-taken (suc (length bs)) p' 0
        (one_round p' q' h hs payload (b ∷ bs) refl read inside passed kept)
      ∙ process_buffer-stop (length bs) (record q { buffer = [] }) (0 + length (b ∷ bs))
          (empty-stop _ refl)
      ∙ ap (λ (n : ℕ). (consumed n, record q { buffer = [] })) (omega arith))

-- The limit lets `n` bytes more into the current message.
abbrev pub FitsIn : FrameParser → ℕ → Type 0
FitsIn p n = (p.max_message_size ≡ 0) ⊎ (length p.current.payload + n ≤ p.max_message_size)

-- The message under way with a data frame's payload.
abbrev pub joined : FrameParser → Opcode → List ℕ → Message
joined p op payload =
    if is_continuation op
    then record (p.current) { payload = p.current.payload ++ payload }
    else record { type = op; payload = payload; complete = false }

-- A text is UTF-8.
abbrev pub IsText : Message → Type 0
IsText m = (code m.type == code text) ≡ true → is_valid_utf8 m.payload ≡ true

-- The parser with `m` delivered.
abbrev pub with_message : FrameParser → Message → FrameParser
with_message p m = record p {
  messages = p.messages ++ (record m { complete = true } ∷ []);
  queued = p.queued ++ (message ∷ []);
  current = no_message;
  has_initial = false;
}

-- The parser after a data frame: the message goes on, or is delivered.
abbrev pub after_data : FrameParser → Bool → Opcode → List ℕ → FrameParser
after_data p fin op payload =
    if fin
    then with_message p (joined p op payload)
    else record p { current = joined p op payload; has_initial = true }

-- The parser after a control frame.
abbrev pub with_control : FrameParser → Opcode → List ℕ → FrameParser
with_control p op payload = record p {
  control_frames = p.control_frames ++ ((op, payload) ∷ []);
  queued = p.queued ++ (control ∷ []);
}

check_data_frame :
    (p : FrameParser) (h : FrameHeader)
    → is_control_frame h.op ≡ false
    → check_role p.role h.masked ≡ none
    → is_continuation h.op ≡ p.has_initial
    → FitsIn p h.payload_len
    → check_frame p h ≡ none
unfolding check_frame check_data
check_data_frame p h c admits expected fits = ground arith

process_data_frame :
    (p : FrameParser) (h : FrameHeader) (payload : List ℕ)
    → is_control_frame h.op ≡ false
    → is_continuation h.op ≡ p.has_initial
    → (h.fin ≡ true → IsText (joined p h.op payload))
    → process_frame p h payload ≡ (true, after_data p h.fin h.op payload)
unfolding process_frame deliver accumulate
process_data_frame p h payload c expected valid = ground arith

-- The same for an encoded frame: what is checked and done does not look at the key.
module _ (p : FrameParser) (e : Entropy) (fin : Bool) (op : Opcode) (masked : Bool) (key : List ℕ)
    (n : ℕ) (payload bytes : List ℕ) (empty : p.buffer ≡ []) (is_key : IsKey key)
    (gives : GivesKeys e) (are_bytes : All IsByte payload) (small : length payload < 2 ^ 63)
    (sent : encode_frame e (header_of fin op masked key n) payload ≡ done bytes) where
  parse_sent :
      (q : FrameParser)
      → ((k : List ℕ) → check_frame p (header_of fin op masked k (length payload)) ≡ none)
      → ((k : List ℕ)
          → process_frame p (header_of fin op masked k (length payload)) payload ≡ (true, q))
      → parse p bytes ≡ (consumed (length bytes), record q { buffer = [] })
  parse_sent q checked processed =
      let (k, used, back) =
        parse-encode_frame e fin op masked key n payload [] bytes is_key gives are_bytes small
          sent in
      let (hs, read, inside) = back in
      let h = header_of fin op masked k (length payload) in
      parse_one p q h hs payload bytes empty (ap parse_frame_header (sym (append-nil bytes)) ∙ read)
        (ap (λ b. extract_payload b h hs) (sym (append-nil bytes)) ∙ inside) (checked k)
        (processed k)

  -- An encoded control frame that comes to an empty buffer, masked as the parser's role asks, is
  -- queued with its payload, whatever message is under way, and nothing else changes. The key and the
  -- random keys have four bytes, and the payload fewer than 2 ^ 63.
  pub parse_control_frame :
      fin ≡ true
      → is_control_frame op ≡ true
      → check_role p.role masked ≡ none
      → parse p bytes
        ≡ (consumed (length bytes), record (with_control p op payload) { buffer = [] })
  unfolding check_frame process_frame
  parse_control_frame whole c admits =
      parse_sent (with_control p op payload) (λ k. ground arith) (λ k. ground arith)

  -- An encoded data frame that comes to an empty buffer joins the current message, and the last one
  -- delivers it, if the frame is masked as the parser's role asks, goes on with a message exactly
  -- when one is under way, fits the limit on the size, and does not end a text that is not UTF-8. The
  -- key and the random keys have four bytes, and the payload fewer than 2 ^ 63.
  pub parse_data_frame :
      is_control_frame op ≡ false
      → check_role p.role masked ≡ none
      → is_continuation op ≡ p.has_initial
      → FitsIn p (length payload)
      → (fin ≡ true → IsText (joined p op payload))
      → parse p bytes
        ≡ (consumed (length bytes), record (after_data p fin op payload) { buffer = [] })
  parse_data_frame c admits expected fits valid =
      parse_sent (after_data p fin op payload) (λ k. check_data_frame p _ c admits expected fits)
        (λ k. process_data_frame p _ payload c expected valid)
