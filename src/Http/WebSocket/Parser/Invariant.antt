-- ===== src/Http/WebSocket/Parser/Invariant.antt =====
-- What holds of frame_parser after every operation.
use elio.Prelude.{
  ℕ, zero, suc, ◌+◌, ◌≤◌, ◌≡◌, refl, subst, true, false, not, ◌&&◌, List, [], ◌∷◌, ◌++◌, length,
  take, drop, ◌==◌, arith, All, All-append, Option, some, none, length-append, ◌⊎◌, inl, inr,
  length-take-le, Bool-cases,
}
use elio.Http.WebSocket.Opcode.{text, code, is_control_frame}
use elio.Http.WebSocket.Header.{
  FrameHeader, ParseError, HeaderResult, incomplete, error, complete, parse_frame_header,
}
use elio.Http.WebSocket.Mask.{length-apply_mask}
use elio.Http.WebSocket.Utf8.{is_valid_utf8}
use elio.Http.WebSocket.Parser.Progress.{
  Round-cases, process_buffer-stop, process_buffer-taken, process_buffer-failed,
}
use elio.Http.WebSocket.Parser.{
  FrameParser, Message, QueuedFrameKind, message, control, check_data, check_frame, is_continuation,
  extract_payload, accumulate, deliver, process_frame, fail, Round, stop, taken, failed, take_frame,
  on_checked, on_header, round, next_round, process_buffer, parse, new_parser, reset,
}

abbrev pub messages_in : List QueuedFrameKind → ℕ
messages_in [] = 0
messages_in (message ∷ ks) = suc (messages_in ks)
messages_in (control ∷ ks) = messages_in ks

abbrev pub controls_in : List QueuedFrameKind → ℕ
controls_in [] = 0
controls_in (message ∷ ks) = controls_in ks
controls_in (control ∷ ks) = suc (controls_in ks)

messages_in-append :
    (ks js : List QueuedFrameKind) → messages_in (ks ++ js) ≡ messages_in ks + messages_in js
messages_in-append [] js = omega arith
messages_in-append (message ∷ ks) js = omega (arith, messages_in-append ks js)
messages_in-append (control ∷ ks) js = messages_in-append ks js

controls_in-append :
    (ks js : List QueuedFrameKind) → controls_in (ks ++ js) ≡ controls_in ks + controls_in js
controls_in-append [] js = omega arith
controls_in-append (message ∷ ks) js = controls_in-append ks js
controls_in-append (control ∷ ks) js = omega (arith, controls_in-append ks js)

-- A message is within the limit, where 0 is none.
abbrev pub IsWithin : ℕ → List ℕ → Type 0
IsWithin limit payload = (limit ≡ 0) ⊎ (length payload ≤ limit)

-- A delivered message is complete, within the limit, and UTF-8 if it is a text.
pub record IsDelivered (limit : ℕ) (m : Message) : Type 0 where
  pub whole : m.complete ≡ true
  pub within : IsWithin limit m.payload
  pub is_text : (code m.type == code text) ≡ true → is_valid_utf8 m.payload ≡ true

pub record IsValid (p : FrameParser) : Type 0 where
  pub message_count : messages_in p.queued ≡ length p.messages
  pub control_count : controls_in p.queued ≡ length p.control_frames
  pub current_within : IsWithin p.max_message_size p.current.payload
  pub between : p.has_initial ≡ false → p.current.payload ≡ []
  pub delivered : All (IsDelivered p.max_message_size) p.messages

pub new_parser-IsValid : IsValid new_parser
unfolding new_parser
new_parser-IsValid = record {
  message_count = refl;
  control_count = refl;
  current_within = inr (omega arith);
  between = λ h. refl;
  delivered = tt;
}

pub reset-IsValid : (p : FrameParser) → IsValid (reset p)
unfolding reset
reset-IsValid p = record {
  message_count = refl;
  control_count = refl;
  current_within = inr (omega arith);
  between = λ h. refl;
  delivered = tt;
}

length-extract_payload :
    (bytes : List ℕ) (h : FrameHeader) (hs : ℕ)
    → length (extract_payload bytes h hs) ≤ h.payload_len
unfolding extract_payload
length-extract_payload bytes h hs = ground (
  arith,
  length-apply_mask (take h.payload_len (drop hs bytes)) h.mask_key 0,
  length-take-le h.payload_len (drop hs bytes),
)

-- What `check_frame` leaves of the size limit.
abbrev MayJoin : FrameParser → FrameHeader → Type 0
MayJoin p h =
    is_control_frame h.op ≡ false
    → (is_continuation h.op ≡ p.has_initial)
      × ((p.max_message_size ≡ 0) ⊎ (length p.current.payload + h.payload_len ≤ p.max_message_size))

check_frame-MayJoin : (p : FrameParser) (h : FrameHeader) → check_frame p h ≡ none → MayJoin p h
unfolding check_frame check_data
check_frame-MayJoin p h e c = ground arith

accumulate-IsValid :
    (p : FrameParser) (h : FrameHeader) (payload : List ℕ)
    → length payload ≤ h.payload_len
    → is_control_frame h.op ≡ false
    → MayJoin p h
    → IsValid p
    → IsValid (accumulate p h payload)
unfolding accumulate
accumulate-IsValid p h payload l c j v =
    ground (arith, j c, length-append p.current.payload payload)

deliver-IsValid : (p : FrameParser) → IsValid p → IsValid (deliver p).1
unfolding deliver
deliver-IsValid p v =
    elim (Bool-cases (code p.current.type == code text && not (is_valid_utf8 p.current.payload))) [
      | inl bad ↦ rw bad v
      | inr good ↦ rw good (record {
        message_count = omega (
          arith,
          messages_in-append p.queued (message ∷ []),
          length-append p.messages (sent ∷ []),
          v.message_count,
        );
        control_count = omega (arith, controls_in-append p.queued (message ∷ []), v.control_count);
        current_within = inr (omega arith);
        between = λ h. refl;
        delivered =
            All-append (IsDelivered p.max_message_size) p.messages (sent ∷ []) v.delivered
              (sent-IsDelivered good, tt);
      })
    ]
  where
    sent : Message
    sent = record (p.current) { complete = true }

    sent-IsDelivered :
        (code p.current.type == code text && not (is_valid_utf8 p.current.payload)) ≡ false
        → IsDelivered p.max_message_size sent
    sent-IsDelivered good = record {
      whole = refl;
      within = v.current_within;
      is_text = λ t. ground arith;
    }

process_frame-IsValid :
    (p : FrameParser) (h : FrameHeader) (payload : List ℕ)
    → length payload ≤ h.payload_len
    → MayJoin p h
    → IsValid p
    → IsValid (process_frame p h payload).1
unfolding process_frame
process_frame-IsValid p h payload l j v = elim (Bool-cases (is_control_frame h.op)) [
  | inl c ↦ rw c (record {
    message_count = omega (arith, messages_in-append p.queued (control ∷ []), v.message_count);
    control_count = omega (
      arith,
      controls_in-append p.queued (control ∷ []),
      length-append p.control_frames ((h.op, payload) ∷ []),
      v.control_count,
    );
    current_within = v.current_within;
    between = v.between;
    delivered = v.delivered;
  })
  | inr c ↦
      let a = accumulate-IsValid p h payload l c j v in
      ground (arith, deliver-IsValid (accumulate p h payload) a)
]

-- Every parser that a round leads to is valid.
abbrev RoundIsValid : Round → Type 0
RoundIsValid stop = Unit
RoundIsValid (taken q n) = IsValid q
RoundIsValid (failed q) = IsValid q

with_buffer-IsValid : (p : FrameParser) (b : List ℕ) → IsValid p → IsValid (record p { buffer = b })
with_buffer-IsValid p b v = record {
  message_count = v.message_count;
  control_count = v.control_count;
  current_within = v.current_within;
  between = v.between;
  delivered = v.delivered;
}

fail-IsValid : (p : FrameParser) (e : ParseError) (c : ℕ) → IsValid p → IsValid (fail p e c)
unfolding fail
fail-IsValid p e c v = record {
  message_count = v.message_count;
  control_count = v.control_count;
  current_within = v.current_within;
  between = v.between;
  delivered = v.delivered;
}

take_frame-IsValid :
    (p : FrameParser) (h : FrameHeader) (hs fs : ℕ)
    → check_frame p h ≡ none
    → IsValid p
    → RoundIsValid (take_frame p h hs fs)
unfolding take_frame
take_frame-IsValid p h hs fs e v =
    let payload = extract_payload p.buffer h hs in
    let q =
      process_frame-IsValid p h payload (length-extract_payload p.buffer h hs)
        (check_frame-MayJoin p h e) v in
    elim (Bool-cases (process_frame p h payload).0) [
      | inl good ↦ rw good (with_buffer-IsValid (process_frame p h payload).1 (drop fs p.buffer) q)
      | inr bad ↦ rw bad (fail-IsValid _ _ _ q)
    ]

on_checked-IsValid :
    (p : FrameParser) (h : FrameHeader) (hs fs : ℕ) (o : Option (ParseError × ℕ))
    → check_frame p h ≡ o
    → IsValid p
    → RoundIsValid (on_checked p h hs fs o)
unfolding on_checked
on_checked-IsValid p h hs fs (some (x, c)) e v = fail-IsValid p x c v
on_checked-IsValid p h hs fs none e v = ground (arith, take_frame-IsValid p h hs fs e v)

on_header-IsValid : (p : FrameParser) (r : HeaderResult) → IsValid p → RoundIsValid (on_header p r)
unfolding on_header
on_header-IsValid p incomplete v = tt
on_header-IsValid p (error e) v = fail-IsValid p e _ v
on_header-IsValid p (complete h hs fs) v = on_checked-IsValid p h hs fs (check_frame p h) refl v

next_round-IsValid : (p : FrameParser) → IsValid p → RoundIsValid (next_round p)
unfolding next_round round
next_round-IsValid p v = ground (arith, on_header-IsValid p (parse_frame_header p.buffer) v)

process_buffer-IsValid :
    (f : ℕ) (p : FrameParser) (total : ℕ) → IsValid p → IsValid (process_buffer f p total).1
process_buffer-IsValid zero p total v = unfold process_buffer in v
process_buffer-IsValid (suc f) p total v = elim (Round-cases (next_round p)) [
  | inl (inl e) ↦ rw (process_buffer-stop f p total e) v
  | inl (inr (q, e)) ↦
      rw (process_buffer-failed f p total e) (subst RoundIsValid e (next_round-IsValid p v))
  | inr (q, n, e) ↦
      rw (process_buffer-taken f p total e)
        (process_buffer-IsValid f q (total + n) (subst RoundIsValid e (next_round-IsValid p v)))
]

-- Every call keeps the parser valid, also one that is refused.
pub parse-IsValid : (p : FrameParser) (xs : List ℕ) → IsValid p → IsValid (parse p xs).1
unfolding parse
parse-IsValid p [] v = v
parse-IsValid p (b ∷ bs) v =
    process_buffer-IsValid _ _ 0 (with_buffer-IsValid p (p.buffer ++ (b ∷ bs)) v)
