-- ===== src/Http/WebSocket/Encode/RoundTrip.antt =====
-- parse_frame_header and extract_payload read back what encode_frame writes.
use elio.Prelude.{
  ℕ, suc, ◌+◌, ◌^◌, ◌≤◌, ◌<◌, ◌≡◌, refl, sym, ◌∙◌, subst, Bool, true, false, not, ◌&&◌, List, ◌∷◌,
  ◌++◌, length, take, drop, ltb, get_or, arith, length-append, take_all, drop_all, append_assoc,
  All, if◌then◌else◌, bit_and,
}
use elio.Http.WebSocket.Opcode.{Opcode, is_control_frame, is_valid_opcode}
use elio.Http.WebSocket.Header.{
  FrameHeader, complete, no_key, first_byte, finish_header, parse_second, on_length,
  parse_frame_header,
}
use elio.Http.WebSocket.Mask.{
  Entropy, Attempt, done, IsByte, apply_mask, generate_mask_key, apply_mask_twice,
  length-apply_mask,
}
use elio.Http.WebSocket.Encode.{first_byte_of, length_bytes, frame_key, encode_frame}
use elio.Http.WebSocket.Encode.Bytes.{
  plain, first_byte-first_byte_of, parse_length-length_bytes, length_bytes_pos,
}
use elio.Http.WebSocket.Parser.{extract_payload}

-- A header without reserved bits.
abbrev pub header_of : Bool → Opcode → Bool → List ℕ → ℕ → FrameHeader
header_of fin op masked key n = record {
  fin = fin;
  rsv1 = false;
  rsv2 = false;
  rsv3 = false;
  op = op;
  masked = masked;
  payload_len = n;
  mask_key = key;
}

-- A first byte without reserved bits leads to the second.
parse_to_second :
    (bytes : List ℕ) (fin : Bool) (op : Opcode)
    → 2 ≤ length bytes
    → is_valid_opcode (bit_and (get_or bytes 0 0) 0x0F) ≡ true
    → first_byte (get_or bytes 0 0) ≡ plain fin op
    → parse_frame_header bytes ≡ parse_second (plain fin op) bytes
unfolding parse_frame_header
parse_to_second bytes fin op h v e = rw (v, e) (ground arith)

-- Behind the first byte and the length bytes the parser goes on with the control checks.
parse_to_finish :
    (fin masked : Bool) (op : Opcode) (n : ℕ) (rest : List ℕ)
    → n < 2 ^ 63
    → let bytes = first_byte_of (plain fin op) ∷ (length_bytes masked n ++ rest) in
      parse_frame_header bytes
      ≡ finish_header
          (header_of fin op masked no_key n)
          bytes
          (suc (length (length_bytes masked n)))
unfolding parse_second on_length
parse_to_finish fin masked op n rest h =
    let b = first_byte-first_byte_of fin op in
    let l = parse_length-length_bytes masked (first_byte_of (plain fin op)) n rest h in
    let two = length-append (length_bytes masked n) rest in
    parse_to_second (first_byte_of (plain fin op) ∷ (length_bytes masked n ++ rest)) fin op
      (omega (arith, length_bytes_pos masked n, two)) b.0 b.1
    ∙ rw (l.0, on_length, l.1)

-- A header may be sent: a control frame is whole, and small.
abbrev MaySend : Bool → Opcode → ℕ → Type 0
MaySend fin op n =
    ((is_control_frame op && not fin) ≡ false) × ((is_control_frame op && ltb 125 n) ≡ false)

finish_unmasked :
    (fin : Bool) (op : Opcode) (n size : ℕ) (bytes : List ℕ)
    → MaySend fin op n
    → finish_header (header_of fin op false no_key n) bytes size
      ≡ complete (header_of fin op false no_key n) size (size + n)
unfolding finish_header
finish_unmasked fin op n size bytes h = rw (h.0, h.1)

finish_masked :
    (fin : Bool) (op : Opcode) (n : ℕ) (front key rest : List ℕ)
    → MaySend fin op n
    → length key ≡ 4
    → finish_header (header_of fin op true no_key n) (front ++ (key ++ rest)) (length front)
      ≡ complete (header_of fin op true key n) (length front + 4) (length front + 4 + n)
unfolding finish_header
finish_masked fin op n front key rest h k =
    rw (h.0, h.1)
      (ground (
        arith,
        length-append front (key ++ rest),
        length-append key rest,
        drop_all front (key ++ rest),
        take_all key rest,
      ))

drop_both :
    {A : Type 0} (n : ℕ) (front key xs : List A)
    → n ≡ length front + length key
    → drop n (front ++ (key ++ xs)) ≡ xs
drop_both n front key xs e =
    rw (e, ← append_assoc front key xs, ← length-append front key) (drop_all (front ++ key) xs)

extract_masked :
    (fin : Bool) (op : Opcode) (front key payload rest : List ℕ)
    → length key ≡ 4
    → All IsByte payload
    → All IsByte key
    → extract_payload
        (front ++ (key ++ (apply_mask payload key 0 ++ rest)))
        (header_of fin op true key (length payload))
        (length front + 4)
      ≡ payload
unfolding extract_payload
extract_masked fin op front key payload rest k hp hk =
    let masked = apply_mask payload key 0 in
    let taken : take (length payload) (masked ++ rest) ≡ masked =
      subst (λ (m : ℕ). take m (masked ++ rest) ≡ masked) (length-apply_mask payload key 0)
        (take_all masked rest) in
    rw (drop_both (length front + 4) front key (masked ++ rest) (omega arith), taken)
      (apply_mask_twice payload key 0 hp hk)

extract_unmasked :
    (fin : Bool) (op : Opcode) (front payload rest : List ℕ)
    → extract_payload
        (front ++ (payload ++ rest))
        (header_of fin op false no_key (length payload))
        (length front)
      ≡ payload
unfolding extract_payload
extract_unmasked fin op front payload rest =
    rw (drop_all front (payload ++ rest), take_all payload rest)

-- What `bytes`, with anything behind, are read as: the header with the key and the length of
-- `payload`, and `payload` itself.
abbrev pub ReadsBack : Bool → Opcode → Bool → List ℕ → List ℕ → List ℕ → List ℕ → Type 0
ReadsBack fin op masked key payload bytes rest =
    (hs : ℕ) × (parse_frame_header (bytes ++ rest)
      ≡ complete (header_of fin op masked key (length payload)) hs (length bytes))
    × (extract_payload (bytes ++ rest) (header_of fin op masked key (length payload)) hs ≡ payload)

-- The bytes of a frame, where it is not refused.
abbrev masked_bytes : Bool → Opcode → List ℕ → List ℕ → List ℕ
masked_bytes fin op key payload =
    first_byte_of (plain fin op)
    ∷ (length_bytes true (length payload) ++ (key ++ apply_mask payload key 0))

abbrev unmasked_bytes : Bool → Opcode → List ℕ → List ℕ
unmasked_bytes fin op payload =
    first_byte_of (plain fin op) ∷ (length_bytes false (length payload) ++ payload)

masked-ReadsBack :
    (fin : Bool) (op : Opcode) (key payload rest : List ℕ)
    → MaySend fin op (length payload)
    → length key ≡ 4
    → All IsByte payload
    → All IsByte key
    → length payload < 2 ^ 63
    → ReadsBack fin op true key payload (masked_bytes fin op key payload) rest
masked-ReadsBack fin op key payload rest s k hp hk h =
    let front = first_byte_of (plain fin op) ∷ length_bytes true (length payload) in
    let masked = apply_mask payload key 0 in
    let size : length (masked_bytes fin op key payload) ≡ length front + 4 + length payload =
      omega (
        arith,
        length-append (length_bytes true (length payload)) (key ++ masked),
        length-append key masked,
        length-apply_mask payload key 0,
      ) in
    let shape : masked_bytes fin op key payload ++ rest ≡ front ++ (key ++ (masked ++ rest)) =
      simp append_assoc in
    (
      length front + 4,
      rw (shape, size)
          (parse_to_finish fin true op (length payload) (key ++ (masked ++ rest)) h
            ∙ finish_masked fin op (length payload) front key (masked ++ rest) s k),
      rw shape (extract_masked fin op front key payload rest k hp hk),
    )

unmasked-ReadsBack :
    (fin : Bool) (op : Opcode) (payload rest : List ℕ)
    → MaySend fin op (length payload)
    → length payload < 2 ^ 63
    → ReadsBack fin op false no_key payload (unmasked_bytes fin op payload) rest
unmasked-ReadsBack fin op payload rest s h =
    let front = first_byte_of (plain fin op) ∷ length_bytes false (length payload) in
    let size : length (unmasked_bytes fin op payload) ≡ length front + length payload =
      omega (arith, length-append (length_bytes false (length payload)) payload) in
    let shape : unmasked_bytes fin op payload ++ rest ≡ front ++ (payload ++ rest) =
      simp append_assoc in
    (
      length front,
      rw (shape, size)
          (parse_to_finish fin false op (length payload) (payload ++ rest) h
            ∙ finish_unmasked fin op (length payload) (length front) _ s),
      rw shape (extract_unmasked fin op front payload rest),
    )

-- A key of four bytes.
abbrev pub IsKey : List ℕ → Type 0
IsKey key = (length key ≡ 4) × All IsByte key

-- What the system fills in is a key.
abbrev pub GivesKeys : Entropy → Type 0
GivesKeys e = (key : List ℕ) → generate_mask_key e ≡ done key → IsKey key

-- The key in the frame.
abbrev pub sent_key : Entropy → Bool → List ℕ → Attempt (List ℕ)
sent_key e masked key = if masked then frame_key e key else done no_key

frame_key-IsKey :
    (e : Entropy) (key k : List ℕ) → IsKey key → GivesKeys e → frame_key e key ≡ done k → IsKey k
unfolding frame_key
frame_key-IsKey e key k good gives h = ground (arith, gives k)

first_byte_of-plain :
    (fin masked : Bool) (op : Opcode) (key : List ℕ) (n : ℕ)
    → first_byte_of (header_of fin op masked key n) ≡ first_byte_of (plain fin op)
unfolding first_byte_of
first_byte_of-plain fin masked op key n = refl

module _ (e : Entropy) (fin : Bool) (op : Opcode) (key : List ℕ) (n : ℕ)
    (payload bytes : List ℕ) where
  encoded_unmasked :
      encode_frame e (header_of fin op false key n) payload ≡ done bytes
      → MaySend fin op (length payload) × (bytes ≡ unmasked_bytes fin op payload)
  unfolding encode_frame
  encoded_unmasked h = ground (arith, first_byte_of-plain fin false op key n)

  encoded_masked :
      encode_frame e (header_of fin op true key n) payload ≡ done bytes
      → (k : List ℕ) × MaySend fin op (length payload)
        × (frame_key e key ≡ done k)
        × (bytes ≡ masked_bytes fin op k payload)
  unfolding encode_frame
  encoded_masked h = ground (arith, first_byte_of-plain fin true op key n)

-- A frame that is encoded without reserved bits, with a key of four bytes, random keys of four bytes,
-- and a payload of fewer than 2 ^ 63 bytes, is read back, with anything behind it: the same header,
-- with the key that was used and the payload's length, the frame's size, and the unmasked payload.
pub parse-encode_frame :
    (e : Entropy) (fin : Bool) (op : Opcode) (masked : Bool) (key : List ℕ) (n : ℕ)
    (payload rest bytes : List ℕ)
    → IsKey key
    → GivesKeys e
    → All IsByte payload
    → length payload < 2 ^ 63
    → encode_frame e (header_of fin op masked key n) payload ≡ done bytes
    → (k : List ℕ) × (sent_key e masked key ≡ done k) × ReadsBack fin op masked k payload bytes rest
parse-encode_frame e fin op true key n payload rest bytes ik g hp h sent =
    let (k, s, used, shape) = encoded_masked e fin op key n payload bytes sent in
    let good = frame_key-IsKey e key k ik g used in
    let read = masked-ReadsBack fin op k payload rest s good.0 hp good.1 h in
    (k, used, subst (λ b. ReadsBack fin op true k payload b rest) (sym shape) read)
parse-encode_frame e fin op false key n payload rest bytes ik g hp h sent =
    let (s, shape) = encoded_unmasked e fin op key n payload bytes sent in
    let read = unmasked-ReadsBack fin op payload rest s h in
    (no_key, refl, subst (λ b. ReadsBack fin op false no_key payload b rest) (sym shape) read)
