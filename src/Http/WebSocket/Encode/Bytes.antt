-- ===== src/Http/WebSocket/Encode/Bytes.antt =====
-- What parse_frame_header reads from the bytes that encode_frame writes.
use elio.Prelude.{
  ℕ, suc, ◌+◌, ◌*◌, ◌/◌, ◌%◌, ◌^◌, ◌≤◌, ◌<◌, ◌≡◌, refl, ◌∙◌, Bool, true, false, not, ◌&&◌, List,
  ◌∷◌, ◌++◌, length, get_or, leb→le, leb, ◌==◌, if◌then◌else◌, bit_and, bit_or, arith, Bool-cases,
  inl, inr,
}
use elio.Prelude.Bits.{bit_or_shift, bit_and_pow, holds_below, holds_below_at}
use elio.Http.WebSocket.Opcode.{
  Opcode, continuation, text, binary, close, ping, pong, of_code, is_valid_opcode,
}
use elio.Http.WebSocket.Header.{
  FrameHeader, first_byte, has_bit, len, length_16, length_64, parse_length, no_key,
}
use elio.Http.WebSocket.Encode.{byte_of, first_byte_of, length_bytes}

abbrev pub plain : Bool → Opcode → FrameHeader
plain fin op = record {
  fin = fin;
  rsv1 = false;
  rsv2 = false;
  rsv3 = false;
  op = op;
  masked = false;
  payload_len = 0;
  mask_key = no_key;
}

-- The first byte is read back.
pub first_byte-first_byte_of :
    (fin : Bool) (op : Opcode)
    → (is_valid_opcode (bit_and (first_byte_of (plain fin op)) 0x0F) ≡ true)
      × (first_byte (first_byte_of (plain fin op)) ≡ plain fin op)
unfolding first_byte_of first_byte is_valid_opcode of_code
first_byte-first_byte_of true continuation = (refl, refl)
first_byte-first_byte_of true text = (refl, refl)
first_byte-first_byte_of true binary = (refl, refl)
first_byte-first_byte_of true close = (refl, refl)
first_byte-first_byte_of true ping = (refl, refl)
first_byte-first_byte_of true pong = (refl, refl)
first_byte-first_byte_of false continuation = (refl, refl)
first_byte-first_byte_of false text = (refl, refl)
first_byte-first_byte_of false binary = (refl, refl)
first_byte-first_byte_of false close = (refl, refl)
first_byte-first_byte_of false ping = (refl, refl)
first_byte-first_byte_of false pong = (refl, refl)

mask_bit : Bool → ℕ
mask_bit masked = if masked then 0x80 else 0x00

reads_short : Bool → ℕ → Bool
reads_short masked n =
    (bit_and (bit_or (mask_bit masked) n) 0x7F == n)
    && (if masked
        then has_bit (bit_or (mask_bit masked) n) 0x80
        else not (has_bit (bit_or (mask_bit masked) n) 0x80))

short_table : (masked : Bool) → holds_below (reads_short masked) 126 ≡ true
unfolding holds_below reads_short mask_bit
short_table true = refl
short_table false = refl

-- A length up to 125 shares its byte with the mask bit.
short_length :
    (masked : Bool) (n : ℕ)
    → n ≤ 125
    → (bit_and (bit_or (mask_bit masked) n) 0x7F ≡ n)
      × (has_bit (bit_or (mask_bit masked) n) 0x80 ≡ masked)
unfolding reads_short
short_length masked n h =
    ground
      (arith, holds_below_at (reads_short masked) 126 {x = n} (omega arith) (short_table masked))

length_16_bytes :
    (b1 b2 n : ℕ) (rest : List ℕ)
    → n ≤ 65535
    → length_16 (b1 ∷ b2 ∷ byte_of n 8 ∷ byte_of n 0 ∷ rest) ≡ n
unfolding length_16
length_16_bytes b1 b2 n rest h =
    bit_or_shift 8 (n / 2 ^ 8 % 256) (n / 2 ^ 0 % 256) (omega arith) ∙ omega arith

-- One byte more, `k` bits up.
join : (k a b v w : ℕ) → v ≡ a * 2 ^ k → w < 2 ^ k → b ≡ a * 2 ^ k + w → bit_or v w ≡ b
join k a b v w e h f = rw (e, f) (bit_or_shift k a w h)

length_64_bytes :
    (b1 b2 n : ℕ) (rest : List ℕ)
    → n < 2 ^ 64
    → length_64 (
        b1
        ∷ b2
        ∷ byte_of n 56
        ∷ byte_of n 48
        ∷ byte_of n 40
        ∷ byte_of n 32
        ∷ byte_of n 24
        ∷ byte_of n 16
        ∷ byte_of n 8
        ∷ byte_of n 0
        ∷ rest)
      ≡ n
unfolding length_64
length_64_bytes b1 b2 n rest h =
    join 8 (n / 2 ^ 8) n _ _
      (join 16 (n / 2 ^ 16) (n / 2 ^ 8 * 2 ^ 8) _ _
        (join 24 (n / 2 ^ 24) (n / 2 ^ 16 * 2 ^ 16) _ _
          (join 32 (n / 2 ^ 32) (n / 2 ^ 24 * 2 ^ 24) _ _
            (join 40 (n / 2 ^ 40) (n / 2 ^ 32 * 2 ^ 32) _ _
              (join 48 (n / 2 ^ 48) (n / 2 ^ 40 * 2 ^ 40) _ _
                (join 56 (n / 2 ^ 56) (n / 2 ^ 48 * 2 ^ 48) _ _ (omega arith) (omega arith)
                  (omega arith))
                (omega arith) (omega arith))
              (omega arith) (omega arith))
            (omega arith) (omega arith))
          (omega arith) (omega arith))
        (omega arith) (omega arith))
      (omega arith) (omega arith)

-- What is to be read from a second byte, with or without the mask bit, and what follows it.
abbrev Reads : Bool → ℕ → ℕ → List ℕ → ℕ → ℕ → Type 0
Reads masked b1 b2 tail n size =
    (parse_length (b1 ∷ b2 ∷ tail) ≡ len n size) × (has_bit b2 0x80 ≡ masked)

Reads-to_125 :
    (masked : Bool) (b1 n : ℕ) (rest : List ℕ)
    → n ≤ 125
    → Reads masked b1 (bit_or (mask_bit masked) n) rest n 2
unfolding parse_length
Reads-to_125 masked b1 n rest h = let s = short_length masked n h in (rw s.0 (ground arith), s.1)

Reads-to_65535 :
    (masked : Bool) (b1 n : ℕ) (rest : List ℕ)
    → 125 < n
    → n ≤ 65535
    → Reads masked b1 (bit_or (mask_bit masked) 126) (byte_of n 8 ∷ byte_of n 0 ∷ rest) n 4
unfolding parse_length mask_bit
Reads-to_65535 true b1 n rest h k = (rw (length_16_bytes b1 254 n rest k) (ground arith), refl)
Reads-to_65535 false b1 n rest h k = (rw (length_16_bytes b1 126 n rest k) (ground arith), refl)

Reads-beyond :
    (masked : Bool) (b1 n : ℕ) (rest : List ℕ)
    → 65535 < n
    → n < 2 ^ 63
    → Reads masked b1
        (bit_or (mask_bit masked) 127)
        (byte_of n 56
          ∷ byte_of n 48
          ∷ byte_of n 40
          ∷ byte_of n 32
          ∷ byte_of n 24
          ∷ byte_of n 16
          ∷ byte_of n 8
          ∷ byte_of n 0
          ∷ rest)
        n
        10
unfolding parse_length mask_bit
Reads-beyond true b1 n rest h k =
    (rw (length_64_bytes b1 255 n rest (omega arith), bit_and_pow 63 n k) (ground arith), refl)
Reads-beyond false b1 n rest h k =
    (rw (length_64_bytes b1 127 n rest (omega arith), bit_and_pow 63 n k) (ground arith), refl)

-- The length and the mask bit are read back, and the header's size up to the key is what is written.
pub parse_length-length_bytes :
    (masked : Bool) (b1 n : ℕ) (rest : List ℕ)
    → n < 2 ^ 63
    → (parse_length (b1 ∷ (length_bytes masked n ++ rest))
        ≡ len n (suc (length (length_bytes masked n))))
      × (has_bit (get_or (b1 ∷ (length_bytes masked n ++ rest)) 1 0) 0x80 ≡ masked)
unfolding length_bytes mask_bit
parse_length-length_bytes masked b1 n rest h = elim (Bool-cases (leb n 125)) [
  | inl short ↦ rw short (Reads-to_125 masked b1 n rest (leb→le _ _ short))
  | inr long ↦ elim (Bool-cases (leb n 65535)) [
    | inl mid ↦ rw (long, mid) (Reads-to_65535 masked b1 n rest (ground arith) (leb→le _ _ mid))
    | inr big ↦ rw (long, big) (Reads-beyond masked b1 n rest (ground arith) h)
  ]
]

pub length_bytes_pos : (masked : Bool) (n : ℕ) → 1 ≤ length (length_bytes masked n)
unfolding length_bytes
length_bytes_pos masked n = ground arith
