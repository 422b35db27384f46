-- ===== src/Http/WebSocket/Header/Sizes.antt =====
-- A complete header names the size of its frame.
use elio.Prelude.{ℕ, ◌+◌, ◌≤◌, ◌≡◌, refl, List, length, get_or, arith}
use elio.Http.WebSocket.Header.{
  FrameHeader, LengthResult, more, bad, len, HeaderResult, complete, parse_length, finish_header,
  parse_second, on_length, first_byte, parse_frame_header,
}

-- The frame is the header and the payload, and the header takes two bytes or more of the buffer.
abbrev pub IsSized : List ℕ → HeaderResult → Type 0
IsSized xs r =
    (h : FrameHeader) (hs fs : ℕ)
    → r ≡ complete h hs fs
    → (fs ≡ hs + h.payload_len) × (2 ≤ hs) × (hs ≤ length xs)

finish_header_sizes :
    (header : FrameHeader) (xs : List ℕ) (size : ℕ)
    → 2 ≤ size
    → size ≤ length xs
    → IsSized xs (finish_header header xs size)
unfolding finish_header
finish_header_sizes header xs size p q h hs fs e = ground arith

parse_length_sizes :
    (xs : List ℕ) (n size : ℕ)
    → 2 ≤ length xs
    → parse_length xs ≡ len n size
    → (2 ≤ size) × (size ≤ length xs)
unfolding parse_length
parse_length_sizes xs n size h e = ground arith

on_length_sizes :
    (header : FrameHeader) (xs : List ℕ) (r : LengthResult)
    → 2 ≤ length xs
    → parse_length xs ≡ r
    → IsSized xs (on_length header xs r)
unfolding on_length
on_length_sizes header xs more l e h hs fs d = ground arith
on_length_sizes header xs (bad x) l e h hs fs d = ground arith
on_length_sizes header xs (len n size) l e h hs fs d =
    let s = parse_length_sizes xs n size l e in finish_header_sizes _ xs size s.0 s.1 h hs fs d

parse_second_sizes :
    (header : FrameHeader) (xs : List ℕ) → 2 ≤ length xs → IsSized xs (parse_second header xs)
unfolding parse_second
parse_second_sizes header xs p = on_length_sizes header xs (parse_length xs) p refl

pub parse_frame_header_sizes : (xs : List ℕ) → IsSized xs (parse_frame_header xs)
unfolding parse_frame_header
parse_frame_header_sizes xs h hs fs e =
    ground
      (arith, λ (p : 2 ≤ length xs). parse_second_sizes (first_byte (get_or xs 0 0)) xs p h hs fs)
