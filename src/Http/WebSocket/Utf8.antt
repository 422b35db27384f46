-- ===== src/Http/WebSocket/Utf8.antt =====
-- is_valid_utf8 of include/elio/http/websocket_frame.hpp. The index `i` is the list from `i` on, and
-- each round takes at least one byte, so the length is fuel enough.
pub mod Ranges
pub mod Scalars
use elio.Prelude.{
  ℕ, zero, suc, ◌+◌, ◌-◌, Bool, true, false, not, ◌&&◌, ◌||◌, List, [], ◌∷◌, length, get_or, drop,
  ltb, leb, ◌==◌, if◌then◌else◌, bit_and,
}

-- The length that the first byte announces; 0 if it announces none.
unfoldable pub sequence_length : ℕ → ℕ
sequence_length c =
    if leb c 0x7F
    then 1
    else if bit_and c 0xE0 == 0xC0
    then 2
    else if bit_and c 0xF0 == 0xE0
    then 3
    else if bit_and c 0xF8 == 0xF0
    then 4
    else 0

-- `(b & 0xC0) == 0x80`
unfoldable pub is_continuation_byte : ℕ → Bool
is_continuation_byte b = bit_and b 0xC0 == 0x80

-- The continuation bytes from `j` to `len - 1`, `n` of them left.
unfoldable pub continued : List ℕ → ℕ → ℕ → Bool
continued s j zero = true
continued s j (suc n) = is_continuation_byte (get_or s j 0) && continued s (j + 1) n

-- The rejected first and second bytes: overlong forms, surrogates, and beyond U+10FFFF.
unfoldable pub is_excluded : ℕ → ℕ → ℕ → Bool
is_excluded len c b =
    (len == 2 && ltb c 0xC2)
    || ((len == 3 && ((c == 0xE0 && ltb b 0xA0) || (c == 0xED && leb 0xA0 b)))
        || (len == 4 && ((c == 0xF0 && ltb b 0x90) || ((c == 0xF4 && ltb 0x8F b) || ltb 0xF4 c))))

-- One round, at a list that is not empty: the length of a valid sequence, or 0.
unfoldable pub sequence : List ℕ → ℕ
sequence s =
    let c = get_or s 0 0 in
    let n = sequence_length c in
    if n == 0 || ltb (length s) n
    then 0
    else if not (continued s 1 (n - 1))
    then 0
    else if is_excluded n c (get_or s 1 0)
    then 0
    else n

unfoldable pub utf8_loop : ℕ → List ℕ → Bool
utf8_loop fuel [] = true
utf8_loop zero (c ∷ s) = false
utf8_loop (suc fuel) (c ∷ s) =
    let n = sequence (c ∷ s) in
    let rest = utf8_loop fuel (drop n (c ∷ s)) in if n == 0 then false else rest

unfoldable pub is_valid_utf8 : List ℕ → Bool
is_valid_utf8 s = utf8_loop (length s) s
