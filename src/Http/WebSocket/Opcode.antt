-- ===== src/Http/WebSocket/Opcode.antt =====
-- Opcodes and close codes of include/elio/http/websocket_frame.hpp.
use elio.Prelude.{ℕ, Bool, true, ◌&&◌, ◌||◌, ◌≡◌, refl, arith, leb, ◌==◌, if◌then◌else◌}

pub data Opcode : Type 0 where
  continuation text binary close ping pong : Opcode

-- The enumerators' values.
abbrev pub code : Opcode → ℕ
code continuation = 0x0
code text = 0x1
code binary = 0x2
code close = 0x8
code ping = 0x9
code pong = 0xA

-- The conversion from a byte, where `is_valid_opcode` holds.
unfoldable pub of_code : ℕ → Opcode
of_code n =
    if n == 0x0
    then continuation
    else if n == 0x1
    then text
    else if n == 0x2
    then binary
    else if n == 0x8
    then close
    else if n == 0x9
    then ping
    else pong

unfoldable pub is_control_frame : Opcode → Bool
is_control_frame op = leb 0x8 (code op)

unfoldable pub is_valid_opcode : ℕ → Bool
is_valid_opcode op = leb op 0x2 || (leb 0x8 op && leb op 0xA)

pub code-of_code : (n : ℕ) → is_valid_opcode n ≡ true → code (of_code n) ≡ n
unfolding of_code is_valid_opcode
code-of_code n h = ground arith

pub of_code-code : (op : Opcode) → of_code (code op) ≡ op
unfolding of_code
of_code-code continuation = refl
of_code-code text = refl
of_code-code binary = refl
of_code-code close = refl
of_code-code ping = refl
of_code-code pong = refl
