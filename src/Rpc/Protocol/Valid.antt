-- ===== src/Rpc/Protocol/Valid.antt =====
-- Which headers `is_valid` lets through.
use elio.Prelude.{
  ℕ, ◌^◌, ◌≤◌, ◌<◌, ◌≡◌, refl, ◌⊎◌, ◌↔◌, Bool, true, false, not, ◌&&◌, ◌||◌, ◌==◌, bit_and, arith,
}
use elio.Prelude.Bits.{holds_below, holds_below_at}
use elio.Rpc.Protocol.{
  FrameHeader, is_valid, is_valid_message_type, has_only_supported_message_flags,
  has_allowed_flags_for_type, has_valid_shape, has_flag,
}

-- What the wire format lets each kind of message carry: a request any of the flags for a timeout, a
-- checksum and no response, and four bytes at least if it has a timeout; a response or an error no
-- method; a ping, a pong or a cancel neither method nor payload.
pub IsShaped : FrameHeader → Type 0
IsShaped h =
    ((h.kind ≡ 0)
      × (((h.flags ≡ 0) ⊎ (h.flags ≡ 2) ⊎ (h.flags ≡ 16) ⊎ (h.flags ≡ 18))
          ⊎ (((h.flags ≡ 1) ⊎ (h.flags ≡ 3) ⊎ (h.flags ≡ 17) ⊎ (h.flags ≡ 19))
              × (4 ≤ h.payload_length))))
    ⊎ (((h.kind ≡ 1) ⊎ (h.kind ≡ 2)) × ((h.flags ≡ 0) ⊎ (h.flags ≡ 2)) × (h.method_id ≡ 0))
    ⊎ (((h.kind ≡ 3) ⊎ (h.kind ≡ 4) ⊎ (h.kind ≡ 5))
        × ((h.flags ≡ 0) ⊎ (h.flags ≡ 2))
        × (h.method_id ≡ 0)
        × (h.payload_length ≡ 0))

same : Bool → Bool → Bool
same true b = b
same false b = not b

-- The tests on the flags, by the list of the flags that pass.
flag_tests : ℕ → Bool
flag_tests f =
    same (bit_and f 19 == f) (
      (f == 0)
      || (f == 1)
      || (f == 2)
      || (f == 3)
      || (f == 16)
      || (f == 17)
      || (f == 18)
      || (f == 19))
    && same (bit_and f 2 == f) ((f == 0) || (f == 2))
    && (not (bit_and f 19 == f)
        || same (bit_and f 1 == 0) ((f == 0) || (f == 2) || (f == 16) || (f == 18)))

flag_table : holds_below flag_tests 256 ≡ true
unfolding holds_below flag_tests same
flag_table = refl

flag_tests_at : (f : ℕ) → f < 256 → flag_tests f ≡ true
flag_tests_at f h = holds_below_at flag_tests 256 {x = f} h flag_table

-- A header whose flags are a byte is valid exactly if it has the magic number and the version, a
-- payload of at most 16 MiB, and the shape that the wire format gives its kind of message.
pub is_valid_iff :
    (h : FrameHeader)
    → h.flags < 2 ^ 8
    → (is_valid h ≡ true)
      ↔ ((h.magic ≡ 0x454C494F) × (h.version ≡ 1) × (h.payload_length ≤ 16777216) × IsShaped h)
unfolding is_valid is_valid_message_type has_only_supported_message_flags has_allowed_flags_for_type
    has_valid_shape has_flag IsShaped flag_tests same
is_valid_iff h b =
    (λ v. ground (arith, flag_tests_at h.flags b), λ v. ground (arith, flag_tests_at h.flags b))
