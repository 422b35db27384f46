-- ===== src/Rpc/Protocol/Header.antt =====
-- The frame header on the wire.
use elio.Prelude.{
  ℕ, ◌%◌, ◌^◌, ◌<◌, ◌≡◌, refl, List, ◌++◌, length, arith, inr, ◌∙◌, drop, drop_all, length-append,
  append_assoc, ap,
}
use elio.Rpc.Buffer.{BufferView, read_le, write_le, write}
use elio.Rpc.Buffer.Words.{Fits-8, Fits-32, IsAt, read-write_le, read_le-write_le}
use elio.Rpc.Protocol.{FrameHeader, serialize, deserialize, and_then, to_bytes, from_bytes}

-- Every field fits its type.
pub record IsHeader (h : FrameHeader) : Type 0 where
  pub magic_fits : h.magic < 2 ^ 32
  pub request_id_fits : h.request_id < 2 ^ 32
  pub kind_fits : h.kind < 2 ^ 8
  pub flags_fits : h.flags < 2 ^ 8
  pub method_id_fits : h.method_id < 2 ^ 32
  pub payload_length_fits : h.payload_length < 2 ^ 32
  pub version_fits : h.version < 2 ^ 8

-- A header whose fields fit takes 19 bytes, from which from_bytes gives it back.
pub from_bytes-to_bytes :
    (h : FrameHeader) → IsHeader h → (from_bytes (to_bytes h) ≡ h) × (length (to_bytes h) ≡ 19)
unfolding from_bytes to_bytes write_le read_le
from_bytes-to_bytes h i =
    let magic = read_le-write_le 4 h.magic (Fits-32 h.magic i.magic_fits) in
    let request_id = read_le-write_le 4 h.request_id (Fits-32 h.request_id i.request_id_fits) in
    let kind : h.kind % 256 ≡ h.kind = omega arith in
    let flags : h.flags % 256 ≡ h.flags = omega arith in
    let method_id = read_le-write_le 4 h.method_id (Fits-32 h.method_id i.method_id_fits) in
    let payload_length =
      read_le-write_le 4 h.payload_length (Fits-32 h.payload_length i.payload_length_fits) in
    let version : h.version % 256 ≡ h.version = omega arith in
    (
      (λ j. record {
        magic = magic j;
        request_id = request_id j;
        kind = kind j;
        flags = flags j;
        method_id = method_id j;
        payload_length = payload_length j;
        version = version j;
      }),
      refl,
    )

serialize-to_bytes : (h : FrameHeader) (w : List ℕ) → serialize h w ≡ w ++ to_bytes h
unfolding serialize to_bytes write write_le
serialize-to_bytes h w = simp (append_assoc) refl

-- What `serialize` appends, and `deserialize` reads back, standing behind it.
pub deserialize-to_bytes :
    (h : FrameHeader) (v : BufferView) (after : List ℕ)
    → IsHeader h
    → IsAt v (to_bytes h ++ after)
    → (v' : BufferView) × (deserialize v ≡ inr (h, v')) × IsAt v' after
unfolding deserialize to_bytes and_then write_le
deserialize-to_bytes h v after i a =
    let (e1, a1) = read-write_le v 4 h.magic _ (Fits-32 h.magic i.magic_fits) a in
    let (e2, a2) = read-write_le _ 4 h.request_id _ (Fits-32 h.request_id i.request_id_fits) a1 in
    let (e3, a3) = read-write_le _ 1 h.kind _ (Fits-8 h.kind i.kind_fits) a2 in
    let (e4, a4) = read-write_le _ 1 h.flags _ (Fits-8 h.flags i.flags_fits) a3 in
    let (e5, a5) = read-write_le _ 4 h.method_id _ (Fits-32 h.method_id i.method_id_fits) a4 in
    let (e6, a6) =
      read-write_le _ 4 h.payload_length _ (Fits-32 h.payload_length i.payload_length_fits) a5 in
    let (e7, a7) = read-write_le _ 1 h.version after (Fits-8 h.version i.version_fits) a6 in
    (_, rw (e1, e2, e3, e4, e5, e6, e7) refl, a7)

-- A header whose fields fit, in fewer than 2 ^ 64 bytes, is read back by `deserialize` from where `serialize` appended it, and
-- what stands behind it is left to be read.
pub deserialize-serialize :
    (h : FrameHeader) (w after : List ℕ)
    → IsHeader h
    → length (serialize h w ++ after) < 2 ^ 64
    → (v : BufferView) × (deserialize (record { data_ = serialize h w ++ after; pos = length w })
        ≡ inr (h, v))
      × IsAt v after
deserialize-serialize h w after i b =
    let same : serialize h w ++ after ≡ w ++ (to_bytes h ++ after) =
      ap (λ bs. bs ++ after) (serialize-to_bytes h w) ∙ append_assoc w (to_bytes h) after in
    let size = length-append w (to_bytes h ++ after) in
    let size' = ap length same in
    deserialize-to_bytes h _ after i (record {
      bounded = b;
      within = omega arith;
      unread = ap (drop (length w)) same ∙ drop_all w (to_bytes h ++ after);
    })
