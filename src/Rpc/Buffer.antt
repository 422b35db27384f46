-- ===== src/Rpc/Buffer.antt =====
-- buffer_view and buffer_writer of include/elio/rpc/rpc_buffer.hpp, for the unsigned integers of
-- rpc_endian.hpp: the model's word is the value, and `k` is its sizeof. A view that points into a
-- buffer is an offset and a size; size_t keeps its wrap-around.
pub mod Words
pub mod Fields
pub mod Bounds
pub mod Reader
pub mod Patch
use elio.Prelude.{
  ℕ, zero, suc, ◌+◌, ◌-◌, ◌*◌, ◌/◌, ◌%◌, ◌^◌, Bool, List, [], ◌∷◌, ◌++◌, length, take, drop, ltb,
  if◌then◌else◌, ◌⊎◌, inl, inr,
}

-- What a serialization_error says.
pub data SerializationError : Type 0 where
  seek_past_end skip_past_end read_past_end peek_past_end read_bytes_past_end : SerializationError
  string_length_exceeds blob_length_exceeds string_too_long blob_too_long : SerializationError
  write_at_past_end : SerializationError

pub record BufferView : Type 0 where
  pub data_ : List ℕ
  pub pos : ℕ

-- A part of the data of a view.
pub record Span : Type 0 where
  pub offset : ℕ
  pub size : ℕ

-- endian::read_le and endian::write_le, of `k` bytes
unfoldable pub read_le : List ℕ → ℕ
read_le [] = 0
read_le (b ∷ bs) = b + 256 * read_le bs

unfoldable pub write_le : ℕ → ℕ → List ℕ
write_le zero value = []
write_le (suc k) value = value % 256 ∷ write_le k (value / 256)

-- size_t addition
abbrev pub plus : ℕ → ℕ → ℕ
plus a b = (a + b) % 2 ^ 64

unfoldable pub seek : ℕ → BufferView → SerializationError ⊎ BufferView
seek pos v = if ltb (length v.data_) pos then inl seek_past_end else inr (record v { pos = pos })

unfoldable pub skip : ℕ → BufferView → SerializationError ⊎ BufferView
skip n v =
    if ltb (length v.data_) (plus v.pos n)
    then inl skip_past_end
    else inr (record v { pos = plus v.pos n })

unfoldable pub peek : ℕ → BufferView → SerializationError ⊎ ℕ
peek k v =
    if ltb (length v.data_) (plus v.pos k)
    then inl peek_past_end
    else inr (read_le (take k (drop v.pos v.data_)))

unfoldable pub read : ℕ → BufferView → SerializationError ⊎ (ℕ × BufferView)
read k v =
    if ltb (length v.data_) (plus v.pos k)
    then inl read_past_end
    else inr (read_le (take k (drop v.pos v.data_)), record v { pos = plus v.pos k })

unfoldable pub read_bytes : ℕ → BufferView → SerializationError ⊎ (Span × BufferView)
read_bytes n v =
    if ltb (length v.data_) (plus v.pos n)
    then inl read_bytes_past_end
    else inr (record { offset = v.pos; size = n }, record v { pos = plus v.pos n })

-- What read_string and read_blob return or throw, and the view that either leaves.
abbrev pub Reading : Type 0
Reading = (SerializationError × BufferView) ⊎ (Span × BufferView)

-- read_string and read_blob after the length, which differ in the error. The length has been taken
-- when they throw.
unfoldable pub read_counted : SerializationError → ℕ → BufferView → Reading
read_counted error len v =
    if ltb (length v.data_ - v.pos) len
    then inl (error, v)
    else inr (record { offset = v.pos; size = len }, record v { pos = plus v.pos len })

unfoldable pub read_string : BufferView → Reading
read_string v = elim (read 4 v) [
  | inl e ↦ inl (e, v)
  | inr r ↦ read_counted string_length_exceeds r.0 r.1
]

unfoldable pub read_blob : BufferView → Reading
read_blob v = elim (read 4 v) [
  | inl e ↦ inl (e, v)
  | inr r ↦ read_counted blob_length_exceeds r.0 r.1
]

unfoldable pub read_array_size : BufferView → SerializationError ⊎ (ℕ × BufferView)
read_array_size v = read 4 v

-- The bytes that a span points at.
unfoldable pub bytes_of : Span → BufferView → List ℕ
bytes_of span v = take span.size (drop span.offset v.data_)

-- A buffer_writer is its bytes.
unfoldable pub write : ℕ → ℕ → List ℕ → List ℕ
write k value w = w ++ write_le k value

unfoldable pub write_bytes : List ℕ → List ℕ → List ℕ
write_bytes src w = w ++ src

unfoldable pub write_string : List ℕ → List ℕ → SerializationError ⊎ List ℕ
write_string str w =
    if ltb (2 ^ 32 - 1) (length str)
    then inl string_too_long
    else inr (write_bytes str (write 4 (length str) w))

unfoldable pub write_blob : List ℕ → List ℕ → SerializationError ⊎ List ℕ
write_blob blob w =
    if ltb (2 ^ 32 - 1) (length blob)
    then inl blob_too_long
    else inr (write_bytes blob (write 4 (length blob) w))

unfoldable pub write_array_size : ℕ → List ℕ → List ℕ
write_array_size count w = write 4 count w

unfoldable pub zeros : ℕ → List ℕ
zeros zero = []
zeros (suc n) = 0 ∷ zeros n

unfoldable pub reserve_space : ℕ → List ℕ → ℕ × List ℕ
reserve_space n w = (length w, w ++ zeros n)

-- What write_at does; it overruns the buffer where its addition has wrapped.
pub data Written : Type 0 where
  throws : SerializationError → Written
  overruns : Written
  wrote : List ℕ → Written

unfoldable pub write_at : ℕ → ℕ → ℕ → List ℕ → Written
write_at k offset value w =
    if ltb (length w) (plus offset k)
    then throws write_at_past_end
    else if ltb (length w) (offset + k)
    then overruns
    else wrote (take offset w ++ write_le k value ++ drop (offset + k) w)

unfoldable pub view : List ℕ → BufferView
view w = record { data_ = w; pos = 0 }
