-- ===== src/Rpc/Buffer/Bounds.antt =====
-- What the checks of buffer_view keep out.
use elio.Prelude.{
  ℕ, ◌+◌, ◌-◌, ◌^◌, ◌≤◌, ◌<◌, ◌≡◌, length, arith, inr, inl, ◌⊎◌, ltb, leb, refl, if◌then◌else◌,
}
use elio.Rpc.Buffer.{
  Reading, SerializationError, BufferView, Span, skip, read, read_counted, read_string, read_blob,
  string_length_exceeds, blob_length_exceeds, skip_past_end,
}

-- The view is within its data, and these are no larger than an object can be.
unfoldable pub IsValid : BufferView → Type 0
IsValid v = (v.pos ≤ length v.data_) × (length v.data_ < 2 ^ 63)

-- A span within the data of `v` that ends where the view `v'` goes on.
unfoldable pub IsSpanOf : BufferView → Span × BufferView → Type 0
IsSpanOf v (span, v') =
    (span.offset + span.size ≤ length v.data_)
    × (v'.pos ≡ span.offset + span.size)
    × (v'.data_ ≡ v.data_)

read-within :
    (k : ℕ) (v : BufferView) (r : ℕ × BufferView)
    → k < 2 ^ 63
    → IsValid v
    → read k v ≡ inr r
    → (r.1.data_ ≡ v.data_) × (r.1.pos ≡ v.pos + k) × (v.pos + k ≤ length v.data_)
unfolding read IsValid
read-within k v r b i e = ground arith

read_counted-within :
    (error : SerializationError) (len : ℕ) (v : BufferView) (r : Span × BufferView)
    → IsValid v
    → read_counted error len v ≡ inr r
    → IsSpanOf v r
unfolding read_counted IsValid IsSpanOf
read_counted-within error len v r i e = ground arith

-- read_string and read_blob, from the length that they read.
abbrev counted_behind :
    SerializationError → BufferView → SerializationError ⊎ (ℕ × BufferView) → Reading
counted_behind error v m = elim m [ inl e ↦ inl (e, v) | inr n ↦ read_counted error n.0 n.1 ]

counted_after :
    (error : SerializationError) (v : BufferView) (r : Span × BufferView)
    (m : SerializationError ⊎ (ℕ × BufferView))
    → IsValid v
    → read 4 v ≡ m
    → counted_behind error v m ≡ inr r
    → IsSpanOf v r
unfolding IsValid IsSpanOf
counted_after error v r (inl e) i h k = cc
counted_after error v r (inr n) i h k =
    let past = read-within 4 v n (omega arith) i h in
    ground (arith, past, read_counted-within error n.0 n.1 r (ground (arith, past)) k)

-- A call of read_string or read_blob that throws leaves a view within the same data.
counted_left :
    (error : SerializationError) (v : BufferView) (r : SerializationError × BufferView)
    (m : SerializationError ⊎ (ℕ × BufferView))
    → IsValid v
    → read 4 v ≡ m
    → counted_behind error v m ≡ inl r
    → IsValid r.1 × ((r.1).data_ ≡ v.data_)
unfolding read_counted IsValid
counted_left error v r (inl e) i h k = ground (arith, i)
counted_left error v r (inr n) i h k = ground (arith, read-within 4 v n (omega arith) i h)

pub read_string-left :
    (v : BufferView) (r : SerializationError × BufferView)
    → IsValid v
    → (read_string v ≡ inl r) ⊎ (read_blob v ≡ inl r)
    → IsValid r.1 × ((r.1).data_ ≡ v.data_)
unfolding read_string read_blob
read_string-left v r i (inl e) = counted_left string_length_exceeds v r (read 4 v) i refl e
read_string-left v r i (inr e) = counted_left blob_length_exceeds v r (read 4 v) i refl e

-- Whatever the bytes of a view within its data are, what read_string returns lies within the data of the view, and the view
-- goes on behind it; and so for read_blob.
pub read_string-IsSpanOf :
    (v : BufferView) (r : Span × BufferView)
    → IsValid v
    → (read_string v ≡ inr r) ⊎ (read_blob v ≡ inr r)
    → IsSpanOf v r
unfolding read_string read_blob
read_string-IsSpanOf v r i (inl e) = counted_after string_length_exceeds v r (read 4 v) i refl e
read_string-IsSpanOf v r i (inr e) = counted_after blob_length_exceeds v r (read 4 v) i refl e

-- On a view within its data, `skip` of a size_t `n` goes on by `n` bytes if that many remain, and throws otherwise, unless the sum of the
-- position and `n` wraps around: then it goes back, and does not throw.
pub skip_lem :
    (n : ℕ) (v : BufferView)
    → n < 2 ^ 64
    → IsValid v
    → (skip n v ≡ (
        if leb n (length v.data_ - v.pos)
        then inr (record v { pos = v.pos + n })
        else if ltb (v.pos + n) (2 ^ 64)
        then inl skip_past_end
        else inr (record v { pos = v.pos + n - 2 ^ 64 })))
unfolding skip IsValid
skip_lem n v b i = ground arith
