-- ===== src/Rpc/Buffer/Fields.antt =====
-- Sequences of fields, written one after the other and read back.
use elio.Prelude.{
  ℕ, ◌^◌, ◌<◌, ◌≡◌, refl, List, [], ◌∷◌, ◌++◌, length, take, drop, arith, inr, inl, sym, ap, subst,
  All, append_assoc, ◌⊎◌, append-nil,
}
use elio.Rpc.Buffer.{
  SerializationError, BufferView, write_le, read, read_counted, read_string, read_blob, bytes_of,
  plus, string_length_exceeds, blob_length_exceeds, write, write_bytes, write_string, write_blob,
  view,
}
use elio.Rpc.Buffer.Words.{Fits, Fits-32, IsAt, IsAt-advance, read-write_le}

-- What the serialised data consist of: words of `k` bytes, strings and blobs.
pub data Field : Type 0 where
  word : ℕ → ℕ → Field
  string blob : List ℕ → Field

-- The types of fields: an unsigned integer of `k` bytes, a string, or bytes.
pub data Kind : Type 0 where
  words : ℕ → Kind
  strings blobs : Kind

unfoldable pub kind_of : Field → Kind
kind_of (word k value) = words k
kind_of (string str) = strings
kind_of (blob bytes) = blobs

unfoldable pub kinds_of : List Field → List Kind
kinds_of [] = []
kinds_of (f ∷ fs) = kind_of f ∷ kinds_of fs

-- A word fits its size, and a text its length prefix.
unfoldable pub IsField : Field → Type 0
IsField (word k value) = Fits k value
IsField (string str) = length str < 2 ^ 32
IsField (blob bytes) = length bytes < 2 ^ 32

-- serialize and deserialize of a field, and of a struct with the macro ELIO_RPC_FIELDS, whose
-- fields follow each other.
unfoldable pub write_field : Field → List ℕ → SerializationError ⊎ List ℕ
write_field (word k value) w = inr (write k value w)
write_field (string str) w = write_string str w
write_field (blob bytes) w = write_blob bytes w

unfoldable pub read_field : Kind → BufferView → SerializationError ⊎ (Field × BufferView)
read_field (words k) v = elim (read k v) [ inl e ↦ inl e | inr r ↦ inr (word k r.0, r.1) ]
read_field strings v = elim (read_string v) [
  | inl e ↦ inl e.0
  | inr r ↦ inr (string (bytes_of r.0 v), r.1)
]
read_field blobs v = elim (read_blob v) [
  | inl e ↦ inl e.0
  | inr r ↦ inr (blob (bytes_of r.0 v), r.1)
]

unfoldable pub write_fields : List Field → List ℕ → SerializationError ⊎ List ℕ
write_fields [] w = inr w
write_fields (f ∷ fs) w = elim (write_field f w) [ inl e ↦ inl e | inr w' ↦ write_fields fs w' ]

unfoldable pub read_fields : List Kind → BufferView → SerializationError ⊎ (List Field × BufferView)
read_fields [] v = inr ([], v)
read_fields (k ∷ ks) v = elim (read_field k v) [
  | inl e ↦ inl e
  | inr r ↦ elim (read_fields ks r.1) [ inl e ↦ inl e | inr rest ↦ inr (r.0 ∷ rest.0, rest.1) ]
]

-- The bytes of a field.
unfoldable pub encoded : Field → List ℕ
encoded (word k value) = write_le k value
encoded (string str) = write_le 4 (length str) ++ str
encoded (blob bytes) = write_le 4 (length bytes) ++ bytes

unfoldable pub all_encoded : List Field → List ℕ
all_encoded [] = []
all_encoded (f ∷ fs) = encoded f ++ all_encoded fs

write_field-encoded : (f : Field) (w : List ℕ) → IsField f → write_field f w ≡ inr (w ++ encoded f)
unfolding write_field encoded IsField write write_string write_blob write_bytes
write_field-encoded (word k value) w h = refl
write_field-encoded (string str) w h = ground (arith, append_assoc w (write_le 4 (length str)) str)
write_field-encoded (blob bytes) w h =
    ground (arith, append_assoc w (write_le 4 (length bytes)) bytes)

-- A counted text is read back after its length.
read_counted-encoded :
    (error : SerializationError) (v : BufferView) (text after : List ℕ)
    → IsAt v (text ++ after)
    → let v' = record v { pos = plus v.pos (length text) } in
      (read_counted error (length text) v ≡ inr (record { offset = v.pos; size = length text }, v'))
      × (take (length text) (drop v.pos v.data_) ≡ text)
      × IsAt v' after
unfolding read_counted
read_counted-encoded error v text after a =
    let (small, here, at) = IsAt-advance v text after (length text) refl a in
    (ground (arith, a.within), here, at)

-- The field is read and the view stands behind it.
abbrev ReadsPast : Field → BufferView → List ℕ → Type 0
ReadsPast f v after = (v' : BufferView) × (read_field (kind_of f) v ≡ inr (f, v')) × IsAt v' after

read_counted_field :
    (error : SerializationError) (v : BufferView) (text after : List ℕ)
    → length text < 2 ^ 32
    → IsAt v ((write_le 4 (length text) ++ text) ++ after)
    → let v1 = record v { pos = plus v.pos 4 } in
      let v2 = record v1 { pos = plus v1.pos (length text) } in
      (read 4 v ≡ inr (length text, v1))
      × (read_counted error (length text) v1
          ≡ inr (record { offset = v1.pos; size = length text }, v2))
      × (take (length text) (drop v1.pos v.data_) ≡ text)
      × IsAt v2 after
read_counted_field error v text after h a =
    let a' = subst (IsAt v) (append_assoc (write_le 4 (length text)) text after) a in
    let (got, at) = read-write_le v 4 (length text) (text ++ after) (Fits-32 (length text) h) a' in
    let (counted, here, at') =
      read_counted-encoded error (record v { pos = plus v.pos 4 }) text after at in
    (got, counted, here, at')

read_field-encoded :
    (f : Field) (v : BufferView) (after : List ℕ)
    → IsField f
    → IsAt v (encoded f ++ after)
    → ReadsPast f v after
unfolding read_field kind_of encoded IsField read_string read_blob bytes_of
read_field-encoded (word k value) v after h a =
    let (got, at) = read-write_le v k value after h a in (_, ground (arith, got), at)
read_field-encoded (string str) v after h a =
    let (got, counted, text, at) = read_counted_field string_length_exceeds v str after h a in
    (_, ground (arith, got, counted, text), at)
read_field-encoded (blob bytes) v after h a =
    let (got, counted, text, at) = read_counted_field blob_length_exceeds v bytes after h a in
    (_, ground (arith, got, counted, text), at)

pub read_fields-encoded :
    (fs : List Field) (v : BufferView)
    → All IsField fs
    → IsAt v (all_encoded fs)
    → (v' : BufferView) × (read_fields (kinds_of fs) v ≡ inr (fs, v')) × IsAt v' []
unfolding read_fields kinds_of all_encoded
read_fields-encoded [] v h a = (v, refl, a)
read_fields-encoded (f ∷ fs) v h a =
    let (v', got, at) = read_field-encoded f v (all_encoded fs) h.0 a in
    let (v'', rest, end) = read_fields-encoded fs v' h.1 at in (v'', ground (arith, got, rest), end)

pub write_fields-encoded :
    (fs : List Field) (w : List ℕ) → All IsField fs → write_fields fs w ≡ inr (w ++ all_encoded fs)
unfolding write_fields all_encoded
write_fields-encoded [] w h = ap inr (sym (append-nil w))
write_fields-encoded (f ∷ fs) w h = ground (
  arith,
  write_field-encoded f w h.0,
  write_fields-encoded fs (w ++ encoded f) h.1,
  append_assoc w (encoded f) (all_encoded fs),
)

-- Fields that fit, in fewer than 2 ^ 64 bytes, written one after the other, are their little-endian words and their texts behind
-- little-endian lengths of four bytes; and reading fields of the same types gives the fields back, and
-- leaves nothing unread.
pub read_fields-write_fields :
    (fs : List Field)
    → All IsField fs
    → length (all_encoded fs) < 2 ^ 64
    → (write_fields fs [] ≡ inr (all_encoded fs))
      × (v : BufferView) × (read_fields (kinds_of fs) (view (all_encoded fs)) ≡ inr (fs, v))
      × IsAt v []
unfolding view
read_fields-write_fields fs h b =
    let (v, got, end) =
      read_fields-encoded fs (view (all_encoded fs)) h
        (record { bounded = b; within = omega arith; unread = refl }) in
    (write_fields-encoded fs [] h, v, got, end)
