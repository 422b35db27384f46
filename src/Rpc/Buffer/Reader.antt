-- ===== src/Rpc/Buffer/Reader.antt =====
-- Any sequence of reads from a view.
use elio.Prelude.{ℕ, ◌^◌, ◌<◌, ◌≡◌, refl, ◌∙◌, List, [], ◌∷◌, All, arith, ◌⊎◌, inl, inr}
use elio.Rpc.Buffer.{
  Reading, BufferView, seek, skip, read, read_bytes, read_string, read_blob, read_array_size,
}
use elio.Rpc.Buffer.Bounds.{IsValid, IsSpanOf, read_string-IsSpanOf, read_string-left}

-- A call on the view.
pub data Call : Type 0 where
  seeks skips peeks reads reads_bytes : ℕ → Call
  reads_string reads_blob reads_array_size : Call

-- A size that is no larger than an object can be; any position may be sought.
unfoldable pub IsSized : Call → Type 0
IsSized (skips n) = n < 2 ^ 63
IsSized (peeks k) = k < 2 ^ 63
IsSized (reads k) = k < 2 ^ 63
IsSized (reads_bytes n) = n < 2 ^ 63
IsSized c = Unit

-- The view that the call leaves, also if it throws.
unfoldable pub after : Call → BufferView → BufferView
after (seeks pos) v = elim (seek pos v) [ inl e ↦ v | inr v' ↦ v' ]
after (skips n) v = elim (skip n v) [ inl e ↦ v | inr v' ↦ v' ]
after (peeks k) v = v
after (reads k) v = elim (read k v) [ inl e ↦ v | inr r ↦ r.1 ]
after (reads_bytes n) v = elim (read_bytes n v) [ inl e ↦ v | inr r ↦ r.1 ]
after reads_string v = elim (read_string v) [ inl r ↦ r.1 | inr r ↦ r.1 ]
after reads_blob v = elim (read_blob v) [ inl r ↦ r.1 | inr r ↦ r.1 ]
after reads_array_size v = elim (read_array_size v) [ inl e ↦ v | inr r ↦ r.1 ]

-- All calls, those behind one that throws too.
unfoldable pub run : List Call → BufferView → BufferView
run [] v = v
run (c ∷ cs) v = run cs (after c v)

Keeps : BufferView → BufferView → Type 0
Keeps v v' = IsValid v' × (v'.data_ ≡ v.data_)

string-Keeps :
    (v : BufferView) (m : Reading)
    → IsValid v
    → (read_string v ≡ m) ⊎ (read_blob v ≡ m)
    → Keeps v (elim m [ inl r ↦ r.1 | inr r ↦ r.1 ])
unfolding Keeps IsValid IsSpanOf
string-Keeps v (inl r) i h = read_string-left v r i h
string-Keeps v (inr r) i h = ground (arith, read_string-IsSpanOf v r i h)

after-Keeps : (c : Call) (v : BufferView) → IsSized c → IsValid v → Keeps v (after c v)
unfolding after IsSized Keeps IsValid seek skip read read_bytes read_array_size
after-Keeps (seeks pos) v s i = ground arith
after-Keeps (skips n) v s i = ground arith
after-Keeps (peeks k) v s i = (i, refl)
after-Keeps (reads k) v s i = ground arith
after-Keeps (reads_bytes n) v s i = ground arith
after-Keeps reads_string v s i = string-Keeps v _ i (inl refl)
after-Keeps reads_blob v s i = string-Keeps v _ i (inr refl)
after-Keeps reads_array_size v s i = ground arith

-- Whatever calls are made on a view within its data, with sizes below 2 ^ 63 and whatever the bytes
-- are: the view stays within the same data, and calls that throw, with other calls behind them, do
-- not change this.
pub run-IsValid :
    (cs : List Call) (v : BufferView)
    → All IsSized cs
    → IsValid v
    → IsValid (run cs v) × ((run cs v).data_ ≡ v.data_)
unfolding run Keeps
run-IsValid [] v s i = (i, refl)
run-IsValid (c ∷ cs) v s i =
    let k = after-Keeps c v s.0 i in
    let (valid, same) = run-IsValid cs (after c v) s.1 k.0 in (valid, same ∙ k.1)
