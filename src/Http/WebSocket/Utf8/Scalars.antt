-- ===== src/Http/WebSocket/Utf8/Scalars.antt =====
-- is_valid_utf8 against the definition of UTF-8 (RFC 3629): encoded Unicode scalar values.
use elio.Prelude.{
  ℕ, zero, suc, ◌+◌, ◌-◌, ◌*◌, ◌/◌, ◌%◌, ◌≤◌, ◌<◌, ◌≡◌, ◌≢◌, refl, ap, ◌∙◌, ◌⊎◌, inl, inr, ◌↔◌,
  true, Bool-cases, List, [], ◌∷◌, ◌++◌, length, drop, ltb, if◌then◌else◌, arith, All,
  length-append,
}
use elio.Http.WebSocket.Mask.{IsByte}
use elio.Http.WebSocket.Utf8.{sequence, utf8_loop, is_valid_utf8}
use elio.Http.WebSocket.Utf8.Ranges.{
  Sequence, one, two, three, four, sequence-Sequence, Sequence-sequence,
}

-- A code point that is no surrogate.
abbrev pub IsScalar : ℕ → Type 0
IsScalar v = (v < 0x110000) × ((v < 0xD800) ⊎ (0xDFFF < v))

pub encode_scalar : ℕ → List ℕ
encode_scalar v =
    if ltb v 0x80
    then v ∷ []
    else if ltb v 0x800
    then (0xC0 + v / 64) ∷ (0x80 + v % 64) ∷ []
    else if ltb v 0x10000
    then (0xE0 + v / 4096) ∷ (0x80 + v / 64 % 64) ∷ (0x80 + v % 64) ∷ []
    else (0xF0 + v / 262144) ∷ (0x80 + v / 4096 % 64) ∷ (0x80 + v / 64 % 64) ∷ (0x80 + v % 64) ∷ []

pub encode_scalars : List ℕ → List ℕ
encode_scalars [] = []
encode_scalars (v ∷ vs) = encode_scalar v ++ encode_scalars vs

-- An encoded scalar value is a well-formed sequence.
encode_scalar-Sequence :
    (v : ℕ) (rest : List ℕ)
    → IsScalar v
    → Sequence (encode_scalar v ++ rest) (length (encode_scalar v))
unfolding encode_scalar
encode_scalar-Sequence v rest h = elim (Bool-cases (ltb v 0x80)) [
  | inl a ↦ rw a (one v rest (ground arith))
  | inr a ↦ elim (Bool-cases (ltb v 0x800)) [
    | inl b ↦ rw (a, b) (two _ _ rest (ground arith) (ground arith) (omega arith))
    | inr b ↦ elim (Bool-cases (ltb v 0x10000)) [
      | inl c ↦
          rw (a, b, c)
            (three _ _ _ rest (omega arith) (ground arith) (omega arith) (omega arith)
              (λ e. ground arith) (λ e. ground arith))
      | inr c ↦
          rw (a, b, c)
            (four _ _ _ _ rest (omega arith) (omega arith) (omega arith) (omega arith) (omega arith)
              (λ e. ground arith) (λ e. omega arith))
    ]
  ]
]

-- A well-formed sequence encodes a scalar value.
abbrev Encodes : List ℕ → ℕ → Type 0
Encodes s n = (v : ℕ) × IsScalar v × (s ≡ encode_scalar v ++ drop n s)

Sequence-Encodes : {s : List ℕ} {n : ℕ} → Sequence s n → Encodes s n
unfolding encode_scalar
Sequence-Encodes (one c rest h) = (c, ground arith, ground arith)
Sequence-Encodes (two c b rest h k i) = ((c - 0xC0) * 64 + (b - 0x80), ground arith, ground arith)
Sequence-Encodes (three c b d rest h k i j x y) =
    ((c - 0xE0) * 4096 + (b - 0x80) * 64 + (d - 0x80), ground arith, ground arith)
Sequence-Encodes (four c b d e rest h k i j l x y) = (
  (c - 0xF0) * 262144 + (b - 0x80) * 4096 + (d - 0x80) * 64 + (e - 0x80),
  ground arith,
  ground arith,
)

drop-append-length : {A : Type 0} (xs ys : List A) → drop (length xs) (xs ++ ys) ≡ ys
drop-append-length [] ys = refl
drop-append-length (x ∷ xs) ys = drop-append-length xs ys

IsByte-drop : (n : ℕ) (s : List ℕ) → All IsByte s → All IsByte (drop n s)
IsByte-drop zero s h = h
IsByte-drop (suc n) [] h = tt
IsByte-drop (suc n) (x ∷ s) h = IsByte-drop n s h.1

Sequence-pos : {s : List ℕ} {n : ℕ} → Sequence s n → n ≢ 0
Sequence-pos (one c rest h) = λ e. cc
Sequence-pos (two c b rest h k i) = λ e. cc
Sequence-pos (three c b d rest h k i j x y) = λ e. cc
Sequence-pos (four c b d e rest h k i j l x y) = λ e. cc

encode_scalar_pos : (v : ℕ) → 1 ≤ length (encode_scalar v)
unfolding encode_scalar
encode_scalar_pos v = ground arith

-- Scalar values, encoded one behind the other.
abbrev pub IsUtf8 : List ℕ → Type 0
IsUtf8 s = (vs : List ℕ) × All IsScalar vs × (s ≡ encode_scalars vs)

utf8_loop-IsUtf8 : (f : ℕ) (s : List ℕ) → All IsByte s → utf8_loop f s ≡ true → IsUtf8 s
unfolding utf8_loop encode_scalars
utf8_loop-IsUtf8 zero [] h t = ([], tt, refl)
utf8_loop-IsUtf8 zero (c ∷ s) h t = cc
utf8_loop-IsUtf8 (suc f) [] h t = ([], tt, refl)
utf8_loop-IsUtf8 (suc f) (c ∷ s) h t =
    let n = sequence (c ∷ s) in
    let some_taken : n ≢ 0 = λ e. ground arith in
    let going : utf8_loop f (drop n (c ∷ s)) ≡ true = ground arith in
    let (v, scalar, shape) = Sequence-Encodes (Sequence-sequence c s h.0 h.1 some_taken) in
    let (vs, scalars, rest) = utf8_loop-IsUtf8 f (drop n (c ∷ s)) (IsByte-drop n (c ∷ s) h) going in
    (v ∷ vs, (scalar, scalars), shape ∙ ap (◌++◌ (encode_scalar v)) rest)

utf8_loop_at :
    (f c : ℕ) (s : List ℕ) (n : ℕ)
    → sequence (c ∷ s) ≡ n
    → n ≢ 0
    → utf8_loop (suc f) (c ∷ s) ≡ utf8_loop f (drop n (c ∷ s))
unfolding utf8_loop
utf8_loop_at f c s n e p = rw (e, utf8_loop) (ground arith)

utf8_loop_step :
    (f : ℕ) {s : List ℕ} {n : ℕ} → Sequence s n → utf8_loop (suc f) s ≡ utf8_loop f (drop n s)
utf8_loop_step f (one c rest h) =
    let q = one c rest h in utf8_loop_at f c _ 1 (sequence-Sequence q) (Sequence-pos q)
utf8_loop_step f (two c b rest h k i) =
    let q = two c b rest h k i in utf8_loop_at f c _ 2 (sequence-Sequence q) (Sequence-pos q)
utf8_loop_step f (three c b d rest h k i j x y) =
    let q = three c b d rest h k i j x y in
    utf8_loop_at f c _ 3 (sequence-Sequence q) (Sequence-pos q)
utf8_loop_step f (four c b d e rest h k i j l x y) =
    let q = four c b d e rest h k i j l x y in
    utf8_loop_at f c _ 4 (sequence-Sequence q) (Sequence-pos q)

utf8_loop-encode :
    (f : ℕ) (vs : List ℕ)
    → All IsScalar vs
    → length (encode_scalars vs) ≤ f
    → utf8_loop f (encode_scalars vs) ≡ true
unfolding encode_scalars
utf8_loop-encode zero [] h l = unfold utf8_loop in refl
utf8_loop-encode (suc f) [] h l = unfold utf8_loop in refl
utf8_loop-encode zero (v ∷ vs) h l =
    absurd (omega (arith, encode_scalar_pos v, length-append (encode_scalar v) (encode_scalars vs)))
utf8_loop-encode (suc f) (v ∷ vs) h l =
    utf8_loop_step f (encode_scalar-Sequence v (encode_scalars vs) h.0)
    ∙ rw (drop-append-length (encode_scalar v) (encode_scalars vs)) (
        utf8_loop-encode f vs h.1
          (omega (arith, encode_scalar_pos v, length-append (encode_scalar v) (encode_scalars vs))))

-- A byte string is accepted exactly when it is the encoding of scalar values.
pub is_valid_utf8_iff : (s : List ℕ) → All IsByte s → (is_valid_utf8 s ≡ true) ↔ IsUtf8 s
unfolding is_valid_utf8
is_valid_utf8_iff s h = (utf8_loop-IsUtf8 (length s) s h, accepts)
  where
    accepts : IsUtf8 s → utf8_loop (length s) s ≡ true
    accepts (vs, scalars, e) =
        rw e (utf8_loop-encode (length (encode_scalars vs)) vs scalars (omega arith))
