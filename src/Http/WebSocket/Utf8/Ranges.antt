-- ===== src/Http/WebSocket/Utf8/Ranges.antt =====
-- The bit tests of is_valid_utf8 as ranges of bytes.
use elio.Prelude.{
  ℕ, ◌≤◌, ◌<◌, ◌≡◌, ◌≢◌, refl, sym, subst, Bool, true, not, ◌&&◌, List, [], ◌∷◌, ltb, leb, ◌==◌,
  if◌then◌else◌, arith, All,
}
use native.Mathlib.Decide.{dec_lt, dec_le}
use elio.Prelude.Bits.{holds_below, holds_below_at}
use elio.Http.WebSocket.Mask.{IsByte}
use elio.Http.WebSocket.Utf8.{
  sequence_length, is_continuation_byte, continued, is_excluded, sequence,
}

abbrev same : Bool → Bool → Bool
same a b = if a then b else not b

-- The length by ranges.
pub length_by_range : ℕ → ℕ
length_by_range c =
    if leb c 0x7F
    then 1
    else if ltb c 0xC0
    then 0
    else if ltb c 0xE0
    then 2
    else if ltb c 0xF0
    then 3
    else if ltb c 0xF8
    then 4
    else 0

length_agrees : ℕ → Bool
length_agrees c = sequence_length c == length_by_range c

length_table : holds_below length_agrees 256 ≡ true
unfolding holds_below length_agrees sequence_length length_by_range
length_table = refl

continuation_agrees : ℕ → Bool
continuation_agrees b = same (is_continuation_byte b) (leb 0x80 b && leb b 0xBF)

continuation_table : holds_below continuation_agrees 256 ≡ true
unfolding holds_below continuation_agrees is_continuation_byte
continuation_table = refl

pub sequence_length_lem : (c : ℕ) → IsByte c → sequence_length c ≡ length_by_range c
unfolding length_agrees
sequence_length_lem c h = ground (arith, holds_below_at length_agrees 256 {x = c} h length_table)

pub is_continuation_byte_lem :
    (b : ℕ) → IsByte b → is_continuation_byte b ≡ (leb 0x80 b && leb b 0xBF)
unfolding continuation_agrees
is_continuation_byte_lem b h =
    ground (arith, holds_below_at continuation_agrees 256 {x = b} h continuation_table)

-- The second byte may follow the first.
abbrev pub IsCont : ℕ → Type 0
IsCont b = (0x80 ≤ b) × (b ≤ 0xBF)

-- The well-formed sequences of RFC 3629, by their first bytes.
pub data Sequence : List ℕ → ℕ → Type 0 where
  one : (c : ℕ) (rest : List ℕ) → c ≤ 0x7F → Sequence (c ∷ rest) 1
  two : (c b : ℕ) (rest : List ℕ) → 0xC2 ≤ c → c ≤ 0xDF → IsCont b → Sequence (c ∷ b ∷ rest) 2
  three :
      (c b d : ℕ) (rest : List ℕ)
      → 0xE0 ≤ c
      → c ≤ 0xEF
      → IsCont b
      → IsCont d
      → (c ≡ 0xE0 → 0xA0 ≤ b)
      → (c ≡ 0xED → b < 0xA0)
      → Sequence (c ∷ b ∷ d ∷ rest) 3
  four :
      (c b d e : ℕ) (rest : List ℕ)
      → 0xF0 ≤ c
      → c ≤ 0xF4
      → IsCont b
      → IsCont d
      → IsCont e
      → (c ≡ 0xF0 → 0x90 ≤ b)
      → (c ≡ 0xF4 → b ≤ 0x8F)
      → Sequence (c ∷ b ∷ d ∷ e ∷ rest) 4

-- A well-formed sequence is taken whole.
pub sequence-Sequence : {s : List ℕ} {n : ℕ} → Sequence s n → sequence s ≡ n
unfolding sequence continued is_excluded length_by_range
sequence-Sequence (one c rest h) = ground (arith, sequence_length_lem c)
sequence-Sequence (two c b rest h k i) =
    ground (arith, sequence_length_lem c, is_continuation_byte_lem b)
sequence-Sequence (three c b d rest h k i j x y) =
    ground (arith, sequence_length_lem c, is_continuation_byte_lem b, is_continuation_byte_lem d)
sequence-Sequence (four c b d e rest h k i j l x y) = ground (
  arith,
  sequence_length_lem c,
  is_continuation_byte_lem b,
  is_continuation_byte_lem d,
  is_continuation_byte_lem e,
)

-- The facts behind a sequence that is not refused, by its announced length.
two_facts :
    (c b : ℕ) (rest : List ℕ)
    → IsByte c
    → IsByte b
    → 0xC0 ≤ c
    → c < 0xE0
    → sequence (c ∷ b ∷ rest) ≢ 0
    → (0xC2 ≤ c) × IsCont b
unfolding sequence continued is_excluded length_by_range
two_facts c b rest hc hb h k n =
    ground (arith, sequence_length_lem c hc, is_continuation_byte_lem b hb)

three_facts :
    (c b d : ℕ) (rest : List ℕ)
    → IsByte c
    → IsByte b
    → IsByte d
    → 0xE0 ≤ c
    → c < 0xF0
    → sequence (c ∷ b ∷ d ∷ rest) ≢ 0
    → IsCont b × IsCont d × (c ≡ 0xE0 → 0xA0 ≤ b) × (c ≡ 0xED → b < 0xA0)
unfolding sequence continued is_excluded length_by_range
three_facts c b d rest hc hb hd h k n =
    ground (
      arith,
      sequence_length_lem c hc,
      is_continuation_byte_lem b hb,
      is_continuation_byte_lem d hd,
    )

four_facts :
    (c b d e : ℕ) (rest : List ℕ)
    → IsByte c
    → IsByte b
    → IsByte d
    → IsByte e
    → 0xF0 ≤ c
    → sequence (c ∷ b ∷ d ∷ e ∷ rest) ≢ 0
    → (c ≤ 0xF4) × IsCont b × IsCont d × IsCont e × (c ≡ 0xF0 → 0x90 ≤ b) × (c ≡ 0xF4 → b ≤ 0x8F)
unfolding sequence continued is_excluded length_by_range
four_facts c b d e rest hc hb hd he h n = ground (
  arith,
  sequence_length_lem c hc,
  is_continuation_byte_lem b hb,
  is_continuation_byte_lem d hd,
  is_continuation_byte_lem e he,
)

-- A sequence that is cut off is refused.
module _ (c : ℕ) (hc : IsByte c) where
  cut_one : 0x80 ≤ c → sequence (c ∷ []) ≡ 0
  unfolding sequence length_by_range
  cut_one h = ground (arith, sequence_length_lem c hc)

  cut_two : (b : ℕ) → 0xE0 ≤ c → sequence (c ∷ b ∷ []) ≡ 0
  unfolding sequence length_by_range
  cut_two b h = ground (arith, sequence_length_lem c hc)

  cut_three : (b d : ℕ) → 0xF0 ≤ c → sequence (c ∷ b ∷ d ∷ []) ≡ 0
  unfolding sequence length_by_range
  cut_three b d h = ground (arith, sequence_length_lem c hc)

  no_start : (rest : List ℕ) → 0x80 ≤ c → c < 0xC0 → sequence (c ∷ rest) ≡ 0
  unfolding sequence length_by_range
  no_start rest h k = ground (arith, sequence_length_lem c hc)

data FirstByte (c : ℕ) : Type 0 where
  ascii : c ≤ 0x7F → FirstByte c
  stray : 0x80 ≤ c → c < 0xC0 → FirstByte c
  of_two : 0xC0 ≤ c → c < 0xE0 → FirstByte c
  of_three : 0xE0 ≤ c → c < 0xF0 → FirstByte c
  of_four : 0xF0 ≤ c → FirstByte c

FirstByte-cases : (c : ℕ) → FirstByte c
FirstByte-cases c = elim (dec_le c 0x7F) [
  | yes h ↦ ascii h
  | no h ↦ elim (dec_lt c 0xC0) [
    | yes k ↦ stray (omega arith) k
    | no k ↦ elim (dec_lt c 0xE0) [
      | yes l ↦ of_two (omega arith) l
      | no l ↦ elim (dec_lt c 0xF0) [
        | yes m ↦ of_three (omega arith) m
        | no m ↦ of_four (omega arith)
      ]
    ]
  ]
]

-- What is taken is a well-formed sequence.
Sequence-sequence_at :
    (c : ℕ) (s : List ℕ)
    → FirstByte c
    → IsByte c
    → All IsByte s
    → sequence (c ∷ s) ≢ 0
    → (n : ℕ) × Sequence (c ∷ s) n
Sequence-sequence_at c s (ascii h) hc hs n = (1, one c s h)
Sequence-sequence_at c s (stray h k) hc hs n = absurd (n (no_start c hc s h k))
Sequence-sequence_at c [] (of_two h k) hc hs n = absurd (n (cut_one c hc (omega arith)))
Sequence-sequence_at c (b ∷ s) (of_two h k) hc hs n =
    let f = two_facts c b s hc hs.0 h k n in (2, two c b s f.0 (omega arith) f.1)
Sequence-sequence_at c [] (of_three h k) hc hs n = absurd (n (cut_one c hc (omega arith)))
Sequence-sequence_at c (b ∷ []) (of_three h k) hc hs n = absurd (n (cut_two c hc b h))
Sequence-sequence_at c (b ∷ d ∷ s) (of_three h k) hc hs n =
    let f = three_facts c b d s hc hs.0 hs.1.0 h k n in
    (3, three c b d s h (omega arith) f.0 f.1 f.2 f.3)
Sequence-sequence_at c [] (of_four h) hc hs n = absurd (n (cut_one c hc (omega arith)))
Sequence-sequence_at c (b ∷ []) (of_four h) hc hs n = absurd (n (cut_two c hc b (omega arith)))
Sequence-sequence_at c (b ∷ d ∷ []) (of_four h) hc hs n = absurd (n (cut_three c hc b d h))
Sequence-sequence_at c (b ∷ d ∷ e ∷ s) (of_four h) hc hs n =
    let f = four_facts c b d e s hc hs.0 hs.1.0 hs.1.1.0 h n in
    (4, four c b d e s h f.0 f.1 f.2 f.3 f.4 f.5)

pub Sequence-sequence :
    (c : ℕ) (s : List ℕ)
    → IsByte c
    → All IsByte s
    → sequence (c ∷ s) ≢ 0
    → Sequence (c ∷ s) (sequence (c ∷ s))
Sequence-sequence c s hc hs n =
    let (m, q) = Sequence-sequence_at c s (FirstByte-cases c) hc hs n in
    subst (Sequence (c ∷ s)) (sym (sequence-Sequence q)) q
