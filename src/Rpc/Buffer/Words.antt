-- ===== src/Rpc/Buffer/Words.antt =====
-- Little-endian words.
use elio.Prelude.{
  drop-drop, ℕ, zero, suc, ◌+◌, ◌/◌, ◌^◌, ◌≤◌, ◌<◌, ◌≡◌, refl, List, ◌++◌, length, take, drop,
  arith, inr, ap, ◌∙◌, subst, ◌-◌, length-drop, sym, length-append, drop_all, take_all,
}
use elio.Rpc.Buffer.{BufferView, read_le, write_le, read, plus}

-- The value has at most `k` bytes.
unfoldable pub Fits : ℕ → ℕ → Type 0
Fits zero value = value ≡ 0
Fits (suc k) value = Fits k (value / 256)

pub length-write_le : (k value : ℕ) → length (write_le k value) ≡ k
unfolding write_le
length-write_le zero value = refl
length-write_le (suc k) value = omega (arith, length-write_le k (value / 256))

pub read_le-write_le : (k value : ℕ) → Fits k value → read_le (write_le k value) ≡ value
unfolding read_le write_le Fits
read_le-write_le zero value f = omega arith
read_le-write_le (suc k) value f = omega (arith, read_le-write_le k (value / 256) f)

pub Fits-8 : (value : ℕ) → value < 2 ^ 8 → Fits 1 value
unfolding Fits
Fits-8 value h = omega arith

pub Fits-16 : (value : ℕ) → value < 2 ^ 16 → Fits 2 value
unfolding Fits
Fits-16 value h = omega arith

pub Fits-32 : (value : ℕ) → value < 2 ^ 32 → Fits 4 value
unfolding Fits
Fits-32 value h = omega arith

pub Fits-64 : (value : ℕ) → value < 2 ^ 64 → Fits 8 value
unfolding Fits
Fits-64 value h = omega arith

-- A view within its data whose unread bytes are `bytes`.
pub record IsAt (v : BufferView) (bytes : List ℕ) : Type 0 where
  pub bounded : length v.data_ < 2 ^ 64
  pub within : v.pos ≤ length v.data_
  pub unread : drop v.pos v.data_ ≡ bytes

drop_at : (n m : ℕ) (xs : List ℕ) → n ≡ m → drop n xs ≡ drop m xs
drop_at n m xs e = ap (λ j. drop j xs) e

IsAt-size : (v : BufferView) (bytes : List ℕ) → IsAt v bytes → length bytes ≡ length v.data_ - v.pos
IsAt-size v bytes a =
    subst (λ bs. length bs ≡ length v.data_ - v.pos) a.unread (length-drop v.pos v.data_)

-- Past the first `here` of the unread bytes.
pub IsAt-advance :
    (v : BufferView) (here after : List ℕ) (k : ℕ)
    → length here ≡ k
    → IsAt v (here ++ after)
    → (v.pos + k ≤ length v.data_)
      × (take k (drop v.pos v.data_) ≡ here)
      × IsAt (record v { pos = plus v.pos k }) after
IsAt-advance v here after k e a =
    let size = IsAt-size v (here ++ after) a in
    let sum = length-append here after in
    let small : v.pos + k ≤ length v.data_ = omega arith in
    let same : plus v.pos k ≡ v.pos + k = omega arith in
    (
      small,
      subst (λ bs. take k bs ≡ here) (sym a.unread)
          (subst (λ j. take j (here ++ after) ≡ here) e (take_all here after)),
      record {
        bounded = a.bounded;
        within = omega arith;
        unread =
            sym (drop-drop v.pos k (plus v.pos k) v.data_ same)
            ∙ ap (drop k) a.unread
            ∙ drop_at k (length here) (here ++ after) (sym e)
            ∙ drop_all here after;
      },
    )

-- A word is read back where it was written.
pub read-write_le :
    (v : BufferView) (k value : ℕ) (after : List ℕ)
    → Fits k value
    → IsAt v (write_le k value ++ after)
    → (read k v ≡ inr (value, record v { pos = plus v.pos k }))
      × IsAt (record v { pos = plus v.pos k }) after
unfolding read
read-write_le v k value after f a =
    let (small, here, at) = IsAt-advance v (write_le k value) after k (length-write_le k value) a in
    (ground (arith, ap read_le here, read_le-write_le k value f), at)
