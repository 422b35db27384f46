-- ===== src/Http/Parser/Lines.antt =====
-- The lines of a buffer: find("\r\n") with what is before and behind it, and
-- detail::buffered_line_size.
use elio.Prelude.{
  ℕ, suc, ◌+◌, ◌-◌, ◌≤◌, ◌≡◌, Bool, false, ◌&&◌, List, [], ◌∷◌, ◌++◌, Option, none, some, length,
  ◌==◌, if◌then◌else◌, arith, Option-cases, inl, inr,
}

-- The first CRLF is behind the line; none: there is no CRLF.
unfoldable pub split_line : List ℕ → Option (List ℕ × List ℕ)
split_line [] = none
split_line (c ∷ []) = none
split_line (c ∷ d ∷ cs) =
    let later = split_line (d ∷ cs) in
    if (c == b'\r') && (d == b'\n')
    then some ([], cs)
    else elim later [ none ↦ none | some (line, rest) ↦ some (c ∷ line, rest) ]

unfoldable pub ends_with_cr : List ℕ → Bool
ends_with_cr [] = false
ends_with_cr (c ∷ []) = c == b'\r'
ends_with_cr (c ∷ d ∷ cs) = ends_with_cr (d ∷ cs)

unfoldable pub buffered_line_size : List ℕ → ℕ
buffered_line_size buffer = if ends_with_cr buffer then length buffer - 1 else length buffer

pub split_line-append :
    (b x l r : List ℕ) → split_line b ≡ some (l, r) → split_line (b ++ x) ≡ some (l, r ++ x)
unfolding split_line
split_line-append [] x l r e = ground arith
split_line-append (c ∷ []) x l r e = ground arith
split_line-append (c ∷ d ∷ cs) x l r e = elim (Option-cases (split_line (d ∷ cs))) [
  | inl n ↦ ground (arith, n)
  | inr ((line, rest), s) ↦ ground (arith, s, split_line-append (d ∷ cs) x line rest s)
]

pub length-split_line :
    (b l r : List ℕ) → split_line b ≡ some (l, r) → length b ≡ length l + 2 + length r
unfolding split_line
length-split_line [] l r e = ground arith
length-split_line (c ∷ []) l r e = ground arith
length-split_line (c ∷ d ∷ cs) l r e = elim (Option-cases (split_line (d ∷ cs))) [
  | inl n ↦ ground (arith, n)
  | inr ((line, rest), s) ↦ ground (arith, s, length-split_line (d ∷ cs) line rest s)
]

split_line_tail :
    (c d : ℕ) (cs : List ℕ) → split_line (c ∷ d ∷ cs) ≡ none → split_line (d ∷ cs) ≡ none
unfolding split_line
split_line_tail c d cs e = elim (Option-cases (split_line (d ∷ cs))) [
  | inl n ↦ n
  | inr (p, s) ↦ ground (arith, e, s)
]

size_cons :
    (c d : ℕ) (cs : List ℕ) → buffered_line_size (c ∷ d ∷ cs) ≡ suc (buffered_line_size (d ∷ cs))
unfolding buffered_line_size ends_with_cr
size_cons c d cs = ground arith

-- A line that is not yet whole is at least as long when it is.
pub buffered_line_size-le :
    (b x l r : List ℕ)
    → split_line b ≡ none
    → split_line (b ++ x) ≡ some (l, r)
    → buffered_line_size b ≤ length l
unfolding split_line buffered_line_size ends_with_cr
buffered_line_size-le [] x l r e k = omega arith
buffered_line_size-le (c ∷ []) [] l r e k = ground arith
buffered_line_size-le (c ∷ []) (y ∷ x) l r e k = ground arith
buffered_line_size-le (c ∷ d ∷ cs) x l r e k = elim (Option-cases (split_line (d ∷ cs ++ x))) [
  | inl n ↦ ground (arith, n)
  | inr ((line, rest), s) ↦ ground (
    arith,
    s,
    size_cons c d cs,
    buffered_line_size-le (d ∷ cs) x line rest (split_line_tail c d cs e) s,
  )
]

pub buffered_line_size-append : (b x : List ℕ) → buffered_line_size b ≤ buffered_line_size (b ++ x)
unfolding buffered_line_size ends_with_cr
buffered_line_size-append [] x = omega arith
buffered_line_size-append (c ∷ []) [] = omega arith
buffered_line_size-append (c ∷ []) (y ∷ x) = ground (arith, size_cons c y x)
buffered_line_size-append (c ∷ d ∷ cs) x =
    omega (arith, size_cons c d cs, size_cons c d (cs ++ x), buffered_line_size-append (d ∷ cs) x)
