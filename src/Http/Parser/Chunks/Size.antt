-- ===== src/Http/Parser/Chunks/Size.antt =====
-- The number in a chunk size line, without a bound.
use elio.Prelude.{
  ℕ, ◌+◌, ◌-◌, ◌*◌, ◌/◌, ◌^◌, ◌≤◌, ◌<◌, ◌≡◌, refl, subst, true, List, [], ◌∷◌, Option, none, some,
  length, ltb, ◌==◌, if◌then◌else◌, arith, Bool-cases, inl, inr, ◌⊎◌, if_cases,
}
use elio.Http.Parser.Errors.{
  HttpError, chunk_size_overflow, empty_chunk_size, chunk_size_exceeds_maximum,
}
use elio.Http.Parser.Chunks.{
  is_hex_digit, hex_digit_value, read_hex, size_line_error, parse_chunk_size_line, max_chunk_size,
}

-- The value of the leading digits of a text behind digits of the value `n`.
unfoldable pub hex_value : ℕ → List ℕ → ℕ
hex_value n [] = n
hex_value n (c ∷ cs) =
    let rest = hex_value (n * 16 + hex_digit_value c) cs in if is_hex_digit c then rest else n

hex_digit_value-lt : (c : ℕ) → is_hex_digit c ≡ true → hex_digit_value c < 16
unfolding is_hex_digit hex_digit_value
hex_digit_value-lt c h = ground arith

hex_value-le : (n : ℕ) (line : List ℕ) → n ≤ hex_value n line
unfolding hex_value
hex_value-le n [] = omega arith
hex_value-le n (c ∷ cs) =
    if_cases (λ m. n ≤ m) (is_hex_digit c)
      (λ h. omega (arith, hex_value-le (n * 16 + hex_digit_value c) cs)) (λ h. omega arith)

-- What the loop over the digits has read: the number, or a number that has no place in a size_t.
abbrev Reads : ℕ → ℕ × Option (List ℕ) → Type 0
Reads n (m, some rest) = (m ≡ n) × (n < 2 ^ 64)
Reads n (m, none) = 2 ^ 64 ≤ n

read_hex-Reads : (n : ℕ) (line : List ℕ) → n < 2 ^ 64 → Reads (hex_value n line) (read_hex n line)
unfolding hex_value read_hex
read_hex-Reads n [] h = (refl, h)
read_hex-Reads n (c ∷ cs) h = elim (Bool-cases (is_hex_digit c)) [
  | inr no_digit ↦ rw no_digit (refl, h)
  | inl digit ↦
      let v = hex_digit_value c in
      rw digit (
        if_cases (Reads (hex_value (n * 16 + v) cs)) (ltb ((2 ^ 64 - 1 - v) / 16) n)
          (λ e. ground (arith, e, hex_digit_value-lt c digit, hex_value-le (n * 16 + v) cs))
          (λ e.
            let small : n * 16 + v < 2 ^ 64 = ground (arith, e, hex_digit_value-lt c digit) in
            subst (λ m. Reads (hex_value (n * 16 + v) cs) (read_hex m cs)) (omega (arith, small))
              (read_hex-Reads (n * 16 + v) cs small)))
]

-- The number is read as it is and in range, or there is an error.
abbrev pub SizedOrRefused : ℕ → ℕ × Option HttpError → Type 0
SizedOrRefused n r =
    ((r.1 ≡ none) × (r.0 ≡ n) × (n ≤ max_chunk_size)) ⊎ ((m : HttpError) × (r.1 ≡ some m))

found_error :
    (m n : ℕ) (e : Option HttpError) → m ≡ n → n ≤ max_chunk_size → SizedOrRefused n (m, e)
found_error m n none h l = inl (refl, h, l)
found_error m n (some e) h l = inr (e, refl)

sized :
    (n : ℕ) (line : List ℕ) (r : ℕ × Option (List ℕ))
    → Reads n r
    → SizedOrRefused n (r.0, size_line_error line r)
unfolding size_line_error
sized n line (m, none) h = inr (chunk_size_overflow, refl)
sized n line (m, some behind) h =
    if_cases (λ e. SizedOrRefused n (m, e)) (length behind == length line)
      (λ k. inr (empty_chunk_size, refl))
      λ k.
        if_cases (λ e. SizedOrRefused n (m, e)) (ltb max_chunk_size m)
          (λ q. inr (chunk_size_exceeds_maximum, refl))
          (λ q. found_error m n _ h.0 (ground (arith, q, h.0)))

-- A chunk size line is refused with an error, or its size is the number that its leading hexadecimal
-- digits denote, without a wrap-around, and at most 2 ^ 30: no line with a larger number is accepted.
pub parse_chunk_size_line-hex_value :
    (line : List ℕ)
    → ((((parse_chunk_size_line line).1 ≡ none)
          × ((parse_chunk_size_line line).0 ≡ hex_value 0 line)
          × (hex_value 0 line ≤ max_chunk_size))
        ⊎ ((m : HttpError) × ((parse_chunk_size_line line).1 ≡ some m)))
unfolding parse_chunk_size_line
parse_chunk_size_line-hex_value line =
    sized (hex_value 0 line) line (read_hex 0 line) (read_hex-Reads 0 line (omega arith))
