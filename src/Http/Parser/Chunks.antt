-- ===== src/Http/Parser/Chunks.antt =====
-- detail::parse_chunk_size_line, validate_chunk_extensions and validate_chunk_trailer_line. A
-- position in a text is what is left of it from there.
pub mod Size
pub mod Extensions
use elio.Prelude.{
  ℕ, zero, suc, ◌+◌, ◌-◌, ◌*◌, ◌/◌, ◌%◌, ◌^◌, Bool, true, false, not, ◌&&◌, ◌||◌, List, [], ◌∷◌,
  Option, none, some, length, leb, ltb, ◌==◌, if◌then◌else◌,
}
use elio.Prelude.Loop.{Pass, again, leave, iterate}
use elio.Http.Text.{between, is_tchar, trim_ows, is_valid_header_name, is_valid_header_value}
use elio.Http.Targets.{split_at}
use elio.Http.Parser.Errors.{
  HttpError, chunk_size_overflow, empty_chunk_size, chunk_size_exceeds_maximum, invalid_extension,
}

unfoldable pub is_ows : ℕ → Bool
is_ows c = (c == b' ') || (c == b'\t')

unfoldable pub is_hex_digit : ℕ → Bool
is_hex_digit c = between b'0' b'9' c || between b'a' b'f' c || between b'A' b'F' c

unfoldable pub hex_digit_value : ℕ → ℕ
hex_digit_value c =
    if between b'0' b'9' c
    then c - b'0'
    else if between b'a' b'f' c
    then c - b'a' + 10
    else c - b'A' + 10

unfoldable pub is_quoted_chunk_ext_char : ℕ → Bool
is_quoted_chunk_ext_char c = (c == b'\t') || (c == b' ') || between 0x21 0x7E c || leb 0x80 c

-- Behind the opening quote; none: the string is not closed, or has another character.
unfoldable pub quoted_rest : List ℕ → Option (List ℕ)
quoted_rest [] = none
quoted_rest (c ∷ []) = if c == b'"' then some [] else none
quoted_rest (c ∷ d ∷ cs) =
    let escaped = quoted_rest cs in
    let next = quoted_rest (d ∷ cs) in
    if c == b'"'
    then some (d ∷ cs)
    else if c == b'\\'
    then (if not (is_quoted_chunk_ext_char d) then none else escaped)
    else if not (is_quoted_chunk_ext_char c)
    then none
    else next

unfoldable pub parse_chunk_ext_quoted_string : List ℕ → Option (List ℕ)
parse_chunk_ext_quoted_string [] = none
parse_chunk_ext_quoted_string (c ∷ cs) = if not (c == b'"') then none else quoted_rest cs

unfoldable pub skip_ows : List ℕ → List ℕ
skip_ows [] = []
skip_ows (c ∷ cs) = let rest = skip_ows cs in if is_ows c then rest else c ∷ cs

unfoldable pub skip_token : List ℕ → List ℕ
skip_token [] = []
skip_token (c ∷ cs) = let rest = skip_token cs in if is_tchar c then rest else c ∷ cs

-- Behind "=" and white space.
unfoldable pub extension_argument : List ℕ → Pass (List ℕ) Bool
extension_argument [] = leave false
extension_argument (c ∷ cs) =
    if c == b'"'
    then elim (parse_chunk_ext_quoted_string (c ∷ cs)) [
      | none ↦ leave false
      | some rest ↦ again rest
    ]
    else if not (is_tchar c)
    then leave false
    else again (skip_token cs)

-- Behind the name and white space.
unfoldable pub extension_value : List ℕ → Pass (List ℕ) Bool
extension_value [] = again []
extension_value (c ∷ cs) = if c == b'=' then extension_argument (skip_ows cs) else again (c ∷ cs)

-- Behind ";" and white space.
unfoldable pub extension_name : List ℕ → Pass (List ℕ) Bool
extension_name [] = leave false
extension_name (c ∷ cs) =
    if not (is_tchar c) then leave false else extension_value (skip_ows (skip_token cs))

-- A round of the loop of validate_chunk_extensions.
unfoldable pub chunk_extension : List ℕ → Pass (List ℕ) Bool
chunk_extension value = elim (skip_ows value) [
  | [] ↦ leave true
  | c ∷ cs ↦ if not (c == b';') then leave false else extension_name (skip_ows cs)
]

-- Every round consumes a ";", so that the fuel does not run out.
unfoldable pub validate_chunk_extensions : List ℕ → Bool
validate_chunk_extensions value = elim (iterate (suc (length value)) chunk_extension value) [
  | some valid ↦ valid
  | none ↦ false
]

-- The loop over the digits: the value so far, and what is behind them; none is the overflow.
unfoldable pub read_hex : ℕ → List ℕ → ℕ × Option (List ℕ)
read_hex n [] = (n, some [])
read_hex n (c ∷ cs) =
    let rest = read_hex ((n * 16 + hex_digit_value c) % 2 ^ 64) cs in
    if not (is_hex_digit c)
    then (n, some (c ∷ cs))
    else if ltb ((2 ^ 64 - 1 - hex_digit_value c) / 16) n
    then (n, none)
    else rest

-- kMaxChunkSize
abbrev pub max_chunk_size : ℕ
max_chunk_size = 2 ^ 30

-- What is wrong behind the digits, if anything is.
unfoldable pub size_line_error : List ℕ → ℕ × Option (List ℕ) → Option HttpError
size_line_error line (n, none) = some chunk_size_overflow
size_line_error line (n, some behind) =
    if length behind == length line
    then some empty_chunk_size
    else if ltb max_chunk_size n
    then some chunk_size_exceeds_maximum
    else elim (trim_ows behind) [
      | [] ↦ none
      | c ∷ cs ↦ if not (validate_chunk_extensions (c ∷ cs)) then some invalid_extension else none
    ]

-- The chunk_size that is left by reference, and the error.
unfoldable pub parse_chunk_size_line : List ℕ → ℕ × Option HttpError
parse_chunk_size_line line = let read = read_hex 0 line in (read.0, size_line_error line read)

unfoldable pub validate_chunk_trailer_line : List ℕ → Bool
validate_chunk_trailer_line line = elim (split_at b':' line) [
  | none ↦ false
  | some (name, behind) ↦ is_valid_header_name name && is_valid_header_value (trim_ows behind)
]
