-- ===== src/Http/Text.antt =====
-- include/elio/http/http_common.hpp, the tests of characters and of texts. A text is a list of bytes;
-- the functions of <cctype> are those of the "C" locale.
use elio.Prelude.{
  ℕ, ◌+◌, Bool, true, false, not, ◌&&◌, ◌||◌, List, [], ◌∷◌, ltb, leb, ◌==◌, if◌then◌else◌,
}

abbrev pub between : ℕ → ℕ → ℕ → Bool
between low high c = leb low c && leb c high

abbrev pub is_alphanumeric : ℕ → Bool
is_alphanumeric c = between 0x30 0x39 c || (between 0x61 0x7A c || between 0x41 0x5A c)

abbrev pub one_of : List ℕ → ℕ → Bool
one_of [] c = false
one_of (x ∷ xs) c = (c == x) || one_of xs c

-- !#$%&'*+-.^_`|~ besides letters and digits
unfoldable pub is_tchar : ℕ → Bool
is_tchar c =
    is_alphanumeric c
    || one_of
        (0x21 ∷ 0x23 ∷ 0x24 ∷ 0x25 ∷ 0x26 ∷ 0x27 ∷ 0x2A ∷ 0x2B ∷ 0x2D ∷ 0x2E ∷ 0x5E ∷ 0x5F ∷ 0x60
          ∷ 0x7C ∷ 0x7E ∷ [])
        c

unfoldable pub all_tchar : List ℕ → Bool
all_tchar [] = true
all_tchar (c ∷ cs) = if not (is_tchar c) then false else all_tchar cs

unfoldable pub is_valid_token : List ℕ → Bool
is_valid_token [] = false
is_valid_token (c ∷ cs) = all_tchar (c ∷ cs)

unfoldable pub is_valid_header_name : List ℕ → Bool
is_valid_header_name name = is_valid_token name

unfoldable pub is_valid_header_value : List ℕ → Bool
is_valid_header_value [] = true
is_valid_header_value (c ∷ cs) =
    if (ltb c 0x20 && not (c == 0x09)) || (c == 0x7F) then false else is_valid_header_value cs

unfoldable pub tolower : ℕ → ℕ
tolower c = if between 0x41 0x5A c then c + 32 else c

unfoldable pub ascii_iequals : List ℕ → List ℕ → Bool
ascii_iequals [] [] = true
ascii_iequals [] (b ∷ ys) = false
ascii_iequals (a ∷ xs) [] = false
ascii_iequals (a ∷ xs) (b ∷ ys) =
    if not (tolower a == tolower b) then false else ascii_iequals xs ys

unfoldable pub trim_front : List ℕ → List ℕ
trim_front [] = []
trim_front (c ∷ cs) =
    let rest = trim_front cs in if (c == 0x20) || (c == 0x09) then rest else c ∷ cs

-- What is left when spaces and tabs are removed from the end.
unfoldable pub trim_back : List ℕ → List ℕ
trim_back [] = []
trim_back (c ∷ cs) =
    let rest = trim_back cs in
    elim rest [ [] ↦ if (c == 0x20) || (c == 0x09) then [] else c ∷ [] | x ∷ xs ↦ c ∷ x ∷ xs ]

unfoldable pub trim_ows : List ℕ → List ℕ
trim_ows s = trim_back (trim_front s)
