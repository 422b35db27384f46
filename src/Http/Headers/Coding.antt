-- ===== src/Http/Headers/Coding.antt =====
-- headers::is_chunked.
use elio.Prelude.{ℕ, Bool, false, List, [], ◌∷◌, none, some, codes}
use elio.Http.Text.{ascii_iequals, trim_ows}
use elio.Http.Headers.{Headers, get}
use elio.Http.Targets.{split_last}

abbrev pub transfer_encoding_name : List ℕ
transfer_encoding_name = codes "Transfer-Encoding"

unfoldable pub last_coding : List ℕ → List ℕ
last_coding te = elim (split_last b',' te) [ none ↦ te | some (front, behind) ↦ behind ]

unfoldable pub is_chunked : Headers → Bool
is_chunked h = elim (get transfer_encoding_name h) [
  | [] ↦ false
  | c ∷ cs ↦ ascii_iequals (trim_ows (last_coding (c ∷ cs))) (codes "chunked")
]
