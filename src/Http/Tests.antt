-- ===== src/Http/Tests.antt =====
-- Runs of the texts, URLs and headers, and instances of their theorems.
use elio.Prelude.{ℕ, ◌≤◌, ◌<◌, ◌≡◌, refl, true, List, [], ◌∷◌, All, length, ltb, some, arith}
use elio.Http.Text.{
  ascii_iequals, trim_ows, trim_front, trim_back, tolower, is_valid_header_name,
  is_valid_header_value, is_valid_token, all_tchar, is_tchar,
}
use elio.Http.Url.{url_encode, url_decode, hex_digit, is_unreserved}
use elio.Http.Url.RoundTrip.{url_decode-url_encode}
use elio.Http.Headers.{
  Headers, new_headers, done, throws, conflicting_content_length, checked, add, add_checked,
  add_again, values_of, find, assign, get, get_all, contains, content_length, set_content_length,
  content_length_name, same_text,
}
use elio.Http.Headers.Agree.{joined, IsValue}
use elio.Http.Headers.Invariant.{Reach, starts, adds, Reach-get}
use elio.Http.Headers.ContentLength.{content_length-set_content_length}

-- "a b+" and the two bytes of an accented letter
abbrev text : List ℕ
text = 0x61 ∷ 0x20 ∷ 0x62 ∷ 0x2B ∷ 0xC3 ∷ 0xA9 ∷ []

text_bytes : All (λ c. c < 256) text
text_bytes =
    (omega arith, (omega arith, (omega arith, (omega arith, (omega arith, (omega arith, tt))))))

space_encoded : url_encode (0x61 ∷ 0x20 ∷ []) ≡ 0x61 ∷ 0x25 ∷ 0x32 ∷ 0x30 ∷ []
unfolding url_encode hex_digit is_unreserved
space_encoded = refl

url_decode-url_encode_example : url_decode (url_encode text) ≡ text
url_decode-url_encode_example = url_decode-url_encode text text_bytes

-- The names "Via" and "VIA", with the values "x" and "y"
abbrev via : List ℕ
via = 0x56 ∷ 0x69 ∷ 0x61 ∷ []

abbrev via_upper : List ℕ
via_upper = 0x56 ∷ 0x49 ∷ 0x41 ∷ []

abbrev two_lines : Headers
two_lines = record {
  headers_ = (via, 0x78 ∷ 0x2C ∷ 0x20 ∷ 0x79 ∷ []) ∷ [];
  header_values_ = (via, (0x78 ∷ []) ∷ (0x79 ∷ []) ∷ []) ∷ [];
}

abbrev one_line : Headers
one_line = record {
  headers_ = (via, 0x78 ∷ []) ∷ [];
  header_values_ = (via, (0x78 ∷ []) ∷ []) ∷ [];
}

two_lines_reached : Reach two_lines
unfolding add add_checked add_again checked values_of find assign new_headers is_valid_header_name
    is_valid_header_value is_valid_token all_tchar is_tchar ascii_iequals tolower
two_lines_reached =
    adds {h = one_line} via_upper (0x79 ∷ []) (adds via (0x78 ∷ []) starts refl) refl

Reach-get_example :
    (get via_upper two_lines ≡ joined via_upper (get_all via_upper two_lines))
    × (contains via_upper two_lines ≡ ltb 0 (length (get_all via_upper two_lines)))
    × All IsValue (get_all via_upper two_lines)
    × (ascii_iequals via_upper content_length_name ≡ true
        → length (get_all via_upper two_lines) ≤ 1)
Reach-get_example = Reach-get via_upper two_lines_reached

content_length-set_content_length_example :
    (h : Headers) × (set_content_length 1024 two_lines ≡ done h) × (content_length h ≡ some 1024)
content_length-set_content_length_example =
    content_length-set_content_length 1024 two_lines (omega arith)

-- A Content-Length of "7", and " 7" added to it
abbrev seven : Headers
seven = record {
  headers_ = (content_length_name, 0x37 ∷ []) ∷ [];
  header_values_ = (content_length_name, (0x37 ∷ []) ∷ []) ∷ [];
}

seven_again : add content_length_name (0x20 ∷ 0x37 ∷ []) seven ≡ done seven
unfolding add add_checked add_again checked find is_valid_header_name is_valid_header_value
    is_valid_token all_tchar is_tchar ascii_iequals tolower same_text trim_ows trim_front trim_back
seven_again = refl

eight_refused : add content_length_name (0x38 ∷ []) seven ≡ throws conflicting_content_length
unfolding add add_checked add_again checked find is_valid_header_name is_valid_header_value
    is_valid_token all_tchar is_tchar ascii_iequals tolower same_text trim_ows trim_front trim_back
eight_refused = refl
