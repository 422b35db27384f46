-- ===== src/Http/Parser/Response/Adding.antt =====
-- headers_.set and headers_.add behind the checks of response_decoder.
use elio.Prelude.{
  ℕ, ◌≡◌, sym, ap, ◌∙◌, true, false, List, none, some, if◌then◌else◌, arith, if_cases,
}
use elio.Http.Text.{trim_ows, ascii_iequals, is_valid_header_name, is_valid_header_value}
use elio.Http.Headers.{
  done, find, add, set, set_checked, get, contains, same_text, content_length_name,
}
use elio.Http.Headers.Maps.{find_same}
use elio.Http.Parser.Request.Adding.{Adds, checked_valid, add_valid-Adds}
use elio.Http.Parser.Response.{Decoder, is_tunnel_length, response_field_error, add_response_field}

response_checks :
    (name value : List ℕ) (d : Decoder)
    → response_field_error name value d ≡ none
    → (is_valid_header_name name ≡ true) × (is_valid_header_value value ≡ true)
unfolding response_field_error
response_checks name value d e = ground (arith, e)

response_length :
    (name value : List ℕ) (d : Decoder) (legacy : List ℕ)
    → is_tunnel_length name d ≡ false
    → response_field_error name value d ≡ none
    → find name d.headers_.headers_ ≡ some legacy
    → ascii_iequals name content_length_name ≡ true
    → same_text (trim_ows legacy) value ≡ true
unfolding response_field_error contains get
response_length name value d legacy t e k c =
    let here : find content_length_name d.headers_.headers_ ≡ some legacy =
      sym (find_same name content_length_name c d.headers_.headers_) ∙ k in
    ground (arith, t, e, here, c)

set_valid-Adds :
    (name behind : List ℕ) (d : Decoder)
    → is_valid_header_name name ≡ true
    → is_valid_header_value (trim_ows behind) ≡ true
    → Adds (set name (trim_ows behind) d.headers_)
unfolding set
set_valid-Adds name behind d n v =
    (set_checked name (trim_ows behind) d.headers_, checked_valid name (trim_ows behind) _ n v)

-- headers_.set and headers_.add do not throw on a field line that has passed the decoder's checks,
-- and the headers of the response are then what they leave.
pub add_response_field_lem :
    (name behind : List ℕ) (d : Decoder)
    → response_field_error name (trim_ows behind) d ≡ none
    → (if is_tunnel_length name d
        then set name (trim_ows behind) d.headers_
        else add name (trim_ows behind) d.headers_)
      ≡ done (add_response_field name (trim_ows behind) d).headers_
unfolding add_response_field
add_response_field_lem name behind d e =
    let (n, v) = response_checks name (trim_ows behind) d e in
    let (h, k) =
      if_cases Adds (is_tunnel_length name d) (λ t. set_valid-Adds name behind d n v)
        (λ t.
          add_valid-Adds name behind d.headers_ n v
            (λ legacy q c. response_length name (trim_ows behind) d legacy t e q c)) in
    k ∙ ap done (ground (arith, k))
