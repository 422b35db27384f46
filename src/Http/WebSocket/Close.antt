-- ===== src/Http/WebSocket/Close.antt =====
-- is_valid_close_code and parse_close_payload of include/elio/http/websocket_frame.hpp. A close code
-- is its number; a `std::string` is its bytes.
use elio.Prelude.{ℕ, ◌*◌, ◌^◌, Bool, not, ◌&&◌, ◌||◌, List, [], ◌∷◌, leb, if◌then◌else◌, bit_or}
use elio.Http.WebSocket.Utf8.{is_valid_utf8}

abbrev pub protocol_error : ℕ
protocol_error = 1002

abbrev pub no_status : ℕ
no_status = 1005

abbrev pub invalid_data : ℕ
invalid_data = 1007

abbrev pub too_large : ℕ
too_large = 1009

unfoldable pub is_valid_close_code : ℕ → Bool
is_valid_close_code c =
    (leb 1000 c && leb c 1003) || ((leb 1007 c && leb c 1014) || (leb 3000 c && leb c 4999))

unfoldable pub parse_close_payload : List ℕ → ℕ × List ℕ
parse_close_payload [] = (no_status, [])
parse_close_payload (hi ∷ []) = (protocol_error, [])
parse_close_payload (hi ∷ lo ∷ reason) =
    let c = bit_or (hi * 2 ^ 8) lo in
    if not (is_valid_close_code c)
    then (protocol_error, [])
    else if is_valid_utf8 reason
    then (c, reason)
    else (protocol_error, [])
