-- ===== src/Http/Targets.antt =====
-- include/elio/http/http_common.hpp: methods, request targets, versions and CONNECT authorities.
-- `is_ipv6` stands for inet_pton(AF_INET6, ...) == 1 on a text without NUL.
use elio.Prelude.{
  ℕ, Bool, true, false, not, ◌&&◌, ◌||◌, List, [], ◌∷◌, Option, none, some, length, leb, ltb, ◌==◌,
  ◌^◌, if◌then◌else◌, codes,
}
use elio.Http.Text.{between, one_of}
use elio.Http.Headers.{same_text, read_digits, is_digit}

pub data Method : Type 0 where
  get_method head_method post_method put_method delete_method connect_method options_method
        trace_method patch_method :
      Method

unfoldable pub string_to_method : List ℕ → Option Method
string_to_method str =
    if same_text str (codes "GET")
    then some get_method
    else if same_text str (codes "HEAD")
    then some head_method
    else if same_text str (codes "POST")
    then some post_method
    else if same_text str (codes "PUT")
    then some put_method
    else if same_text str (codes "DELETE")
    then some delete_method
    else if same_text str (codes "CONNECT")
    then some connect_method
    else if same_text str (codes "OPTIONS")
    then some options_method
    else if same_text str (codes "TRACE")
    then some trace_method
    else if same_text str (codes "PATCH")
    then some patch_method
    else none

unfoldable pub is_connect : Method → Bool
is_connect connect_method = true
is_connect _ = false

unfoldable pub has_request_target_forbidden_char : List ℕ → Bool
has_request_target_forbidden_char [] = false
has_request_target_forbidden_char (c ∷ cs) =
    if leb c 0x20 || (c == 0x7F) then true else has_request_target_forbidden_char cs

unfoldable pub is_valid_request_target : List ℕ → Bool
is_valid_request_target [] = false
is_valid_request_target (c ∷ cs) = not (has_request_target_forbidden_char (c ∷ cs))

-- The text before the first byte `c`, and the text behind it.
unfoldable pub split_at : ℕ → List ℕ → Option (List ℕ × List ℕ)
split_at c [] = none
split_at c (x ∷ xs) =
    let later = split_at c xs in
    if x == c
    then some ([], xs)
    else elim later [ none ↦ none | some (front, behind) ↦ some (x ∷ front, behind) ]

-- The same for the last byte `c`.
unfoldable pub split_last : ℕ → List ℕ → Option (List ℕ × List ℕ)
split_last c [] = none
split_last c (x ∷ xs) = elim (split_last c xs) [
  | some (front, behind) ↦ some (x ∷ front, behind)
  | none ↦ if x == c then some ([], xs) else none
]

unfoldable pub connect_host_char : ℕ → Bool
connect_host_char c =
    between b'a' b'z' c
    || between b'A' b'Z' c
    || between b'0' b'9' c
    || one_of (codes "-._~!$&'()*+,;=") c

unfoldable pub connect_hex_digit : ℕ → Bool
connect_hex_digit c = between b'0' b'9' c || between b'a' b'f' c || between b'A' b'F' c

-- std::from_chars into a uint16_t up to the end of the text, and not 0.
unfoldable pub is_port : List ℕ → Bool
is_port [] = false
is_port (c ∷ cs) =
    let (n, rest) = read_digits 0 (c ∷ cs) in
    if not (is_digit c)
    then false
    else if not (ltb n (2 ^ 16))
    then false
    else elim rest [ [] ↦ not (n == 0) | x ∷ xs ↦ false ]

-- Behind "v" of an address of a future version: hexadecimal digits, a dot and what follows.
unfoldable pub skip_hex : List ℕ → List ℕ
skip_hex [] = []
skip_hex (c ∷ cs) = let rest = skip_hex cs in if connect_hex_digit c then rest else c ∷ cs

unfoldable pub all_future : List ℕ → Bool
all_future [] = true
all_future (c ∷ cs) = if not (connect_host_char c) && not (c == b':') then false else all_future cs

unfoldable pub is_future_address : List ℕ → Bool
is_future_address digits = elim (skip_hex digits) [
  | [] ↦ false
  | c ∷ behind ↦
      if (length (skip_hex digits) == length digits) || not (c == b'.')
      then false
      else elim behind [ [] ↦ false | x ∷ xs ↦ all_future (x ∷ xs) ]
]

module _ (is_ipv6 : List ℕ → Bool) where
  unfoldable pub is_address : List ℕ → Bool
  is_address [] = false
  is_address (c ∷ cs) =
      if (c == b'v') || (c == b'V')
      then is_future_address cs
      else if leb 46 (length (c ∷ cs))
      then false
      else is_ipv6 (c ∷ cs)

  -- Behind the opening bracket: the last character closes it, with something between.
  unfoldable pub is_bracketed : List ℕ → Bool
  is_bracketed rest = elim (split_last b']' rest) [
    | none ↦ false
    | some (literal, behind) ↦ elim behind [ [] ↦ is_address literal | x ∷ xs ↦ false ]
  ]

  unfoldable pub is_reg_name : List ℕ → Bool
  is_reg_name [] = true
  is_reg_name (c ∷ []) = if c == b'%' then false else connect_host_char c
  is_reg_name (c ∷ a ∷ []) =
      let next = is_reg_name (a ∷ []) in
      if c == b'%' then false else if not (connect_host_char c) then false else next
  is_reg_name (c ∷ a ∷ b ∷ cs) =
      let behind = is_reg_name cs in
      let next = is_reg_name (a ∷ b ∷ cs) in
      if c == b'%'
      then (if not (connect_hex_digit a) || not (connect_hex_digit b) then false else behind)
      else if not (connect_host_char c)
      then false
      else next

  unfoldable pub is_host : List ℕ → Bool
  is_host [] = false
  is_host (c ∷ cs) = if c == b'[' then is_bracketed cs else is_reg_name (c ∷ cs)

  unfoldable pub is_valid_connect_authority : List ℕ → Bool
  is_valid_connect_authority target = elim (split_last b':' target) [
    | none ↦ false
    | some (host, port_text) ↦ elim host [
      | [] ↦ false
      | c ∷ cs ↦ if not (is_port port_text) then false else is_host (c ∷ cs)
    ]
  ]

-- Behind "HTTP/": a digit, a dot and a digit.
unfoldable pub is_version_numbers : List ℕ → Bool
is_version_numbers (a ∷ b ∷ c ∷ []) =
    if not (b == b'.') then false else between b'0' b'9' a && between b'0' b'9' c
is_version_numbers _ = false

unfoldable pub starts_with : List ℕ → List ℕ → Option (List ℕ)
starts_with [] text = some text
starts_with (p ∷ ps) [] = none
starts_with (p ∷ ps) (c ∷ cs) = if p == c then starts_with ps cs else none

unfoldable pub is_valid_http_version : List ℕ → Bool
is_valid_http_version [] = true
is_valid_http_version (c ∷ cs) = elim (starts_with (codes "HTTP/") (c ∷ cs)) [
  | none ↦ false
  | some numbers ↦ is_version_numbers numbers
]
