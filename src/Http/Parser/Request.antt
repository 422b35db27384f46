-- ===== src/Http/Parser/Request.antt =====
-- The class request_parser: its members, the parsing of a request line and of the fields. The
-- members apart from buffer_ are one record, since the code that reads a line does not touch it.
pub mod Parse
pub mod Adding
pub mod States
pub mod Steps
pub mod Rounds
pub mod Turning
pub mod Reached
use elio.Prelude.{
  ℕ, ◌+◌, Bool, true, false, not, ◌&&◌, ◌||◌, List, [], ◌∷◌, Option, none, some, length, leb, ltb,
  ◌==◌, if◌then◌else◌, codes,
}
use elio.Http.Text.{trim_ows, ascii_iequals, is_valid_header_name, is_valid_header_value, between}
use elio.Http.Headers.{
  Headers, Outcome, done, throws, new_headers, get, get_all, contains, add, content_length,
  same_text, content_length_name,
}
use elio.Http.Headers.Coding.{is_chunked, transfer_encoding_name}
use elio.Http.Targets.{
  Method, get_method, is_connect, string_to_method, split_at, is_valid_request_target,
  is_valid_connect_authority, is_valid_http_version,
}
use elio.Http.Parser.Errors.{
  HttpError, no_method, unknown_method, no_version, invalid_target, invalid_authority,
  invalid_target_character, invalid_version, header_line_too_long, invalid_header_line,
  invalid_header_name, invalid_header_value, conflicting_lengths, too_many_headers,
  encoding_and_length, not_one_host, connect_with_encoding, connect_with_content,
  unsupported_encoding, invalid_length,
}

pub data ParseState : Type 0 where
  start request_line status_line headers body chunk_size chunk_data chunk_trailer complete error :
      ParseState

pub record Fields : Type 0 where
  pub state_ : ParseState
  pub method_ : Method
  pub path_ : List ℕ
  pub query_ : List ℕ
  pub version_ : List ℕ
  pub headers_ : Headers
  pub body_ : List ℕ
  pub content_length_ : ℕ
  pub body_received_ : ℕ
  pub chunked_ : Bool
  pub chunk_size_ : ℕ
  pub error_message_ : Option HttpError
  pub max_headers_ : ℕ
  pub max_header_size_ : ℕ
  pub header_count_ : ℕ

pub record RequestParser : Type 0 where
  pub buffer_ : List ℕ
  pub fields : Fields

unfoldable pub new_request_parser : ℕ → ℕ → RequestParser
new_request_parser max_headers max_header_size = record {
  buffer_ = [];
  fields = record {
    state_ = request_line;
    method_ = get_method;
    path_ = [];
    query_ = [];
    version_ = [];
    headers_ = new_headers;
    body_ = [];
    content_length_ = 0;
    body_received_ = 0;
    chunked_ = false;
    chunk_size_ = 0;
    error_message_ = none;
    max_headers_ = max_headers;
    max_header_size_ = max_header_size;
    header_count_ = 0;
  };
}

-- The unconsumed input and the limits stay.
unfoldable pub reset : RequestParser → RequestParser
reset p = record p {
  fields = record p.fields {
    state_ = request_line;
    method_ = get_method;
    path_ = [];
    query_ = [];
    version_ = [];
    headers_ = new_headers;
    body_ = [];
    content_length_ = 0;
    body_received_ = 0;
    chunked_ = false;
    chunk_size_ = 0;
    error_message_ = none;
    header_count_ = 0;
  };
}

-- The unconsumed input goes to the next protocol.
unfoldable pub take_remaining : RequestParser → List ℕ × RequestParser
take_remaining p = (p.buffer_, record p { buffer_ = [] })

unfoldable pub declared_content_length : RequestParser → Option ℕ
declared_content_length p = if p.fields.chunked_ then none else elim p.fields.state_ [
  | body ↦ some p.fields.content_length_
  | complete ↦ some p.fields.content_length_
  | _ ↦ none
]

unfoldable pub set_error : HttpError → Fields → Fields
set_error message f = record f { state_ = error; error_message_ = some message }

-- What a function that returns a bool leaves.
unfoldable pub refusal : HttpError → Fields → Bool × Fields
refusal message f = (false, set_error message f)

-- The loop over the characters of the target.
unfoldable pub has_control : List ℕ → Bool
has_control [] = false
has_control (c ∷ cs) =
    if (c == 0x00) || between 0x01 0x1F c || (c == 0x7F) then true else has_control cs

unfoldable pub split_query : List ℕ → Fields → Fields
split_query uri f = elim (split_at b'?' uri) [
  | some (path, query) ↦ record f { path_ = path; query_ = query }
  | none ↦ record f { path_ = uri }
]

unfoldable pub take_version : List ℕ → Fields → Bool × Fields
take_version [] f = refusal invalid_version (record f { version_ = [] })
take_version (c ∷ cs) f =
    if not (is_valid_http_version (c ∷ cs))
    then refusal invalid_version (record f { version_ = c ∷ cs })
    else (true, record f { version_ = c ∷ cs; state_ = headers })

module _ (is_ipv6 : List ℕ → Bool) where
  unfoldable pub take_target : List ℕ → List ℕ → Fields → Bool × Fields
  take_target uri version f =
      if not (is_valid_request_target uri)
      then refusal invalid_target f
      else if is_connect f.method_ && not (is_valid_connect_authority is_ipv6 uri)
      then refusal invalid_authority f
      else if has_control uri
      then refusal invalid_target_character f
      else take_version version (split_query uri f)

  -- parse_request_line, on the line that it has found
  unfoldable pub request_line_fields : List ℕ → Fields → Bool × Fields
  request_line_fields line f = elim (split_at b' ' line) [
    | none ↦ refusal no_method f
    | some (method_str, behind) ↦ elim (string_to_method method_str) [
      | none ↦ refusal unknown_method f
      | some m ↦ elim (split_at b' ' behind) [
        | none ↦ refusal no_version (record f { method_ = m })
        | some (uri, version) ↦ take_target uri version (record f { method_ = m })
      ]
    ]
  ]

-- The empty line of parse_headers.
unfoldable pub connect_fields : Bool → Bool → Fields → Bool × Fields
connect_fields has_te has_cl f =
    if has_te
    then refusal connect_with_encoding f
    else if has_cl
    then elim (content_length f.headers_) [
      | none ↦ refusal connect_with_content f
      | some n ↦
          if not (n == 0)
          then refusal connect_with_content f
          else (true, record f { state_ = complete })
    ]
    else (true, record f { state_ = complete })

unfoldable pub body_framing : Bool → Bool → Fields → Bool × Fields
body_framing has_te has_cl f =
    if has_te
    then if not (is_chunked f.headers_)
      then refusal unsupported_encoding f
      else (true, record f { chunked_ = true; state_ = chunk_size })
    else if has_cl
    then elim (content_length f.headers_) [
      | none ↦ refusal invalid_length f
      | some n ↦
          (true, record f { content_length_ = n; state_ = if ltb 0 n then body else complete })
    ]
    else (true, record f { state_ = complete })

-- At most one of the two names is there.
unfoldable pub host_and_body : Bool → Bool → Fields → Bool × Fields
host_and_body has_te has_cl f =
    if same_text f.version_ (codes "HTTP/1.1")
      && not (length (get_all (codes "Host") f.headers_) == 1)
    then refusal not_one_host f
    else if is_connect f.method_
    then connect_fields has_te has_cl f
    else body_framing has_te has_cl f

unfoldable pub end_of_headers : Fields → Bool × Fields
end_of_headers f =
    let has_te = contains transfer_encoding_name f.headers_ in
    let has_cl = contains content_length_name f.headers_ in
    if has_te && has_cl then refusal encoding_and_length f else host_and_body has_te has_cl f

-- The first check of a field line that fails, before headers_.add.
unfoldable pub field_error : List ℕ → List ℕ → Fields → Option HttpError
field_error name value f =
    if not (is_valid_header_name name)
    then some invalid_header_name
    else if not (is_valid_header_value value)
    then some invalid_header_value
    else if ascii_iequals name content_length_name
        && contains content_length_name f.headers_
        && not (same_text (trim_ows (get content_length_name f.headers_)) value)
    then some conflicting_lengths
    else if leb f.max_headers_ f.header_count_
    then some too_many_headers
    else none

-- headers_.add, which does not throw behind those checks.
unfoldable pub add_field : List ℕ → List ℕ → Fields → Fields
add_field name value f = record f {
  header_count_ = f.header_count_ + 1;
  headers_ = elim (add name value f.headers_) [ done h ↦ h | throws e ↦ f.headers_ ];
}

-- A field line of parse_headers.
unfoldable pub header_fields : List ℕ → Fields → Bool × Fields
header_fields line f =
    if ltb f.max_header_size_ (length line)
    then refusal header_line_too_long f
    else elim (split_at b':' line) [
      | none ↦ refusal invalid_header_line f
      | some (name, behind) ↦ elim (field_error name (trim_ows behind) f) [
        | some message ↦ refusal message f
        | none ↦ (true, add_field name (trim_ows behind) f)
      ]
    ]
