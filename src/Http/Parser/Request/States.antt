-- ===== src/Http/Parser/Request/States.antt =====
-- What request_parser knows in each state, kept by the functions that read one line.
use elio.Prelude.{
  ℕ, ◌<◌, ◌≡◌, refl, sym, subst, Bool, true, false, not, ◌&&◌, List, [], ◌∷◌, some, length, ltb,
  ◌==◌, if◌then◌else◌, arith, Bool-cases, inl, inr, ◌⊎◌, codes, if_cases, option_cases,
}
use elio.Http.Headers.{get_all, contains, content_length, same_text, content_length_name}
use elio.Http.Headers.Coding.{is_chunked, transfer_encoding_name}
use elio.Http.Text.{trim_ows}
use elio.Http.Targets.{
  is_connect, string_to_method, split_at, is_valid_http_version, is_valid_connect_authority,
  is_valid_request_target,
}
use elio.Http.Parser.Errors.{HttpError}
use elio.Http.Parser.Request.{
  has_control, ParseState, start, request_line, status_line, headers, body, chunk_size, chunk_data,
  chunk_trailer, complete, error, Fields, set_error, refusal, split_query, take_version,
  take_target, request_line_fields, connect_fields, body_framing, host_and_body, end_of_headers,
  field_error, add_field, header_fields,
}

abbrev pub has_te : Fields → Bool
has_te f = contains transfer_encoding_name f.headers_

abbrev pub has_cl : Fields → Bool
has_cl f = contains content_length_name f.headers_

-- Nothing of a body has been read.
abbrev pub Fresh : Fields → Type 0
Fresh f = (f.body_ ≡ []) × (f.content_length_ ≡ 0) × (f.body_received_ ≡ 0) × (f.chunked_ ≡ false)

-- The fields of the request allow one framing only.
abbrev pub Framed : Fields → Type 0
Framed f =
    (has_te f && has_cl f ≡ false)
    × ((same_text f.version_ (codes "HTTP/1.1") ≡ false)
        ⊎ (length (get_all (codes "Host") f.headers_) ≡ 1))

abbrev pub Chunked : Fields → Type 0
Chunked f = Framed f × (f.chunked_ ≡ true) × (has_te f ≡ true) × (is_chunked f.headers_ ≡ true)

-- The length of a body that is not chunked is that of the field, if there is one.
abbrev pub Measured : Fields → Type 0
Measured f =
    Framed f
    × (f.chunked_ ≡ false)
    × (length f.body_ ≡ f.body_received_)
    × (has_te f ≡ false)
    × (if has_cl f
        then content_length f.headers_ ≡ some f.content_length_
        else f.content_length_ ≡ 0)

abbrev pub InState : ParseState → Fields → Type 0
InState start f = ⊥
InState status_line f = ⊥
InState request_line f = Fresh f
InState headers f = Fresh f
InState body f = Measured f × (f.body_received_ < f.content_length_)
InState chunk_size f = Chunked f
InState chunk_data f = Chunked f
InState chunk_trailer f = Chunked f
InState complete f = Chunked f ⊎ (Measured f × (f.body_received_ ≡ f.content_length_))
InState error f = (m : HttpError) × (f.error_message_ ≡ some m)

abbrev pub Inv : Fields → Type 0
Inv f = InState f.state_ f

pub Inv_in : (s : ParseState) (f : Fields) → f.state_ ≡ s → InState s f → Inv f
Inv_in s f e h = subst (λ t. InState t f) (sym e) h

pub Inv_out : (s : ParseState) (f : Fields) → f.state_ ≡ s → Inv f → InState s f
Inv_out s f e h = subst (λ t. InState t f) e h

-- What a function that reads a line leaves: it returns false on an error only.
pub record Kept (r : Bool × Fields) : Type 0 where
  pub kept : Inv r.1
  pub refuses : r.0 ≡ false → r.1.state_ ≡ error

pub accepted : (f : Fields) → Inv f → Kept (true, f)
accepted f h = record { kept = h; refuses = λ e. ground (arith, e) }

pub error-Inv : (m : HttpError) (f : Fields) → Inv (set_error m f)
unfolding set_error
error-Inv m f = (m, refl)

pub refusal-Kept : (m : HttpError) (f : Fields) → Kept (refusal m f)
unfolding refusal set_error
refusal-Kept m f = record { kept = (m, refl); refuses = λ e. refl }

take_version-Kept : (v : List ℕ) (f : Fields) → Fresh f → Kept (take_version v f)
unfolding take_version
take_version-Kept [] f h = refusal-Kept _ _
take_version-Kept (c ∷ cs) f h =
    if_cases Kept (not (is_valid_http_version (c ∷ cs))) (λ q. refusal-Kept _ _) λ q. accepted _ (h)

split_query-Fresh : (uri : List ℕ) (f : Fields) → Fresh f → Fresh (split_query uri f)
unfolding split_query
split_query-Fresh uri f h = option_cases Fresh (split_at b'?' uri) (λ e. h) (λ p e. h)

module _ (is_ipv6 : List ℕ → Bool) where
  take_target-Kept : (uri v : List ℕ) (f : Fields) → Fresh f → Kept (take_target is_ipv6 uri v f)
  unfolding take_target
  take_target-Kept uri v f h =
      if_cases Kept (not (is_valid_request_target uri)) (λ q. refusal-Kept _ _)
        λ q.
          if_cases Kept (is_connect f.method_ && not (is_valid_connect_authority is_ipv6 uri))
            (λ r. refusal-Kept _ _)
            λ r.
              if_cases Kept (has_control uri) (λ s. refusal-Kept _ _)
                λ s. take_version-Kept v (split_query uri f) (split_query-Fresh uri f h)

  pub request_line_fields-Kept :
      (line : List ℕ) (f : Fields) → Fresh f → Kept (request_line_fields is_ipv6 line f)
  unfolding request_line_fields
  request_line_fields-Kept line f h =
      option_cases Kept (split_at b' ' line) (λ e. refusal-Kept _ _)
        λ p e.
          option_cases Kept (string_to_method p.0) (λ e. refusal-Kept _ _)
            λ m e.
              option_cases Kept (split_at b' ' p.1) (λ e. refusal-Kept _ _)
                λ q e. take_target-Kept q.0 q.1 (record f { method_ = m }) h

connect_fields-Kept :
    (f : Fields) → Fresh f → Framed f → Kept (connect_fields (has_te f) (has_cl f) f)
unfolding connect_fields
connect_fields-Kept f h k =
    if_cases Kept (has_te f) (λ q. refusal-Kept _ _)
      λ q.
        if_cases Kept (has_cl f)
          (λ r.
            option_cases Kept (content_length f.headers_) (λ e. refusal-Kept _ _)
              λ n e.
                if_cases Kept (not (n == 0)) (λ s. refusal-Kept _ _)
                  λ s. accepted _ (ground (arith, e)))
          (λ r. accepted _ (ground arith))

measured-Kept :
    (f : Fields)
    → Fresh f
    → Framed f
    → (n : ℕ) → has_te f ≡ false
    → has_cl f ≡ true
    → content_length f.headers_ ≡ some n
    → Kept (true, record f { content_length_ = n; state_ = if ltb 0 n then body else complete })
measured-Kept f h k n q r e =
    accepted (record f { content_length_ = n; state_ = if ltb 0 n then body else complete })
      (ground (arith, q, r, e))

one_host :
    (f : Fields)
    → same_text f.version_ (codes "HTTP/1.1")
        && not (length (get_all (codes "Host") f.headers_) == 1)
      ≡ false
    → (same_text f.version_ (codes "HTTP/1.1") ≡ false)
      ⊎ (length (get_all (codes "Host") f.headers_) ≡ 1)
one_host f r = elim (Bool-cases (same_text f.version_ (codes "HTTP/1.1"))) [
  | inl e ↦ inr (ground (arith, r, e))
  | inr e ↦ inl e
]

body_framing-Kept : (f : Fields) → Fresh f → Framed f → Kept (body_framing (has_te f) (has_cl f) f)
unfolding body_framing
body_framing-Kept f h k =
    if_cases Kept (has_te f)
      (λ q.
        if_cases Kept (not (is_chunked f.headers_)) (λ r. refusal-Kept _ _)
          λ r. accepted _ ((k, refl, q, ground (arith, r))))
      λ q.
        if_cases Kept (has_cl f)
          (λ r.
            option_cases Kept (content_length f.headers_) (λ e. refusal-Kept _ _)
              λ n e. measured-Kept f h k n q r e)
          (λ r. accepted _ (ground arith))

pub end_of_headers-Kept : (f : Fields) → Fresh f → Kept (end_of_headers f)
unfolding end_of_headers host_and_body
end_of_headers-Kept f h =
    if_cases Kept (has_te f && has_cl f) (λ q. refusal-Kept _ _)
      λ q.
        if_cases Kept
          (same_text f.version_ (codes "HTTP/1.1")
            && not (length (get_all (codes "Host") f.headers_) == 1))
          (λ r. refusal-Kept _ _)
          λ r.
            if_cases Kept (is_connect f.method_) (λ s. connect_fields-Kept f h (q, one_host f r))
              (λ s. body_framing-Kept f h (q, one_host f r))

add_field-Fresh :
    (name value : List ℕ) (f : Fields)
    → f.state_ ≡ headers
    → Fresh f
    → ((add_field name value f).state_ ≡ headers) × Fresh (add_field name value f)
unfolding add_field
add_field-Fresh name value f e h = (e, h)

-- What is left by a field line: the state stays, or is an error.
pub record Lined (r : Bool × Fields) : Type 0 where
  pub lined : if r.0 then (r.1.state_ ≡ headers) × Fresh r.1 else (r.1.state_ ≡ error) × Inv r.1

refusal-Lined : (m : HttpError) (f : Fields) → Lined (refusal m f)
unfolding refusal set_error
refusal-Lined m f = record { lined = (refl, (m, refl)) }

pub header_fields-Lined :
    (line : List ℕ) (f : Fields) → f.state_ ≡ headers → Fresh f → Lined (header_fields line f)
unfolding header_fields
header_fields-Lined line f e h =
    if_cases Lined (ltb f.max_header_size_ (length line)) (λ q. refusal-Lined _ _)
      λ q.
        option_cases Lined (split_at b':' line) (λ r. refusal-Lined _ _)
          λ p r.
            option_cases Lined (field_error p.0 (trim_ows p.1) f)
              (λ k. record { lined = add_field-Fresh p.0 (trim_ows p.1) f e h })
              (λ m k. refusal-Lined m f)
