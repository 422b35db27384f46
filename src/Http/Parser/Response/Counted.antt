-- ===== src/Http/Parser/Response/Counted.antt =====
-- A body whose end is counted has bytes left.
use elio.Prelude.{
  ℕ, suc, ◌-◌, ◌≤◌, sym, ap, ◌<◌, ◌≡◌, subst, Bool, true, false, not, ◌&&◌, ◌||◌, List, [], ◌∷◌,
  Option, none, some, length, leb, ◌==◌, if◌then◌else◌, codes, arith, if_cases, option_cases,
}
use elio.Http.Text.{trim_ows, ascii_iequals}
use elio.Http.Headers.{contains, get, content_length, content_length_name}
use elio.Http.Headers.Coding.{transfer_encoding_name}
use elio.Http.Targets.{split_at, is_valid_http_version}
use elio.Http.Parser.Errors.{HttpError}
use elio.Http.Parser.Chunks.{parse_chunk_size_line, validate_chunk_trailer_line}
use elio.Http.Parser.Response.{
  DecoderState, status_line, fixed_body, close_body, complete, chunk_size, chunk_body, chunk_cr,
  chunk_lf, trailers, Decoder, reset_decoder, fail, fail_limit, status_number, take_status,
  process_status_line, process_chunk_size, process_trailer, select_body, select_framing,
  response_field_error, add_response_field, process_field, process_header, process_line, is_success,
  for_connect, for_head, status_forbids_response_body,
}
use elio.Http.Parser.Response.Decode.{
  in_body, after_body, counted, body_count, crlf_byte, line_end, line_byte, without_cr, has_error,
  is_headers,
}

abbrev pub is_counted : DecoderState → Bool
is_counted fixed_body = true
is_counted chunk_body = true
is_counted _ = false

pub record Counted (d : Decoder) : Type 0 where
  pub left : if is_counted d.state_ then 0 < d.remaining_ else Unit

pub fail-Counted : (m : HttpError) (d : Decoder) → Counted (fail m d)
unfolding fail
fail-Counted m d = record { left = tt }

fail_limit-Counted : (m : HttpError) (d : Decoder) → Counted (fail_limit m d)
unfolding fail_limit fail
fail_limit-Counted m d = record { left = tt }

take_status-Counted :
    (code : List ℕ) (reason : Option (List ℕ)) (d : Decoder) → Counted (take_status code reason d)
unfolding take_status
take_status-Counted code reason d =
    option_cases Counted (status_number code) (λ e. fail-Counted _ d)
      λ n e. option_cases Counted reason (λ k. record { left = tt }) (λ t k. record { left = tt })

process_status_line-Counted : (line : List ℕ) (d : Decoder) → Counted (process_status_line line d)
unfolding process_status_line
process_status_line-Counted line d =
    option_cases Counted (split_at b' ' line) (λ e. fail-Counted _ d)
      λ p e.
        if_cases Counted (not (is_valid_http_version p.0)) (λ k. fail-Counted _ d)
          λ k.
            option_cases Counted (split_at b' ' p.1)
              (λ q. take_status-Counted p.1 none (record d { version_ = p.0 }))
              (λ r q. take_status-Counted r.0 (some r.1) (record d { version_ = p.0 }))

process_chunk_size-Counted : (line : List ℕ) (d : Decoder) → Counted (process_chunk_size line d)
unfolding process_chunk_size
process_chunk_size-Counted line d =
    option_cases Counted (parse_chunk_size_line line).1 (λ e. record { left = ground arith })
      (λ m e. fail-Counted _ _)

process_trailer-Counted :
    (line : List ℕ) (d : Decoder) → Counted d → Counted (process_trailer line d)
unfolding process_trailer
process_trailer-Counted [] d h = record { left = tt }
process_trailer-Counted (c ∷ cs) d h =
    if_cases Counted (leb d.max_headers_ d.header_count_) (λ e. fail_limit-Counted _ d)
      λ e.
        if_cases Counted (not (validate_chunk_trailer_line (c ∷ cs))) (λ k. fail-Counted _ d)
          (λ k. record { left = h.left })

select_body-Counted : (d : Decoder) → Counted (select_body d)
unfolding select_body
select_body-Counted d =
    let te = contains transfer_encoding_name d.headers_ in
    let cl = contains content_length_name d.headers_ in
    if_cases Counted (te && cl) (λ e. fail-Counted _ d)
      λ e.
        if_cases Counted te
          (λ k.
            if_cases Counted
              (not (
                ascii_iequals (trim_ows (get transfer_encoding_name d.headers_)) (codes "chunked")))
              (λ q. fail-Counted _ d) (λ q. record { left = tt }))
          λ k.
            if_cases Counted cl
              (λ q.
                option_cases Counted (content_length d.headers_) (λ r. fail-Counted _ d)
                  (λ n r. record { left = ground arith }))
              (λ q. record { left = tt })

select_framing-Counted : (d : Decoder) → Counted (select_framing d)
unfolding select_framing
select_framing-Counted d =
    let handoff = (d.status_ == 101) || (for_connect d.request_method_ && is_success d.status_) in
    if_cases Counted
      (handoff || for_head d.request_method_ || status_forbids_response_body d.status_)
      (λ e. record { left = tt }) (λ e. select_body-Counted (record d { handoff_ = handoff }))

process_field-Counted : (line : List ℕ) (d : Decoder) → Counted d → Counted (process_field line d)
unfolding process_field add_response_field
process_field-Counted line d h =
    option_cases Counted (split_at b':' line) (λ e. fail-Counted _ d)
      λ p e.
        option_cases Counted (response_field_error p.0 (trim_ows p.1) d)
          (λ k.
            if_cases Counted (leb d.max_headers_ d.header_count_) (λ q. fail_limit-Counted _ d)
              (λ q. record { left = h.left }))
          (λ m k. fail-Counted m d)

process_header-Counted : (line : List ℕ) (d : Decoder) → Counted d → Counted (process_header line d)
unfolding process_header
process_header-Counted [] d h = select_framing-Counted d
process_header-Counted (c ∷ cs) d h = process_field-Counted (c ∷ cs) d h

process_in :
    (s : DecoderState) (line : List ℕ) (d : Decoder)
    → Counted d
    → Counted (elim s [
      | status_line ↦ process_status_line line d
      | chunk_size ↦ process_chunk_size line d
      | trailers ↦ process_trailer line d
      | _ ↦ process_header line d
    ])
process_in status_line line d h = process_status_line-Counted line d
process_in chunk_size line d h = process_chunk_size-Counted line d
process_in trailers line d h = process_trailer-Counted line d h
process_in _ line d h = process_header-Counted line d h

process_line-Counted : (line : List ℕ) (d : Decoder) → Counted d → Counted (process_line line d)
unfolding process_line
process_line-Counted line d h = process_in d.state_ line d h

line_end-Counted : (line : List ℕ) (d : Decoder) → Counted d → Counted (line_end line d).1
unfolding line_end
line_end-Counted line d h =
    let k = process_line-Counted line d h in
    let done = record (process_line line d) { line_ = [] } in
    if_cases (λ (r : Bool × Decoder). Counted r.1) (has_error done) (λ q. record { left = k.left })
      λ q.
        if_cases (λ (r : Bool × Decoder). Counted r.1) (is_headers d.state_ && (length line == 0))
          (λ e. record { left = k.left }) (λ e. record { left = k.left })

pub line_byte-Counted : (c : ℕ) (d : Decoder) → Counted d → Counted (line_byte c d).1
unfolding line_byte
line_byte-Counted c d h =
    option_cases (λ (r : Bool × Decoder). Counted r.1) (without_cr d.line_)
      (λ e.
        if_cases (λ (r : Bool × Decoder). Counted r.1) (c == b'\n') (λ k. fail-Counted _ d)
          λ k.
            if_cases (λ (r : Bool × Decoder). Counted r.1)
              (not (c == b'\r') && leb d.max_header_size_ (length d.line_))
              (λ q. fail_limit-Counted _ d) (λ q. record { left = h.left }))
      (λ line e.
        if_cases (λ (r : Bool × Decoder). Counted r.1) (not (c == b'\n')) (λ k. fail-Counted _ d)
          λ k. line_end-Counted line d h)

abbrev AllCounted : Option Decoder → Type 0
AllCounted none = Unit
AllCounted (some d) = Counted d

crlf_in :
    (s : DecoderState) (c : ℕ) (d : Decoder)
    → AllCounted (elim s [
      | chunk_cr ↦ if not (c == b'\r') then none else some (record d { state_ = chunk_lf })
      | _ ↦ if not (c == b'\n') then none else some (record d { state_ = chunk_size })
    ])
crlf_in chunk_cr c d = if_cases AllCounted (not (c == b'\r')) (λ e. tt) (λ e. record { left = tt })
crlf_in _ c d = if_cases AllCounted (not (c == b'\n')) (λ e. tt) (λ e. record { left = tt })

pub crlf_byte-Counted : (c : ℕ) (d d' : Decoder) → crlf_byte c d ≡ some d' → Counted d'
unfolding crlf_byte
crlf_byte-Counted c d d' e = subst AllCounted e (crlf_in d.state_ c d)

pub reset_decoder-Counted : (d : Decoder) → Counted (reset_decoder d)
unfolding reset_decoder
reset_decoder-Counted d = record { left = tt }

-- What a call of decode takes of a body.
pub body_count_lem :
    (s : DecoderState) (c n : ℕ) (d : Decoder)
    → d.state_ ≡ s
    → in_body s ≡ true
    → Counted d
    → (0 < body_count (suc n) d)
      × (body_count (suc n) d ≤ suc n)
      × (is_counted d.state_ ≡ true → body_count (suc n) d ≤ d.remaining_)
unfolding body_count
body_count_lem fixed_body c n d e b h =
    let l : 0 < d.remaining_ =
      subst (λ s. if is_counted s then 0 < d.remaining_ else Unit {0}) e h.left in
    ground (arith, e, l)
body_count_lem close_body c n d e b h =
    let never : is_counted d.state_ ≡ false = ap is_counted e in
    (ground (arith, e), ground (arith, e), λ q. absurd (ground (arith, q, never)))
body_count_lem chunk_body c n d e b h =
    let l : 0 < d.remaining_ =
      subst (λ s. if is_counted s then 0 < d.remaining_ else Unit {0}) e h.left in
    ground (arith, e, l)
body_count_lem _ c n d e b h = absurd (ground (arith, b))

pub counted_in :
    (s : DecoderState) (n : ℕ) (d : Decoder)
    → d.state_ ≡ s
    → in_body s ≡ true
    → Counted (counted n d)
unfolding counted after_body
counted_in fixed_body n d e b =
    let r = d.remaining_ - n in
    let now : counted n d
        ≡ record d { remaining_ = r; state_ = if r == 0 then complete else fixed_body } =
      ground (arith, e) in
    subst Counted (sym now) (record { left = ground arith })
counted_in close_body n d e b =
    let now : counted n d ≡ d = ground (arith, e) in
    subst Counted (sym now) (record {
      left = subst (λ s. if is_counted s then 0 < d.remaining_ else Unit {0}) (sym e) tt;
    })
counted_in chunk_body n d e b =
    let r = d.remaining_ - n in
    let now : counted n d
        ≡ record d { remaining_ = r; state_ = if r == 0 then chunk_cr else chunk_body } =
      ground (arith, e) in
    subst Counted (sym now) (record { left = ground arith })
counted_in _ n d e b = absurd (ground (arith, b))
