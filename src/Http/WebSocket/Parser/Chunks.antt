-- ===== src/Http/WebSocket/Parser/Chunks.antt =====
-- Reassembly does not depend on how the input is cut.
use elio.Prelude.{
  ℕ, zero, suc, ◌+◌, ◌≤◌, ◌<◌, ◌≡◌, ◌≢◌, refl, sym, ◌∙◌, ap, ◌⊎◌, inl, inr, false, Bool-cases, List,
  [], ◌∷◌, ◌++◌, length, drop, Option, some, none, arith, length-append, drop-append_left,
  take-append_left, length-drop, ltb, ltb_false→le, append_assoc, append-nil,
}
use elio.Http.WebSocket.Header.{FrameHeader, ParseError, HeaderResult, incomplete, error, complete}
use elio.Http.WebSocket.Header.Prefix.{parse_frame_header-append}
use elio.Http.WebSocket.Header.Sizes.{IsSized, parse_frame_header_sizes}
use elio.Http.WebSocket.Parser.Progress.{
  Round-cases, process_buffer-stop, process_buffer-taken, process_buffer-failed, taken-shrinks,
  process_buffer-fuel,
}
use native.Mathlib.Nat.{add_assoc, add-zero}
use elio.Http.WebSocket.Parser.{
  FrameParser, Round, stop, taken, failed, Outcome, consumed, refused, check_data, check_frame,
  extract_payload, accumulate, deliver, process_frame, fail, take_frame, on_checked, on_header,
  round, next_round, process_buffer, parse,
}

-- The parser with more bytes in its buffer.
abbrev pub extend : FrameParser → List ℕ → FrameParser
extend p ys = record p { buffer = p.buffer ++ ys }

check_frame-extend :
    (p : FrameParser) (ys : List ℕ) (h : FrameHeader)
    → check_frame (extend p ys) h ≡ check_frame p h
unfolding check_frame check_data
check_frame-extend p ys h = refl

process_frame-extend :
    (p : FrameParser) (ys : List ℕ) (h : FrameHeader) (payload : List ℕ)
    → ((process_frame (extend p ys) h payload).0 ≡ (process_frame p h payload).0)
      × ((process_frame (extend p ys) h payload).1 ≡ extend (process_frame p h payload).1 ys)
unfolding process_frame deliver accumulate
process_frame-extend p ys h payload = ground arith

extract_payload-append :
    (xs ys : List ℕ) (h : FrameHeader) (hs : ℕ)
    → hs + h.payload_len ≤ length xs
    → extract_payload (xs ++ ys) h hs ≡ extract_payload xs h hs
unfolding extract_payload
extract_payload-append xs ys h hs p = rw (
  drop-append_left hs xs ys (omega arith),
  take-append_left h.payload_len (drop hs xs) ys (omega (arith, length-drop hs xs)),
)

-- What a round that does not stop gives, with more bytes behind.
abbrev pub grow : List ℕ → Round → Round
grow ys stop = stop
grow ys (taken q n) = taken (extend q ys) n
grow ys (failed q) = failed (extend q ys)

take_frame-extend :
    (p : FrameParser) (ys : List ℕ) (h : FrameHeader) (hs fs : ℕ)
    → fs ≡ hs + h.payload_len
    → fs ≤ length p.buffer
    → take_frame (extend p ys) h hs fs ≡ grow ys (take_frame p h hs fs)
unfolding take_frame fail
take_frame-extend p ys h hs fs e f = ground (
  arith,
  extract_payload-append p.buffer ys h hs (omega arith),
  process_frame-extend p ys h (extract_payload p.buffer h hs),
  drop-append_left fs p.buffer ys f,
)

on_checked-extend :
    (p : FrameParser) (ys : List ℕ) (h : FrameHeader) (hs fs : ℕ) (o : Option (ParseError × ℕ))
    → fs ≡ hs + h.payload_len
    → (on_checked p h hs fs o ≡ stop)
      ⊎ (on_checked (extend p ys) h hs fs o ≡ grow ys (on_checked p h hs fs o))
unfolding on_checked fail
on_checked-extend p ys h hs fs (some (e, c)) s = inr refl
on_checked-extend p ys h hs fs none s = elim (Bool-cases (ltb (length p.buffer) fs)) [
  | inl short ↦ inl (rw short)
  | inr enough ↦
      let enough' : ltb (length (p.buffer ++ ys)) fs ≡ false =
        ground (arith, length-append p.buffer ys) in
      inr (rw (enough, enough') (take_frame-extend p ys h hs fs s (ltb_false→le _ _ enough)))
]

on_header-extend :
    (p : FrameParser) (ys : List ℕ) (r : HeaderResult)
    → IsSized p.buffer r
    → (on_header p r ≡ stop) ⊎ (on_header (extend p ys) r ≡ grow ys (on_header p r))
unfolding on_header
on_header-extend p ys incomplete s = inl refl
on_header-extend p ys (error e) s = inr (unfold fail in refl)
on_header-extend p ys (complete h hs fs) s =
    rw (check_frame-extend p ys h)
      (on_checked-extend p ys h hs fs (check_frame p h) (s h hs fs refl).0)

round-extend :
    (p : FrameParser) (ys : List ℕ) → (round p ≡ stop) ⊎ (round (extend p ys) ≡ grow ys (round p))
unfolding round on_header
round-extend p ys = elim (parse_frame_header-append p.buffer ys) [
  | inl e ↦ inl (rw (e, on_header))
  | inr e ↦ rw e (on_header-extend p ys _ (parse_frame_header_sizes p.buffer))
]

-- A round that does not stop is the same with more bytes behind.
pub next_round-extend :
    (p : FrameParser) (ys : List ℕ)
    → (next_round p ≡ stop) ⊎ (next_round (extend p ys) ≡ grow ys (next_round p))
unfolding next_round
next_round-extend p ys = ground (arith, length-append p.buffer ys, round-extend p ys)

-- The result of `parse`, after `n` bytes consumed before.
abbrev pub add_consumed : ℕ → Outcome × FrameParser → Outcome × FrameParser
add_consumed n (consumed m, p) = (consumed (n + m), p)
add_consumed n (refused, p) = (refused, p)

-- A call of `parse` with `ys` after one that was not refused. After a refused one no call is made, and
-- `ys` is put behind what the buffer holds.
abbrev pub parse_unless_refused : Outcome × FrameParser → List ℕ → Outcome × FrameParser
parse_unless_refused (consumed n, p) ys = add_consumed n (parse p ys)
parse_unless_refused (refused, p) ys = (refused, extend p ys)

-- The same at the loop: `fuel` is enough for the first part, `fuel'` for both.
abbrev resume : Outcome × FrameParser → List ℕ → Outcome × FrameParser
resume (consumed n, p) ys = process_buffer (suc (length (p.buffer ++ ys))) (extend p ys) n
resume (refused, p) ys = (refused, extend p ys)

process_buffer-extend :
    (fuel fuel' : ℕ) (p : FrameParser) (total : ℕ) (ys : List ℕ)
    → length p.buffer < fuel
    → length p.buffer + length ys < fuel'
    → process_buffer fuel' (extend p ys) total ≡ resume (process_buffer fuel p total) ys
process_buffer-extend zero fuel' p total ys h k = absurd (omega arith)
process_buffer-extend (suc fuel) zero p total ys h k = absurd (omega arith)
process_buffer-extend (suc fuel) (suc fuel') p total ys h k = elim (Round-cases (next_round p)) [
  | inl (inl e) ↦ rw (process_buffer-stop fuel p total e) (
      process_buffer-fuel (suc fuel') _ (extend p ys) total
        (omega (arith, length-append p.buffer ys)) (omega arith))
  | inl (inr (q, e)) ↦
      rw (process_buffer-failed fuel p total e)
        (process_buffer-failed fuel' (extend p ys) total (grown (failed q) e (λ z. cc)))
  | inr (q, n, e) ↦
      let s = taken-shrinks p q n e in
      rw (process_buffer-taken fuel p total e) (
        process_buffer-taken fuel' (extend p ys) total (grown (taken q n) e (λ z. cc))
        ∙ process_buffer-extend fuel fuel' q (total + n) ys (omega arith) (omega arith))
]
  where
    grown : (r : Round) → next_round p ≡ r → r ≢ stop → next_round (extend p ys) ≡ grow ys r
    grown r e moves = elim (next_round-extend p ys) [
      | inl halt ↦ absurd (moves (sym e ∙ halt))
      | inr same ↦ same ∙ ap (grow ys) e
    ]

process_buffer-add :
    (f : ℕ) (p : FrameParser) (a t : ℕ)
    → process_buffer f p (a + t) ≡ add_consumed a (process_buffer f p t)
process_buffer-add zero p a t = unfold process_buffer in refl
process_buffer-add (suc f) p a t = elim (Round-cases (next_round p)) [
  | inl (inl e) ↦ rw (process_buffer-stop f p (a + t) e, process_buffer-stop f p t e)
  | inl (inr (q, e)) ↦ rw (process_buffer-failed f p (a + t) e, process_buffer-failed f p t e)
  | inr (q, n, e) ↦
      rw (process_buffer-taken f p (a + t) e, process_buffer-taken f p t e, add_assoc a t n)
        (process_buffer-add f q a (t + n))
]

add_consumed-zero : (r : Outcome × FrameParser) → add_consumed 0 r ≡ r
add_consumed-zero (consumed n, q) = ground arith
add_consumed-zero (refused, q) = refl

parse_unless_refused-nil : (r : Outcome × FrameParser) → r ≡ parse_unless_refused r []
unfolding parse
parse_unless_refused-nil (consumed n, q) = ground arith
parse_unless_refused-nil (refused, q) =
    ap (λ (b : List ℕ). (refused, record q { buffer = b })) (sym (append-nil q.buffer))

resume-parse_unless_refused :
    (r : Outcome × FrameParser) (y : ℕ) (ys : List ℕ)
    → resume r (y ∷ ys) ≡ parse_unless_refused r (y ∷ ys)
unfolding parse
resume-parse_unless_refused (consumed n, q) y ys =
    ap (process_buffer _ (extend q (y ∷ ys))) (sym (add-zero n))
    ∙ process_buffer-add _ (extend q (y ∷ ys)) n 0
resume-parse_unless_refused (refused, q) y ys = refl

-- Input that comes in two calls, the first of which is not refused, gives the messages, frames, errors
-- and state of one call, and the counts of the two add up to its count. If the first call is refused,
-- so is the one call, and it leaves the same parser, but for the second part of the input behind what
-- the buffer holds; nothing is said of a second call on a parser that has refused its input.
pub parse-append :
    (p : FrameParser) (xs ys : List ℕ) → parse p (xs ++ ys) ≡ parse_unless_refused (parse p xs) ys
unfolding parse
parse-append p [] ys = sym (add_consumed-zero (parse p ys))
parse-append p (x ∷ xs) [] = rw (append-nil xs) (parse_unless_refused-nil _)
parse-append p (x ∷ xs) (y ∷ ys) = rw (← append_assoc p.buffer (x ∷ xs) (y ∷ ys)) (
    process_buffer-extend _ _ (extend p (x ∷ xs)) 0 (y ∷ ys) (omega arith)
      (omega (arith, length-append (p.buffer ++ (x ∷ xs)) (y ∷ ys)))
    ∙ resume-parse_unless_refused _ y ys)
