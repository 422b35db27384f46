-- ===== src/Http/Parser/Response/Events.antt =====
-- The events of response_decoder::decode against the reference that goes byte by byte.
use elio.Prelude.{
  length-take_min, ℕ, zero, suc, ◌+◌, ◌≤◌, ◌<◌, ◌≡◌, refl, sym, ap, ◌∙◌, Bool, true, false, List,
  [], ◌∷◌, ◌++◌, append-nil, Option, none, some, length, take, drop, arith, if_cases,
}
use elio.Http.Parser.Errors.{missing_crlf}
use elio.Http.Parser.Response.{DecoderState, complete, error, Decoder, fail}
use elio.Http.Parser.Response.Decode.{
  body_part, headers_done, DecodeResult, is_ended, in_body, in_crlf, event_in, plain_event,
  ended_event, counted, body_count, crlf_byte, line_byte, decode_from, goes_on,
}
use elio.Http.Parser.Response.Counted.{
  Counted, body_count_lem, counted_in, line_byte-Counted, crlf_byte-Counted, fail-Counted,
}
use elio.Http.Parser.Response.Bytes.{run_bytes, left_at, run_bytes_ended, run_bytes-body}

-- A call that has taken `taken` bytes of its input, and returns the pair `o`.
pub record Decoded (used : ℕ) (input : List ℕ) (d : Decoder) (o : DecodeResult × Decoder)
    : Type 0 where
  pub taken : ℕ
  pub offset : o.0.consumed ≡ used + taken
  pub within : taken ≤ length input
  pub progress : goes_on o.0.event ≡ true → 0 < taken
  pub counts : Counted o.1
  pub same :
      (content : List ℕ)
      → run_bytes input d content ≡ run_bytes (drop taken input) o.1 (content ++ o.0.body)
  pub stops :
      goes_on o.0.event ≡ false
      → (content : List ℕ)
      → run_bytes (drop taken input) o.1 content ≡ left_at o.1 content (drop taken input)

over_in : (s : DecoderState) (handoff : Bool) → goes_on (event_in s handoff) ≡ false
unfolding event_in goes_on
over_in complete true = refl
over_in complete false = refl
over_in error h = refl
over_in _ h = refl

ended_in :
    (used : ℕ) (d : Decoder)
    → (goes_on (ended_event used d).event ≡ false)
      × ((ended_event used d).consumed ≡ used)
      × ((ended_event used d).body ≡ [])
unfolding ended_event
ended_in used d = (over_in d.state_ d.handoff_, refl, refl)

-- Nothing is taken, and nothing more would be.
idle-Decoded :
    (used : ℕ) (input : List ℕ) (d d' : Decoder)
    → Counted d'
    → ((content : List ℕ) → run_bytes input d content ≡ run_bytes input d' content)
    → ((content : List ℕ) → run_bytes input d' content ≡ left_at d' content input)
    → Decoded used input d (ended_event used d', d')
idle-Decoded used input d d' h same stops =
    let (over, at_used, nothing) = ended_in used d' in
    record {
      taken = 0;
      offset = omega (arith, at_used);
      within = omega arith;
      progress = λ e. ground (arith, e, over);
      counts = h;
      same = λ content.
          same content
          ∙ ap (run_bytes input d') (sym (append-nil content) ∙ ap (◌++◌ content) (sym nothing));
      stops = λ e content. stops content;
    }

-- A byte that is taken before the rest.
byte-Decoded :
    (used c : ℕ) (cs : List ℕ) (d d' : Decoder) (o : DecodeResult × Decoder)
    → ((content : List ℕ) → run_bytes (c ∷ cs) d content ≡ run_bytes cs d' content)
    → Decoded (used + 1) cs d' o
    → Decoded used (c ∷ cs) d o
byte-Decoded used c cs d d' o step h = record {
  taken = suc h.taken;
  offset = omega (arith, h.offset);
  within = omega (arith, h.within);
  progress = λ e. omega arith;
  counts = h.counts;
  same = λ content. step content ∙ h.same content;
  stops = h.stops;
}

take-drop : (n : ℕ) (xs : List ℕ) → take n xs ++ drop n xs ≡ xs
take-drop zero xs = refl
take-drop (suc n) [] = refl
take-drop (suc n) (x ∷ xs) = ap (◌∷◌ x) (take-drop n xs)

body-Decoded :
    (used c : ℕ) (cs : List ℕ) (d : Decoder)
    → in_body d.state_ ≡ true
    → Counted d
    → (let count = body_count (suc (length cs)) d in
        Decoded used (c ∷ cs) d (
          record { event = body_part; consumed = used + count; body = take count (c ∷ cs) },
          counted count d,
        ))
unfolding goes_on
body-Decoded used c cs d b h =
    let count = body_count (suc (length cs)) d in
    let (some_byte, fits, enough) = body_count_lem d.state_ c (length cs) d refl b h in
    let long = length-take_min count (c ∷ cs) fits in
    record {
      taken = count;
      offset = refl;
      within = fits;
      progress = λ e. some_byte;
      counts = counted_in d.state_ count d refl b;
      same = λ content.
          ap (λ xs. run_bytes xs d content) (sym (take-drop count (c ∷ cs)))
          ∙ run_bytes-body (take count (c ∷ cs)) (drop count (c ∷ cs)) d content b
              (omega (arith, long, some_byte)) (λ e. omega (arith, long, enough e))
          ∙ ap (λ n. run_bytes (drop count (c ∷ cs)) (counted n d) (content ++ take count (c ∷ cs)))
              long;
      stops = λ e. absurd (ground (arith, e));
    }

-- The steps of the reference, outside a body.
module _ (c : ℕ) (cs : List ℕ) (d : Decoder) where
  crlf_step :
      (content : List ℕ)
      → is_ended d.state_ ≡ false
      → in_body d.state_ ≡ false
      → in_crlf d.state_ ≡ true
      → run_bytes (c ∷ cs) d content ≡ elim (crlf_byte c d) [
        | none ↦ left_at (fail missing_crlf d) content (c ∷ cs)
        | some d' ↦ run_bytes cs d' content
      ]
  unfolding run_bytes
  crlf_step content e b k = rw e (rw b (rw k refl))

  line_step :
      (content : List ℕ)
      → is_ended d.state_ ≡ false
      → in_body d.state_ ≡ false
      → in_crlf d.state_ ≡ false
      → run_bytes (c ∷ cs) d content ≡ run_bytes cs (line_byte c d).1 content
  unfolding run_bytes
  line_step content e b k = rw e (rw b (rw k refl))

fail_ends : (d : Decoder) → is_ended (fail missing_crlf d).state_ ≡ true
unfolding fail
fail_ends d = refl

nothing_left : (d : Decoder) (content : List ℕ) → run_bytes [] d content ≡ left_at d content []
unfolding run_bytes
nothing_left d content = refl

crlf-Decoded :
    (o : Option Decoder) (used c : ℕ) (cs : List ℕ) (d : Decoder)
    → ((content : List ℕ)
        → run_bytes (c ∷ cs) d content ≡ elim o [
          | none ↦ left_at (fail missing_crlf d) content (c ∷ cs)
          | some d' ↦ run_bytes cs d' content
        ])
    → ((d' : Decoder) → o ≡ some d' → Decoded (used + 1) cs d' (decode_from (used + 1) cs d'))
    → Decoded used (c ∷ cs) d (elim o [
      | none ↦ (ended_event used (fail missing_crlf d), fail missing_crlf d)
      | some d' ↦ decode_from (used + 1) cs d'
    ])
crlf-Decoded none used c cs d step h =
    let ended =
      λ (content : List ℕ). run_bytes_ended (c ∷ cs) (fail missing_crlf d) content (fail_ends d) in
    idle-Decoded used (c ∷ cs) d (fail missing_crlf d) (fail-Counted missing_crlf d)
      (λ content. step content ∙ sym (ended content)) ended
crlf-Decoded (some d') used c cs d step h =
    byte-Decoded used c cs d d' (decode_from (used + 1) cs d') step (h d' refl)

boundary-Decoded :
    (used c : ℕ) (cs : List ℕ) (d d' : Decoder)
    → Counted d'
    → ((content : List ℕ) → run_bytes (c ∷ cs) d content ≡ run_bytes cs d' content)
    → Decoded used (c ∷ cs) d (plain_event headers_done (used + 1), d')
unfolding goes_on
boundary-Decoded used c cs d d' h step = record {
  taken = 1;
  offset = refl;
  within = omega arith;
  progress = λ e. omega arith;
  counts = h;
  same = λ content. step content ∙ ap (run_bytes cs d') (sym (append-nil content));
  stops = λ e. absurd (ground (arith, e));
}

-- What a call of decode does is what the reference does with the bytes that it takes.
pub decode_from-Decoded :
    (used : ℕ) (input : List ℕ) (d : Decoder)
    → Counted d
    → Decoded used input d (decode_from used input d)
unfolding decode_from
decode_from-Decoded used [] d h =
    idle-Decoded used [] d d h (λ content. refl) (λ content. nothing_left d content)
decode_from-Decoded used (c ∷ cs) d h =
    let P : DecodeResult × Decoder → Type 0 = Decoded used (c ∷ cs) d in
    if_cases P (is_ended d.state_)
      (λ e.
        idle-Decoded used (c ∷ cs) d d h (λ content. refl)
          (λ content. run_bytes_ended (c ∷ cs) d content e))
      λ e.
        if_cases P (in_body d.state_) (λ b. body-Decoded used c cs d b h)
          λ b.
            if_cases P (in_crlf d.state_)
              (λ k.
                crlf-Decoded (crlf_byte c d) used c cs d (λ content. crlf_step c cs d content e b k)
                  (λ d' q. decode_from-Decoded (used + 1) cs d' (crlf_byte-Counted c d d' q)))
              λ k.
                let after_line = (line_byte c d).1 in
                let next = line_byte-Counted c d h in
                if_cases P (line_byte c d).0
                  (λ q.
                    boundary-Decoded used c cs d after_line next
                      (λ content. line_step c cs d content e b k))
                  (λ q.
                    byte-Decoded used c cs d after_line (decode_from (used + 1) cs after_line)
                      (λ content. line_step c cs d content e b k)
                      (decode_from-Decoded (used + 1) cs after_line next))
