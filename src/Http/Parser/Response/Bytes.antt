-- ===== src/Http/Parser/Response/Bytes.antt =====
-- A response byte by byte: what a decoder has made of an input, however the input is cut.
use elio.Prelude.{
  ℕ, suc, ◌≤◌, ◌<◌, ◌≡◌, refl, sym, ap, ◌∙◌, true, false, List, [], ◌∷◌, ◌++◌, append_assoc, Option,
  none, some, length, if◌then◌else◌, arith, Bool-cases, inl, inr, if_both,
}
use elio.Http.Parser.Errors.{missing_crlf}
use elio.Http.Parser.Response.{
  DecoderState, fixed_body, close_body, chunk_body, complete, error, Decoder, fail,
}
use elio.Http.Parser.Response.Decode.{
  is_ended, in_body, in_crlf, after_body, counted, crlf_byte, line_byte,
}
use elio.Http.Parser.Response.Counted.{is_counted}

-- What is left behind the bytes that were taken.
pub record Left : Type 0 where
  pub decoder : Decoder
  pub content : List ℕ
  pub rest : List ℕ

abbrev pub left_at : Decoder → List ℕ → List ℕ → Left
left_at d content rest = record { decoder = d; content = content; rest = rest }

-- The reference: one byte after the other, until the message has ended or a byte is refused.
unfoldable pub run_bytes : List ℕ → Decoder → List ℕ → Left
run_bytes [] d content = left_at d content []
run_bytes (c ∷ cs) d content =
    let next = run_bytes cs (line_byte c d).1 content in
    let body_next = run_bytes cs (counted 1 d) (content ++ (c ∷ [])) in
    if is_ended d.state_
    then left_at d content (c ∷ cs)
    else if in_body d.state_
    then body_next
    else if in_crlf d.state_
    then elim (crlf_byte c d) [
      | none ↦ left_at (fail missing_crlf d) content (c ∷ cs)
      | some d' ↦ run_bytes cs d' content
    ]
    else next

pub run_bytes_ended :
    (xs : List ℕ) (d : Decoder) (content : List ℕ)
    → is_ended d.state_ ≡ true
    → run_bytes xs d content ≡ left_at d content xs
unfolding run_bytes
run_bytes_ended [] d content e = refl
run_bytes_ended (c ∷ cs) d content e = rw e refl

-- A run of `ys` from where a run has stopped.
unfoldable pub resume : List ℕ → Left → Left
resume ys l =
    if is_ended l.decoder.state_
    then left_at l.decoder l.content (l.rest ++ ys)
    else run_bytes ys l.decoder l.content

resume_start :
    (ys : List ℕ) (d : Decoder) (content : List ℕ)
    → run_bytes ys d content ≡ resume ys (left_at d content [])
unfolding resume
resume_start ys d content = elim (Bool-cases (is_ended d.state_)) [
  | inl b ↦ rw b (run_bytes_ended ys d content b)
  | inr b ↦ rw b refl
]

abbrev Resumes : List ℕ → Left → Left → Type 0
Resumes ys l w = w ≡ resume ys l

module _ (ys : List ℕ) where
  ended_Resumes :
      (xs : List ℕ) (d : Decoder) (content : List ℕ)
      → is_ended d.state_ ≡ true
      → Resumes ys (left_at d content xs) (left_at d content (xs ++ ys))
  unfolding resume
  ended_Resumes xs d content e = rw e refl

  crlf_Resumes :
      (o : Option Decoder) (c : ℕ) (cs content : List ℕ) (d : Decoder)
      → ((d' : Decoder) → Resumes ys (run_bytes cs d' content) (run_bytes (cs ++ ys) d' content))
      → Resumes ys
          (elim o [
            | none ↦ left_at (fail missing_crlf d) content (c ∷ cs)
            | some d' ↦ run_bytes cs d' content
          ])
          (elim o [
            | none ↦ left_at (fail missing_crlf d) content (c ∷ (cs ++ ys))
            | some d' ↦ run_bytes (cs ++ ys) d' content
          ])
  unfolding fail
  crlf_Resumes none c cs content d h = ended_Resumes (c ∷ cs) (fail missing_crlf d) content refl
  crlf_Resumes (some d') c cs content d h = h d'

  -- The input in two parts.
  pub run_bytes-append :
      (xs : List ℕ) (d : Decoder) (content : List ℕ)
      → run_bytes (xs ++ ys) d content ≡ resume ys (run_bytes xs d content)
  unfolding run_bytes
  run_bytes-append [] d content = resume_start ys d content
  run_bytes-append (c ∷ cs) d content =
      if_both (λ w l. Resumes ys l w) (is_ended d.state_) (λ e. ended_Resumes (c ∷ cs) d content e)
        λ e.
          if_both (λ w l. Resumes ys l w) (in_body d.state_)
            (λ b. run_bytes-append cs (counted 1 d) (content ++ (c ∷ [])))
            λ b.
              if_both (λ w l. Resumes ys l w) (in_crlf d.state_)
                (λ k.
                  crlf_Resumes (crlf_byte c d) c cs content d
                    (λ d'. run_bytes-append cs d' content))
                (λ k. run_bytes-append cs (line_byte c d).1 content)

body_not_ended : (s : DecoderState) → in_body s ≡ true → is_ended s ≡ false
body_not_ended complete e = ground (arith, e)
body_not_ended error e = ground (arith, e)
body_not_ended _ e = refl

body_step :
    (c : ℕ) (cs : List ℕ) (d : Decoder) (content : List ℕ)
    → in_body d.state_ ≡ true
    → run_bytes (c ∷ cs) d content ≡ run_bytes cs (counted 1 d) (content ++ (c ∷ []))
unfolding run_bytes
body_step c cs d content b = rw (body_not_ended d.state_ b) (rw b refl)

-- Within what is counted, the bytes can be counted one by one.
counted_on :
    (s : DecoderState) (n : ℕ) (d : Decoder)
    → d.state_ ≡ s
    → in_body s ≡ true
    → 0 < n
    → (is_counted s ≡ true → suc n ≤ d.remaining_)
    → ((counted 1 d).state_ ≡ s)
      × (counted n (counted 1 d) ≡ counted (suc n) d)
      × (is_counted s ≡ true → n ≤ (counted 1 d).remaining_)
unfolding counted after_body
counted_on fixed_body n d e b h k = ground (arith, e, k refl)
counted_on close_body n d e b h k = ground (arith, e)
counted_on chunk_body n d e b h k = ground (arith, e, k refl)
counted_on _ n d e b h k = absurd (ground (arith, b))

-- A part of a body that ends within what is counted.
pub run_bytes-body :
    (xs ys : List ℕ) (d : Decoder) (content : List ℕ)
    → in_body d.state_ ≡ true
    → 0 < length xs
    → (is_counted d.state_ ≡ true → length xs ≤ d.remaining_)
    → run_bytes (xs ++ ys) d content ≡ run_bytes ys (counted (length xs) d) (content ++ xs)
run_bytes-body [] ys d content b h k = absurd (omega (arith, h))
run_bytes-body (c ∷ []) ys d content b h k = body_step c ys d content b
run_bytes-body (c ∷ x ∷ xs) ys d content b h k =
    let n = length (x ∷ xs) in
    let (same, counts, enough) = counted_on d.state_ n d refl b (omega arith) k in
    body_step c ((x ∷ xs) ++ ys) d content b
    ∙ run_bytes-body (x ∷ xs) ys (counted 1 d) (content ++ (c ∷ [])) (ap in_body same ∙ b)
        (omega arith) (λ e. enough (sym (ap is_counted same) ∙ e))
    ∙ ap (λ d'. run_bytes ys d' ((content ++ (c ∷ [])) ++ (x ∷ xs))) counts
    ∙ ap (run_bytes ys (counted (suc n) d)) (append_assoc content (c ∷ []) (x ∷ xs))
