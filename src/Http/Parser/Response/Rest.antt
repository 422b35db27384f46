-- ===== src/Http/Parser/Response/Rest.antt =====
-- What the reference run_bytes leaves of its input, and going on from there.
use elio.Prelude.{
  ℕ, ◌≡◌, refl, ap, true, List, [], ◌∷◌, ◌++◌, Option, none, some, if◌then◌else◌, Bool-cases, inl,
  inr, if_cases,
}
use elio.Http.Parser.Errors.{missing_crlf}
use elio.Http.Parser.Response.{Decoder, fail}
use elio.Http.Parser.Response.Decode.{is_ended, in_body, in_crlf, crlf_byte, line_byte, counted}
use elio.Http.Parser.Response.Bytes.{run_bytes, left_at, Left, run_bytes_ended, resume}

-- A run of the reference takes everything, if the message goes on.
abbrev pub Rest : Left → Type 0
Rest l = if is_ended l.decoder.state_ then Unit {0} else l.rest ≡ []

ended-Rest : (l : Left) → is_ended l.decoder.state_ ≡ true → Rest l
ended-Rest l e = rw e tt

nil-Rest : (l : Left) → l.rest ≡ [] → Rest l
nil-Rest l h = elim (Bool-cases (is_ended l.decoder.state_)) [ inl e ↦ rw e tt | inr e ↦ rw e h ]

fail-Rest : (d : Decoder) (content cs : List ℕ) → Rest (left_at (fail missing_crlf d) content cs)
unfolding fail
fail-Rest d content cs = tt

crlf-Rest :
    (o : Option Decoder) (d : Decoder) (content xs cs : List ℕ)
    → ((d' : Decoder) → Rest (run_bytes cs d' content))
    → Rest (elim o [
      | none ↦ left_at (fail missing_crlf d) content xs
      | some d' ↦ run_bytes cs d' content
    ])
crlf-Rest none d content xs cs h = fail-Rest d content xs
crlf-Rest (some d') d content xs cs h = h d'

pub run_bytes-Rest : (xs : List ℕ) (d : Decoder) (content : List ℕ) → Rest (run_bytes xs d content)
unfolding run_bytes
run_bytes-Rest [] d content = nil-Rest (left_at d content []) refl
run_bytes-Rest (c ∷ cs) d content =
    if_cases Rest (is_ended d.state_) (λ e. ended-Rest (left_at d content (c ∷ cs)) e)
      λ e.
        if_cases Rest (in_body d.state_)
          (λ b. run_bytes-Rest cs (counted 1 d) (content ++ (c ∷ [])))
          λ b.
            if_cases Rest (in_crlf d.state_)
              (λ k.
                crlf-Rest (crlf_byte c d) d content (c ∷ cs) cs
                  (λ d'. run_bytes-Rest cs d' content))
              (λ k. run_bytes-Rest cs (line_byte c d).1 content)

-- A run on what is left and new input goes on from there.
pub restart :
    (ys : List ℕ) (l : Left) → Rest l → run_bytes (l.rest ++ ys) l.decoder l.content ≡ resume ys l
unfolding resume
restart ys l h = elim (Bool-cases (is_ended l.decoder.state_)) [
  | inl e ↦ rw e (run_bytes_ended (l.rest ++ ys) l.decoder l.content e)
  | inr e ↦
      let none_left : l.rest ≡ [] = rw e at h in
      rw e (ap (λ r. run_bytes (r ++ ys) l.decoder l.content) none_left)
]
