-- ===== src/Http/Parser/Cut/Bodies.antt =====
-- Chunks and bodies, with more input behind what is buffered.
use elio.Prelude.{
  ℕ, ◌+◌, ◌-◌, ◌≤◌, ◌<◌, ◌≡◌, refl, sym, ap, ◌∙◌, Bool, true, false, not, ◌||◌, List, [], ◌++◌,
  append_assoc, append-nil, length, length-append, take, drop, get_or, leb, ltb, ◌==◌,
  if◌then◌else◌, arith, Bool-cases, inl, inr, get_or-append_left, drop-append_left,
  take-append_left, take-append_right, drop-append_right, take_all, drop_all,
}
use elio.Http.Parser.Errors.{missing_crlf}
use elio.Http.Parser.Request.{body, chunk_size, chunk_data, complete, RequestParser, set_error}
use elio.Http.Parser.Request.Parse.{at, is_error, parse_body, parse_chunk_data}
use elio.Http.Parser.Cut.{extend, Extends, pick_else, along, waits-Extends}

module _ (x : List ℕ) where
  parse_chunk_data-waits :
      (p : RequestParser)
      → ltb (length p.buffer_) (p.fields.chunk_size_ + 2) ≡ true
      → parse_chunk_data p ≡ (false, p)
  unfolding parse_chunk_data
  parse_chunk_data-waits p q = rw q refl

  -- A chunk that is whole, in the buffer `b` with `rest` behind it.
  abbrev whole_chunk : RequestParser → List ℕ → List ℕ → Bool × RequestParser
  whole_chunk p b rest =
      let n = p.fields.chunk_size_ in
      if not (get_or p.buffer_ n 0 == b'\r') || not (get_or p.buffer_ (n + 1) 0 == b'\n')
      then (true, at b (set_error missing_crlf p.fields))
      else (
        true,
        at rest
            (record p.fields { body_ = p.fields.body_ ++ take n p.buffer_; state_ = chunk_size }),
      )

  parse_chunk_data-whole :
      (p : RequestParser)
      → ltb (length p.buffer_) (p.fields.chunk_size_ + 2) ≡ false
      → (parse_chunk_data p ≡ whole_chunk p p.buffer_ (drop (p.fields.chunk_size_ + 2) p.buffer_))
        × (parse_chunk_data (extend x p)
            ≡ whole_chunk p (p.buffer_ ++ x) (drop (p.fields.chunk_size_ + 2) p.buffer_ ++ x))
  unfolding parse_chunk_data
  parse_chunk_data-whole p q =
      let n = p.fields.chunk_size_ in
      (
        rw q refl,
        ground (
          arith,
          q,
          length-append p.buffer_ x,
          get_or-append_left p.buffer_ x n 0 (ground (arith, q)),
          get_or-append_left p.buffer_ x (n + 1) 0 (ground (arith, q)),
          drop-append_left (n + 2) p.buffer_ x (ground (arith, q)),
          take-append_left n p.buffer_ x (ground (arith, q)),
        ),
      )

  whole_chunk-Extends :
      (p : RequestParser) (rest : List ℕ)
      → Extends x chunk_data parse_chunk_data
          (whole_chunk p p.buffer_ rest)
          (whole_chunk p (p.buffer_ ++ x) (rest ++ x))
  whole_chunk-Extends p rest =
      elim (Bool-cases (
        not (get_or p.buffer_ p.fields.chunk_size_ 0 == b'\r')
        || not (get_or p.buffer_ (p.fields.chunk_size_ + 1) 0 == b'\n'))) [
          | inl q ↦ rw q refl
          | inr q ↦ rw q refl
        ]

  pub parse_chunk_data-Extends :
      (p : RequestParser)
      → p.fields.state_ ≡ chunk_data
      → Extends x chunk_data parse_chunk_data (parse_chunk_data p) (parse_chunk_data (extend x p))
  parse_chunk_data-Extends p e =
      elim (Bool-cases (ltb (length p.buffer_) (p.fields.chunk_size_ + 2))) [
        | inl q ↦
            along x chunk_data parse_chunk_data (parse_chunk_data-waits p q) refl
              (waits-Extends x chunk_data parse_chunk_data p refl e)
        | inr q ↦
            let (here, more) = parse_chunk_data-whole p q in
            along x chunk_data parse_chunk_data here more
              (whole_chunk-Extends p (drop (p.fields.chunk_size_ + 2) p.buffer_))
      ]

  parse_body-all :
      (p : RequestParser)
      → p.fields.body_received_ < p.fields.content_length_
      → p.fields.content_length_ - p.fields.body_received_ ≤ length p.buffer_
      → ◌≡◌ {A = Bool × RequestParser} (parse_body p) (
        true,
        at (drop (p.fields.content_length_ - p.fields.body_received_) p.buffer_) (record p.fields {
          body_ =
              p.fields.body_ ++ take (p.fields.content_length_ - p.fields.body_received_) p.buffer_;
          body_received_ = p.fields.content_length_;
          state_ = complete;
        }),
      )
  unfolding parse_body
  parse_body-all p h k = ground (arith, h, k)

  parse_body-part :
      (p : RequestParser)
      → length p.buffer_ < p.fields.content_length_ - p.fields.body_received_
      → parse_body p ≡ (
        false,
        at [] (record p.fields {
          body_ = p.fields.body_ ++ p.buffer_;
          body_received_ = p.fields.body_received_ + length p.buffer_;
        }),
      )
  unfolding parse_body
  parse_body-part p h =
      ground (
        arith,
        h,
        rw append-nil at (take_all p.buffer_ []),
        rw append-nil at (drop_all p.buffer_ []),
      )

  -- What is left of a body, with `x` behind a part of it.
  grown : RequestParser → RequestParser
  grown p = at x (record p.fields {
    body_ = p.fields.body_ ++ p.buffer_;
    body_received_ = p.fields.body_received_ + length p.buffer_;
  })

  parse_body-grown :
      (p : RequestParser)
      → p.fields.body_received_ < p.fields.content_length_
      → length p.buffer_ < p.fields.content_length_ - p.fields.body_received_
      → parse_body (extend x p) ≡ parse_body (grown p)
  unfolding grown
  parse_body-grown p h k =
      let n = p.fields.content_length_ - p.fields.body_received_ in
      let m = p.fields.content_length_ - (p.fields.body_received_ + length p.buffer_) in
      elim (Bool-cases
        (leb (p.fields.content_length_ - p.fields.body_received_) (length (p.buffer_ ++ x)))) [
          | inl q ↦
              parse_body-all (extend x p) h (ground (arith, q))
              ∙ ground (
                arith,
                take-append_right n m p.buffer_ x (ground (arith, k)),
                drop-append_right n m p.buffer_ x (ground (arith, k)),
                append_assoc p.fields.body_ p.buffer_ (take m x),
              )
              ∙ sym (
                  parse_body-all (grown p) (ground (arith, k))
                    (ground (arith, q, length-append p.buffer_ x)))
          | inr q ↦
              parse_body-part (extend x p) (ground (arith, q))
              ∙ ground (arith, append_assoc p.fields.body_ p.buffer_ x, length-append p.buffer_ x)
              ∙ sym (parse_body-part (grown p) (ground (arith, q, length-append p.buffer_ x)))
        ]

  pub parse_body-Extends :
      (p : RequestParser)
      → p.fields.state_ ≡ body
      → p.fields.body_received_ < p.fields.content_length_
      → Extends x body parse_body (parse_body p) (parse_body (extend x p))
  unfolding grown
  parse_body-Extends p e h =
      let n = p.fields.content_length_ - p.fields.body_received_ in
      elim (Bool-cases (leb n (length p.buffer_))) [
        | inl q ↦
            along x body parse_body (parse_body-all p h (ground (arith, q)))
              (parse_body-all (extend x p) h (ground (arith, q, length-append p.buffer_ x)))
              (ground (
                arith,
                drop-append_left n p.buffer_ x (ground (arith, q)),
                take-append_left n p.buffer_ x (ground (arith, q)),
              ))
        | inr q ↦ along x body parse_body (parse_body-part p (ground (arith, q))) refl (
            pick_else _ _ (is_error p.fields.state_) (ap is_error e)
              (e, parse_body-grown p h (ground (arith, q))))
      ]
