-- ===== src/Http/WebSocket/Parser/Progress.antt =====
-- The loop of process_buffer ends: a round takes bytes from the buffer, and the fuel does not run out.
use elio.Prelude.{
  drop-drop, ap, drop, append-nil, ℕ, zero, suc, ◌+◌, ◌≤◌, ◌<◌, ◌≡◌, refl, sym, ◌∙◌, subst, ◌⊎◌,
  List, [], ◌∷◌, ◌++◌, length, length-append, Option, some, none, arith, length-drop, Bool-cases,
  inl, inr, ◌==◌, ltb, ltb_false→le,
}
use elio.Http.WebSocket.Header.{
  FrameHeader, ParseError, HeaderResult, incomplete, error, complete, parse_frame_header,
}
use elio.Http.WebSocket.Header.Sizes.{IsSized, parse_frame_header_sizes}
use elio.Http.WebSocket.Parser.{
  FrameParser, Round, stop, taken, failed, Outcome, consumed, refused, check_frame, take_frame,
  on_checked, on_header, round, next_round, process_buffer, parse,
}

abbrev pub Shrinks : FrameParser → Round → Type 0
Shrinks p stop = Unit
Shrinks p (taken q n) =
    (length q.buffer + n ≡ length p.buffer) × (2 ≤ n) × (q.buffer ≡ drop n p.buffer)
Shrinks p (failed q) = Unit

take_frame-Shrinks :
    (p : FrameParser) (h : FrameHeader) (hs fs : ℕ)
    → 2 ≤ fs
    → fs ≤ length p.buffer
    → Shrinks p (take_frame p h hs fs)
unfolding take_frame
take_frame-Shrinks p h hs fs a b = ground (arith, length-drop fs p.buffer)

on_checked-Shrinks :
    (p : FrameParser) (h : FrameHeader) (hs fs : ℕ) (o : Option (ParseError × ℕ))
    → 2 ≤ fs
    → Shrinks p (on_checked p h hs fs o)
unfolding on_checked
on_checked-Shrinks p h hs fs (some (e, c)) a = tt
on_checked-Shrinks p h hs fs none a = elim (Bool-cases (ltb (length p.buffer) fs)) [
  | inl short ↦ rw short tt
  | inr enough ↦ rw enough (take_frame-Shrinks p h hs fs a (ltb_false→le _ _ enough))
]

on_header-Shrinks :
    (p : FrameParser) (r : HeaderResult) → IsSized p.buffer r → Shrinks p (on_header p r)
unfolding on_header
on_header-Shrinks p incomplete s = tt
on_header-Shrinks p (error e) s = tt
on_header-Shrinks p (complete h hs fs) s =
    let z = s h hs fs refl in on_checked-Shrinks p h hs fs (check_frame p h) (omega arith)

pub next_round-Shrinks : (p : FrameParser) → Shrinks p (next_round p)
unfolding next_round round
next_round-Shrinks p = elim (Bool-cases (length p.buffer == 0)) [
  | inl e ↦ rw e tt
  | inr e ↦
      rw e (on_header-Shrinks p (parse_frame_header p.buffer) (parse_frame_header_sizes p.buffer))
]

-- How one round moves the loop.
module _ (fuel : ℕ) (p : FrameParser) (total : ℕ) where
  pub process_buffer-stop :
      next_round p ≡ stop → process_buffer (suc fuel) p total ≡ (consumed total, p)
  unfolding process_buffer
  process_buffer-stop e = rw (e, process_buffer)

  pub process_buffer-taken :
      {q : FrameParser} {n : ℕ}
      → next_round p ≡ taken q n
      → process_buffer (suc fuel) p total ≡ process_buffer fuel q (total + n)
  unfolding process_buffer
  process_buffer-taken e = rw (e, process_buffer)

  pub process_buffer-failed :
      {q : FrameParser} → next_round p ≡ failed q → process_buffer (suc fuel) p total ≡ (refused, q)
  unfolding process_buffer
  process_buffer-failed e = rw (e, process_buffer)

pub Round-cases :
    (r : Round)
    → ((r ≡ stop) ⊎ ((q : FrameParser) × (r ≡ failed q)))
      ⊎ ((q : FrameParser) × (n : ℕ) × (r ≡ taken q n))
Round-cases stop = inl (inl refl)
Round-cases (failed q) = inl (inr (q, refl))
Round-cases (taken q n) = inr (q, n, refl)

pub taken-shrinks :
    (p q : FrameParser) (n : ℕ)
    → next_round p ≡ taken q n
    → (length q.buffer + n ≡ length p.buffer) × (2 ≤ n) × (q.buffer ≡ drop n p.buffer)
taken-shrinks p q n e = subst (Shrinks p) e (next_round-Shrinks p)

-- More fuel than bytes is enough: how much more does not matter.
pub process_buffer-fuel :
    (f g : ℕ) (p : FrameParser) (total : ℕ)
    → length p.buffer < f
    → length p.buffer < g
    → process_buffer f p total ≡ process_buffer g p total
process_buffer-fuel zero g p total a b = absurd (omega arith)
process_buffer-fuel (suc f) zero p total a b = absurd (omega arith)
process_buffer-fuel (suc f) (suc g) p total a b = elim (Round-cases (next_round p)) [
  | inl (inl e) ↦ process_buffer-stop f p total e ∙ sym (process_buffer-stop g p total e)
  | inl (inr (q, e)) ↦ process_buffer-failed f p total e ∙ sym (process_buffer-failed g p total e)
  | inr (q, n, e) ↦
      let s = taken-shrinks p q n e in
      process_buffer-taken f p total e
      ∙ process_buffer-fuel f g q (total + n) (omega arith) (omega arith)
      ∙ sym (process_buffer-taken g p total e)
]

-- What holds of the loop's result on the bytes `all`: it stopped because the next frame is not there,
-- and the buffer holds what is behind the bytes that it consumed; or it failed.
abbrev Settled : List ℕ → Outcome × FrameParser → Type 0
Settled all (consumed n, q) =
    (next_round q ≡ stop) × (n + length q.buffer ≡ length all) × (q.buffer ≡ drop n all)
Settled all (refused, q) = Unit

process_buffer-Settled :
    (f : ℕ) (p : FrameParser) (total : ℕ) (all : List ℕ)
    → length p.buffer < f
    → total + length p.buffer ≡ length all
    → p.buffer ≡ drop total all
    → Settled all (process_buffer f p total)
process_buffer-Settled zero p total all a b c = absurd (omega arith)
process_buffer-Settled (suc f) p total all a b c = elim (Round-cases (next_round p)) [
  | inl (inl e) ↦ rw (process_buffer-stop f p total e) (e, b, c)
  | inl (inr (q, e)) ↦ rw (process_buffer-failed f p total e) tt
  | inr (q, n, e) ↦
      let (size, two, left) = taken-shrinks p q n e in
      rw (process_buffer-taken f p total e) (
        process_buffer-Settled f q (total + n) all (omega arith) (omega arith)
          (left ∙ ap (drop n) c ∙ drop-drop total n (total + n) all refl))
]

-- A call that reports `n` bytes consumed has taken every frame that is complete: the next round
-- would wait for more bytes. The buffer holds exactly the bytes behind the first `n` of what it held
-- before and the input, in their order, and there were as many. The parser's buffer held no complete
-- frame before.
pub parse_settles :
    (p q : FrameParser) (xs : List ℕ) (n : ℕ)
    → next_round p ≡ stop
    → parse p xs ≡ (consumed n, q)
    → (next_round q ≡ stop)
      × (n + length q.buffer ≡ length p.buffer + length xs)
      × (q.buffer ≡ drop n (p.buffer ++ xs))
unfolding parse
parse_settles p q [] n h e = ground (arith, append-nil p.buffer)
parse_settles p q (b ∷ bs) n h e =
    let all = p.buffer ++ (b ∷ bs) in
    let r = record p { buffer = all } in
    let (settled, size, left) =
      subst (Settled all) e
        (process_buffer-Settled (suc (length all)) r 0 all (omega arith) (omega arith) refl) in
    (settled, omega (arith, size, length-append p.buffer (b ∷ bs)), left)
