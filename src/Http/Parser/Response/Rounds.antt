-- ===== src/Http/Parser/Response/Rounds.antt =====
-- A round of response_parser::parse takes the reference that goes byte by byte along, and the loop ends
-- where that reference stops.
use elio.Prelude.{
  drop-drop, ℕ, ◌+◌, ◌-◌, ◌≤◌, ◌<◌, ◌≡◌, subst, ap, ◌∙◌, List, ◌++◌, length, drop, length-drop,
  if◌then◌else◌, arith, if_cases,
}
use elio.Prelude.Loop.{Pass, again, leave, Ends, stops, goes}
use elio.Http.Parser.Response.{Decoder}
use elio.Http.Parser.Response.Decode.{DecodeResult, decode, decode_from, decode_round, goes_on}
use elio.Http.Parser.Response.Counted.{Counted}
use elio.Http.Parser.Response.Bytes.{run_bytes, left_at}
use elio.Http.Parser.Response.Events.{Decoded, decode_from-Decoded}

-- Where the loop stands: the decoder, the body and the offset.
abbrev pub Standing : Type 0
Standing = Decoder × List ℕ × ℕ

module _ (buffer : List ℕ) where
  abbrev pub Sound : Standing → Type 0
  Sound s = Counted s.0 × (s.2 ≤ length buffer)

  abbrev pub to_go : Standing → ℕ
  to_go s = length buffer - s.2

  -- The reference goes from `s` to where it is at `t`.
  abbrev Runs : Standing → Standing → Type 0
  Runs s t = run_bytes (drop s.2 buffer) s.0 s.1 ≡ run_bytes (drop t.2 buffer) t.0 t.1

  -- A round takes the reference along, and leaves only where the reference has stopped.
  abbrev RoundFrom : Standing → Pass Standing Standing → Type 0
  RoundFrom s (again t) = Sound t × Runs s t × (to_go t < to_go s)
  RoundFrom s (leave t) =
      Sound t × Runs s t × (run_bytes (drop t.2 buffer) t.0 t.1 ≡ left_at t.0 t.1 (drop t.2 buffer))

  after_decode :
      (s : Standing) (o : DecodeResult × Decoder)
      → Sound s
      → Decoded 0 (drop s.2 buffer) s.0 o
      → (let t : Standing = (o.1, s.1 ++ o.0.body, s.2 + o.0.consumed) in
          RoundFrom s (if goes_on o.0.event then again t else leave t))
  after_decode s o h k =
      let t : Standing = (o.1, s.1 ++ o.0.body, s.2 + o.0.consumed) in
      let inside = length-drop s.2 buffer in
      let place : drop k.taken (drop s.2 buffer) ≡ drop t.2 buffer =
        drop-drop s.2 k.taken (s.2 + o.0.consumed) buffer (omega (arith, k.offset)) in
      let sound : Sound t = (k.counts, omega (arith, k.offset, k.within, inside, h.1)) in
      let along : Runs s t = k.same s.1 ∙ ap (λ xs. run_bytes xs o.1 (s.1 ++ o.0.body)) place in
      if_cases (RoundFrom s) (goes_on o.0.event)
        (λ e. (sound, along, omega (arith, k.offset, k.within, inside, h.1, k.progress e)))
        (λ e. (
          sound,
          along,
          subst (λ xs. run_bytes xs t.0 t.1 ≡ left_at t.0 t.1 xs) place (k.stops e t.1),
        ))

  decode_round-RoundFrom : (s : Standing) → Sound s → RoundFrom s (decode_round buffer s)
  unfolding decode_round decode
  decode_round-RoundFrom s h =
      after_decode s (decode_from 0 (drop s.2 buffer) s.0) h
        (decode_from-Decoded 0 (drop s.2 buffer) s.0 h.0)

  pub round_lowers :
      (s t : Standing) → Sound s → decode_round buffer s ≡ again t → Sound t × (to_go t < to_go s)
  round_lowers s t h e =
      let (sound, along, less) = subst (RoundFrom s) e (decode_round-RoundFrom s h) in (sound, less)

  -- Where the loop ends, the reference has stopped with the same.
  pub run_ends :
      {s t : Standing}
      → Sound s
      → Ends (decode_round buffer) s t
      → Sound t × (run_bytes (drop s.2 buffer) s.0 s.1 ≡ left_at t.0 t.1 (drop t.2 buffer))
  run_ends {s = s} h (stops e) =
      let (sound, along, over) = subst (RoundFrom s) e (decode_round-RoundFrom s h) in
      (sound, along ∙ over)
  run_ends {s = s} h (goes e run) =
      let (sound, along, less) = subst (RoundFrom s) e (decode_round-RoundFrom s h) in
      let (final, over) = run_ends sound run in (final, along ∙ over)
