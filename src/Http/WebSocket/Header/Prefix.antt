-- ===== src/Http/WebSocket/Header/Prefix.antt =====
-- A header that parses, or that is refused, parses alike with more bytes behind it.
use elio.Prelude.{
  ℕ, ◌≤◌, ◌≡◌, refl, ◌⊎◌, inl, inr, List, ◌++◌, length, get_or, drop, arith, length-append,
  get_or-append_left, drop-append_left, take-append_left, length-drop,
}
use elio.Http.WebSocket.Header.{
  FrameHeader, LengthResult, more, bad, len, incomplete, length_16, length_64, parse_length,
  finish_header, parse_second, on_length, first_byte, parse_frame_header,
}

module _ (xs ys : List ℕ) where
  length_16-append : 4 ≤ length xs → length_16 (xs ++ ys) ≡ length_16 xs
  unfolding length_16
  length_16-append h = ground (
    arith,
    get_or-append_left xs ys 2 0 (omega arith),
    get_or-append_left xs ys 3 0 (omega arith),
  )

  length_64-append : 10 ≤ length xs → length_64 (xs ++ ys) ≡ length_64 xs
  unfolding length_64
  length_64-append h = rw (
    get_or-append_left xs ys 2 0 (omega arith),
    get_or-append_left xs ys 3 0 (omega arith),
    get_or-append_left xs ys 4 0 (omega arith),
    get_or-append_left xs ys 5 0 (omega arith),
    get_or-append_left xs ys 6 0 (omega arith),
    get_or-append_left xs ys 7 0 (omega arith),
    get_or-append_left xs ys 8 0 (omega arith),
    get_or-append_left xs ys 9 0 (omega arith),
  )

  parse_length-append :
      2 ≤ length xs → (parse_length xs ≡ more) ⊎ (parse_length (xs ++ ys) ≡ parse_length xs)
  unfolding parse_length
  parse_length-append h = ground (
    arith,
    get_or-append_left xs ys 1 0 (omega arith),
    length-append xs ys,
    length_16-append,
    length_64-append,
  )

  finish_header-append :
      (header : FrameHeader) (size : ℕ)
      → (finish_header header xs size ≡ incomplete)
        ⊎ (finish_header header (xs ++ ys) size ≡ finish_header header xs size)
  unfolding finish_header
  finish_header-append header size = ground (
    arith,
    length-append xs ys,
    length-drop size xs,
    drop-append_left size xs ys,
    take-append_left 4 (drop size xs) ys,
  )

  on_length-append :
      (header : FrameHeader) (r : LengthResult)
      → 2 ≤ length xs
      → (on_length header xs r ≡ incomplete)
        ⊎ (on_length header (xs ++ ys) r ≡ on_length header xs r)
  unfolding on_length
  on_length-append header more h = inl refl
  on_length-append header (bad e) h = inr refl
  on_length-append header (len n size) h =
      rw (get_or-append_left xs ys 1 0 h) (finish_header-append _ size)

  parse_second-append :
      (header : FrameHeader)
      → 2 ≤ length xs
      → (parse_second header xs ≡ incomplete)
        ⊎ (parse_second header (xs ++ ys) ≡ parse_second header xs)
  unfolding parse_second on_length
  parse_second-append header h = elim (parse_length-append h) [
    | inl e ↦ inl (rw (e, on_length))
    | inr e ↦ rw e (on_length-append header (parse_length xs) h)
  ]

  pub parse_frame_header-append :
      (parse_frame_header xs ≡ incomplete) ⊎ (parse_frame_header (xs ++ ys) ≡ parse_frame_header xs)
  unfolding parse_frame_header
  parse_frame_header-append = ground (
    arith,
    length-append xs ys,
    get_or-append_left xs ys 0 0,
    parse_second-append (first_byte (get_or xs 0 0)),
  )
