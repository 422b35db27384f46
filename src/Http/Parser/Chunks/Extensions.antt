-- ===== src/Http/Parser/Chunks/Extensions.antt =====
-- The loop of validate_chunk_extensions ends.
use elio.Prelude.{
  ℕ, suc, ◌≤◌, ◌<◌, ◌≡◌, refl, sym, subst, ◌∙◌, Bool, true, false, not, List, [], ◌∷◌, Option, none,
  some, length, ◌==◌, if◌then◌else◌, arith, if_cases, option_cases,
}
use elio.Prelude.Loop.{Pass, again, leave, Ends, ends, iterate-Ends}
use elio.Http.Text.{is_tchar}
use elio.Http.Parser.Chunks.{
  is_quoted_chunk_ext_char, quoted_rest, parse_chunk_ext_quoted_string, skip_ows, skip_token,
  extension_argument, extension_value, extension_name, chunk_extension, validate_chunk_extensions,
}

-- A round that goes on from a text of less than `n` bytes.
abbrev Below : ℕ → Pass (List ℕ) Bool → Type 0
Below n (again rest) = length rest < n
Below n (leave valid) = Unit

length-skip_ows : (s : List ℕ) → length (skip_ows s) ≤ length s
unfolding skip_ows
length-skip_ows [] = omega arith
length-skip_ows (c ∷ cs) = ground (arith, length-skip_ows cs)

length-skip_token : (s : List ℕ) → length (skip_token s) ≤ length s
unfolding skip_token
length-skip_token [] = omega arith
length-skip_token (c ∷ cs) = ground (arith, length-skip_token cs)

abbrev Within : ℕ → Option (List ℕ) → Type 0
Within n none = Unit
Within n (some rest) = length rest ≤ n

Within-more : (n m : ℕ) (o : Option (List ℕ)) → n ≤ m → Within n o → Within m o
Within-more n m none h w = tt
Within-more n m (some r) h w = omega (arith, h, w)

quoted_rest-Within : (s : List ℕ) → Within (length s) (quoted_rest s)
unfolding quoted_rest
quoted_rest-Within [] = tt
quoted_rest-Within (c ∷ []) = if_cases (Within 1) (c == b'"') (λ e. omega arith) (λ e. tt)
quoted_rest-Within (c ∷ d ∷ cs) =
    let n = suc (suc (length cs)) in
    if_cases (Within n) (c == b'"') (λ e. omega arith)
      λ e.
        if_cases (Within n) (c == b'\\')
          (λ k.
            if_cases (Within n) (not (is_quoted_chunk_ext_char d)) (λ q. tt)
              (λ q.
                Within-more (length cs) n (quoted_rest cs) (omega arith) (quoted_rest-Within cs)))
          λ k.
            if_cases (Within n) (not (is_quoted_chunk_ext_char c)) (λ q. tt)
              (λ q.
                Within-more (suc (length cs)) n (quoted_rest (d ∷ cs)) (omega arith)
                  (quoted_rest-Within (d ∷ cs)))

quoted_lem :
    (c : ℕ) (cs : List ℕ)
    → not (c == b'"') ≡ false
    → parse_chunk_ext_quoted_string (c ∷ cs) ≡ quoted_rest cs
unfolding parse_chunk_ext_quoted_string
quoted_lem c cs e = rw e refl

extension_argument-Below : (n : ℕ) (s : List ℕ) → length s < n → Below n (extension_argument s)
unfolding extension_argument
extension_argument-Below n [] h = tt
extension_argument-Below n (c ∷ cs) h =
    if_cases (Below n) (c == b'"')
      (λ e.
        option_cases (Below n) (parse_chunk_ext_quoted_string (c ∷ cs)) (λ k. tt)
          (λ rest k. omega (
            arith,
            h,
            subst (Within (length cs)) (sym (quoted_lem c cs (ground (arith, e))) ∙ k)
                (quoted_rest-Within cs),
          )))
      (λ e.
        if_cases (Below n) (not (is_tchar c)) (λ k. tt)
          (λ k. omega (arith, h, length-skip_token cs)))

extension_value-Below : (n : ℕ) (s : List ℕ) → length s < n → Below n (extension_value s)
unfolding extension_value
extension_value-Below n [] h = h
extension_value-Below n (c ∷ cs) h =
    if_cases (Below n) (c == b'=')
      (λ e. extension_argument-Below n (skip_ows cs) (omega (arith, h, length-skip_ows cs)))
      (λ e. h)

extension_name-Below : (n : ℕ) (s : List ℕ) → length s < n → Below n (extension_name s)
unfolding extension_name
extension_name-Below n [] h = tt
extension_name-Below n (c ∷ cs) h =
    if_cases (Below n) (not (is_tchar c)) (λ e. tt)
      (λ e.
        extension_value-Below n (skip_ows (skip_token cs))
          (omega (arith, h, length-skip_ows (skip_token cs), length-skip_token cs)))

extension-Below :
    (n : ℕ) (s : List ℕ)
    → length s ≤ n
    → Below n (elim s [
      | [] ↦ leave true
      | c ∷ cs ↦ if not (c == b';') then leave false else extension_name (skip_ows cs)
    ])
extension-Below n [] h = tt
extension-Below n (c ∷ cs) h =
    if_cases (Below n) (not (c == b';')) (λ e. tt)
      (λ e. extension_name-Below n (skip_ows cs) (omega (arith, h, length-skip_ows cs)))

chunk_extension-Below : (s : List ℕ) → Below (length s) (chunk_extension s)
unfolding chunk_extension
chunk_extension-Below s = extension-Below (length s) (skip_ows s) (length-skip_ows s)

abbrev Always : List ℕ → Type 0
Always s = Unit

chunk_extension-lowers :
    (s s' : List ℕ) → Always s → chunk_extension s ≡ again s' → Always s' × (length s' < length s)
chunk_extension-lowers s s' t e = (tt, subst (Below (length s)) e (chunk_extension-Below s))

-- The fuel of validate_chunk_extensions is enough: on every text its loop ends, and with the result
-- that validate_chunk_extensions returns.
pub validate_chunk_extensions-Ends :
    (value : List ℕ) → Ends chunk_extension value (validate_chunk_extensions value)
unfolding validate_chunk_extensions
validate_chunk_extensions-Ends value =
    let (r, run) = ends chunk_extension Always length chunk_extension-lowers value tt in
    subst (Ends chunk_extension value)
      (ground (
        arith,
        iterate-Ends chunk_extension Always length chunk_extension-lowers (suc (length value)) tt
            run (omega arith),
      ))
      run
