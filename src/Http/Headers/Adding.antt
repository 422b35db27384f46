-- ===== src/Http/Headers/Adding.antt =====
-- What set and add keep.
use elio.Prelude.{
  ℕ, ◌≡◌, refl, sym, subst, false, List, [], ◌∷◌, ◌++◌, none, some, Option-cases, if◌then◌else◌,
  arith, Bool-cases, inl, inr,
}
use elio.Http.Text.{trim_ows, ascii_iequals, is_valid_header_value, is_valid_header_name}
use elio.Http.Headers.{
  Headers, Outcome, throws, done, find, assign, set_checked, checked, set, values_of, add_again,
  add_checked, add, content_length_name, set_cookie_name, same_text,
}
use elio.Http.Headers.Maps.{
  IsUnique, find-assign_same, find-assign_other, assign-IsUnique, assign_new,
}
use elio.Http.Headers.Agree.{IsValue, Agrees, Entry, Good, Good-put, Agrees-more, set_checked-Good}

-- The headers that an operation leaves, if it does not throw.
unfoldable pub Left : Outcome Headers → Type 0
Left (throws e) = Unit
Left (done h) = Good h

checked-Left :
    (name value : List ℕ) (rest : Outcome Headers)
    → (IsValue value → Left rest)
    → Left (checked name value rest)
unfolding checked Left
checked-Left name value rest f = elim (Bool-cases (is_valid_header_name name)) [
  | inr q ↦ rw q tt
  | inl q ↦
      rw q
        (elim (Bool-cases (is_valid_header_value value)) [ inr p ↦ rw p tt | inl p ↦ rw p (f p) ])
]

values_of-some :
    (name legacy : List ℕ) (vs : List (List ℕ)) (h : Headers)
    → find name h.header_values_ ≡ some vs
    → values_of name legacy h ≡ vs
unfolding values_of
values_of-some name legacy vs h e = ground (arith, e)

pub add_checked-some :
    (name value legacy : List ℕ) (h : Headers)
    → find name h.headers_ ≡ some legacy
    → add_checked name value h ≡ add_again name value legacy h
unfolding add_checked
add_checked-some name value legacy h e = ground (arith, e)

add_checked-none :
    (name value : List ℕ) (h : Headers)
    → find name h.headers_ ≡ none
    → find name h.header_values_ ≡ none
    → add_checked name value h
      ≡ done (record {
        headers_ = h.headers_ ++ ((name, value) ∷ []);
        header_values_ = h.header_values_ ++ ((name, value ∷ []) ∷ []);
      })
unfolding add_checked
add_checked-none name value h e k = ground (arith, e, k)

module _ (name value : List ℕ) (h : Headers) (q : IsValue value) (g : Good h) where
  -- The second map has the same names as the first.
  values_there :
      (legacy : List ℕ)
      → find name h.headers_ ≡ some legacy
      → (vs : List (List ℕ)) × (find name h.header_values_ ≡ some vs) × Agrees name legacy vs
  unfolding Entry
  values_there legacy e = elim (Option-cases (find name h.header_values_)) [
    | inl k ↦ absurd (
        subst (Entry name (some legacy)) k
          (subst (λ o. Entry name o (find name h.header_values_)) e (g.entry name)))
    | inr (vs, k) ↦ (
      vs,
      k,
      subst (Entry name (some legacy)) k
          (subst (λ o. Entry name o (find name h.header_values_)) e (g.entry name)),
    )
  ]

  values_absent : find name h.headers_ ≡ none → find name h.header_values_ ≡ none
  unfolding Entry
  values_absent e = elim (Option-cases (find name h.header_values_)) [
    | inl k ↦ k
    | inr (vs, k) ↦ absurd (
        subst (Entry name none) k
          (subst (λ o. Entry name o (find name h.header_values_)) e (g.entry name)))
  ]

  put_more :
      (legacy shown : List ℕ) (vs : List (List ℕ)) (m : List (List ℕ × List ℕ))
      → Agrees name legacy vs
      → ascii_iequals name content_length_name ≡ false
      → shown
        ≡ (if ascii_iequals name set_cookie_name then legacy else legacy ++ (0x2C ∷ 0x20 ∷ value))
      → IsUnique m
      → find name m ≡ some shown
      → ((other : List ℕ) → ascii_iequals name other ≡ false → find other m ≡ find other h.headers_)
      → Good (record {
        headers_ = m;
        header_values_ = assign name (vs ++ (value ∷ [])) h.header_values_;
      })
  put_more legacy shown vs m a n e u f others =
      Good-put h name shown (vs ++ (value ∷ [])) _ g
        (Agrees-more name legacy shown value vs a q n e) u
        (assign-IsUnique name _ _ g.unique_values) f (find-assign_same name _ _)
        (λ other c. (others other c, find-assign_other name other _ _ c))

  add_again-Left :
      (legacy : List ℕ) → find name h.headers_ ≡ some legacy → Left (add_again name value legacy h)
  unfolding add_again Left
  add_again-Left legacy e =
      let (vs, k, a) = values_there legacy e in
      elim (Bool-cases (ascii_iequals name content_length_name)) [
        | inl c ↦ rw c (elim (Bool-cases (same_text (trim_ows legacy) (trim_ows value))) [
          | inl p ↦ rw p g
          | inr p ↦ rw p tt
        ])
        | inr c ↦ rw c (
            rw (values_of-some name legacy vs h k)
              (elim (Bool-cases (ascii_iequals name set_cookie_name)) [
                | inl p ↦ rw p (
                    put_more legacy legacy vs h.headers_ a c (rw p refl) g.unique e
                      (λ other u. refl))
                | inr p ↦ rw p (
                    put_more legacy (legacy ++ (0x2C ∷ 0x20 ∷ value)) vs
                      (assign name (legacy ++ (0x2C ∷ 0x20 ∷ value)) h.headers_) a c (rw p refl)
                      (assign-IsUnique name _ _ g.unique) (find-assign_same name _ _)
                      (λ other u. find-assign_other name other _ _ u))
              ]))
      ]

  add_new-Good :
      find name h.headers_ ≡ none
      → Good (record {
        headers_ = h.headers_ ++ ((name, value) ∷ []);
        header_values_ = h.header_values_ ++ ((name, value ∷ []) ∷ []);
      })
  unfolding set_checked
  add_new-Good e = rw (assign_new name value h.headers_ e) (
      rw (assign_new name (value ∷ []) h.header_values_ (values_absent e))
        (set_checked-Good name value h q g))

  add_checked-Left : Left (add_checked name value h)
  unfolding Left
  add_checked-Left = elim (Option-cases (find name h.headers_)) [
    | inl e ↦ subst Left (sym (add_checked-none name value h e (values_absent e))) (add_new-Good e)
    | inr (legacy, e) ↦
        subst Left (sym (add_checked-some name value legacy h e)) (add_again-Left legacy e)
  ]

pub add-Left : (name value : List ℕ) (h : Headers) → Good h → Left (add name value h)
unfolding add
add-Left name value h g = checked-Left name value _ (λ q. add_checked-Left name value h q g)

pub set-Left : (name value : List ℕ) (h : Headers) → Good h → Left (set name value h)
unfolding set Left
set-Left name value h g = checked-Left name value _ (λ q. set_checked-Good name value h q g)
