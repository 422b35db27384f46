-- ===== src/Http/Parser/Request/Adding.antt =====
-- headers_.add behind the checks of a field line.
use elio.Prelude.{
  ℕ, ◌≡◌, refl, sym, subst, ap, ◌∙◌, Bool, true, false, ◌||◌, List, [], ◌∷◌, ◌++◌, none, some, ◌==◌,
  arith, Bool-cases, Option-cases, inl, inr, ◌⊎◌, if_cases,
}
use elio.Http.Text.{
  trim_front, trim_back, trim_ows, ascii_iequals, is_valid_header_name, is_valid_header_value,
}
use elio.Http.Headers.{
  Headers, Outcome, done, find, add, add_checked, add_again, checked, get, contains, same_text,
  content_length_name, set_cookie_name,
}
use elio.Http.Headers.Maps.{find_same}
use elio.Http.Headers.Adding.{add_checked-some}
use elio.Http.Parser.Request.{Fields, field_error, add_field}

abbrev is_blank : ℕ → Bool
is_blank c = (c == 0x20) || (c == 0x09)

List-cases : (xs : List ℕ) → (xs ≡ []) ⊎ ((x : ℕ) × (rest : List ℕ) × (xs ≡ x ∷ rest))
List-cases [] = inl refl
List-cases (x ∷ xs) = inr (x, xs, refl)

trim_back_keeps : (c : ℕ) (cs : List ℕ) → is_blank c ≡ false → trim_back (c ∷ cs) ≡ c ∷ trim_back cs
unfolding trim_back
trim_back_keeps c cs e = elim (List-cases (trim_back cs)) [
  | inl n ↦ ground (arith, n, e)
  | inr (x, xs, n) ↦ ground (arith, n, e)
]

trim_back_more :
    (c x : ℕ) (cs xs : List ℕ) → trim_back cs ≡ x ∷ xs → trim_back (c ∷ cs) ≡ c ∷ x ∷ xs
unfolding trim_back
trim_back_more c x cs xs e = ground (arith, e)

trim_front_keeps : (c : ℕ) (cs : List ℕ) → is_blank c ≡ false → trim_front (c ∷ cs) ≡ c ∷ cs
unfolding trim_front
trim_front_keeps c cs e = rw e refl

trim_back_again : (s : List ℕ) → trim_back (trim_back s) ≡ trim_back s
unfolding trim_back
trim_back_again [] = refl
trim_back_again (c ∷ cs) = elim (List-cases (trim_back cs)) [
  | inl n ↦ ground (arith, n)
  | inr (x, xs, n) ↦
      let grown = trim_back_more c x cs xs n in
      let same : trim_back (x ∷ xs) ≡ x ∷ xs = sym (ap trim_back n) ∙ trim_back_again cs ∙ n in
      ap trim_back grown ∙ trim_back_more c x (x ∷ xs) xs same ∙ sym grown
]

trim_front-trim_back :
    (s : List ℕ) → trim_front (trim_back (trim_front s)) ≡ trim_back (trim_front s)
unfolding trim_front trim_back
trim_front-trim_back [] = refl
trim_front-trim_back (c ∷ cs) = elim (Bool-cases (is_blank c)) [
  | inl b ↦ rw b (trim_front-trim_back cs)
  | inr b ↦
      let front = trim_front_keeps c cs b in
      let back = trim_back_keeps c cs b in
      ap (λ t. trim_front (trim_back t)) front
      ∙ ap trim_front back
      ∙ trim_front_keeps c (trim_back cs) b
      ∙ sym (ap trim_back front ∙ back)
]

pub trim_ows_again : (s : List ℕ) → trim_ows (trim_ows s) ≡ trim_ows s
unfolding trim_ows
trim_ows_again s = rw trim_front-trim_back (trim_back_again (trim_front s))

-- The value of Content-Length that is there, if a further one is accepted.
accepted_length :
    (name value : List ℕ) (f : Fields) (legacy : List ℕ)
    → field_error name value f ≡ none
    → find name f.headers_.headers_ ≡ some legacy
    → ascii_iequals name content_length_name ≡ true
    → same_text (trim_ows legacy) value ≡ true
unfolding field_error contains get
accepted_length name value f legacy e k c =
    let here : find content_length_name f.headers_.headers_ ≡ some legacy =
      sym (find_same name content_length_name c f.headers_.headers_) ∙ k in
    ground (arith, e, here, c)

field_checks :
    (name value : List ℕ) (f : Fields)
    → field_error name value f ≡ none
    → (is_valid_header_name name ≡ true) × (is_valid_header_value value ≡ true)
unfolding field_error
field_checks name value f e = ground (arith, e)

pub checked_valid :
    (name value : List ℕ) (rest : Outcome Headers)
    → is_valid_header_name name ≡ true
    → is_valid_header_value value ≡ true
    → checked name value rest ≡ rest
unfolding checked
checked_valid name value rest n v = ground (arith, n, v)

abbrev pub Adds : Outcome Headers → Type 0
Adds o = (h : Headers) × (o ≡ done h)

add_again-Adds :
    (name value legacy : List ℕ) (h : Headers)
    → (ascii_iequals name content_length_name ≡ true
        → same_text (trim_ows legacy) (trim_ows value) ≡ true)
    → Adds (add_again name value legacy h)
unfolding add_again
add_again-Adds name value legacy h same =
    if_cases Adds (ascii_iequals name content_length_name)
      (λ e.
        if_cases Adds (same_text (trim_ows legacy) (trim_ows value)) (λ k. (h, refl))
          (λ k. absurd (ground (arith, same e, k))))
      (λ e. if_cases Adds (ascii_iequals name set_cookie_name) (λ k. (_, refl)) (λ k. (_, refl)))

new_name-Adds :
    (name value : List ℕ) (h : Headers)
    → find name h.headers_ ≡ none
    → Adds (add_checked name value h)
unfolding add_checked
new_name-Adds name value h e = (
  record {
    headers_ = h.headers_ ++ ((name, value) ∷ []);
    header_values_ = elim (find name h.header_values_) [
      | none ↦ h.header_values_ ++ ((name, value ∷ []) ∷ [])
      | some values ↦ h.header_values_
    ];
  },
  ground (arith, e),
)

-- A further Content-Length has the value of the one that is there.
abbrev pub AgreesOnLength : List ℕ → List ℕ → Headers → Type 0
AgreesOnLength name value h =
    (legacy : List ℕ)
    → find name h.headers_ ≡ some legacy
    → ascii_iequals name content_length_name ≡ true
    → same_text (trim_ows legacy) value ≡ true

pub add_valid-Adds :
    (name behind : List ℕ) (h : Headers)
    → is_valid_header_name name ≡ true
    → is_valid_header_value (trim_ows behind) ≡ true
    → AgreesOnLength name (trim_ows behind) h
    → Adds (add name (trim_ows behind) h)
unfolding add
add_valid-Adds name behind h n v agrees =
    let value = trim_ows behind in
    subst Adds (sym (checked_valid name value (add_checked name value h) n v))
      (elim (Option-cases (find name h.headers_)) [
        | inl k ↦ new_name-Adds name value h k
        | inr (legacy, k) ↦ subst Adds (sym (add_checked-some name value legacy h k)) (
            add_again-Adds name value legacy h λ c.
              subst (λ t. same_text (trim_ows legacy) t ≡ true) (sym (trim_ows_again behind))
                (agrees legacy k c))
      ])

add-Adds :
    (name behind : List ℕ) (f : Fields)
    → field_error name (trim_ows behind) f ≡ none
    → Adds (add name (trim_ows behind) f.headers_)
add-Adds name behind f e =
    let (n, v) = field_checks name (trim_ows behind) f e in
    add_valid-Adds name behind f.headers_ n v
      (λ legacy k c. accepted_length name (trim_ows behind) f legacy e k c)

-- headers_.add does not throw on a field line that has passed the parser's checks, and the headers of
-- the request are then what it leaves.
pub add_field-add :
    (name behind : List ℕ) (f : Fields)
    → field_error name (trim_ows behind) f ≡ none
    → add name (trim_ows behind) f.headers_ ≡ done (add_field name (trim_ows behind) f).headers_
unfolding add_field
add_field-add name behind f e =
    let (h, k) = add-Adds name behind f e in k ∙ ap done (ground (arith, k))
