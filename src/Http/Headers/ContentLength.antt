-- ===== src/Http/Headers/ContentLength.antt =====
-- The header Content-Length.
use elio.Prelude.{
  ℕ, zero, suc, ◌+◌, ◌-◌, ◌*◌, ◌/◌, ◌%◌, ◌^◌, ◌<◌, ◌≡◌, ◌≢◌, refl, sym, ap, subst, ◌∙◌, true, List,
  [], ◌∷◌, ◌++◌, All, none, some, Option-cases, ◌==◌, ltb, ==_iff, arith, Bool-cases, inl, inr,
}
use elio.Http.Text.{
  trim_ows, trim_front, trim_back, ascii_iequals, is_valid_header_value, is_valid_header_name,
  is_valid_token, all_tchar, is_tchar,
}
use elio.Http.Headers.{
  Headers, Outcome, throws, done, find, set_checked, checked, set, add_again, add_checked, add, get,
  content_length_name, same_text, is_digit, read_digits, whole_number, unsigned_number,
  content_length, digits_on, to_string, set_content_length,
}
use elio.Http.Headers.Adding.{add_checked-some}
use elio.Http.Headers.Maps.{same_text_sound, find-assign_same, assign_new}

abbrev IsDigit : ℕ → Type 0
IsDigit c = is_digit c ≡ true

digits_on-IsDigit :
    (f n : ℕ) (behind : List ℕ) → All IsDigit behind → All IsDigit (digits_on f n behind)
unfolding digits_on
digits_on-IsDigit zero n behind h = h
digits_on-IsDigit (suc f) n behind h =
    let d : IsDigit (0x30 + n % 10) = ground arith in
    elim (Bool-cases (n / 10 == 0)) [
      | inl q ↦ rw q (d, h)
      | inr q ↦ rw q (digits_on-IsDigit f (n / 10) ((0x30 + n % 10) ∷ behind) (d, h))
    ]

read_digits_digit :
    (v d : ℕ) (cs : List ℕ) → d < 10 → read_digits v ((0x30 + d) ∷ cs) ≡ read_digits (v * 10 + d) cs
unfolding read_digits
read_digits_digit v d cs h =
    let digit : is_digit (0x30 + d) ≡ true = ground arith in
    let same : v * 10 + (0x30 + d - 0x30) ≡ v * 10 + d = omega arith in
    rw digit (ap (λ x. read_digits x cs) same)

-- 10 ^ (f + 1)
abbrev tens : ℕ → ℕ
tens zero = 10
tens (suc f) = tens f * 10

one_digit : (n : ℕ) → n < 10 → (n / 10 == 0) ≡ true
one_digit n h = (==_iff _ _).1 (omega arith)

last_digit :
    (n : ℕ) (behind : List ℕ)
    → n < 10
    → read_digits 0 ((0x30 + n % 10) ∷ behind) ≡ read_digits n behind
last_digit n behind h =
    let same : 0 * 10 + n % 10 ≡ n = omega arith in
    read_digits_digit 0 (n % 10) behind (omega arith) ∙ ap (λ x. read_digits x behind) same

-- As many digits as the number has are read as the number.
read_digits-digits_on :
    (f n : ℕ) (behind : List ℕ)
    → n < tens f
    → read_digits 0 (digits_on (suc f) n behind) ≡ read_digits n behind
unfolding digits_on
read_digits-digits_on zero n behind h = rw (one_digit n h) (last_digit n behind h)
read_digits-digits_on (suc f) n behind h = elim (Bool-cases (n / 10 == 0)) [
  | inl q ↦ rw q (let z = (==_iff _ _).0 q in last_digit n behind (omega (arith, z)))
  | inr q ↦ rw q (
      let same : n / 10 * 10 + n % 10 ≡ n = omega arith in
      read_digits-digits_on f (n / 10) ((0x30 + n % 10) ∷ behind) (omega (arith, h))
      ∙ read_digits_digit (n / 10) (n % 10) behind (omega arith)
      ∙ ap (λ x. read_digits x behind) same)
]

trim_back_digits : (s : List ℕ) → All IsDigit s → trim_back s ≡ s
unfolding trim_back
trim_back_digits [] h = refl
trim_back_digits (c ∷ []) h = ground (arith, h.0)
trim_back_digits (c ∷ d ∷ s) h = ground (arith, trim_back_digits (d ∷ s) h.1)

trim_ows_digits : (s : List ℕ) → All IsDigit s → trim_ows s ≡ s
unfolding trim_ows trim_front
trim_ows_digits [] h = trim_back_digits [] tt
trim_ows_digits (c ∷ s) h = ground (arith, h.0, trim_back_digits (c ∷ s) h)

is_valid_header_value_digits : (s : List ℕ) → All IsDigit s → is_valid_header_value s ≡ true
unfolding is_valid_header_value
is_valid_header_value_digits [] h = refl
is_valid_header_value_digits (c ∷ s) h = ground (arith, h.0, is_valid_header_value_digits s h.1)

number_of_digits :
    (s : List ℕ) (n : ℕ)
    → All IsDigit s
    → s ≢ []
    → read_digits 0 s ≡ (n, [])
    → n < 2 ^ 64
    → unsigned_number s ≡ some n
unfolding unsigned_number whole_number
number_of_digits [] n h u e b = absurd (u refl)
number_of_digits (c ∷ s) n h u e b =
    let digit = h.0 in
    let small : ltb n (2 ^ 64) ≡ true = ground arith in ground (arith, e, digit, small)

find-added :
    (name value : List ℕ) (m : List (List ℕ × List ℕ))
    → find name m ≡ none
    → find name (m ++ ((name, value) ∷ [])) ≡ some value
find-added name value m e = rw (assign_new name value m e) (find-assign_same name value m)

get_found : (name v : List ℕ) (h : Headers) → find name h.headers_ ≡ some v → get name h ≡ v
unfolding get
get_found name v h e = ground (arith, e)

content_length_valid : is_valid_header_name content_length_name ≡ true
unfolding is_valid_header_name is_valid_token all_tchar is_tchar
content_length_valid = refl

digits_on_some : (f n : ℕ) (behind : List ℕ) → digits_on (suc f) n behind ≢ []
unfolding digits_on
digits_on_some zero n behind = elim (Bool-cases (n / 10 == 0)) [
  | inl q ↦ rw q (λ e. cc)
  | inr q ↦ rw q (λ e. cc)
]
digits_on_some (suc f) n behind = elim (Bool-cases (n / 10 == 0)) [
  | inl q ↦ rw q (λ e. cc)
  | inr q ↦ rw q (digits_on_some f (n / 10) ((0x30 + n % 10) ∷ behind))
]

to_string-read : (n : ℕ) → n < 2 ^ 64 → read_digits 0 (to_string n) ≡ (n, [])
unfolding to_string read_digits
to_string-read n b = read_digits-digits_on 19 n [] (omega (arith, b))

to_string-digits : (n : ℕ) → All IsDigit (to_string n) × (to_string n ≢ [])
unfolding to_string
to_string-digits n = (digits_on-IsDigit 20 n [] tt, digits_on_some 19 n [])

-- A length below 2 ^ 64 that is set is never refused, and is the content length afterwards, whatever
-- the headers were.
pub content_length-set_content_length :
    (n : ℕ) (h : Headers)
    → n < 2 ^ 64
    → (h' : Headers) × (set_content_length n h ≡ done h') × (content_length h' ≡ some n)
unfolding set_content_length set checked content_length set_checked
content_length-set_content_length n h b =
    let (digits, filled) = to_string-digits n in
    let h' = set_checked content_length_name (to_string n) h in
    (
      h',
      rw content_length_valid (rw (is_valid_header_value_digits (to_string n) digits) refl),
      rw
          (get_found content_length_name (to_string n) h'
            (find-assign_same content_length_name (to_string n) h.headers_))
          (rw (trim_ows_digits (to_string n) digits)
            (number_of_digits (to_string n) n digits filled (to_string-read n b) b)),
    )

Took : List ℕ → List ℕ → Outcome Headers → Type 0
Took name value (throws e) = Unit
Took name value (done h) = trim_ows (get name h) ≡ trim_ows value

add_again-Took :
    (name value legacy : List ℕ) (h : Headers)
    → ascii_iequals name content_length_name ≡ true
    → find name h.headers_ ≡ some legacy
    → Took name value (add_again name value legacy h)
unfolding Took add_again
add_again-Took name value legacy h c e =
    rw c (elim (Bool-cases (same_text (trim_ows legacy) (trim_ows value))) [
      | inr p ↦ rw p tt
      | inl p ↦ rw p (ap trim_ows (get_found name legacy h e) ∙ same_text_sound _ _ p)
    ])

add_checked-none :
    (name value : List ℕ) (h : Headers)
    → find name h.headers_ ≡ none
    → (vs : List (List ℕ × List (List ℕ))) × (add_checked name value h
        ≡ done (record { headers_ = h.headers_ ++ ((name, value) ∷ []); header_values_ = vs }))
unfolding add_checked
add_checked-none name value h e = (
  elim (find name h.header_values_) [
    | none ↦ h.header_values_ ++ ((name, value ∷ []) ∷ [])
    | some values ↦ h.header_values_
  ],
  ground (arith, e),
)

add-Took :
    (name value : List ℕ) (h : Headers)
    → ascii_iequals name content_length_name ≡ true
    → Took name value (add name value h)
unfolding Took add checked
add-Took name value h c = elim (Bool-cases (is_valid_header_name name)) [
  | inr q ↦ rw q tt
  | inl q ↦ rw q (elim (Bool-cases (is_valid_header_value value)) [
    | inr p ↦ rw p tt
    | inl p ↦ rw p (elim (Option-cases (find name h.headers_)) [
      | inl e ↦
          (let (vs, k) = add_checked-none name value h e in
            subst (Took name value) (sym k)
              (ap trim_ows (get_found name value _ (find-added name value h.headers_ e))))
      | inr (legacy, e) ↦
          subst (Took name value) (sym (add_checked-some name value legacy h e))
            (add_again-Took name value legacy h c e)
    ])
  ])
]

-- A Content-Length that `add` takes is the one of the headers up to spaces and tabs around it: a
-- second one that differs from the first is refused.
pub get-add_content_length :
    (name value : List ℕ) (h h' : Headers)
    → ascii_iequals name content_length_name ≡ true
    → add name value h ≡ done h'
    → trim_ows (get name h') ≡ trim_ows value
unfolding Took
get-add_content_length name value h h' c e = subst (Took name value) e (add-Took name value h c)
