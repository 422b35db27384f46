-- ===== src/Http/Headers/Agree.antt =====
-- How the two maps of the headers stay in agreement.
use elio.Prelude.{
  ℕ, ◌<◌, ◌≡◌, refl, sym, ap, ◌∙◌, true, false, List, [], ◌∷◌, ◌++◌, All, All-append, length,
  length-append, Option, none, some, if◌then◌else◌, arith, Bool-cases, inl, inr,
}
use elio.Http.Text.{ascii_iequals, is_valid_header_value}
use elio.Http.Headers.{Headers, find, set_checked, content_length_name, set_cookie_name}
use elio.Http.Headers.Maps.{
  IsUnique, find_same, find-assign_same, find-assign_other, assign-IsUnique, ascii_iequals_left,
}

-- The values of field lines, joined by ", ".
unfoldable pub join_on : List ℕ → List (List ℕ) → List ℕ
join_on v [] = v
join_on v (w ∷ ws) = join_on (v ++ (0x2C ∷ 0x20 ∷ w)) ws

-- What `get` shows of the field lines of a name: of Set-Cookie the first.
unfoldable pub joined : List ℕ → List (List ℕ) → List ℕ
joined name [] = []
joined name (v ∷ vs) = if ascii_iequals name set_cookie_name then v else join_on v vs

abbrev pub IsValue : List ℕ → Type 0
IsValue v = is_valid_header_value v ≡ true

pub record Agrees (name v : List ℕ) (vs : List (List ℕ)) : Type 0 where
  pub shown : v ≡ joined name vs
  pub valid : All IsValue vs
  pub filled : 0 < length vs
  pub single : ascii_iequals name content_length_name ≡ true → length vs ≡ 1

unfoldable pub Entry : List ℕ → Option (List ℕ) → Option (List (List ℕ)) → Type 0
Entry name none none = Unit
Entry name none (some vs) = ⊥
Entry name (some v) none = ⊥
Entry name (some v) (some vs) = Agrees name v vs

pub record Good (h : Headers) : Type 0 where
  pub unique : IsUnique h.headers_
  pub unique_values : IsUnique h.header_values_
  pub entry : (name : List ℕ) → Entry name (find name h.headers_) (find name h.header_values_)

joined_same :
    (a b : List ℕ) (vs : List (List ℕ)) → ascii_iequals a b ≡ true → joined a vs ≡ joined b vs
unfolding joined
joined_same a b [] h = refl
joined_same a b (v ∷ vs) h = rw (ascii_iequals_left a b h set_cookie_name) refl

Agrees-same :
    (a b v : List ℕ) (vs : List (List ℕ)) → ascii_iequals a b ≡ true → Agrees a v vs → Agrees b v vs
Agrees-same a b v vs h g = record {
  shown = g.shown ∙ joined_same a b vs h;
  valid = g.valid;
  filled = g.filled;
  single = λ q. g.single (ascii_iequals_left a b h content_length_name ∙ q);
}

-- One name gets another value and other field lines.
pub Good-put :
    (h : Headers) (key v : List ℕ) (vs : List (List ℕ)) (h' : Headers)
    → Good h
    → Agrees key v vs
    → IsUnique h'.headers_
    → IsUnique h'.header_values_
    → find key h'.headers_ ≡ some v
    → find key h'.header_values_ ≡ some vs
    → ((other : List ℕ)
        → ascii_iequals key other ≡ false
        → (find other h'.headers_ ≡ find other h.headers_)
          × (find other h'.header_values_ ≡ find other h.header_values_))
    → Good h'
unfolding Entry
Good-put h key v vs h' g a u w e k others = record {
  unique = u;
  unique_values = w;
  entry = λ name. elim (Bool-cases (ascii_iequals key name)) [
    | inr q ↦ rw (others name q).0 (rw (others name q).1 (g.entry name))
    | inl q ↦
        rw (sym (find_same key name q h'.headers_) ∙ e)
          (rw (sym (find_same key name q h'.header_values_) ∙ k) (Agrees-same key name v vs q a))
  ];
}

pub Agrees-first : (name v : List ℕ) → IsValue v → Agrees name v (v ∷ [])
unfolding joined join_on
Agrees-first name v q = record {
  shown = ground arith;
  valid = (q, tt);
  filled = omega arith;
  single = λ h. refl;
}

pub set_checked-Good :
    (name value : List ℕ) (h : Headers) → IsValue value → Good h → Good (set_checked name value h)
unfolding set_checked
set_checked-Good name value h q g =
    Good-put h name value (value ∷ []) _ g (Agrees-first name value q)
      (assign-IsUnique name value _ g.unique) (assign-IsUnique name (value ∷ []) _ g.unique_values)
      (find-assign_same name value _) (find-assign_same name (value ∷ []) _)
      (λ other u.
        (find-assign_other name other value _ u, find-assign_other name other (value ∷ []) _ u))

join_on-append :
    (v : List ℕ) (vs : List (List ℕ)) (w : List ℕ)
    → join_on v (vs ++ (w ∷ [])) ≡ join_on v vs ++ (0x2C ∷ 0x20 ∷ w)
unfolding join_on
join_on-append v [] w = refl
join_on-append v (x ∷ vs) w = join_on-append (v ++ (0x2C ∷ 0x20 ∷ x)) vs w

-- Another field line of a list-valued name, or of Set-Cookie.
joined-append :
    (name : List ℕ) (vs : List (List ℕ)) (w : List ℕ)
    → 0 < length vs
    → joined name (vs ++ (w ∷ [])) ≡ (
        if ascii_iequals name set_cookie_name
        then joined name vs
        else joined name vs ++ (0x2C ∷ 0x20 ∷ w))
unfolding joined
joined-append name [] w h = absurd (omega arith)
joined-append name (v ∷ vs) w h = elim (Bool-cases (ascii_iequals name set_cookie_name)) [
  | inl q ↦ rw q refl
  | inr q ↦ rw q (join_on-append v vs w)
]

pub Agrees-more :
    (name legacy shown w : List ℕ) (vs : List (List ℕ))
    → Agrees name legacy vs
    → IsValue w
    → ascii_iequals name content_length_name ≡ false
    → shown ≡ (if ascii_iequals name set_cookie_name then legacy else legacy ++ (0x2C ∷ 0x20 ∷ w))
    → Agrees name shown (vs ++ (w ∷ []))
Agrees-more name legacy shown w vs a q n e = record {
  shown =
      e
      ∙ ap (λ x. if ascii_iequals name set_cookie_name then x else x ++ (0x2C ∷ 0x20 ∷ w)) a.shown
      ∙ sym (joined-append name vs w a.filled);
  valid = All-append IsValue vs (w ∷ []) a.valid (q, tt);
  filled = omega (arith, length-append vs (w ∷ []));
  single = λ h. cc;
}
