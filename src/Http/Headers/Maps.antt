-- ===== src/Http/Headers/Maps.antt =====
-- The map of the headers, whose names are compared without regard to case.
use elio.Prelude.{
  ℕ, ◌≡◌, refl, sym, ap, ◌∙◌, true, false, List, [], ◌∷◌, ◌++◌, map, none, some, ◌==◌, arith,
  Bool-cases, inl, inr, ==_iff,
}
use elio.Http.Text.{ascii_iequals, tolower}
use elio.Http.Headers.{find, assign, erase, same_text}

pub same_text_refl : (a : List ℕ) → same_text a a ≡ true
unfolding same_text
same_text_refl [] = refl
same_text_refl (x ∷ xs) = ground (arith, same_text_refl xs)

pub same_text_sound : (a b : List ℕ) → same_text a b ≡ true → a ≡ b
unfolding same_text
same_text_sound [] [] h = refl
same_text_sound [] (b ∷ ys) h = cc
same_text_sound (a ∷ xs) [] h = cc
same_text_sound (a ∷ xs) (b ∷ ys) h = elim (Bool-cases (a == b)) [
  | inl q ↦ (let e = (==_iff _ _).0 q in let rest = same_text_sound xs ys (ground arith) in cc)
  | inr q ↦ ground arith
]

same_text_sym : (a b : List ℕ) → same_text a b ≡ same_text b a
unfolding same_text
same_text_sym [] [] = refl
same_text_sym [] (b ∷ ys) = refl
same_text_sym (a ∷ xs) [] = refl
same_text_sym (a ∷ xs) (b ∷ ys) = ground (arith, same_text_sym xs ys)

ascii_iequals_lem : (a b : List ℕ) → ascii_iequals a b ≡ same_text (map tolower a) (map tolower b)
unfolding ascii_iequals same_text
ascii_iequals_lem [] [] = refl
ascii_iequals_lem [] (b ∷ ys) = refl
ascii_iequals_lem (a ∷ xs) [] = refl
ascii_iequals_lem (a ∷ xs) (b ∷ ys) = ground (arith, ascii_iequals_lem xs ys)

pub ascii_iequals_refl : (a : List ℕ) → ascii_iequals a a ≡ true
ascii_iequals_refl a = ascii_iequals_lem a a ∙ same_text_refl (map tolower a)

pub ascii_iequals_sym : (a b : List ℕ) → ascii_iequals a b ≡ ascii_iequals b a
ascii_iequals_sym a b = ascii_iequals_lem a b ∙ same_text_sym _ _ ∙ sym (ascii_iequals_lem b a)

-- Names that are the same are the same for every comparison.
pub ascii_iequals_left :
    (a b : List ℕ) → ascii_iequals a b ≡ true → (c : List ℕ) → ascii_iequals a c ≡ ascii_iequals b c
ascii_iequals_left a b h c =
    let e = same_text_sound _ _ (sym (ascii_iequals_lem a b) ∙ h) in
    ascii_iequals_lem a c ∙ ap (λ x. same_text x (map tolower c)) e ∙ sym (ascii_iequals_lem b c)

pub ascii_iequals_right :
    (a b : List ℕ) → ascii_iequals a b ≡ true → (c : List ℕ) → ascii_iequals c a ≡ ascii_iequals c b
ascii_iequals_right a b h c =
    ascii_iequals_sym c a ∙ ascii_iequals_left a b h c ∙ ascii_iequals_sym b c

module _ {B : Type 0} where
  -- No name is twice in the map.
  unfoldable pub IsUnique : List (List ℕ × B) → Type 0
  IsUnique [] = Unit
  IsUnique ((name, value) ∷ rest) = (find name rest ≡ none) × IsUnique rest

  pub find_same :
      (a b : List ℕ) → ascii_iequals a b ≡ true → (m : List (List ℕ × B)) → find a m ≡ find b m
  unfolding find
  find_same a b h [] = refl
  find_same a b h ((name, value) ∷ rest) =
      ground (arith, find_same a b h rest, ascii_iequals_right a b h name)

  pub find-assign_same :
      (key : List ℕ) (v : B) (m : List (List ℕ × B)) → find key (assign key v m) ≡ some v
  unfolding find assign
  find-assign_same key v [] = ground (arith, ascii_iequals_refl key)
  find-assign_same key v ((name, value) ∷ rest) = ground (arith, find-assign_same key v rest)

  pub find-assign_other :
      (key other : List ℕ) (v : B) (m : List (List ℕ × B))
      → ascii_iequals key other ≡ false
      → find other (assign key v m) ≡ find other m
  unfolding find assign
  find-assign_other key other v [] h = ground arith
  find-assign_other key other v ((name, value) ∷ rest) h =
      elim (Bool-cases (ascii_iequals name key)) [
        | inl q ↦ ground (arith, ascii_iequals_left name key q other)
        | inr q ↦ ground (arith, find-assign_other key other v rest h)
      ]

  pub assign-IsUnique :
      (key : List ℕ) (v : B) (m : List (List ℕ × B)) → IsUnique m → IsUnique (assign key v m)
  unfolding IsUnique assign find
  assign-IsUnique key v [] u = (refl, tt)
  assign-IsUnique key v ((name, value) ∷ rest) u = elim (Bool-cases (ascii_iequals name key)) [
    | inl q ↦ rw q u
    | inr q ↦ rw q (
      find-assign_other key name v rest (ascii_iequals_sym key name ∙ q) ∙ u.0,
      assign-IsUnique key v rest u.1,
    )
  ]

  -- A name that is not there is assigned at the end.
  pub assign_new :
      (key : List ℕ) (v : B) (m : List (List ℕ × B))
      → find key m ≡ none
      → m ++ ((key, v) ∷ []) ≡ assign key v m
  unfolding find assign
  assign_new key v [] h = refl
  assign_new key v ((name, value) ∷ rest) h = ground (arith, assign_new key v rest)

  pub find-erase_same :
      (key : List ℕ) (m : List (List ℕ × B)) → IsUnique m → find key (erase key m) ≡ none
  unfolding find erase IsUnique
  find-erase_same key [] u = refl
  find-erase_same key ((name, value) ∷ rest) u = elim (Bool-cases (ascii_iequals name key)) [
    | inl q ↦ rw q (sym (find_same name key q rest) ∙ u.0)
    | inr q ↦ ground (arith, find-erase_same key rest u.1)
  ]

  pub find-erase_other :
      (key other : List ℕ) (m : List (List ℕ × B))
      → ascii_iequals key other ≡ false
      → find other (erase key m) ≡ find other m
  unfolding find erase
  find-erase_other key other [] h = refl
  find-erase_other key other ((name, value) ∷ rest) h = elim (Bool-cases (ascii_iequals name key)) [
    | inl q ↦ ground (arith, ascii_iequals_left name key q other)
    | inr q ↦ ground (arith, find-erase_other key other rest h)
  ]

  pub erase-IsUnique : (key : List ℕ) (m : List (List ℕ × B)) → IsUnique m → IsUnique (erase key m)
  unfolding IsUnique erase
  erase-IsUnique key [] u = tt
  erase-IsUnique key ((name, value) ∷ rest) u = elim (Bool-cases (ascii_iequals name key)) [
    | inl q ↦ rw q u.1
    | inr q ↦ rw q (
      find-erase_other key name rest (ascii_iequals_sym key name ∙ q) ∙ u.0,
      erase-IsUnique key rest u.1,
    )
  ]
