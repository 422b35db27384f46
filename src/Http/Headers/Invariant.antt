-- ===== src/Http/Headers/Invariant.antt =====
-- The headers under any sequence of changes.
use elio.Prelude.{
  ℕ, ◌≤◌, ◌≡◌, refl, sym, subst, ◌∙◌, true, false, List, [], All, length, Option, none, some, ltb,
  arith, Bool-cases, inl, inr,
}
use elio.Http.Text.{ascii_iequals}
use elio.Http.Headers.{
  Headers, done, new_headers, find, erase, set, add, remove, clear, get, get_all, contains,
  content_length_name,
}
use elio.Http.Headers.Maps.{IsUnique, find_same, find-erase_same, find-erase_other, erase-IsUnique}
use elio.Http.Headers.Agree.{joined, IsValue, Entry, Good}
use elio.Http.Headers.Adding.{Left, set-Left, add-Left}

remove-Good : (name : List ℕ) (h : Headers) → Good h → Good (remove name h)
unfolding remove Entry
remove-Good name h g = record {
  unique = erase-IsUnique name h.headers_ g.unique;
  unique_values = erase-IsUnique name h.header_values_ g.unique_values;
  entry = λ other. elim (Bool-cases (ascii_iequals name other)) [
    | inr q ↦
        rw (find-erase_other name other h.headers_ q)
          (rw (find-erase_other name other h.header_values_ q) (g.entry other))
    | inl q ↦
        rw
          (sym (find_same name other q (erase name h.headers_))
            ∙ find-erase_same name h.headers_ g.unique)
          (rw
            (sym (find_same name other q (erase name h.header_values_))
              ∙ find-erase_same name h.header_values_ g.unique_values)
            tt)
  ];
}

new_headers-Good : Good new_headers
unfolding new_headers IsUnique Entry find
new_headers-Good = record { unique = tt; unique_values = tt; entry = λ name. tt }

-- Headers that calls which do not throw lead to.
pub data Reach : Headers → Type 0 where
  starts : Reach new_headers
  sets : {h h' : Headers} (name value : List ℕ) → Reach h → set name value h ≡ done h' → Reach h'
  adds : {h h' : Headers} (name value : List ℕ) → Reach h → add name value h ≡ done h' → Reach h'
  removes : {h : Headers} (name : List ℕ) → Reach h → Reach (remove name h)
  clears : {h : Headers} → Reach h → Reach (clear h)

Reach-Good : {h : Headers} → Reach h → Good h
unfolding Left clear new_headers
Reach-Good starts = new_headers-Good
Reach-Good (sets name value r e) = subst Left e (set-Left name value _ (Reach-Good r))
Reach-Good (adds name value r e) = subst Left e (add-Left name value _ (Reach-Good r))
Reach-Good (removes name r) = remove-Good name _ (Reach-Good r)
Reach-Good (clears r) = new_headers-Good

shows_nothing :
    (name : List ℕ) (h : Headers)
    → find name h.headers_ ≡ none
    → find name h.header_values_ ≡ none
    → (get name h ≡ []) × (get_all name h ≡ []) × (contains name h ≡ false)
unfolding get get_all contains
shows_nothing name h e k = ground (arith, e, k)

shows :
    (name v : List ℕ) (vs : List (List ℕ)) (h : Headers)
    → find name h.headers_ ≡ some v
    → find name h.header_values_ ≡ some vs
    → (get name h ≡ v) × (get_all name h ≡ vs) × (contains name h ≡ true)
unfolding get get_all contains
shows name v vs h e k = ground (arith, e, k)

Shown-Entry :
    (name : List ℕ) (h : Headers) (o : Option (List ℕ)) (os : Option (List (List ℕ)))
    → find name h.headers_ ≡ o
    → find name h.header_values_ ≡ os
    → Entry name o os
    → (get name h ≡ joined name (get_all name h))
      × (contains name h ≡ ltb 0 (length (get_all name h)))
      × All IsValue (get_all name h)
      × (ascii_iequals name content_length_name ≡ true → length (get_all name h) ≤ 1)
unfolding Entry joined
Shown-Entry name h none none e k a =
    let (g, l, c) = shows_nothing name h e k in
    rw g (rw l (rw c (refl, refl, tt, λ d. omega arith)))
Shown-Entry name h none (some vs) e k a = absurd a
Shown-Entry name h (some v) none e k a = absurd a
Shown-Entry name h (some v) (some vs) e k a =
    let (g, l, c) = shows name v vs h e k in
    let filled = a.filled in
    rw g (
      rw l (
        rw c (
          a.shown,
          ground (arith, filled),
          a.valid,
          λ d. (let one = a.single d in omega (arith, one)),
        )))

-- After any calls of set, add, remove and clear on new headers that do not throw, for every name in
-- any case of letters: `get` is what `get_all` gives, joined by commas, or its first if the name is
-- Set-Cookie; the name is contained if and only if it has a field line; no field line has a control
-- character but the tab; and there is at most one Content-Length.
pub Reach-get :
    {h : Headers} (name : List ℕ)
    → Reach h
    → (get name h ≡ joined name (get_all name h))
      × (contains name h ≡ ltb 0 (length (get_all name h)))
      × All IsValue (get_all name h)
      × (ascii_iequals name content_length_name ≡ true → length (get_all name h) ≤ 1)
Reach-get {h} name r = Shown-Entry name h _ _ refl refl ((Reach-Good r).entry name)
