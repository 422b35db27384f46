-- ===== src/Http/Headers.antt =====
-- include/elio/http/http_common.hpp, the class headers. A std::unordered_map is a list of its entries
-- in the order of their insertion, found by case_insensitive_equal; a name or value that is refused
-- by an exception gives an Error. A text is a list of bytes.
pub mod Maps
pub mod Agree
pub mod Adding
pub mod Invariant
pub mod ContentLength
pub mod Coding
use elio.Prelude.{
  ℕ, zero, suc, ◌+◌, ◌-◌, ◌*◌, ◌^◌, ◌/◌, ◌%◌, Bool, true, false, not, ◌&&◌, ◌||◌, List, [], ◌∷◌,
  ◌++◌, Option, none, some, leb, ltb, ◌==◌, if◌then◌else◌,
}
use elio.Http.Text.{is_valid_header_name, is_valid_header_value, ascii_iequals, trim_ows, between}

pub data Error : Type 0 where
  invalid_name invalid_value conflicting_content_length : Error

pub data Outcome (A : Type 0) : Type 0 where
  throws : Error → Outcome A
  done : A → Outcome A

-- What the class asks of std::unordered_map.
module _ {B : Type 0} where
  unfoldable pub find : List ℕ → List (List ℕ × B) → Option B
  find key [] = none
  find key ((name, value) ∷ rest) =
      let later = find key rest in if ascii_iequals name key then some value else later

  -- `map[key] = value`, which keeps the key that is there
  unfoldable pub assign : List ℕ → B → List (List ℕ × B) → List (List ℕ × B)
  assign key value [] = (key, value) ∷ []
  assign key value ((name, old) ∷ rest) =
      let later = assign key value rest in
      if ascii_iequals name key then (name, value) ∷ rest else (name, old) ∷ later

  unfoldable pub erase : List ℕ → List (List ℕ × B) → List (List ℕ × B)
  erase key [] = []
  erase key ((name, value) ∷ rest) =
      let later = erase key rest in if ascii_iequals name key then rest else (name, value) ∷ later

pub record Headers : Type 0 where
  pub headers_ : List (List ℕ × List ℕ)
  pub header_values_ : List (List ℕ × List (List ℕ))

unfoldable pub new_headers : Headers
new_headers = record { headers_ = []; header_values_ = [] }

-- "Content-Length" and "Set-Cookie"
abbrev pub content_length_name : List ℕ
content_length_name =
    0x43 ∷ 0x6F ∷ 0x6E ∷ 0x74 ∷ 0x65 ∷ 0x6E ∷ 0x74 ∷ 0x2D ∷ 0x4C ∷ 0x65 ∷ 0x6E ∷ 0x67 ∷ 0x74 ∷ 0x68
    ∷ []

abbrev pub set_cookie_name : List ℕ
set_cookie_name = 0x53 ∷ 0x65 ∷ 0x74 ∷ 0x2D ∷ 0x43 ∷ 0x6F ∷ 0x6F ∷ 0x6B ∷ 0x69 ∷ 0x65 ∷ []

unfoldable pub same_text : List ℕ → List ℕ → Bool
same_text [] [] = true
same_text [] (b ∷ ys) = false
same_text (a ∷ xs) [] = false
same_text (a ∷ xs) (b ∷ ys) = if a == b then same_text xs ys else false

unfoldable pub set_checked : List ℕ → List ℕ → Headers → Headers
set_checked name value h = record {
  headers_ = assign name value h.headers_;
  header_values_ = assign name (value ∷ []) h.header_values_;
}

-- What `set` and `add` do after their checks of the name and the value.
unfoldable pub checked : List ℕ → List ℕ → Outcome Headers → Outcome Headers
checked name value rest =
    if not (is_valid_header_name name)
    then throws invalid_name
    else if not (is_valid_header_value value)
    then throws invalid_value
    else rest

unfoldable pub set : List ℕ → List ℕ → Headers → Outcome Headers
set name value h = checked name value (done (set_checked name value h))

-- The values of a name that is there; `emplace` if the second map has none.
unfoldable pub values_of : List ℕ → List ℕ → Headers → List (List ℕ)
values_of name legacy h = elim (find name h.header_values_) [
  | none ↦ legacy ∷ []
  | some values ↦ values
]

-- A further field line of a name that has the joined value `legacy`.
unfoldable pub add_again : List ℕ → List ℕ → List ℕ → Headers → Outcome Headers
add_again name value legacy h =
    if ascii_iequals name content_length_name
    then (if same_text (trim_ows legacy) (trim_ows value)
        then done h
        else throws conflicting_content_length)
    else (let values = assign name (values_of name legacy h ++ (value ∷ [])) h.header_values_ in
        if ascii_iequals name set_cookie_name
        then done (record h { header_values_ = values })
        else done (record {
          headers_ = assign name (legacy ++ (0x2C ∷ 0x20 ∷ value)) h.headers_;
          header_values_ = values;
        }))

unfoldable pub add_checked : List ℕ → List ℕ → Headers → Outcome Headers
add_checked name value h = elim (find name h.headers_) [
  | some legacy ↦ add_again name value legacy h
  | none ↦ done (record {
    headers_ = h.headers_ ++ ((name, value) ∷ []);
    header_values_ = elim (find name h.header_values_) [
      | none ↦ h.header_values_ ++ ((name, value ∷ []) ∷ [])
      | some values ↦ h.header_values_
    ];
  })
]

unfoldable pub add : List ℕ → List ℕ → Headers → Outcome Headers
add name value h = checked name value (add_checked name value h)

unfoldable pub get : List ℕ → Headers → List ℕ
get name h = elim (find name h.headers_) [ some value ↦ value | none ↦ [] ]

unfoldable pub get_all : List ℕ → Headers → List (List ℕ)
get_all name h = elim (find name h.header_values_) [
  | some values ↦ values
  | none ↦ elim (find name h.headers_) [ some value ↦ value ∷ [] | none ↦ [] ]
]

unfoldable pub contains : List ℕ → Headers → Bool
contains name h = elim (find name h.headers_) [ some value ↦ true | none ↦ false ]

unfoldable pub remove : List ℕ → Headers → Headers
remove name h = record {
  headers_ = erase name h.headers_;
  header_values_ = erase name h.header_values_;
}

unfoldable pub clear : Headers → Headers
clear h = record { headers_ = []; header_values_ = [] }

-- std::from_chars in base 10: the value of the leading digits, and what is behind them.
abbrev pub is_digit : ℕ → Bool
is_digit c = between 0x30 0x39 c

unfoldable pub read_digits : ℕ → List ℕ → ℕ × List ℕ
read_digits n [] = (n, [])
read_digits n (c ∷ cs) =
    let rest = read_digits (n * 10 + (c - 0x30)) cs in if is_digit c then rest else (n, c ∷ cs)

-- With a size_t, and where it must end: none is an error or something behind the digits.
unfoldable pub whole_number : List ℕ → Option ℕ
whole_number [] = none
whole_number (c ∷ cs) =
    let (n, rest) = read_digits 0 (c ∷ cs) in
    if not (is_digit c)
    then none
    else if not (ltb n (2 ^ 64))
    then none
    else elim rest [ [] ↦ some n | x ∷ xs ↦ none ]

unfoldable pub unsigned_number : List ℕ → Option ℕ
unsigned_number [] = none
unsigned_number (c ∷ cs) = if (c == 0x2B) || (c == 0x2D) then none else whole_number (c ∷ cs)

unfoldable pub content_length : Headers → Option ℕ
content_length h = unsigned_number (trim_ows (get content_length_name h))

-- std::to_string, of at most 20 digits
unfoldable pub digits_on : ℕ → ℕ → List ℕ → List ℕ
digits_on zero n behind = behind
digits_on (suc fuel) n behind =
    let rest = digits_on fuel (n / 10) ((0x30 + n % 10) ∷ behind) in
    if n / 10 == 0 then (0x30 + n % 10) ∷ behind else rest

unfoldable pub to_string : ℕ → List ℕ
to_string n = digits_on 20 n []

unfoldable pub set_content_length : ℕ → Headers → Outcome Headers
set_content_length n h = set content_length_name (to_string n) h
