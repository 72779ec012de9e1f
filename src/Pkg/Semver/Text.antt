-- ===== src/Pkg/Semver/Text.antt =====
-- What the version code uses of Go's strings and strconv, on bytes.
use ladder_airport.Base.{
  ltb, leb, ◌==◌, if◌then◌else◌, ℕ, ◌+◌, ◌-◌, ◌*◌, ◌^◌, Bool, true, false, ◌&&◌, ◌||◌, Option, none,
  some, List, [], ◌∷◌, ◌++◌,
}

abbrev pub is_empty {ℓ} : {A : Type ℓ} → List A → Bool
is_empty [] = true
is_empty (_ ∷ _) = false

abbrev pub map_option {ℓ κ} : {A : Type ℓ} {B : Type κ} → (A → B) → Option A → Option B
map_option f none = none
map_option f (some a) = some (f a)

-- ASCII white space: tab to carriage return, and the blank.
unfoldable pub is_space : ℕ → Bool
is_space c = leb 9 c && leb c 13 || c == 32

unfoldable pub is_digit : ℕ → Bool
is_digit c = leb b'0' c && leb c b'9'

unfoldable pub trim_left : (ℕ → Bool) → List ℕ → List ℕ
trim_left p [] = []
trim_left p (c ∷ cs) = let rest = trim_left p cs in if p c then rest else c ∷ cs

unfoldable pub trim_right : (ℕ → Bool) → List ℕ → List ℕ
trim_right p [] = []
trim_right p (c ∷ cs) = let rest = trim_right p cs in if is_empty rest && p c then [] else c ∷ rest

unfoldable pub trim_both : (ℕ → Bool) → List ℕ → List ℕ
trim_both p s = trim_left p (trim_right p s)

unfoldable pub trim_space : List ℕ → List ℕ
trim_space s = trim_both is_space s

unfoldable pub trim_prefix : ℕ → List ℕ → List ℕ
trim_prefix b [] = []
trim_prefix b (c ∷ cs) = if c == b then cs else c ∷ cs

abbrev add_word : List ℕ → List (List ℕ) → List (List ℕ)
add_word [] words = words
add_word (c ∷ cs) words = (c ∷ cs) ∷ words

-- `strings.Fields`, with the word that is being read.
unfoldable pub fields_from : List ℕ → List ℕ → List (List ℕ)
fields_from word [] = add_word word []
fields_from word (c ∷ cs) = elim (is_space c) [
  | true ↦ add_word word (fields_from [] cs)
  | false ↦ fields_from (word ++ c ∷ []) cs
]

unfoldable pub fields : List ℕ → List (List ℕ)
fields s = fields_from [] s

-- The text before the first `b`, and the text behind it, which is empty if there is none.
unfoldable pub before : ℕ → List ℕ → List ℕ
before b [] = []
before b (c ∷ cs) = let rest = before b cs in if c == b then [] else c ∷ rest

unfoldable pub after_first : ℕ → List ℕ → List ℕ
after_first b [] = []
after_first b (c ∷ cs) = let rest = after_first b cs in if c == b then cs else rest

abbrev add_first : ℕ → List (List ℕ) → List (List ℕ)
add_first c [] = (c ∷ []) ∷ []
add_first c (w ∷ ws) = (c ∷ w) ∷ ws

-- `strings.Split` by one byte.
unfoldable pub split : ℕ → List ℕ → List (List ℕ)
split b [] = [] ∷ []
split b (c ∷ cs) = let rest = split b cs in if c == b then [] ∷ rest else add_first c rest

-- The value of decimal digits, if there are only digits.
unfoldable pub digits_value : ℕ → List ℕ → Option ℕ
digits_value acc [] = some acc
digits_value acc (c ∷ cs) =
    let rest = digits_value (acc * 10 + (c - 48)) cs in if is_digit c then rest else none

-- `strconv.Atoi`: a sign or none, then digits, in the range of an int64; the result is the distance
-- from -2^63.
unfoldable pub atoi_signed : Bool → List ℕ → Option ℕ
atoi_signed negative ds = if is_empty ds then none else elim (digits_value 0 ds) [
  | none ↦ none
  | some n ↦
      if negative
      then (if leb n (2 ^ 63) then some (2 ^ 63 - n) else none)
      else if ltb n (2 ^ 63)
      then some (n + 2 ^ 63)
      else none
]

unfoldable pub atoi : List ℕ → Option ℕ
atoi [] = none
atoi (c ∷ cs) =
    if c == b'-'
    then atoi_signed true cs
    else if c == b'+'
    then atoi_signed false cs
    else atoi_signed false (c ∷ cs)
