-- ===== src/Client/Texts.antt =====
-- The methods of `str` that src/client.rs and src/tui.rs call.
use lusbip.Base.{
  ℕ, ◌+◌, Bool, true, false, ◌&&◌, ◌||◌, List, [], ◌∷◌, map, Option, none, some, ◌==◌, leb,
  if◌then◌else◌, Text,
}
use lusbip.Agent.Control.{strip_prefix}

-- `char::is_whitespace`: the property White_Space of Unicode.
unfoldable pub is_whitespace : ℕ → Bool
is_whitespace c =
    (leb 9 c && leb c 13)
    || c == 32
    || c == 0x85
    || c == 0xA0
    || c == 0x1680
    || (leb 0x2000 c && leb c 0x200A)
    || c == 0x2028
    || c == 0x2029
    || c == 0x202F
    || c == 0x205F
    || c == 0x3000

unfoldable pub trim_start : Text → Text
trim_start [] = []
trim_start (c ∷ cs) = let rest = trim_start cs in if is_whitespace c then rest else c ∷ cs

unfoldable pub keep_char : ℕ → Text → Text
keep_char c [] = if is_whitespace c then [] else c ∷ []
keep_char c (d ∷ ds) = c ∷ d ∷ ds

unfoldable pub trim_end : Text → Text
trim_end [] = []
trim_end (c ∷ cs) = keep_char c (trim_end cs)

unfoldable pub trim : Text → Text
trim s = trim_end (trim_start s)

unfoldable pub is_empty : Text → Bool
is_empty [] = true
is_empty (c ∷ cs) = false

unfoldable pub starts_with : Text → Text → Bool
starts_with p s = elim (strip_prefix p s) [ none ↦ false | some rest ↦ true ]

-- A character in front of the first line.
unfoldable pub onto_line : ℕ → List Text → List Text
onto_line c [] = (c ∷ []) ∷ []
onto_line c (l ∷ ls) = (c ∷ l) ∷ ls

-- `str::lines`: lines end with a line feed, or with a carriage return in front of one.
unfoldable pub lines : Text → List Text
lines [] = []
lines (c ∷ cs) =
    let rest = lines cs in
    if c == 10
    then [] ∷ rest
    else if c == 13 && starts_with (10 ∷ []) cs
    then rest
    else onto_line c rest

unfoldable pub onto_left : ℕ → Option (Text × Text) → Option (Text × Text)
onto_left c none = none
onto_left c (some (left, right)) = some (c ∷ left, right)

-- `str::split_once` at a separator that is not empty.
unfoldable pub split_once : Text → Text → Option (Text × Text)
split_once separator [] = none
split_once separator (c ∷ cs) =
    let later = onto_left c (split_once separator cs) in
    elim (strip_prefix separator (c ∷ cs)) [ none ↦ later | some rest ↦ some ([], rest) ]

unfoldable pub take_word : Text → Text
take_word [] = []
take_word (c ∷ cs) = let rest = c ∷ take_word cs in if is_whitespace c then [] else rest

-- `split_whitespace().next()`.
unfoldable pub first_word : Text → Option Text
first_word s = if is_empty (trim_start s) then none else some (take_word (trim_start s))

unfoldable pub to_ascii_lowercase : Text → Text
to_ascii_lowercase s = map (λ c. if leb 65 c && leb c 90 then c + 32 else c) s

unfoldable pub is_ascii_hexdigit : ℕ → Bool
is_ascii_hexdigit c = (leb 48 c && leb c 57) || (leb 65 c && leb c 70) || (leb 97 c && leb c 102)

-- `?` on an `Option`.
infixl 10 ◌>>=◌
unfoldable pub ◌>>=◌ {ℓ κ} : {A : Type ℓ} {B : Type κ} → Option A → (A → Option B) → Option B
none >>= f = none
some a >>= f = f a
