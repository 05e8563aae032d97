-- ===== src/Agent/Percent.antt =====
-- `percent_encode` and `percent_decode` of src/client_agent.rs. Texts are lists of code points.
use lusbip.Base.{
  ℕ, ◌≡◌, inl, inr, refl, sym, ap, ◌∙◌, Bool, true, false, not, ◌&&◌, ◌||◌, [], ◌∷◌, ◌++◌,
  append_assoc, Option, none, some, ◌==◌, if◌then◌else◌, Text, Bool-cases, arith,
}

-- `str::replace` of a character by a text.
unfoldable pub replace : ℕ → Text → Text → Text
replace c by [] = []
replace c by (d ∷ ds) = (if d == c then by else d ∷ []) ++ replace c by ds

abbrev pub percent : ℕ
percent = 37

abbrev pub tab : ℕ
tab = 9

abbrev pub carriage_return : ℕ
carriage_return = 13

abbrev pub line_feed : ℕ
line_feed = 10

-- `%25`, `%09`, `%0D` and `%0A`.
unfoldable pub percent_encode : Text → Text
percent_encode value = replace line_feed (37 ∷ 48 ∷ 65 ∷ []) (
    replace carriage_return (37 ∷ 48 ∷ 68 ∷ [])
      (replace tab (37 ∷ 48 ∷ 57 ∷ []) (replace percent (37 ∷ 50 ∷ 53 ∷ []) value)))

-- The character for the two that follow a percent sign.
unfoldable pub escaped : ℕ → ℕ → Option ℕ
escaped a b =
    if a == 50 && b == 53
    then some percent
    else if a == 48 && b == 57
    then some tab
    else if a == 48 && b == 68
    then some carriage_return
    else if a == 48 && b == 65
    then some line_feed
    else none

unfoldable pub prepend : Option ℕ → Option Text → Option Text
prepend none rest = none
prepend (some c) none = none
prepend (some c) (some cs) = some (c ∷ cs)

-- `none` is the error; a percent sign among the last two characters is one.
unfoldable pub percent_decode : Text → Option Text
percent_decode [] = some []
percent_decode (c ∷ []) = if c == percent then none else some (c ∷ [])
percent_decode (c ∷ a ∷ []) = elim (c == percent) [
  | true ↦ none
  | false ↦ prepend (some c) (percent_decode (a ∷ []))
]
percent_decode (c ∷ a ∷ b ∷ rest) = elim (c == percent) [
  | true ↦ prepend (escaped a b) (percent_decode rest)
  | false ↦ prepend (some c) (percent_decode (a ∷ b ∷ rest))
]

replace-append : (c : ℕ) (by s t : Text) → replace c by (s ++ t) ≡ replace c by s ++ replace c by t
unfolding replace
replace-append c by [] t = refl
replace-append c by (d ∷ ds) t =
    ap (λ l. (if d == c then by else d ∷ []) ++ l) (replace-append c by ds t)
    ∙ sym (append_assoc (if d == c then by else d ∷ []) (replace c by ds) (replace c by t))

-- The four replacements run character by character.
pub percent_encode-append :
    (s t : Text) → percent_encode (s ++ t) ≡ percent_encode s ++ percent_encode t
unfolding percent_encode
percent_encode-append s t =
    rw
      (
        replace-append percent (37 ∷ 50 ∷ 53 ∷ []) s t,
        replace-append tab (37 ∷ 48 ∷ 57 ∷ []) (replace percent (37 ∷ 50 ∷ 53 ∷ []) s)
            (replace percent (37 ∷ 50 ∷ 53 ∷ []) t),
        replace-append carriage_return (37 ∷ 48 ∷ 68 ∷ [])
            (replace tab (37 ∷ 48 ∷ 57 ∷ []) (replace percent (37 ∷ 50 ∷ 53 ∷ []) s))
            (replace tab (37 ∷ 48 ∷ 57 ∷ []) (replace percent (37 ∷ 50 ∷ 53 ∷ []) t)),
      )
      (replace-append line_feed (37 ∷ 48 ∷ 65 ∷ []) _ _)

-- What one character becomes.
encode_char : ℕ → Text
encode_char c =
    if c == percent
    then 37 ∷ 50 ∷ 53 ∷ []
    else if c == tab
    then 37 ∷ 48 ∷ 57 ∷ []
    else if c == carriage_return
    then 37 ∷ 48 ∷ 68 ∷ []
    else if c == line_feed
    then 37 ∷ 48 ∷ 65 ∷ []
    else c ∷ []

percent_encode-char : (c : ℕ) → percent_encode (c ∷ []) ≡ encode_char c
unfolding percent_encode replace encode_char
percent_encode-char c = elim (Bool-cases (c == percent)) [
  | inl e ↦ rw e refl
  | inr e ↦ elim (Bool-cases (c == tab)) [
    | inl f ↦ rw (e, f) refl
    | inr f ↦ elim (Bool-cases (c == carriage_return)) [
      | inl g ↦ rw (e, f, g) refl
      | inr g ↦ elim (Bool-cases (c == line_feed)) [
        | inl h ↦ rw (e, f, g, h) refl
        | inr h ↦ rw (e, f, g, h) refl
      ]
    ]
  ]
]

decode_plain :
    (c : ℕ) (t : Text)
    → (c == percent) ≡ false
    → percent_decode (c ∷ t) ≡ prepend (some c) (percent_decode t)
unfolding percent_decode prepend
decode_plain c [] e = rw (e, percent_decode) refl
decode_plain c (a ∷ []) e = rw (e, percent_decode) refl
decode_plain c (a ∷ b ∷ rest) e = rw (e, percent_decode) refl

is_code : (c d : ℕ) → (c == d) ≡ true → c ≡ d
is_code c d h = ground arith

decode_char :
    (c : ℕ) (t : Text) → percent_decode (encode_char c ++ t) ≡ prepend (some c) (percent_decode t)
unfolding percent_decode encode_char escaped
decode_char c t = elim (Bool-cases (c == percent)) [
  | inl e ↦ rw (is_code c percent e) refl
  | inr e ↦ elim (Bool-cases (c == tab)) [
    | inl f ↦ rw (is_code c tab f) refl
    | inr f ↦ elim (Bool-cases (c == carriage_return)) [
      | inl g ↦ rw (is_code c carriage_return g) refl
      | inr g ↦ elim (Bool-cases (c == line_feed)) [
        | inl h ↦ rw (is_code c line_feed h) refl
        | inr h ↦ rw (e, f, g, h) (decode_plain c t e)
      ]
    ]
  ]
]

percent_encode-cons :
    (c : ℕ) (cs : Text) → percent_encode (c ∷ cs) ≡ encode_char c ++ percent_encode cs
percent_encode-cons c cs =
    percent_encode-append (c ∷ []) cs ∙ ap (λ l. l ++ percent_encode cs) (percent_encode-char c)

-- Decoding an encoded text gives the text.
pub percent_decode-percent_encode : (s : Text) → percent_decode (percent_encode s) ≡ some s
unfolding percent_encode percent_decode replace prepend
percent_decode-percent_encode [] = refl
percent_decode-percent_encode (c ∷ cs) =
    ap percent_decode (percent_encode-cons c cs)
    ∙ decode_char c (percent_encode cs)
    ∙ ap (prepend (some c)) (percent_decode-percent_encode cs)

-- The characters of `s` are no tab, carriage return or line feed.
unfoldable pub is_line_text : Text → Bool
is_line_text [] = true
is_line_text (c ∷ cs) = not (c == tab || c == carriage_return || c == line_feed) && is_line_text cs

is_line_text-append :
    (s t : Text) → is_line_text s ≡ true → is_line_text t ≡ true → is_line_text (s ++ t) ≡ true
unfolding is_line_text
is_line_text-append [] t h k = k
is_line_text-append (c ∷ cs) t h k = ground (arith, is_line_text-append cs t)

encode_char-is_line_text : (c : ℕ) → is_line_text (encode_char c) ≡ true
unfolding is_line_text encode_char
encode_char-is_line_text c = ground arith

-- An encoded text holds no tab, carriage return or line feed.
pub percent_encode-is_line_text : (s : Text) → is_line_text (percent_encode s) ≡ true
unfolding percent_encode replace is_line_text
percent_encode-is_line_text [] = refl
percent_encode-is_line_text (c ∷ cs) =
    ap is_line_text (percent_encode-cons c cs)
    ∙ is_line_text-append (encode_char c) (percent_encode cs) (encode_char-is_line_text c)
        (percent_encode-is_line_text cs)
