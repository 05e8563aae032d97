-- ===== src/Client/Occupied.antt =====
-- The client's `extract_occupied_by` of src/client.rs reads what the server's
-- `handle_op_req_devlist_with_occupancy` of src/usbip_server/mod.rs writes into a product's name.
use lusbip.Base.{
  ℕ, ◌≡◌, refl, sym, ap, ◌∙◌, Bool, true, false, not, ◌&&◌, [], ◌∷◌, ◌++◌, append_assoc, none, some,
  ◌==◌, Text, arith,
}
use lusbip.Agent.Control.{strip_prefix}
use lusbip.Client.Texts.{
  split_once, onto_left, is_whitespace, trim, trim_start, trim_end, keep_char, is_empty, ◌>>=◌,
}
use lusbip.Client.Listing.{all_chars, occupied_by_word, extract_occupied_by}
use lusbip.Registry.Devlist.{occupied_by_words, occupied_product}

-- The text does not hold the character.
abbrev pub Lacks : ℕ → Text → Type 0
Lacks h s = all_chars (λ c. not (c == h)) s ≡ true

strip_prefix-append : (p s : Text) → strip_prefix p (p ++ s) ≡ some s
unfolding strip_prefix
strip_prefix-append [] s = refl
strip_prefix-append (c ∷ cs) s =
    let e : (c == c) ≡ true = ground arith in rw e (strip_prefix-append cs s)

strip_prefix-other : (h c : ℕ) (p s : Text) → (c == h) ≡ false → strip_prefix (h ∷ p) (c ∷ s) ≡ none
unfolding strip_prefix
strip_prefix-other h c p s n = let e : (h == c) ≡ false = ground (arith, n) in rw e refl

-- A text that lacks the first character of a separator is split at the separator behind it.
pub split_once-append :
    (h : ℕ) (p xs s : Text) → Lacks h xs → split_once (h ∷ p) (xs ++ ((h ∷ p) ++ s)) ≡ some (xs, s)
unfolding split_once all_chars onto_left
split_once-append h p [] s n = rw (strip_prefix-append (h ∷ p) s, split_once) refl
split_once-append h p (c ∷ cs) s n =
    let e : (c == h) ≡ false = ground arith in
    let k : Lacks h cs = ground arith in
    rw (strip_prefix-other h c p (cs ++ ((h ∷ p) ++ s)) e, split_once)
      (ap (onto_left c) (split_once-append h p cs s k))

-- A text without white space.
abbrev pub HasNoWhitespace : Text → Type 0
HasNoWhitespace s = all_chars (λ c. not (is_whitespace c)) s ≡ true

trim_start-id : (s : Text) → HasNoWhitespace s → trim_start s ≡ s
unfolding trim_start all_chars
trim_start-id [] n = refl
trim_start-id (c ∷ cs) n = let e : is_whitespace c ≡ false = ground arith in rw e refl

keep_char-id : (c : ℕ) (s : Text) → is_whitespace c ≡ false → keep_char c s ≡ c ∷ s
unfolding keep_char
keep_char-id c [] e = rw e refl
keep_char-id c (d ∷ ds) e = refl

trim_end-id : (s : Text) → HasNoWhitespace s → trim_end s ≡ s
unfolding trim_end all_chars
trim_end-id [] n = refl
trim_end-id (c ∷ cs) n =
    let e : is_whitespace c ≡ false = ground arith in
    let k : HasNoWhitespace cs = ground arith in
    ap (keep_char c) (trim_end-id cs k) ∙ keep_char-id c cs e

pub trim-id : (s : Text) → HasNoWhitespace s → trim s ≡ s
unfolding trim
trim-id s n = ap trim_end (trim_start-id s n) ∙ trim_end-id s n

pub all_chars-append :
    (p : ℕ → Bool) (xs ys : Text) → all_chars p (xs ++ ys) ≡ (all_chars p xs && all_chars p ys)
unfolding all_chars
all_chars-append p [] ys = refl
all_chars-append p (x ∷ xs) ys = ground (arith, all_chars-append p xs ys)

-- What the server writes, with a text in front of the product's name and one behind it.
written_occupied :
    (before product peer after : Text)
    → before ++ (occupied_product (some product) peer ++ after)
      ≡ (before ++ (product ++ 32 ∷ [])) ++ (occupied_by_word ++ (peer ++ 93 ∷ after))
unfolding occupied_product
written_occupied before product peer after =
    let rest = occupied_by_word ++ (peer ++ 93 ∷ after) in
    ap (λ t. before ++ t)
      (append_assoc product (occupied_by_words ++ (peer ++ 93 ∷ [])) after
        ∙ ap (λ t. product ++ (occupied_by_words ++ t)) (append_assoc peer (93 ∷ []) after)
        ∙ sym (append_assoc product (32 ∷ []) rest))
    ∙ sym (append_assoc before (product ++ 32 ∷ []) rest)

-- From a description with the name of a product in use as the server writes it, the client reads the
-- address of the product's client: no text in front of it holds an opening bracket, and the address
-- is not empty and holds neither white space nor a closing bracket.
pub extract_occupied_by-occupied_product :
    (before product peer after : Text)
    → Lacks 91 before
    → Lacks 91 product
    → Lacks 93 peer
    → HasNoWhitespace peer
    → is_empty peer ≡ false
    → extract_occupied_by (before ++ (occupied_product (some product) peer ++ after)) ≡ some peer
unfolding extract_occupied_by ◌>>=◌
extract_occupied_by-occupied_product before product peer after b p l w n =
    let front : Lacks 91 (before ++ (product ++ 32 ∷ [])) = ground (
      arith,
      all_chars-append (λ c. not (c == 91)) before (product ++ 32 ∷ []),
      all_chars-append (λ c. not (c == 91)) product (32 ∷ []),
      space,
    ) in
    let first =
      split_once-append 91 (drop_bracket occupied_by_word) (before ++ (product ++ 32 ∷ []))
        (peer ++ 93 ∷ after) front in
    let second = split_once-append 93 [] peer after l in
    ap extract_occupied_by (written_occupied before product peer after)
    ∙ rw (first, second, trim-id peer w, n) refl
  where
    space : all_chars (λ c. not (c == 91)) (32 ∷ []) ≡ true
    space = unfold all_chars in refl

    drop_bracket : Text → Text
    drop_bracket s = elim s [ [] ↦ [] | c ∷ cs ↦ cs ]
