-- ===== src/Client/Selection.antt =====
-- Which item of a list is selected, and which items it has, when src/tui.rs loads it anew.
use lusbip.Base.{
  ℕ, suc, ◌+◌, ◌-◌, ◌%◌, ◌≡◌, ◌≤◌, ◌<◌, refl, ap, ◌∙◌, Bool, true, false, ◌&&◌, ◌||◌, List, [], ◌∷◌,
  ◌++◌, Option, none, some, ◌==◌, leb, if◌then◌else◌, Text, text_eq, text_eq_iff, any, find,
  find-some, length, take, get_elem?, replicate, length-append, length-take, length-replicate, min,
  Bool-cases, Option-cases, inl, inr, arith,
}
use lusbip.Agent.Control.{TuiItem}
use lusbip.Client.Shown.{any-append, text_eq_sym}

pub data SelectionAction : Type 0 where
  up down toggle : SelectionAction

-- On a `usize`, whose sum does not overflow for a list in memory.
unfoldable pub next_index : ℕ → ℕ → SelectionAction → ℕ
next_index current len up = if len == 0 then 0 else (current + len - 1) % len
next_index current len down = if len == 0 then 0 else (current + 1) % len
next_index current len toggle = if len == 0 then 0 else min current (len - 1)

abbrev pub has_id : Text → TuiItem → Bool
has_id id item = text_eq item.id id

unfoldable pub later : Option ℕ → Option ℕ
later none = none
later (some n) = some (suc n)

-- `iter().position`.
unfoldable pub position : (TuiItem → Bool) → List TuiItem → Option ℕ
position p [] = none
position p (x ∷ xs) = let rest = later (position p xs) in if p x then some 0 else rest

unfoldable pub preserve_selected_index : List TuiItem → List TuiItem → ℕ → ℕ
preserve_selected_index previous_items next_items selected =
    let clamped = min selected (length next_items - 1) in
    elim (get_elem? previous_items selected) [
      | none ↦ clamped
      | some item ↦ elim (position (has_id item.id) next_items) [
        | none ↦ clamped
        | some index ↦ index
      ]
    ]

unfoldable pub append_found : List TuiItem → Option TuiItem → List TuiItem
append_found merged none = merged
append_found merged (some item) = merged ++ item ∷ []

unfoldable pub merge_retained_items : List TuiItem → List TuiItem → List Text → List TuiItem
merge_retained_items previous_items merged [] = merged
merge_retained_items previous_items merged (id ∷ ids) =
    merge_retained_items previous_items
      (if any (has_id id) merged
        then merged
        else append_found merged (find (has_id id) previous_items))
      ids

-- Three dots at the end of what does not fit.
unfoldable pub truncate_to_width : Text → ℕ → Text
truncate_to_width value width =
    if leb (length value) width
    then value
    else if width == 0
    then []
    else if leb width 3
    then replicate width 46
    else take (width - 3) value ++ replicate 3 46

-- A text is cut to the width that there is.
pub length-truncate_to_width-le :
    (value : Text) (width : ℕ) → length (truncate_to_width value width) ≤ width
unfolding truncate_to_width
length-truncate_to_width-le value width =
    let dot : ℕ = 46 in
    ground (
      arith,
      length-replicate width dot,
      length-append (take (width - 3) value) (replicate 3 dot),
      length-take (width - 3) value,
    )

position-some :
    (p : TuiItem → Bool) (xs : List TuiItem)
    → any p xs ≡ true
    → (n : ℕ) × (item : TuiItem) × (position p xs ≡ some n)
      × (get_elem? xs n ≡ some item)
      × (p item ≡ true)
unfolding any position later
position-some p [] h = absurd (cc h)
position-some p (x ∷ xs) h = elim (Bool-cases (p x)) [
  | inl e ↦ (0, x, rw e refl, refl, e)
  | inr e ↦
      let k : any p xs ≡ true = ground (arith, h, e) in
      let (n, item, at, there, same) = position-some p xs k in
      (suc n, item, rw (e, at) refl, there, same)
]

pub position-lt :
    (p : TuiItem → Bool) (xs : List TuiItem) (n : ℕ) → position p xs ≡ some n → n < length xs
unfolding position later
position-lt p [] n h = absurd (cc h)
position-lt p (x ∷ xs) n h = elim (Option-cases (position p xs)) [
  | inl e ↦ ground arith
  | inr (k, e) ↦ ground (arith, position-lt p xs k e)
]

-- A selected item that is still in the list stays selected: the index kept for it is in range, and the
-- item there has its id.
pub preserve_selected_index-same :
    (previous_items next_items : List TuiItem) (selected : ℕ) (item : TuiItem)
    → get_elem? previous_items selected ≡ some item
    → any (has_id item.id) next_items ≡ true
    → (kept : TuiItem) × (get_elem? next_items
          (preserve_selected_index previous_items next_items selected)
        ≡ some kept)
      × (kept.id ≡ item.id)
unfolding preserve_selected_index
preserve_selected_index-same previous_items next_items selected item h found =
    let (n, kept, at, there, same) = position-some (has_id item.id) next_items found in
    (kept, rw (h, at, preserve_selected_index) there, (text_eq_iff kept.id item.id).0 same)

find-none : (p : TuiItem → Bool) (xs : List TuiItem) → find p xs ≡ none → any p xs ≡ false
unfolding find any
find-none p [] h = refl
find-none p (x ∷ xs) h = elim (Bool-cases (p x)) [
  | inl e ↦ absurd (cc (rw e at h))
  | inr e ↦ ground (arith, e, find-none p xs (rw e at h))
]

any-append_found :
    (b id : Text) (merged previous_items : List TuiItem)
    → any (has_id b) (append_found merged (find (has_id id) previous_items))
      ≡ (any (has_id b) merged || (text_eq b id && any (has_id b) previous_items))
unfolding append_found any
any-append_found b id merged previous_items =
    elim (Option-cases (find (has_id id) previous_items)) [
      | inl e ↦ rw e (absent (find-none (has_id id) previous_items e))
      | inr (item, e) ↦
          let found = find-some (has_id id) previous_items item e in
          rw e (any-append (has_id b) merged (item ∷ []) ∙ present item found.0 found.1)
    ]
  where
    same : text_eq b id ≡ true → any (has_id b) previous_items ≡ any (has_id id) previous_items
    same h = ap (λ x. any (has_id x) previous_items) ((text_eq_iff b id).0 h)

    absent :
        any (has_id id) previous_items ≡ false
        → any (has_id b) merged
          ≡ (any (has_id b) merged || (text_eq b id && any (has_id b) previous_items))
    absent n = ground (arith, same)

    present :
        (item : TuiItem)
        → has_id id item ≡ true
        → any (has_id id) previous_items ≡ true
        → (any (has_id b) merged || any (has_id b) (item ∷ []))
          ≡ (any (has_id b) merged || (text_eq b id && any (has_id b) previous_items))
    present item named found =
        ground
          (arith, same, ap (λ x. text_eq x b) ((text_eq_iff item.id id).0 named), text_eq_sym b id)

-- The merged list has an item of an id exactly when the new list has one, or the id is among those to
-- retain and the old list has one.
pub merge_retained_items_lem :
    (b : Text) (previous_items next_items : List TuiItem) (retained_ids : List Text)
    → any (has_id b) (merge_retained_items previous_items next_items retained_ids) ≡ (
        any (has_id b) next_items
        || (any (text_eq b) retained_ids && any (has_id b) previous_items))
unfolding merge_retained_items any
merge_retained_items_lem b previous_items next_items [] = ground arith
merge_retained_items_lem b previous_items next_items (id ∷ ids) =
    elim (Bool-cases (any (has_id id) next_items)) [
      | inl e ↦ rw e (merge_retained_items_lem b previous_items next_items ids ∙ there e)
      | inr e ↦ rw e (
          merge_retained_items_lem b previous_items
            (append_found next_items (find (has_id id) previous_items)) ids
          ∙ ground (arith, any-append_found b id next_items previous_items))
    ]
  where
    there :
        any (has_id id) next_items ≡ true
        → (any (has_id b) next_items || (any (text_eq b) ids && any (has_id b) previous_items)) ≡ (
            any (has_id b) next_items
            || (any (text_eq b) (id ∷ ids) && any (has_id b) previous_items))
    there e = ground (arith, same)
      where
        same : text_eq b id ≡ true → any (has_id b) next_items ≡ any (has_id id) next_items
        same h = ap (λ x. any (has_id x) next_items) ((text_eq_iff b id).0 h)
