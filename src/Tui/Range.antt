-- ===== src/Tui/Range.antt =====
-- The index of the selected item stays in the list of src/tui.rs, or is 0 where that is empty.
use lusbip.Base.{
  ℕ, zero, suc, ◌-◌, ◌≡◌, ◌≤◌, ◌<◌, refl, Bool, List, [], ◌∷◌, some, Text, length, get_elem?,
  Option-cases, inl, inr, arith,
}
use lusbip.Agent.Control.{TuiItem}
use lusbip.Client.Selection.{
  SelectionAction, up, down, toggle, next_index, has_id, position, position-lt,
  preserve_selected_index,
}
use lusbip.Tui.Keys.{Event}
use lusbip.Tui.Refresh.{relabel}
use lusbip.Tui.Loop.{Received, spinner_events, run_with_spinner}

pub next_index-le :
    (current len : ℕ) (a : SelectionAction) → current ≤ len - 1 → next_index current len a ≤ len - 1
unfolding next_index
next_index-le current len up h = grind arith
next_index-le current len down h = grind arith
next_index-le current len toggle h = ground arith

pub length-relabel :
    (id : Text) (attach : Bool) (items : List TuiItem)
    → length (relabel id attach items) ≡ length items
unfolding relabel
length-relabel id attach [] = refl
length-relabel id attach (item ∷ items) = ground (arith, length-relabel id attach items)

pub preserve_selected_index-le :
    (previous_items next_items : List TuiItem) (selected : ℕ)
    → preserve_selected_index previous_items next_items selected ≤ length next_items - 1
unfolding preserve_selected_index
preserve_selected_index-le previous_items next_items selected =
    elim (Option-cases (get_elem? previous_items selected)) [
      | inl e ↦ rw (e, preserve_selected_index) (omega arith)
      | inr (item, e) ↦
          rw (e, preserve_selected_index)
            (elim (Option-cases (position (has_id item.id) next_items)) [
              | inl p ↦ rw p (omega arith)
              | inr (n, p) ↦ rw p (omega (arith, position-lt (has_id item.id) next_items n p))
            ])
    ]

pub get_elem?-in {ℓ} :
    {A : Type ℓ} (xs : List A) (n : ℕ) → n < length xs → (a : A) × (get_elem? xs n ≡ some a)
get_elem?-in [] n h = absurd (omega arith)
get_elem?-in (x ∷ xs) zero h = (x, refl)
get_elem?-in (x ∷ xs) (suc n) h = get_elem?-in xs n (omega arith)

pub spinner_events-le :
    (len : ℕ) (events : List Event) (selected : ℕ)
    → selected ≤ len - 1
    → (spinner_events len events selected).0 ≤ len - 1
unfolding spinner_events
spinner_events-le len [] selected h = h
spinner_events-le len (e ∷ es) selected h = ground (
  arith,
  next_index-le selected len SelectionAction.up,
  next_index-le selected len SelectionAction.down,
  spinner_events-le len es selected,
  spinner_events-le len es (next_index selected len SelectionAction.up),
  spinner_events-le len es (next_index selected len SelectionAction.down),
)

pub run_with_spinner-le :
    (len : ℕ) (rounds : List (List Event × Received)) (selected : ℕ) (text : Text) (next : ℕ)
    → run_with_spinner len rounds selected ≡ some (text, next)
    → selected ≤ len - 1
    → next ≤ len - 1
unfolding run_with_spinner
run_with_spinner-le len [] selected text next e h = absurd (cc e)
run_with_spinner-le len ((events, received) ∷ rounds) selected text next e h = ground (
  arith,
  spinner_events-le len events selected,
  run_with_spinner-le len rounds (spinner_events len events selected).0 text next,
)
