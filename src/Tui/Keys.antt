-- ===== src/Tui/Keys.antt =====
-- The keys of src/tui.rs, and the two loops that do nothing but select: `select_one` and `select_many`.
use lusbip.Base.{
  ℕ, Bool, ◌&&◌, List, [], ◌∷◌, ◌++◌, Option, none, some, ◌==◌, if◌then◌else◌, any, remove_first,
}
use lusbip.Client.Selection.{SelectionAction, next_index}

-- The key codes that are tested for; `other` is any other.
pub data KeyCode : Type 0 where
  up down enter esc other : KeyCode
  char : ℕ → KeyCode

-- A key with whether control is held, and what else a terminal reports.
pub data Event : Type 0 where
  key : KeyCode → Bool → Event
  resize other : Event

pub data ListKeyAction : Type 0 where
  up down activate background cancel : ListKeyAction

unfoldable pub char_action : ℕ → Bool → Option ListKeyAction
char_action c control =
    if c == 107
    then some ListKeyAction.up
    else if c == 106
    then some ListKeyAction.down
    else if c == 32
    then some ListKeyAction.activate
    else if c == 99 && control
    then some ListKeyAction.cancel
    else none

unfoldable pub list_key_action : Event → Option ListKeyAction
list_key_action (Event.key KeyCode.up control) = some ListKeyAction.up
list_key_action (Event.key KeyCode.down control) = some ListKeyAction.down
list_key_action (Event.key KeyCode.enter control) = none
list_key_action (Event.key KeyCode.esc control) = some ListKeyAction.background
list_key_action (Event.key KeyCode.other control) = none
list_key_action (Event.key (KeyCode.char c) control) = char_action c control
list_key_action Event.resize = none
list_key_action Event.other = none

-- What a loop that selects does next: go on, return, or end with "Selection cancelled".
pub data Choice (A : Type 0) : Type 0 where
  goes_on : A → Choice A
  chosen : A → Choice A
  cancelled : Choice A

unfoldable pub select_char : ℕ → ℕ → Bool → ℕ → Choice ℕ
select_char len c control selected =
    if c == 107
    then goes_on (next_index selected len SelectionAction.up)
    else if c == 106
    then goes_on (next_index selected len SelectionAction.down)
    else if c == 99 && control
    then cancelled
    else goes_on selected

unfoldable pub select_one_event : ℕ → Event → ℕ → Choice ℕ
select_one_event len (Event.key KeyCode.up control) selected =
    goes_on (next_index selected len SelectionAction.up)
select_one_event len (Event.key KeyCode.down control) selected =
    goes_on (next_index selected len SelectionAction.down)
select_one_event len (Event.key KeyCode.enter control) selected = chosen selected
select_one_event len (Event.key KeyCode.esc control) selected = cancelled
select_one_event len (Event.key KeyCode.other control) selected = goes_on selected
select_one_event len (Event.key (KeyCode.char c) control) selected =
    select_char len c control selected
select_one_event len Event.resize selected = goes_on selected
select_one_event len Event.other selected = goes_on selected

unfoldable pub select_one_from : ℕ → List Event → ℕ → Choice ℕ
select_one_from len [] selected = goes_on selected
select_one_from len (e ∷ es) selected = elim (select_one_event len e selected) [
  | goes_on next ↦ select_one_from len es next
  | chosen index ↦ chosen index
  | cancelled ↦ cancelled
]

-- The loop over the events that the terminal reports; `none` is "No items to select".
unfoldable pub select_one : ℕ → List Event → Option (Choice ℕ)
select_one len events = if len == 0 then none else some (select_one_from len events 0)

-- The space bar adds the selected index, or takes it out.
unfoldable pub toggle_chosen : ℕ → List ℕ → List ℕ
toggle_chosen selected indices =
    if any (λ i. i == selected) indices
    then remove_first (λ i. i == selected) indices
    else indices ++ selected ∷ []

-- The selected index and the chosen ones.
unfoldable pub select_many_char : ℕ → ℕ → Bool → ℕ × List ℕ → Choice (ℕ × List ℕ)
select_many_char len c control (selected, indices) =
    if c == 107
    then goes_on (next_index selected len SelectionAction.up, indices)
    else if c == 106
    then goes_on (next_index selected len SelectionAction.down, indices)
    else if c == 32
    then goes_on (selected, toggle_chosen selected indices)
    else if c == 99 && control
    then cancelled
    else goes_on (selected, indices)

unfoldable pub select_many_event : ℕ → Event → ℕ × List ℕ → Choice (ℕ × List ℕ)
select_many_event len (Event.key KeyCode.up control) (selected, indices) =
    goes_on (next_index selected len SelectionAction.up, indices)
select_many_event len (Event.key KeyCode.down control) (selected, indices) =
    goes_on (next_index selected len SelectionAction.down, indices)
select_many_event len (Event.key KeyCode.enter control) s = chosen s
select_many_event len (Event.key KeyCode.esc control) s = cancelled
select_many_event len (Event.key KeyCode.other control) s = goes_on s
select_many_event len (Event.key (KeyCode.char c) control) s = select_many_char len c control s
select_many_event len Event.resize s = goes_on s
select_many_event len Event.other s = goes_on s

unfoldable pub select_many_from : ℕ → List Event → ℕ × List ℕ → Choice (ℕ × List ℕ)
select_many_from len [] s = goes_on s
select_many_from len (e ∷ es) s = elim (select_many_event len e s) [
  | goes_on next ↦ select_many_from len es next
  | chosen end ↦ chosen end
  | cancelled ↦ cancelled
]

unfoldable pub select_many : ℕ → List Event → Option (Choice (ℕ × List ℕ))
select_many len events = if len == 0 then none else some (select_many_from len events (0, []))
