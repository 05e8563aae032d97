-- ===== src/Tui/Loop.antt =====
-- The loop of `run_action_list` of src/tui.rs: each piece of a round is a function, and what clocks and
-- channels answer is an argument.
use lusbip.Base.{
  ℕ, ◌+◌, ◌-◌, ◌%◌, ◌^◌, Bool, true, false, not, ◌&&◌, ◌||◌, List, [], ◌∷◌, ◌++◌, Option, none,
  some, ◌==◌, ◌!=◌, min, if◌then◌else◌, Text, text_eq, any, length, get_elem?,
}
use lusbip.Agent.Control.{TuiItem}
use lusbip.Client.Texts.{starts_with}
use lusbip.Client.Labels.{unchecked}
use lusbip.Client.Selection.{SelectionAction, next_index}
use lusbip.Tui.Keys.{Event, ListKeyAction, list_key_action}
use lusbip.Tui.Refresh.{
  Result, ok, err, ActionList, ProcessingIndicator, error_prefix, error_text, pending_ids,
  request_refresh,
}

-- The index of the selected item is cut to the list.
unfoldable pub settle : ActionList → ActionList
settle s =
    let next_selected = if length s.items == 0 then 0 else min s.selected (length s.items - 1) in
    record s { selected = next_selected; dirty = s.dirty || next_selected != s.selected }

unfoldable pub next_frame : ProcessingIndicator → ProcessingIndicator
next_frame processing = record processing { frame = (processing.frame + 1) % 2 ^ 64 }

-- `elapsed` is whether the last turn of the spinner is 120 milliseconds old.
unfoldable pub spin : Bool → ActionList → ActionList
spin elapsed s = elim s.post_action_processing [
  | none ↦ s
  | some processing ↦
      if elapsed
      then record s { post_action_processing = some (next_frame processing); dirty = true }
      else s
]

unfoldable pub drawn : ActionList → ActionList
drawn s = record s { dirty = false }

-- No event came; `elapsed` is whether the last refresh is a second old.
unfoldable pub on_timeout : Bool → Bool → ActionList → ActionList
on_timeout elapsed sent s = if elapsed && not s.refresh_pending then request_refresh sent s else s

unfoldable pub move_to : ℕ → ActionList → ActionList
move_to next_selected s =
    if next_selected != s.selected then record s { selected = next_selected; dirty = true } else s

unfoldable pub start_processing : Text → Option ProcessingIndicator → ProcessingIndicator
start_processing id none = record { frame = 0; ids = id ∷ [] }
start_processing id (some processing) = record processing { ids = processing.ids ++ id ∷ [] }

unfoldable pub queue_action : TuiItem → ActionList → ActionList
queue_action item s = record s {
  actions =
      s.actions
      ++ record { item = item; action_was_attach = starts_with unchecked item.label } ∷ [];
  post_action_processing = some (start_processing item.id s.post_action_processing);
  dirty = true;
}

-- What a key leads to; `panics` is an index out of range, and `waits` a detaching under way.
pub data Next : Type 0 where
  goes_on : ActionList → Next
  quits waits panics : Next

-- `sent` is whether the thread that acts still listens.
unfoldable pub activate : Bool → ActionList → Next
activate sent s = if length s.items == 0 then goes_on s else elim (get_elem? s.items s.selected) [
  | none ↦ panics
  | some item ↦
      if any (text_eq item.id) (pending_ids s.post_action_processing)
      then goes_on s
      else goes_on (if sent then queue_action item s else s)
]

-- What the thread of `run_with_spinner` has sent within 120 milliseconds.
pub data Received : Type 0 where
  timeout disconnected : Received
  finished : Result Text → Received

-- The events that are read at once: the selected index, or that of a cancellation.
unfoldable pub spinner_events : ℕ → List Event → ℕ → ℕ × Bool
spinner_events len [] selected = (selected, false)
spinner_events len (e ∷ es) selected = elim (list_key_action e) [
  | none ↦ spinner_events len es selected
  | some action ↦ elim action [
    | ListKeyAction.up ↦ spinner_events len es (next_index selected len SelectionAction.up)
    | ListKeyAction.down ↦ spinner_events len es (next_index selected len SelectionAction.down)
    | ListKeyAction.activate ↦ spinner_events len es selected
    | ListKeyAction.background ↦ spinner_events len es selected
    | ListKeyAction.cancel ↦ (selected, true)
  ]
]

-- `Operation is still running; usbip timeout will stop it shortly`, `worker stopped unexpectedly`.
abbrev pub still_running : Text
still_running =
    79 ∷ 112 ∷ 101 ∷ 114 ∷ 97 ∷ 116 ∷ 105 ∷ 111 ∷ 110 ∷ 32 ∷ 105 ∷ 115 ∷ 32 ∷ 115 ∷ 116 ∷ 105 ∷ 108
    ∷ 108 ∷ 32 ∷ 114 ∷ 117 ∷ 110 ∷ 110 ∷ 105 ∷ 110 ∷ 103 ∷ 59 ∷ 32 ∷ 117 ∷ 115 ∷ 98 ∷ 105 ∷ 112 ∷ 32
    ∷ 116 ∷ 105 ∷ 109 ∷ 101 ∷ 111 ∷ 117 ∷ 116 ∷ 32 ∷ 119 ∷ 105 ∷ 108 ∷ 108 ∷ 32 ∷ 115 ∷ 116 ∷ 111
    ∷ 112 ∷ 32 ∷ 105 ∷ 116 ∷ 32 ∷ 115 ∷ 104 ∷ 111 ∷ 114 ∷ 116 ∷ 108 ∷ 121 ∷ []

abbrev pub worker_stopped : Text
worker_stopped =
    119 ∷ 111 ∷ 114 ∷ 107 ∷ 101 ∷ 114 ∷ 32 ∷ 115 ∷ 116 ∷ 111 ∷ 112 ∷ 112 ∷ 101 ∷ 100 ∷ 32 ∷ 117
    ∷ 110 ∷ 101 ∷ 120 ∷ 112 ∷ 101 ∷ 99 ∷ 116 ∷ 101 ∷ 100 ∷ 108 ∷ 121 ∷ []

unfoldable pub result_text : Result Text → Text
result_text (ok text) = text
result_text (err e) = error_text e

-- Its rounds, each with its events and what came; `none` while it runs.
unfoldable pub run_with_spinner : ℕ → List (List Event × Received) → ℕ → Option (Text × ℕ)
run_with_spinner len [] selected = none
run_with_spinner len ((events, received) ∷ rounds) selected =
    let (current, cancelled) = spinner_events len events selected in
    let rest = run_with_spinner len rounds current in
    if cancelled then some (error_text still_running, current) else elim received [
      | timeout ↦ rest
      | disconnected ↦ some (error_text worker_stopped, current)
      | finished result ↦ some (result_text result, current)
    ]

unfoldable pub on_cancel : Option (Text × ℕ) → ActionList → Next
on_cancel none s = waits
on_cancel (some (result, next_selected)) s =
    if starts_with error_prefix result
    then goes_on (record s { selected = next_selected; message = some result; dirty = true })
    else quits

-- `rounds` is how detaching goes if the key asks for it.
unfoldable pub on_action : Bool → List (List Event × Received) → ListKeyAction → ActionList → Next
on_action sent rounds ListKeyAction.up s =
    goes_on (move_to (next_index s.selected (length s.items) SelectionAction.up) s)
on_action sent rounds ListKeyAction.down s =
    goes_on (move_to (next_index s.selected (length s.items) SelectionAction.down) s)
on_action sent rounds ListKeyAction.activate s = activate sent s
on_action sent rounds ListKeyAction.background s = quits
on_action sent rounds ListKeyAction.cancel s =
    on_cancel (run_with_spinner (length s.items) rounds s.selected) s

unfoldable pub on_event : Bool → List (List Event × Received) → Event → ActionList → Next
on_event sent rounds e s = elim (list_key_action e) [
  | none ↦ goes_on s
  | some action ↦ on_action sent rounds action s
]
