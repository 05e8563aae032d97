-- ===== src/Tests/Terminal.antt =====
-- The terminal interface of src/tui.rs at concrete inputs.
use lusbip.Base.{
  ◌≡◌, ◌≢◌, refl, true, false, ◌&&◌, ◌||◌, [], ◌∷◌, none, some, text_eq, any, remove_first,
}
use lusbip.Agent.Control.{TuiItem, strip_prefix}
use lusbip.Client.Texts.{starts_with}
use lusbip.Client.Selection.{has_id, next_index}
use lusbip.Tui.Keys.{
  Event, KeyCode, list_key_action, char_action, select_many, select_many_from, select_many_event,
  select_many_char, toggle_chosen, chosen,
}
use lusbip.Tui.Refresh.{
  ok, ActionList, QueuedAction, start, pending_ids, request_refresh, next_items,
}
use lusbip.Tui.Loop.{
  panics, on_event, on_action, activate, queue_action, start_processing, on_timeout,
}
use lusbip.Tui.Steps.{IsActionList, Runs, here, next, press, idle}
use lusbip.Tui.Runs.{Runs-IsActionList}
use lusbip.Tui.Items.{next_items_lem}
use lusbip.Tui.Frame.{View}

-- The item `1` with the label `[ ]`, and the item `2`.
abbrev shown : TuiItem
shown = record { id = 49 ∷ []; label = 91 ∷ 32 ∷ 93 ∷ [] }

abbrev other_shown : TuiItem
other_shown = record { id = 50 ∷ []; label = [] }

abbrev space : Event
space = Event.key (KeyCode.char 32) false

abbrev queued : QueuedAction
queued = record { item = shown; action_was_attach = true }

-- A refresh is asked for, the item is activated, and the thread answers.
abbrev waiting : ActionList
waiting = record (start (shown ∷ [])) {
  refresh_pending = true;
  refresh_seq = 1;
  refreshes = 1 ∷ [];
}

abbrev acting : ActionList
acting = record waiting {
  actions = queued ∷ [];
  post_action_processing = some (record { frame = 0; ids = (49 ∷ []) ∷ [] });
  dirty = true;
}

abbrev acted : ActionList
acted = record acting { actions = []; results = (queued, ok []) ∷ [] }

run_to_waiting : Runs (start (shown ∷ [])) 1 waiting
unfolding start on_timeout request_refresh
run_to_waiting = next here (idle (start (shown ∷ [])) true true)

run_to_acting : Runs (start (shown ∷ [])) 2 acting
unfolding start on_event list_key_action char_action on_action activate pending_ids queue_action
    start_processing starts_with strip_prefix any
run_to_acting = next run_to_waiting (press waiting acting true [] space refl)

Runs-IsActionList_example : IsActionList acting × (on_event true [] space acting ≢ panics)
Runs-IsActionList_example = Runs-IsActionList (shown ∷ []) 2 acting true [] space run_to_acting

next_items_lem_example : any (has_id (49 ∷ [])) (next_items (other_shown ∷ []) acting) ≡ (
    any (has_id (49 ∷ [])) (other_shown ∷ [])
    || (any (text_eq (49 ∷ [])) (pending_ids acting.post_action_processing)
        && any (has_id (49 ∷ [])) acting.items)
    || any (has_id (49 ∷ [])) acting.sticky_items)
next_items_lem_example = next_items_lem (49 ∷ []) (other_shown ∷ []) acting

-- The second of two items is selected, under a message.
abbrev view : View
view = record {
  title = 117 ∷ [];
  selected = 1;
  chosen = [];
  show_checkboxes = false;
  message = some (120 ∷ []);
  processing = none;
}

-- The first item is chosen, the second is chosen and taken out again.
select_many-chosen :
    select_many 2
      (space ∷ Event.key KeyCode.down false ∷ space ∷ space ∷ Event.key KeyCode.enter false ∷ [])
    ≡ some (chosen (1, 0 ∷ []))
unfolding select_many select_many_from select_many_event select_many_char toggle_chosen any
    next_index remove_first
select_many-chosen = refl
