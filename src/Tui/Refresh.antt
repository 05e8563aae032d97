-- ===== src/Tui/Refresh.antt =====
-- The state of `run_action_list` of src/tui.rs, with the channels to its two threads, and what it does
-- with what they send: answers to actions, and items loaded anew.
use lusbip.Base.{
  ℕ, ◌+◌, ◌%◌, ◌^◌, Bool, true, false, not, ◌&&◌, ◌||◌, List, [], ◌∷◌, ◌++◌, Option, none, some,
  ◌!=◌, ltb, if◌then◌else◌, Text, text_eq, any, retain, find,
}
use lusbip.Agent.Control.{TuiItem}
use lusbip.Client.Texts.{starts_with}
use lusbip.Client.Labels.{optimistic_toggle_label}
use lusbip.Client.Selection.{has_id, merge_retained_items, preserve_selected_index}

pub data Result (A : Type 0) : Type 0 where
  ok : A → Result A
  err : Text → Result A

pub record ProcessingIndicator : Type 0 where
  pub frame : ℕ
  pub ids : List Text

pub record QueuedAction : Type 0 where
  pub item : TuiItem
  pub action_was_attach : Bool

-- The variables of `run_action_list`, then its channels. A number or an action that a thread works
-- at is still at the head of `refreshes` or `actions`.
pub record ActionList : Type 0 where
  pub selected : ℕ
  pub message : Option Text
  pub items : List TuiItem
  pub refresh_pending : Bool
  pub refresh_seq : ℕ
  pub minimum_refresh_seq : ℕ
  pub post_action_processing : Option ProcessingIndicator
  pub sticky_items : List TuiItem
  pub dirty : Bool
  pub refreshes : List ℕ
  pub loads : List (ℕ × Result (List TuiItem))
  pub actions : List QueuedAction
  pub results : List (QueuedAction × Result Text)

unfoldable pub start : List TuiItem → ActionList
start items = record {
  selected = 0;
  message = none;
  items = items;
  refresh_pending = false;
  refresh_seq = 0;
  minimum_refresh_seq = 0;
  post_action_processing = none;
  sticky_items = [];
  dirty = true;
  refreshes = [];
  loads = [];
  actions = [];
  results = [];
}

-- `Error: `, and without its space.
abbrev pub error_prefix : Text
error_prefix = 69 ∷ 114 ∷ 114 ∷ 111 ∷ 114 ∷ 58 ∷ []

abbrev pub error_text : Text → Text
error_text e = error_prefix ++ 32 ∷ e

unfoldable pub pending_ids : Option ProcessingIndicator → List Text
pending_ids none = []
pending_ids (some processing) = processing.ids

unfoldable pub with_ids : ProcessingIndicator → List Text → Option ProcessingIndicator
with_ids processing [] = none
with_ids processing (i ∷ ids) = some (record processing { ids = i ∷ ids })

-- An action that is done no longer counts as under way.
unfoldable pub finish : Text → Option ProcessingIndicator → Option ProcessingIndicator
finish id none = none
finish id (some processing) = with_ids processing (retain (λ i. not (text_eq i id)) processing.ids)

unfoldable pub relabel : Text → Bool → List TuiItem → List TuiItem
relabel id attach [] = []
relabel id attach (item ∷ items) =
    if has_id id item
    then record item { label = optimistic_toggle_label item.label attach } ∷ items
    else item ∷ relabel id attach items

unfoldable pub stick : Option TuiItem → List TuiItem → List TuiItem
stick none sticky_items = sticky_items
stick (some item) sticky_items =
    if any (has_id item.id) sticky_items then sticky_items else sticky_items ++ item ∷ []

-- The branch of a result that is `Ok`.
unfoldable pub on_success : QueuedAction → ActionList → ActionList
on_success action s =
    let id = action.item.id in
    let items = relabel id action.action_was_attach s.items in
    record s {
      message = none;
      items = items;
      sticky_items =
          if action.action_was_attach
          then stick (find (has_id id) items) s.sticky_items
          else retain (λ sticky. not (has_id id sticky)) s.sticky_items;
    }

unfoldable pub outcome : QueuedAction → Result Text → ActionList → ActionList
outcome action (ok text) s = on_success action s
outcome action (err e) s = record s { message = some (error_text e) }

-- `sent` is whether the thread that loads still listens.
unfoldable pub request_refresh : Bool → ActionList → ActionList
request_refresh sent s =
    let seq = (s.refresh_seq + 1) % 2 ^ 64 in
    record s {
      refresh_seq = seq;
      refresh_pending = sent;
      refreshes = if sent then s.refreshes ++ seq ∷ [] else s.refreshes;
    }

unfoldable pub with_minimum : ActionList → ActionList
with_minimum s = record s { minimum_refresh_seq = s.refresh_seq }

unfoldable pub on_action_result : Bool → QueuedAction → Result Text → ActionList → ActionList
on_action_result sent action result s = with_minimum (
    request_refresh sent (
      outcome action result (record s {
        post_action_processing = finish action.item.id s.post_action_processing;
        dirty = true;
      })))

unfoldable pub push_sticky : List TuiItem → List TuiItem → List TuiItem
push_sticky next_items [] = next_items
push_sticky next_items (sticky ∷ rest) =
    push_sticky
      (if any (has_id sticky.id) next_items then next_items else next_items ++ sticky ∷ []) rest

unfoldable pub items_eq : List TuiItem → List TuiItem → Bool
items_eq [] [] = true
items_eq [] (y ∷ ys) = false
items_eq (x ∷ xs) [] = false
items_eq (x ∷ xs) (y ∷ ys) = text_eq x.id y.id && text_eq x.label y.label && items_eq xs ys

unfoldable pub is_error : Option Text → Bool
is_error none = false
is_error (some value) = starts_with error_prefix value

-- The items that a load leaves: the loaded ones, those under way and those that stick.
unfoldable pub merged_items : List TuiItem → ActionList → List TuiItem
merged_items loaded s = merge_retained_items s.items loaded (pending_ids s.post_action_processing)

unfoldable pub kept_sticky : List TuiItem → ActionList → List TuiItem
kept_sticky loaded s =
    retain (λ sticky. not (any (has_id sticky.id) (merged_items loaded s))) s.sticky_items

unfoldable pub next_items : List TuiItem → ActionList → List TuiItem
next_items loaded s = push_sticky (merged_items loaded s) (kept_sticky loaded s)

unfoldable pub on_loaded : Result (List TuiItem) → ActionList → ActionList
on_loaded (err e) s = record s {
  refresh_pending = false;
  message = some (error_text e);
  dirty = true;
}
on_loaded (ok loaded) s =
    let next = next_items loaded s in
    let next_selected = preserve_selected_index s.items next s.selected in
    record s {
      refresh_pending = false;
      sticky_items = kept_sticky loaded s;
      selected = next_selected;
      items = next;
      message = if is_error s.message then none else s.message;
      dirty =
          s.dirty
          || not (items_eq s.items next)
          || s.selected != next_selected
          || is_error s.message;
    }

-- A load that was asked for before the last action was done is dropped.
unfoldable pub on_items : ℕ → Result (List TuiItem) → ActionList → ActionList
on_items seq result s = if ltb seq s.minimum_refresh_seq then s else on_loaded result s
