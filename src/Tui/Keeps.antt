-- ===== src/Tui/Keeps.antt =====
-- What the answers to actions, the loads and the timeouts of src/tui.rs leave as it is.
use lusbip.Base.{
  ℕ, ◌-◌, ◌≡◌, ◌≤◌, ap, ◌∙◌, Bool, true, List, ◌∷◌, ◌++◌, map, Text, length, subst, arith,
}
use lusbip.Agent.Control.{TuiItem}
use lusbip.Tui.Refresh.{
  Result, ok, err, ActionList, QueuedAction, finish, outcome, on_success, request_refresh,
  with_minimum, on_action_result, on_items, on_loaded, next_items,
}
use lusbip.Tui.Loop.{settle, on_timeout}
use lusbip.Tui.Pending.{Distinct, action_id, answered_id, under_way, finish-oldest}
use lusbip.Tui.Range.{length-relabel, preserve_selected_index-le}
use lusbip.Tui.Steps.{IsActionList}

-- Of an action list, what the invariant is about.
pub record Keeps (s t : ActionList) : Type 0 where
  pub range : s.selected ≤ length s.items - 1 → t.selected ≤ length t.items - 1
  pub same_marks : t.post_action_processing ≡ s.post_action_processing
  pub same_results : t.results ≡ s.results
  pub same_actions : t.actions ≡ s.actions

pub Keeps-IsActionList : (s t : ActionList) → Keeps s t → IsActionList s → IsActionList t
Keeps-IsActionList s t k v = record {
  in_range = k.range v.in_range;
  marked = rw (k.same_marks, k.same_results, k.same_actions) v.marked;
  distinct = rw (k.same_results, k.same_actions) v.distinct;
  busy = rw k.same_marks v.busy;
}

pub on_items-Keeps :
    (seq : ℕ) (result : Result (List TuiItem)) (s : ActionList) → Keeps s (on_items seq result s)
unfolding on_items on_loaded
on_items-Keeps seq (err e) s = ground arith
on_items-Keeps seq (ok loaded) s =
    ground (arith, preserve_selected_index-le s.items (next_items loaded s) s.selected)

pub settle-Keeps : (s : ActionList) → Keeps s (settle s)
unfolding settle
settle-Keeps s = ground arith

pub on_timeout-Keeps : (elapsed sent : Bool) (s : ActionList) → Keeps s (on_timeout elapsed sent s)
unfolding on_timeout request_refresh
on_timeout-Keeps elapsed sent s = ground arith

pub outcome-Keeps :
    (action : QueuedAction) (result : Result Text) (s : ActionList)
    → Keeps s (outcome action result s)
unfolding outcome on_success
outcome-Keeps action (err e) s = ground arith
outcome-Keeps action (ok text) s =
    ground (arith, length-relabel action.item.id action.action_was_attach s.items)

pub take_result-IsActionList :
    (s : ActionList) (action : QueuedAction) (result : Result Text)
    (rest : List (QueuedAction × Result Text)) (sent : Bool)
    → s.results ≡ (action, result) ∷ rest
    → IsActionList s
    → IsActionList (on_action_result sent action result (record s { results = rest }))
unfolding on_action_result with_minimum request_refresh
take_result-IsActionList s action result rest sent e v =
    let id = action.item.id in
    let ids = map answered_id rest ++ map action_id s.actions in
    let now : under_way s ≡ id ∷ ids = ap (λ r. map answered_id r ++ map action_id s.actions) e in
    let d : Distinct (id ∷ ids) = subst Distinct now v.distinct in
    let done = finish-oldest id ids s.post_action_processing (v.marked ∙ now) d in
    let before : ActionList = record s {
      results = rest;
      post_action_processing = finish id s.post_action_processing;
      dirty = true;
    } in
    let kept = outcome-Keeps action result before in
    record {
      in_range = kept.range v.in_range;
      marked = rw (kept.same_marks, kept.same_results, kept.same_actions) done.0;
      distinct = rw (kept.same_results, kept.same_actions) d.1;
      busy = rw kept.same_marks done.1;
    }
