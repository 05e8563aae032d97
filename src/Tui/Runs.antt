-- ===== src/Tui/Runs.antt =====
-- What holds in every run of the loop of src/tui.rs.
use lusbip.Base.{
  ℕ, zero, suc, ◌-◌, ◌≡◌, ◌≢◌, ◌≤◌, refl, sym, ap, ◌∙◌, Bool, true, false, List, [], ◌∷◌, ◌++◌,
  Option, none, some, Text, text_eq, any, length, ◌==◌, if◌then◌else◌, Bool-cases, Option-cases,
  inl, inr, append_assoc, map-append, subst, arith,
}
use lusbip.Agent.Control.{TuiItem}
use lusbip.Client.Texts.{starts_with}
use lusbip.Client.Selection.{SelectionAction}
use lusbip.Tui.Keys.{Event, list_key_action, ListKeyAction}
use lusbip.Tui.Refresh.{Result, ActionList, QueuedAction, start, pending_ids, error_prefix}
use lusbip.Tui.Loop.{
  Received, Next, goes_on, quits, waits, panics, spin, next_frame, drawn, move_to, activate,
  queue_action, on_cancel, on_action, on_event, run_with_spinner,
}
use lusbip.Tui.Pending.{Distinct, under_way, Distinct-append, start_processing_lem}
use lusbip.Tui.Range.{next_index-le, get_elem?-in, run_with_spinner-le}
use lusbip.Tui.Steps.{
  Step, act, load, take_result, take_items, turn, draw, idle, press, Runs, here, next, IsActionList,
  start-IsActionList,
}
use lusbip.Tui.Keeps.{
  Keeps, Keeps-IsActionList, on_items-Keeps, settle-Keeps, on_timeout-Keeps,
  take_result-IsActionList,
}

queue_action-IsActionList :
    (item : TuiItem) (s : ActionList)
    → any (text_eq item.id) (pending_ids s.post_action_processing) ≡ false
    → IsActionList s
    → IsActionList (queue_action item s)
unfolding queue_action
queue_action-IsActionList item s new v =
    let t = queue_action item s in
    let more : under_way t ≡ under_way s ++ item.id ∷ [] = simp (map-append, append_assoc) in
    let started = start_processing_lem item.id s.post_action_processing in
    record {
      in_range = v.in_range;
      marked = started.0 ∙ ap (λ ids. ids ++ item.id ∷ []) v.marked ∙ sym more;
      distinct = subst Distinct (sym more) (
          Distinct-append item.id (under_way s) (sym (ap (any (text_eq item.id)) v.marked) ∙ new)
            v.distinct);
      busy = started.1;
    }

spin-IsActionList :
    (elapsed : Bool) (s : ActionList) → IsActionList s → IsActionList (spin elapsed s)
unfolding spin next_frame pending_ids
spin-IsActionList elapsed s v = record {
  in_range = ground arith;
  marked = ground arith;
  distinct = ground arith;
  busy = ground arith;
}

drawn-IsActionList : (s : ActionList) → IsActionList s → IsActionList (drawn s)
unfolding drawn
drawn-IsActionList s v = record {
  in_range = v.in_range;
  marked = v.marked;
  distinct = v.distinct;
  busy = v.busy;
}

act-IsActionList :
    (s : ActionList) (action : QueuedAction) (rest : List QueuedAction) (result : Result Text)
    → s.actions ≡ action ∷ rest
    → IsActionList s
    → IsActionList (record s { actions = rest; results = s.results ++ (action, result) ∷ [] })
act-IsActionList s action rest result e v =
    let t : ActionList = record s {
      actions = rest;
      results = s.results ++ (action, result) ∷ [];
    } in
    let same : under_way t ≡ under_way s = rw e (simp (map-append, append_assoc)) in
    record {
      in_range = v.in_range;
      marked = v.marked ∙ sym same;
      distinct = subst Distinct (sym same) v.distinct;
      busy = v.busy;
    }

-- What a key may lead to.
abbrev IsFine : Next → Type 0
IsFine (goes_on t) = IsActionList t
IsFine quits = Unit
IsFine waits = Unit
IsFine panics = ⊥

activate-IsFine : (sent : Bool) (s : ActionList) → IsActionList s → IsFine (activate sent s)
unfolding activate
activate-IsFine sent s v = elim (Bool-cases (length s.items == 0)) [
  | inl e ↦ rw (e, activate) v
  | inr e ↦
      let (item, there) = get_elem?-in s.items s.selected (ground (arith, e, v.in_range)) in
      rw (e, there, activate)
        (elim (Bool-cases (any (text_eq item.id) (pending_ids s.post_action_processing))) [
          | inl old ↦ rw (old, activate) v
          | inr new ↦ rw (new, activate) (queued item new sent)
        ])
]
  where
    queued :
        (item : TuiItem)
        → any (text_eq item.id) (pending_ids s.post_action_processing) ≡ false
        → (b : Bool) → IsActionList (if b then queue_action item s else s)
    queued item new true = queue_action-IsActionList item s new v
    queued item new false = v

on_cancel-IsFine :
    (o : Option (Text × ℕ)) (s : ActionList)
    → ((text : Text) (n : ℕ) → o ≡ some (text, n) → n ≤ length s.items - 1)
    → IsActionList s
    → IsFine (on_cancel o s)
unfolding on_cancel
on_cancel-IsFine none s h v = tt
on_cancel-IsFine (some (text, n)) s h v = elim (Bool-cases (starts_with error_prefix text)) [
  | inl e ↦
      rw e (record {
        in_range = h text n refl;
        marked = v.marked;
        distinct = v.distinct;
        busy = v.busy;
      })
  | inr e ↦ rw e tt
]

move_to-Keeps : (n : ℕ) (s : ActionList) → n ≤ length s.items - 1 → Keeps s (move_to n s)
unfolding move_to
move_to-Keeps n s h = ground arith

on_action-IsFine :
    (sent : Bool) (rounds : List (List Event × Received)) (a : ListKeyAction) (s : ActionList)
    → IsActionList s
    → IsFine (on_action sent rounds a s)
unfolding on_action
on_action-IsFine sent rounds ListKeyAction.up s v =
    Keeps-IsActionList s _
      (move_to-Keeps _ s (next_index-le s.selected (length s.items) SelectionAction.up v.in_range))
      v
on_action-IsFine sent rounds ListKeyAction.down s v =
    Keeps-IsActionList s _
      (move_to-Keeps _ s
        (next_index-le s.selected (length s.items) SelectionAction.down v.in_range))
      v
on_action-IsFine sent rounds ListKeyAction.activate s v = activate-IsFine sent s v
on_action-IsFine sent rounds ListKeyAction.background s v = tt
on_action-IsFine sent rounds ListKeyAction.cancel s v =
    on_cancel-IsFine (run_with_spinner (length s.items) rounds s.selected) s
      (λ text n e. run_with_spinner-le (length s.items) rounds s.selected text n e v.in_range) v

on_event-IsFine :
    (sent : Bool) (rounds : List (List Event × Received)) (e : Event) (s : ActionList)
    → IsActionList s
    → IsFine (on_event sent rounds e s)
unfolding on_event
on_event-IsFine sent rounds e s v = elim (Option-cases (list_key_action e)) [
  | inl n ↦ rw (n, on_event) v
  | inr (a, h) ↦ rw (h, on_event) (on_action-IsFine sent rounds a s v)
]

Step-IsActionList : {s t : ActionList} → Step s t → IsActionList s → IsActionList t
Step-IsActionList (act s action rest result e) v = act-IsActionList s action rest result e v
Step-IsActionList (load s seq rest result e) v = record {
  in_range = v.in_range;
  marked = v.marked;
  distinct = v.distinct;
  busy = v.busy;
}
Step-IsActionList (take_result s action result rest sent e) v =
    take_result-IsActionList s action result rest sent e v
Step-IsActionList (take_items s seq result rest e) v =
    Keeps-IsActionList (record s { loads = rest }) _
      (on_items-Keeps seq result (record s { loads = rest }))
      (record { in_range = v.in_range; marked = v.marked; distinct = v.distinct; busy = v.busy })
Step-IsActionList (turn s elapsed) v =
    spin-IsActionList elapsed _ (Keeps-IsActionList s _ (settle-Keeps s) v)
Step-IsActionList (draw s) v = drawn-IsActionList s v
Step-IsActionList (idle s elapsed sent) v =
    Keeps-IsActionList s _ (on_timeout-Keeps elapsed sent s) v
Step-IsActionList (press s t sent rounds e q) v = subst IsFine q (on_event-IsFine sent rounds e s v)

Runs-valid :
    (items : List TuiItem) (n : ℕ) (s : ActionList) → Runs (start items) n s → IsActionList s
Runs-valid items zero s here = start-IsActionList items
Runs-valid items (suc n) s (next r t) = Step-IsActionList t (Runs-valid items n _ r)

-- In every run the selected index is in the list, or 0 where that is empty, the ids marked as
-- processing are those of the actions sent and not taken back, in the order in which they were sent
-- and each once, and no event makes the loop panic.
pub Runs-IsActionList :
    (items : List TuiItem) (n : ℕ) (s : ActionList) (sent : Bool)
    (rounds : List (List Event × Received)) (e : Event)
    → Runs (start items) n s
    → IsActionList s × (on_event sent rounds e s ≢ panics)
Runs-IsActionList items n s sent rounds e r =
    let v = Runs-valid items n s r in (v, λ p. subst IsFine p (on_event-IsFine sent rounds e s v))
