-- ===== src/Tui/Steps.antt =====
-- The steps of the loop of src/tui.rs and of its two threads, in every order, and what holds between them.
use lusbip.Base.{ℕ, suc, ◌-◌, ◌≡◌, ◌≤◌, refl, Bool, List, [], ◌∷◌, ◌++◌, Text, length, arith}
use lusbip.Agent.Control.{TuiItem}
use lusbip.Tui.Keys.{Event}
use lusbip.Tui.Refresh.{
  Result, ActionList, QueuedAction, start, pending_ids, on_action_result, on_items,
}
use lusbip.Tui.Loop.{Received, goes_on, settle, spin, drawn, on_timeout, on_event}
use lusbip.Tui.Pending.{Distinct, IsBusy, under_way}

-- What a thread has done, what the loop takes from a channel, and the rest of a round.
pub data Step : ActionList → ActionList → Type 0 where
  act :
      (s : ActionList) (action : QueuedAction) (rest : List QueuedAction) (result : Result Text)
      → s.actions ≡ action ∷ rest
      → Step s (record s { actions = rest; results = s.results ++ (action, result) ∷ [] })
  load :
      (s : ActionList) (seq : ℕ) (rest : List ℕ) (result : Result (List TuiItem))
      → s.refreshes ≡ seq ∷ rest
      → Step s (record s { refreshes = rest; loads = s.loads ++ (seq, result) ∷ [] })
  take_result :
      (s : ActionList) (action : QueuedAction) (result : Result Text)
      (rest : List (QueuedAction × Result Text)) (sent : Bool)
      → s.results ≡ (action, result) ∷ rest
      → Step s (on_action_result sent action result (record s { results = rest }))
  take_items :
      (s : ActionList) (seq : ℕ) (result : Result (List TuiItem))
      (rest : List (ℕ × Result (List TuiItem)))
      → s.loads ≡ (seq, result) ∷ rest
      → Step s (on_items seq result (record s { loads = rest }))
  turn : (s : ActionList) (elapsed : Bool) → Step s (spin elapsed (settle s))
  draw : (s : ActionList) → Step s (drawn s)
  idle : (s : ActionList) (elapsed sent : Bool) → Step s (on_timeout elapsed sent s)
  press :
      (s t : ActionList) (sent : Bool) (rounds : List (List Event × Received)) (e : Event)
      → on_event sent rounds e s ≡ goes_on t
      → Step s t

-- A run of a number of steps.
pub data Runs (s : ActionList) : ℕ → ActionList → Type 0 where
  here : Runs s 0 s
  next : {n : ℕ} {t u : ActionList} → Runs s n t → Step t u → Runs s (suc n) u

-- The selected index is in the list, and exactly the actions that are sent and not taken back are marked
-- as processing, each id once.
pub record IsActionList (s : ActionList) : Type 0 where
  pub in_range : s.selected ≤ length s.items - 1
  pub marked : pending_ids s.post_action_processing ≡ under_way s
  pub distinct : Distinct (under_way s)
  pub busy : IsBusy s.post_action_processing

pub start-IsActionList : (items : List TuiItem) → IsActionList (start items)
unfolding start pending_ids
start-IsActionList items = record {
  in_range = omega arith;
  marked = refl;
  distinct = tt;
  busy = tt;
}
