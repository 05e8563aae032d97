-- ===== src/Tui/Stale.antt =====
-- Loads of src/tui.rs that were asked for before an action was done.
use lusbip.Base.{ℕ, ◌≡◌, ◌≤◌, true, List, ◌++◌, map, Text, All}
use lusbip.Tui.Refresh.{Result, ActionList, QueuedAction, finish, outcome}

-- The numbers of the loads that are asked for and not taken.
abbrev pub asked : ActionList → List ℕ
asked s = s.refreshes ++ map (λ l. l.0) s.loads

abbrev AtMost : ℕ → List ℕ → Type 0
AtMost m ns = All (λ n. n ≤ m) ns

-- The number of the last load, after a number of steps.
record IsFresh (n : ℕ) (s : ActionList) : Type 0 where
  counted : s.refresh_seq ≤ n
  refreshes_asked : AtMost s.refresh_seq s.refreshes
  loads_asked : AtMost s.refresh_seq (map (λ l. l.0) s.loads)

-- What an action list with the same loads has.
record SameLoads (s t : ActionList) : Type 0 where
  same_seq : t.refresh_seq ≡ s.refresh_seq
  same_refreshes : t.refreshes ≡ s.refreshes
  same_loads : t.loads ≡ s.loads

-- The state before the refresh that an action's result asks for.
abbrev before_outcome : QueuedAction → List (QueuedAction × Result Text) → ActionList → ActionList
before_outcome action rest s = record s {
  results = rest;
  post_action_processing = finish action.item.id s.post_action_processing;
  dirty = true;
}

abbrev taken :
    QueuedAction → Result Text → List (QueuedAction × Result Text) → ActionList → ActionList
taken action result rest s = outcome action result (before_outcome action rest s)
