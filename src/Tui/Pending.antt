-- ===== src/Tui/Pending.antt =====
-- The ids of the actions under way, as src/tui.rs marks them and as its channels hold them.
use lusbip.Base.{
  ◌<◌, ◌≡◌, refl, ap, ◌∙◌, false, not, List, [], ◌∷◌, ◌++◌, map, Option, none, some, Text, text_eq,
  text_eq_refl, any, retain, length, length-append, arith,
}
use lusbip.Client.Shown.{text_eq_sym, any-append}
use lusbip.Tui.Refresh.{
  Result, ActionList, QueuedAction, ProcessingIndicator, pending_ids, with_ids, finish,
}
use lusbip.Tui.Loop.{start_processing}

-- No text stands twice.
abbrev pub Distinct : List Text → Type 0
Distinct [] = Unit
Distinct (id ∷ ids) = (any (text_eq id) ids ≡ false) × Distinct ids

-- Who is marked as processing has an id under way.
abbrev pub IsBusy : Option ProcessingIndicator → Type 0
IsBusy none = Unit
IsBusy (some processing) = 0 < length processing.ids

abbrev pub action_id : QueuedAction → Text
action_id action = action.item.id

abbrev pub answered_id : QueuedAction × Result Text → Text
answered_id (action, result) = action.item.id

-- The ids of the actions sent and not taken back, the oldest first.
abbrev pub under_way : ActionList → List Text
under_way s = map answered_id s.results ++ map action_id s.actions

pub with_ids_lem :
    (processing : ProcessingIndicator) (ids : List Text)
    → (pending_ids (with_ids processing ids) ≡ ids) × IsBusy (with_ids processing ids)
unfolding with_ids pending_ids
with_ids_lem processing [] = (refl, tt)
with_ids_lem processing (i ∷ ids) = (refl, omega arith)

retain-others :
    (id : Text) (ids : List Text)
    → any (text_eq id) ids ≡ false
    → retain (λ i. not (text_eq i id)) ids ≡ ids
unfolding any retain
retain-others id [] h = refl
retain-others id (i ∷ ids) h = ground (arith, text_eq_sym i id, retain-others id ids)

retain-oldest :
    (id : Text) (ids : List Text)
    → any (text_eq id) ids ≡ false
    → retain (λ i. not (text_eq i id)) (id ∷ ids) ≡ ids
unfolding retain
retain-oldest id ids h = rw (text_eq_refl id) (retain-others id ids h)

-- Taking out the oldest of distinct ids leaves the others.
pub finish-oldest :
    (id : Text) (ids : List Text) (o : Option ProcessingIndicator)
    → pending_ids o ≡ id ∷ ids
    → Distinct (id ∷ ids)
    → (pending_ids (finish id o) ≡ ids) × IsBusy (finish id o)
unfolding pending_ids finish
finish-oldest id ids none h d = absurd (cc h)
finish-oldest id ids (some processing) h d =
    let left = with_ids_lem processing (retain (λ i. not (text_eq i id)) processing.ids) in
    (left.0 ∙ ap (retain (λ i. not (text_eq i id))) h ∙ retain-oldest id ids d.0, left.1)

pub Distinct-append :
    (id : Text) (ids : List Text)
    → any (text_eq id) ids ≡ false
    → Distinct ids
    → Distinct (ids ++ id ∷ [])
unfolding any
Distinct-append id [] h d = (refl, tt)
Distinct-append id (i ∷ ids) h d = (
  ground (arith, any-append (text_eq i) ids (id ∷ []), text_eq_sym i id),
  Distinct-append id ids (ground arith) d.1,
)

pub start_processing_lem :
    (id : Text) (o : Option ProcessingIndicator)
    → (pending_ids (some (start_processing id o)) ≡ pending_ids o ++ id ∷ [])
      × IsBusy (some (start_processing id o))
unfolding pending_ids start_processing
start_processing_lem id none = (refl, omega arith)
start_processing_lem id (some processing) =
    (refl, omega (arith, length-append {0} processing.ids (id ∷ [])))
