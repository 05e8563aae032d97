-- ===== src/Tui/Items.antt =====
-- Which items src/tui.rs shows after a load.
use lusbip.Base.{
  ◌≡◌, refl, ap, ◌∙◌, true, not, ◌&&◌, ◌||◌, List, [], ◌∷◌, ◌++◌, Text, text_eq, text_eq_iff, any,
  retain, Bool-cases, inl, inr, arith,
}
use lusbip.Agent.Control.{TuiItem}
use lusbip.Client.Shown.{any-append}
use lusbip.Client.Selection.{has_id, merge_retained_items_lem}
use lusbip.Tui.Refresh.{ActionList, pending_ids, push_sticky, merged_items, kept_sticky, next_items}

has_id-same :
    (b : Text) (item : TuiItem) (items : List TuiItem)
    → has_id b item ≡ true
    → any (has_id item.id) items ≡ any (has_id b) items
has_id-same b item items h = ap (λ x. any (has_id x) items) ((text_eq_iff item.id b).0 h)

any-push_sticky :
    (b : Text) (shown sticky_items : List TuiItem)
    → any (has_id b) (push_sticky shown sticky_items)
      ≡ (any (has_id b) shown || any (has_id b) sticky_items)
unfolding push_sticky any
any-push_sticky b shown [] = ground arith
any-push_sticky b shown (sticky ∷ rest) = elim (Bool-cases (any (has_id sticky.id) shown)) [
  | inl e ↦ rw e (any-push_sticky b shown rest ∙ ground (arith, has_id-same b sticky shown))
  | inr e ↦ rw e (
      any-push_sticky b (shown ++ sticky ∷ []) rest
      ∙ ground (arith, any-append (has_id b) shown (sticky ∷ [])))
]

any-kept :
    (b : Text) (shown sticky_items : List TuiItem)
    → (any (has_id b) shown
        || any (has_id b) (retain (λ sticky. not (any (has_id sticky.id) shown)) sticky_items))
      ≡ (any (has_id b) shown || any (has_id b) sticky_items)
unfolding retain any
any-kept b shown [] = refl
any-kept b shown (sticky ∷ rest) = ground (arith, any-kept b shown rest, has_id-same b sticky shown)

-- After a load an id is shown exactly when it was loaded, or its action is under way and it was shown
-- before, or it sticks since its attachment.
pub next_items_lem :
    (b : Text) (loaded : List TuiItem) (s : ActionList)
    → any (has_id b) (next_items loaded s) ≡ (
        any (has_id b) loaded
        || (any (text_eq b) (pending_ids s.post_action_processing) && any (has_id b) s.items)
        || any (has_id b) s.sticky_items)
unfolding next_items merged_items kept_sticky
next_items_lem b loaded s = ground (
  arith,
  any-push_sticky b (merged_items loaded s) (kept_sticky loaded s),
  any-kept b (merged_items loaded s) s.sticky_items,
  merge_retained_items_lem b s.items loaded (pending_ids s.post_action_processing),
)
