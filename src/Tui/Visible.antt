-- ===== src/Tui/Visible.antt =====
-- The selected item on the frames of src/tui.rs.
use lusbip.Base.{
  ℕ, zero, suc, ◌+◌, ◌-◌, ◌≡◌, ◌≤◌, ◌<◌, refl, ap, ◌∙◌, List, [], ◌∷◌, ◌++◌, some, get_elem?, take,
  drop, max, arith,
}
use lusbip.Agent.Control.{TuiItem}
use lusbip.Tui.Frame.{
  View, list_height, first_visible, item_line, item_lines, list_lines, draw_items,
}

get_elem?-item_lines :
    (v : View) (inner_width index n : ℕ) (items : List TuiItem) (item : TuiItem)
    → get_elem? items n ≡ some item
    → get_elem? (item_lines v inner_width index items) n
      ≡ some (item_line v inner_width (index + n) item)
unfolding item_lines
get_elem?-item_lines v inner_width index n [] item h = absurd (cc h)
get_elem?-item_lines v inner_width index zero (x ∷ items) item h =
    let k : index ≡ index + 0 = omega arith in
    ground (arith, ap (λ k. item_line v inner_width k x) k)
get_elem?-item_lines v inner_width index (suc n) (x ∷ items) item h =
    get_elem?-item_lines v inner_width (suc index) n items item h
    ∙ ap (λ k. some (item_line v inner_width k item)) (omega arith)

get_elem?-append {ℓ} :
    {A : Type ℓ} (xs ys : List A) (n : ℕ) (a : A)
    → get_elem? xs n ≡ some a
    → get_elem? (xs ++ ys) n ≡ some a
get_elem?-append [] ys n a h = absurd (cc h)
get_elem?-append (x ∷ xs) ys zero a h = h
get_elem?-append (x ∷ xs) ys (suc n) a h = get_elem?-append xs ys n a h

shifted : (k n : ℕ) → suc (k + n) ≡ suc k + n
shifted k n = omega arith

get_elem?-drop {ℓ} :
    {A : Type ℓ} (k n : ℕ) (xs : List A) → get_elem? (drop k xs) n ≡ get_elem? xs (k + n)
get_elem?-drop zero n xs = ap (get_elem? xs) (omega arith)
get_elem?-drop (suc k) n [] = refl
get_elem?-drop (suc k) n (x ∷ xs) = get_elem?-drop k n xs ∙ ap (get_elem? (x ∷ xs)) (shifted k n)

get_elem?-take {ℓ} :
    {A : Type ℓ} (k n : ℕ) (xs : List A) → n < k → get_elem? (take k xs) n ≡ get_elem? xs n
get_elem?-take zero n xs h = absurd (omega arith)
get_elem?-take (suc k) n [] h = refl
get_elem?-take (suc k) zero (x ∷ xs) h = refl
get_elem?-take (suc k) (suc n) (x ∷ xs) h = get_elem?-take k n xs (omega arith)

first_visible_lem :
    (selected height : ℕ)
    → 1 ≤ height
    → (first_visible selected height ≤ selected)
      × (selected - first_visible selected height < height)
unfolding first_visible
first_visible_lem selected height h = ground arith

-- The selected item stands among the lines of the list, below the first three of the frame, with its
-- marker.
pub draw_items_shows_selected :
    (cols rows : ℕ) (v : View) (items : List TuiItem) (item : TuiItem)
    → get_elem? items v.selected ≡ some item
    → let n = v.selected - first_visible v.selected (list_height rows) in
      (n < list_height rows)
      × (get_elem? (draw_items cols rows v items) (3 + n)
          ≡ some (item_line v (max cols 4 - 2) v.selected item))
unfolding draw_items list_lines list_height
draw_items_shows_selected cols rows v items item h =
    let width = max cols 4 in
    let height = max (rows - 7) 1 in
    let start = first_visible v.selected height in
    let n = v.selected - start in
    let bounds = first_visible_lem v.selected height (omega arith) in
    let visible = take height (drop start items) in
    let e : start + n ≡ v.selected = omega (arith, bounds) in
    let there : get_elem? visible n ≡ some item =
      get_elem?-take height n (drop start items) bounds.1
      ∙ get_elem?-drop start n items
      ∙ ap (get_elem? items) e
      ∙ h in
    let three : 3 + n ≡ suc (suc (suc n)) = omega arith in
    (
      bounds.1,
      rw three (
          get_elem?-append _ _ n _ (
            get_elem?-append (item_lines v (width - 2) start visible) _ n _ (
              get_elem?-item_lines v (width - 2) start n visible item there
              ∙ ap (λ k. some (item_line v (width - 2) k item)) e))),
    )
