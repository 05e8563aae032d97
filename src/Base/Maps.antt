-- ===== src/Base/Maps.antt =====
-- Hash maps as association lists and hash sets as lists, with what `insert`, `remove` and `get` do.
use Prim.Native.Nat.{ℕ}
use mathlib.Core.Path.{◌≡◌, refl}
use mathlib.Core.Bool.{Bool, true, false, ◌||◌}
use mathlib.Core.List.{List, [], ◌∷◌}
use mathlib.Core.Option.{Option, none, some}
use native.Mathlib.Omega.{arith}
use lusbip.Base.Tests.{◌==◌, if◌then◌else◌}

module _ {ℓ} {V : Type ℓ} where
  unfoldable pub lookup : ℕ → List (ℕ × V) → Option V
  lookup key ((i, value) ∷ rest) = if i == key then some value else lookup key rest
  lookup key [] = none

  unfoldable pub insert : ℕ → V → List (ℕ × V) → List (ℕ × V)
  insert key value ((i, old) ∷ rest) =
      if i == key then (key, value) ∷ rest else (i, old) ∷ insert key value rest
  insert key value [] = (key, value) ∷ []

  unfoldable pub remove : ℕ → List (ℕ × V) → List (ℕ × V)
  remove key ((i, value) ∷ rest) =
      let others = remove key rest in if i == key then others else (i, value) ∷ others
  remove key [] = []

  pub lookup-insert :
      (key other : ℕ) (value : V) (entries : List (ℕ × V))
      → lookup other (insert key value entries)
        ≡ (if key == other then some value else lookup other entries)
  unfolding lookup insert
  lookup-insert key other value ((i, old) ∷ rest) =
      ground (arith, lookup-insert key other value rest)
  lookup-insert key other value [] = refl

  pub lookup-remove :
      (k j : ℕ) (m : List (ℕ × V)) → lookup j (remove k m) ≡ (if k == j then none else lookup j m)
  unfolding lookup remove
  lookup-remove k j [] = ground arith
  lookup-remove k j ((i, w) ∷ m) = ground (arith, lookup-remove k j m)

unfoldable pub contains : ℕ → List ℕ → Bool
contains k [] = false
contains k (j ∷ s) = j == k || contains k s

-- `HashSet::insert`.
unfoldable pub add : ℕ → List ℕ → List ℕ
add k s = if contains k s then s else k ∷ s

-- `HashSet::remove`, without its answer, which is `contains`.
unfoldable pub discard : ℕ → List ℕ → List ℕ
discard k [] = []
discard k (j ∷ s) = let rest = discard k s in if j == k then rest else j ∷ rest

pub contains-add : (k j : ℕ) (s : List ℕ) → contains j (add k s) ≡ (k == j || contains j s)
unfolding contains add
contains-add k j s = ground (arith, contains_at k j s)
  where
    contains_at : (k j : ℕ) (s : List ℕ) → contains k s ≡ true → k ≡ j → contains j s ≡ true
    contains_at k j s h e = ground arith

pub contains-discard :
    (k j : ℕ) (s : List ℕ) → contains j (discard k s) ≡ (if k == j then false else contains j s)
unfolding contains discard
contains-discard k j [] = ground arith
contains-discard k j (i ∷ s) = ground (arith, contains-discard k j s)
