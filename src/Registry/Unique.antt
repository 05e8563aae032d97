-- ===== src/Registry/Unique.antt =====
-- Lists of devices by bus id: which ids a list holds, and lists that hold no id twice.
use lusbip.Base.{
  ◌≡◌, refl, ◌∙◌, Bool, true, false, not, ◌&&◌, ◌||◌, All, List, [], ◌∷◌, ◌++◌, none, some, Text,
  text_eq, text_eq_iff, text_eq_refl, Bool-cases, inl, inr, any, retain, find, find-some,
  remove_first, arith,
}
use lusbip.Device.Codes.{UsbDevice}
use lusbip.Registry.Defs.{has_bus_id, push_new, reclaim, dedup_from, unique_devices_by_bus_id}

any_self : (b : Text) (seen : List Text) → any (text_eq b) (b ∷ seen) ≡ true
unfolding any
any_self b seen = ground (arith, text_eq_iff b b)

module _ {D I : Type 0} where
  abbrev pub holds : Text → List (UsbDevice D I) → Bool
  holds bus_id ds = any (has_bus_id bus_id) ds

  -- No bus id stands twice in the list.
  abbrev pub Distinct : List (UsbDevice D I) → Type 0
  Distinct [] = Unit
  Distinct (d ∷ ds) = (holds d.bus_id ds ≡ false) × Distinct ds

  pub holds-append :
      (b : Text) (xs ys : List (UsbDevice D I)) → holds b (xs ++ ys) ≡ (holds b xs || holds b ys)
  unfolding any
  holds-append b [] ys = refl
  holds-append b (x ∷ xs) ys = ground (arith, holds-append b xs ys)

  pub holds-push_new :
      (b : Text) (d : UsbDevice D I) (v : List (UsbDevice D I))
      → holds b (push_new d v) ≡ (holds b v || text_eq d.bus_id b)
  unfolding push_new
  holds-push_new b d v =
      unfold any in ground (arith, holds-append b v (d ∷ []), text_eq_iff d.bus_id b)

  pub holds-retain :
      (b : Text) (p : UsbDevice D I → Bool) (v : List (UsbDevice D I))
      → holds b v ≡ false
      → holds b (retain p v) ≡ false
  unfolding any retain
  holds-retain b p [] h = refl
  holds-retain b p (x ∷ xs) h = ground (arith, holds-retain b p xs)

  pub holds-retain_ne :
      (b c : Text) (v : List (UsbDevice D I))
      → holds b (retain (λ d. not (text_eq d.bus_id c)) v) ≡ (holds b v && not (text_eq c b))
  unfolding any retain
  holds-retain_ne b c [] = refl
  holds-retain_ne b c (x ∷ xs) = ground (
    arith,
    holds-retain_ne b c xs,
    text_eq_iff x.bus_id c,
    text_eq_iff x.bus_id b,
    text_eq_iff c b,
  )

  pub retain-Distinct :
      (p : UsbDevice D I → Bool) (v : List (UsbDevice D I)) → Distinct v → Distinct (retain p v)
  unfolding retain
  retain-Distinct p [] h = tt
  retain-Distinct p (x ∷ xs) h = ground (arith, retain-Distinct p xs, holds-retain x.bus_id p xs)

  pub append-Distinct :
      (v : List (UsbDevice D I)) (d : UsbDevice D I)
      → Distinct v
      → holds d.bus_id v ≡ false
      → Distinct (v ++ d ∷ [])
  unfolding any
  append-Distinct [] d h n = (refl, tt)
  append-Distinct (x ∷ xs) d h n = ground (
    arith,
    append-Distinct xs d,
    holds-append x.bus_id xs (d ∷ []),
    text_eq_iff x.bus_id d.bus_id,
    text_eq_iff d.bus_id x.bus_id,
  )

  -- Two lists without a common id.
  pub appends-Distinct :
      (v new : List (UsbDevice D I))
      → Distinct v
      → Distinct new
      → ((b : Text) → holds b new ≡ true → holds b v ≡ false)
      → Distinct (v ++ new)
  unfolding any
  appends-Distinct [] new h k apart = k
  appends-Distinct (x ∷ xs) new h k apart =
      let own : holds x.bus_id (x ∷ xs) ≡ true = ground (arith, text_eq_refl x.bus_id) in
      let others : (b : Text) → holds b new ≡ true → holds b xs ≡ false =
        λ b q. let a = apart b q in ground arith in
      let n : holds x.bus_id new ≡ false = elim (Bool-cases (holds x.bus_id new)) [
        | inl e ↦ absurd (cc (apart x.bus_id e, own))
        | inr e ↦ e
      ] in
      (holds-append x.bus_id xs new ∙ rw (h.0, n) refl, appends-Distinct xs new h.1 k others)

  pub push_new-Distinct :
      (d : UsbDevice D I) (v : List (UsbDevice D I)) → Distinct v → Distinct (push_new d v)
  unfolding push_new
  push_new-Distinct d v h = ground (arith, append-Distinct v d h)

  holds-remove_le :
      (b c : Text) (v : List (UsbDevice D I))
      → holds b v ≡ false
      → holds b (remove_first (has_bus_id c) v) ≡ false
  unfolding any remove_first
  holds-remove_le b c [] h = refl
  holds-remove_le b c (x ∷ xs) h = ground (arith, holds-remove_le b c xs)

  pub holds-remove_first :
      (b c : Text) (v : List (UsbDevice D I))
      → Distinct v
      → holds b (remove_first (has_bus_id c) v) ≡ (holds b v && not (text_eq c b))
  unfolding any remove_first
  holds-remove_first b c [] h = refl
  holds-remove_first b c (x ∷ xs) h = ground (
    arith,
    holds-remove_first b c xs h.1,
    text_eq_iff x.bus_id c,
    text_eq_iff x.bus_id b,
    text_eq_iff c b,
  )

  pub remove_first-Distinct :
      (c : Text) (v : List (UsbDevice D I)) → Distinct v → Distinct (remove_first (has_bus_id c) v)
  unfolding remove_first
  remove_first-Distinct c [] h = tt
  remove_first-Distinct c (x ∷ xs) h =
      ground (arith, remove_first-Distinct c xs h.1, holds-remove_le x.bus_id c xs)

  -- What `find` finds has the id, and it finds one where the list holds the id.
  pub find_bus_id :
      (c : Text) (v : List (UsbDevice D I)) (d : UsbDevice D I)
      → find (has_bus_id c) v ≡ some d
      → (d.bus_id ≡ c) × (holds c v ≡ true)
  find_bus_id c v d h =
      let found = find-some (has_bus_id c) v d h in ((text_eq_iff d.bus_id c).0 found.0, found.1)

  pub find-none :
      (c : Text) (v : List (UsbDevice D I)) → holds c v ≡ false → find (has_bus_id c) v ≡ none
  unfolding find any
  find-none c [] h = refl
  find-none c (x ∷ xs) h = ground (arith, find-none c xs)

  unseen :
      (b : Text) (seen : List Text) (ds : List (UsbDevice D I))
      → holds b ds ≡ false
      → All (λ d. any (text_eq d.bus_id) seen ≡ false) ds
      → All (λ d. any (text_eq d.bus_id) (b ∷ seen) ≡ false) ds
  unfolding any
  unseen b seen [] h n = tt
  unseen b seen (d ∷ ds) h n = ground (arith, unseen b seen ds, n.0, n.1, text_eq_iff d.bus_id b)

  -- The first devices of each id: those ids that were not seen before, each once.
  holds-dedup_from :
      (b : Text) (seen : List Text) (ds : List (UsbDevice D I))
      → holds b (dedup_from seen ds) ≡ (holds b ds && not (any (text_eq b) seen))
  unfolding dedup_from any
  holds-dedup_from b seen [] = refl
  holds-dedup_from b seen (d ∷ ds) = ground (
    arith,
    holds-dedup_from b seen ds,
    holds-dedup_from b (d.bus_id ∷ seen) ds,
    text_eq_iff d.bus_id b,
    text_eq_iff b d.bus_id,
  )

  dedup_from-Distinct :
      (seen : List Text) (ds : List (UsbDevice D I)) → Distinct (dedup_from seen ds)
  unfolding dedup_from
  dedup_from-Distinct seen [] = tt
  dedup_from-Distinct seen (d ∷ ds) = ground (
    arith,
    dedup_from-Distinct seen ds,
    dedup_from-Distinct (d.bus_id ∷ seen) ds,
    holds-dedup_from d.bus_id (d.bus_id ∷ seen) ds,
    any_self d.bus_id seen,
  )

  pub unique-Distinct : (ds : List (UsbDevice D I)) → Distinct (unique_devices_by_bus_id ds)
  unfolding unique_devices_by_bus_id
  unique-Distinct ds = dedup_from-Distinct [] ds

  pub holds_unique :
      (b : Text) (ds : List (UsbDevice D I)) → holds b (unique_devices_by_bus_id ds) ≡ holds b ds
  unfolding unique_devices_by_bus_id
  holds_unique b ds = unfold any in ground (arith, holds-dedup_from b [] ds)

  -- A list that holds no id twice is left as it is.
  dedup_from-id :
      (seen : List Text) (ds : List (UsbDevice D I))
      → Distinct ds
      → All (λ d. any (text_eq d.bus_id) seen ≡ false) ds
      → dedup_from seen ds ≡ ds
  unfolding dedup_from
  dedup_from-id seen [] h n = refl
  dedup_from-id seen (d ∷ ds) h n =
      ground (arith, dedup_from-id (d.bus_id ∷ seen) ds h.1 (unseen d.bus_id seen ds h.0 n.1))

  pub holds-reclaim :
      (b : Text) (ud ad : List (UsbDevice D I))
      → holds b (reclaim ud ad) ≡ (holds b ad || holds b ud)
  unfolding reclaim any
  holds-reclaim b [] ad = ground arith
  holds-reclaim b (d ∷ ud) ad =
      ground (arith, holds-reclaim b ud (push_new d ad), holds-push_new b d ad)

  pub reclaim-Distinct : (ud ad : List (UsbDevice D I)) → Distinct ad → Distinct (reclaim ud ad)
  unfolding reclaim
  reclaim-Distinct [] ad h = h
  reclaim-Distinct (d ∷ ud) ad h = reclaim-Distinct ud (push_new d ad) (push_new-Distinct d ad h)
