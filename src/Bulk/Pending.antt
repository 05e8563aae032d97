-- ===== src/Bulk/Pending.antt =====
-- The bookkeeping of src/usbip_server/mod.rs for requests that are under way.
use lusbip.Base.{
  ℕ, ◌+◌, ◌<◌, ◌≡◌, refl, Bool, true, false, not, ◌&&◌, ◌||◌, List, [], ◌∷◌, ◌++◌, Option, none,
  some, ◌==◌, if◌then◌else◌, contains, discard, arith,
}
use lusbip.Device.Codes.{attributes_code, bulk}

-- `PendingBulkIn`: sequence numbers in the order of their submission.
unfoldable pub push : List ℕ → ℕ → List ℕ
push seqnums seqnum = seqnums ++ seqnum ∷ []

unfoldable pub next : List ℕ → Option ℕ
next [] = none
next (s ∷ ss) = some s

unfoldable pub is_empty : List ℕ → Bool
is_empty [] = true
is_empty (s ∷ ss) = false

-- `unlink` removes the first occurrence; its answer is `contains`.
unfoldable pub unlink : List ℕ → ℕ → List ℕ
unlink [] seqnum = []
unlink (s ∷ ss) seqnum = if s == seqnum then ss else s ∷ unlink ss seqnum

unfoldable pub should_submit_bulk_in_after_barrier : List ℕ → ℕ → Bool
should_submit_bulk_in_after_barrier [] seqnum = false
should_submit_bulk_in_after_barrier (s ∷ ss) seqnum = s == seqnum

unfoldable pub requires_bulk_out_control_barrier : ℕ → Bool
requires_bulk_out_control_barrier real_ep = real_ep == 0 || real_ep == 0x80

unfoldable pub uses_bulk_out_worker : ℕ → ℕ → Bool
uses_bulk_out_worker endpoint_attributes direction =
    endpoint_attributes == attributes_code bulk && direction == 0

unfoldable pub should_write_bulk_out_response : ℕ → ℕ → Bool
should_write_bulk_out_response active_generation event_generation =
    active_generation == event_generation

-- The answer, and the set of cancelled requests after it.
unfoldable pub should_write_bulk_in_response : List ℕ → ℕ → Bool × List ℕ
should_write_bulk_in_response cancelled seqnum =
    (not (contains seqnum cancelled), discard seqnum cancelled)

unfoldable pub count : ℕ → List ℕ → ℕ
count k [] = 0
count k (s ∷ ss) = (if s == k then 1 else 0) + count k ss

pub count-push :
    (k s : ℕ) (ss : List ℕ) → count k (push ss s) ≡ count k ss + (if s == k then 1 else 0)
unfolding count push
count-push k s [] = ground arith
count-push k s (x ∷ xs) = ground (arith, count-push k s xs)

-- An unlink takes out one occurrence of its request, if there is one, and of no other.
pub count-unlink :
    (k s : ℕ) (ss : List ℕ)
    → count k ss ≡ count k (unlink ss s) + (if contains s ss && s == k then 1 else 0)
unfolding count unlink contains
count-unlink k s [] = ground arith
count-unlink k s (x ∷ xs) = ground (arith, count-unlink k s xs)

pub count-zero : (k : ℕ) (ss : List ℕ) → contains k ss ≡ false → count k ss ≡ 0
unfolding count contains
count-zero k [] h = refl
count-zero k (x ∷ xs) h = ground (arith, count-zero k xs)

-- A list holds a number exactly when it counts it.
pub contains-count :
    (k : ℕ) (ss : List ℕ) → contains k ss ≡ (if count k ss == 0 then false else true)
unfolding contains count
contains-count k [] = refl
contains-count k (x ∷ xs) = ground (arith, contains-count k xs)

pub count-next :
    (s : ℕ) (ss : List ℕ) → should_submit_bulk_in_after_barrier ss s ≡ true → 0 < count s ss
unfolding should_submit_bulk_in_after_barrier count
count-next s [] h = absurd (cc h)
count-next s (x ∷ xs) h = ground arith

pub next-should_submit :
    (s : ℕ) (ss : List ℕ) → next ss ≡ some s → should_submit_bulk_in_after_barrier ss s ≡ true
unfolding should_submit_bulk_in_after_barrier next
next-should_submit s [] h = absurd (cc h)
next-should_submit s (x ∷ xs) h = ground arith

-- What is pushed behind the first request leaves it first; an unlink of another one does too.
pub should_submit-push :
    (s k : ℕ) (ss : List ℕ)
    → should_submit_bulk_in_after_barrier ss s ≡ true
    → should_submit_bulk_in_after_barrier (push ss k) s ≡ true
unfolding should_submit_bulk_in_after_barrier push
should_submit-push s k [] h = absurd (cc h)
should_submit-push s k (x ∷ xs) h = h

pub should_submit-unlink :
    (s k : ℕ) (ss : List ℕ)
    → should_submit_bulk_in_after_barrier ss s ≡ true
    → (k == s) ≡ false
    → should_submit_bulk_in_after_barrier (unlink ss k) s ≡ true
unfolding should_submit_bulk_in_after_barrier unlink
should_submit-unlink s k [] h n = absurd (cc h)
should_submit-unlink s k (x ∷ xs) h n = ground arith
