-- ===== src/Bulk/InOrder.antt =====
-- What becomes of each request to `run_bulk_in_worker` of src/usbip_server/mod.rs.
use lusbip.Base.{
  ℕ, ◌+◌, ◌≡◌, List, [], ◌∷◌, ◌++◌, ◌==◌, if◌then◌else◌, contains, Bool-cases, inl, inr, arith,
}
use lusbip.Bulk.Pending.{unlink, count}
use lusbip.Bulk.InWorker.{BulkInCommand, submit, unlink_command, BulkInWorker, initial, on_command}
use lusbip.Bulk.InTrace.{Step, orphan, barrier, interrupted, completed, commanded, idle}

-- `xs` is what is left of `ys` when some of its members are taken out.
pub data Sub : List ℕ → List ℕ → Type 0 where
  done : Sub [] []
  keep : {xs ys : List ℕ} (x : ℕ) → Sub xs ys → Sub (x ∷ xs) (x ∷ ys)
  skip : {xs ys : List ℕ} (y : ℕ) → Sub xs ys → Sub xs (y ∷ ys)

pub Sub-refl : (xs : List ℕ) → Sub xs xs
Sub-refl [] = done
Sub-refl (x ∷ xs) = keep x (Sub-refl xs)

pub Sub-trans : {xs ys zs : List ℕ} → Sub xs ys → Sub ys zs → Sub xs zs
Sub-trans s done = s
Sub-trans (keep _ s) (keep x t) = keep x (Sub-trans s t)
Sub-trans (skip _ s) (keep x t) = skip x (Sub-trans s t)
Sub-trans s (skip y t) = skip y (Sub-trans s t)

pub Sub-append : (xs : List ℕ) {ys zs : List ℕ} → Sub ys zs → Sub (xs ++ ys) (xs ++ zs)
Sub-append [] s = s
Sub-append (x ∷ xs) s = keep x (Sub-append xs s)

pub Sub-widen : {xs ys : List ℕ} (zs : List ℕ) → Sub xs ys → Sub (xs ++ zs) (ys ++ zs)
Sub-widen zs done = Sub-refl zs
Sub-widen zs (keep x r) = keep x (Sub-widen zs r)
Sub-widen zs (skip y r) = skip y (Sub-widen zs r)

pub unlink-Sub : (ss : List ℕ) (k : ℕ) → Sub (unlink ss k) ss
unfolding unlink
unlink-Sub [] k = done
unlink-Sub (s ∷ ss) k = elim (Bool-cases (s == k)) [
  | inl e ↦ rw e (skip s (Sub-refl ss))
  | inr e ↦ rw e (keep s (unlink-Sub ss k))
]

pub count-append : (k : ℕ) (xs ys : List ℕ) → count k (xs ++ ys) ≡ count k xs + count k ys
unfolding count
count-append k [] ys = omega arith
count-append k (x ∷ xs) ys = ground (arith, count-append k xs ys)

-- The requests that a command brings, and the pending ones that it withdraws.
abbrev pub brings : BulkInCommand → List ℕ
brings (submit request) = request.header.seqnum ∷ []
brings (unlink_command seqnum) = []

abbrev pub withdraws : BulkInCommand → BulkInWorker → List ℕ
withdraws (submit request) w = []
withdraws (unlink_command seqnum) w = if contains seqnum w.pending then seqnum ∷ [] else []

abbrev pub all_brings : List BulkInCommand → List ℕ
all_brings [] = []
all_brings (c ∷ cs) = brings c ++ all_brings cs

abbrev pub all_withdraws : List BulkInCommand → BulkInWorker → List ℕ
all_withdraws [] w = []
all_withdraws (c ∷ cs) w = withdraws c w ++ all_withdraws cs (on_command c w)

-- A worker with the requests that came in and those withdrawn while pending, in order.
pub record Run : Type 0 where
  pub worker : BulkInWorker
  pub submitted : List ℕ
  pub withdrawn : List ℕ

abbrev pub step_brings : {mps : ℕ} {w t : BulkInWorker} → Step mps w t → List ℕ
step_brings (orphan s _ _ _) = []
step_brings (barrier s r passed drained _ _ _ _) = all_brings drained
step_brings (interrupted c _ _ _) = brings c
step_brings (completed c _) = []
step_brings (commanded c _ _) = brings c
step_brings (idle c _ _ _) = brings c

abbrev pub step_withdraws : {mps : ℕ} {w t : BulkInWorker} → Step mps w t → List ℕ
step_withdraws (orphan s _ _ _) = []
step_withdraws {w = w} (barrier s r passed drained _ _ _ _) = all_withdraws drained w
step_withdraws {w = w} (interrupted c _ _ _) = withdraws c w
step_withdraws (completed c _) = []
step_withdraws {w = w} (commanded c _ _) = withdraws c w
step_withdraws {w = w} (idle c _ _ _) = withdraws c w

-- Runs from the start, for endpoints with packets of `mps` bytes.
pub data Runs (mps : ℕ) : Run → Type 0 where
  start : Runs mps (record { worker = initial; submitted = []; withdrawn = [] })
  step :
      {x : Run} {t : BulkInWorker}
      → Runs mps x
      → (st : Step mps x.worker t)
      → Runs mps (record {
        worker = t;
        submitted = x.submitted ++ step_brings st;
        withdrawn = x.withdrawn ++ step_withdraws st;
      })
