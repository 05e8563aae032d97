-- ===== src/Bulk/InServed.antt =====
-- A bulk IN worker of src/usbip_server/mod.rs whose endpoint answers each read serves every request.
use lusbip.Base.{ℕ, ◌≡◌, true, false, List, [], ◌∷◌, ◌++◌, some, lookup}
use lusbip.Bulk.Pending.{next}
use lusbip.Bulk.InWorker.{BulkInRequest, BulkInWorker, Completion, on_barrier}
use lusbip.Bulk.InTrace.{answered, Step, barrier, completed}
use lusbip.Bulk.InOrder.{Run, step_brings, step_withdraws}

module _ (mps s : ℕ) (ss : List ℕ) (r : BulkInRequest) (c : Completion) (w : BulkInWorker)
    (leads : w.pending ≡ s ∷ ss) (known : lookup s w.requests ≡ some r) where
  abbrev read_of : BulkInWorker
  read_of = on_barrier mps s r.transfer_buffer_length true [] w

  record Served (t : BulkInWorker) : Type 0 where
    left : t.pending ≡ ss
    answers : answered t ≡ answered w ++ s ∷ []
    idle : t.read_pending ≡ false

-- A run after one more step.
abbrev pub after : {mps : ℕ} {t : BulkInWorker} (x : Run) → Step mps x.worker t → Run
after {t = t} x st = record {
  worker = t;
  submitted = x.submitted ++ step_brings st;
  withdrawn = x.withdrawn ++ step_withdraws st;
}

-- The run `y` goes on from `x` without commands: barriers pass, and the reads that they let begin
-- bring `cs`, in order.
pub data Onward (mps : ℕ) : Run → List Completion → Run → Type 0 where
  stays : {x : Run} → Onward mps x [] x
  begins :
      {x y : Run} {cs : List Completion} (s : ℕ) (r : BulkInRequest)
      (idle : x.worker.read_pending ≡ false) (first : next x.worker.pending ≡ some s)
      (known : lookup s x.worker.requests ≡ some r)
      → Onward mps (after {mps = mps} x (barrier s r true [] idle first known tt)) cs y
      → Onward mps x cs y
  brings_back :
      {x y : Run} {cs : List Completion} (c : Completion) (reading : x.worker.read_pending ≡ true)
      → Onward mps (after {mps = mps} x (completed c reading)) cs y
      → Onward mps x (c ∷ cs) y
