-- ===== src/Bulk/InTrace.antt =====
-- Runs of `run_bulk_in_worker` of src/usbip_server/mod.rs under every schedule of commands,
-- barriers and completed reads, with the requests that came in.
use lusbip.Base.{
  ℕ, ◌≡◌, ◌≢◌, ◌⊎◌, Bool, true, false, List, [], ◌∷◌, map, Option, none, some, if◌then◌else◌,
  contains, lookup,
}
use lusbip.Bulk.Pending.{next, should_submit_bulk_in_after_barrier, count}
use lusbip.Bulk.InWorker.{
  BulkInRequest, BulkInCommand, submit, unlink_command, BulkInWorker, on_command, on_barrier,
  Completion, on_completion, is_active, on_read_command, on_idle_command, drop_orphan,
}

abbrev pub is_some {ℓ} : {A : Type ℓ} → Option A → Bool
is_some none = false
is_some (some a) = true

-- The requests that were answered, in order.
abbrev pub answered : BulkInWorker → List ℕ
answered w = map (λ e. e.seqnum) w.events

-- A client does not reuse the number of a request that is pending or being read.
abbrev pub IsFresh : BulkInCommand → BulkInWorker → Type 0
IsFresh (submit request) w =
    (contains request.header.seqnum w.pending ≡ false)
    × (is_active w.active_seqnum request.header.seqnum ≡ false)
IsFresh (unlink_command seqnum) w = Unit

abbrev pub AreFresh : List BulkInCommand → BulkInWorker → Type 0
AreFresh [] w = Unit
AreFresh (c ∷ cs) w = IsFresh c w × AreFresh cs (on_command c w)

-- Each number is pending at most once, and exactly when its request is known.
abbrev pub Tracked : ℕ → BulkInWorker → Type 0
Tracked k w = count k w.pending ≡ (if is_some (lookup k w.requests) then 1 else 0)

-- The request being read is the first one pending, unless it was unlinked.
abbrev pub Leads : Option ℕ → List ℕ → Type 0
Leads none ss = Unit
Leads (some s) ss = (contains s ss ≡ false) ⊎ (should_submit_bulk_in_after_barrier ss s ≡ true)

pub record IsWorker (w : BulkInWorker) : Type 0 where
  pub tracked : (k : ℕ) → Tracked k w
  pub reading : w.read_pending ≡ is_some w.active_seqnum
  pub leads : Leads w.active_seqnum w.pending

-- The ways in which the worker goes on, by the place where it waits, for endpoints with packets of
-- `mps` bytes.
pub data Step (mps : ℕ) (w : BulkInWorker) : BulkInWorker → Type 0 where
  orphan :
      (s : ℕ)
      → w.read_pending ≡ false
      → next w.pending ≡ some s
      → lookup s w.requests ≡ none
      → Step mps w (drop_orphan s w)
  barrier :
      (s : ℕ) (r : BulkInRequest) (passed : Bool) (drained : List BulkInCommand)
      → w.read_pending ≡ false
      → next w.pending ≡ some s
      → lookup s w.requests ≡ some r
      → AreFresh drained w
      → Step mps w (on_barrier mps s r.transfer_buffer_length passed drained w)
  interrupted :
      (c : BulkInCommand)
      → w.read_pending ≡ false
      → next w.pending ≢ none
      → IsFresh c w
      → Step mps w (on_command c w)
  completed : (c : Completion) → w.read_pending ≡ true → Step mps w (on_completion c w)
  commanded :
      (c : BulkInCommand) → w.read_pending ≡ true → IsFresh c w → Step mps w (on_read_command c w)
  idle :
      (c : BulkInCommand)
      → w.read_pending ≡ false
      → next w.pending ≡ none
      → IsFresh c w
      → Step mps w (on_idle_command c w)
