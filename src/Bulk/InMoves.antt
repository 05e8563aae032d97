-- ===== src/Bulk/InMoves.antt =====
-- How a step of `run_bulk_in_worker` of src/usbip_server/mod.rs moves requests between those pending
-- and those answered.
use lusbip.Base.{
  ℕ, ◌+◌, ◌≡◌, refl, subst, Bool, true, false, List, [], ◌∷◌, ◌++◌, append-nil, append_assoc, none,
  some, contains, lookup, Bool-cases, Option-cases, inl, inr, arith,
}
use lusbip.Bulk.Pending.{
  push, next, should_submit_bulk_in_after_barrier, count, count-push, count-unlink,
}
use lusbip.Bulk.InWorker.{
  BulkInCommand, submit, unlink_command, BulkInWorker, initial, accept, forget, on_command, drain,
  barrier_failed, barrier_passed, on_barrier, Completion, answer, on_completion, is_active,
  on_read_command, on_idle_command,
}
use lusbip.Bulk.InTrace.{
  answered, AreFresh, Tracked, Leads, IsWorker, Step, orphan, barrier, interrupted, completed,
  commanded, idle,
}
use lusbip.Bulk.InValid.{no_orphan, Step-IsWorker, drain-IsWorker}
use lusbip.Bulk.InOrder.{
  Sub, done, Sub-refl, Sub-trans, Sub-append, Sub-widen, unlink-Sub, count-append, brings,
  withdraws, all_brings, all_withdraws, step_brings, step_withdraws, Run, Runs, start, step,
}
use lusbip.Bulk.InShift.{
  Moves, Moves-trans, still, count_none, count_withdrawn, next-contains, Moves-end, retire,
  drop_absent, none-pending, some-pending, events-push,
}

barrier_failed-Moves :
    (s : ℕ) (w : BulkInWorker)
    → Tracked s w
    → should_submit_bulk_in_after_barrier w.pending s ≡ true
    → Moves w (barrier_failed s w) [] []
unfolding barrier_failed
barrier_failed-Moves s w v first = elim (Option-cases (lookup s w.requests)) [
  | inl e ↦ rw (e, barrier_failed) (drop_absent s w _ (none-pending s w v e) refl refl)
  | inr (r, e) ↦ rw (e, barrier_failed) (retire s w _ first (events-push s w _ refl) refl)
]

answer-Moves :
    (s : ℕ) (c : Completion) (w : BulkInWorker)
    → Tracked s w
    → Leads (some s) w.pending
    → Moves w (answer s c w) [] []
unfolding answer
answer-Moves s c w v leads = elim (Option-cases (lookup s w.requests)) [
  | inl e ↦ rw (e, answer) (drop_absent s w _ (none-pending s w v e) refl refl)
  | inr (r, e) ↦
      let here = some-pending s r w v e in
      elim leads [
        | inl out ↦ absurd (cc (here, out))
        | inr first ↦ rw (e, here, answer) (retire s w _ first (events-push s w _ refl) refl)
      ]
]

on_command-Moves :
    (c : BulkInCommand) (w : BulkInWorker) → Moves w (on_command c w) (brings c) (withdraws c w)
unfolding on_command accept forget push
on_command-Moves (submit r) w = record {
  counted = λ k. unfold count in ground (arith, count-push k r.header.seqnum w.pending);
  ordered =
      subst (λ l. Sub l ((answered w ++ w.pending) ++ r.header.seqnum ∷ []))
        (append_assoc (answered w) w.pending (r.header.seqnum ∷ []))
        (Sub-refl ((answered w ++ w.pending) ++ r.header.seqnum ∷ []));
}
on_command-Moves (unlink_command s) w = record {
  counted = λ k.
      ground (
        arith,
        count-unlink k s w.pending,
        count_withdrawn k (contains s w.pending) s,
        count_none k,
      );
  ordered =
      rw (append-nil (answered w ++ w.pending)) (Sub-append (answered w) (unlink-Sub w.pending s));
}

drain-Moves :
    (cs : List BulkInCommand) (w : BulkInWorker)
    → Moves w (drain cs w) (all_brings cs) (all_withdraws cs w)
unfolding drain
drain-Moves [] w = still w w refl refl
drain-Moves (c ∷ cs) w = Moves-trans (on_command-Moves c w) (drain-Moves cs (on_command c w))

on_barrier-Moves :
    (mps s n : ℕ) (passed : Bool) (cs : List BulkInCommand) (w : BulkInWorker)
    → AreFresh cs w
    → IsWorker w
    → Moves w (on_barrier mps s n passed cs w) (all_brings cs) (all_withdraws cs w)
unfolding on_barrier barrier_passed
on_barrier-Moves mps s n passed cs w f v =
    let t = drain cs w in
    let m = drain-Moves cs w in
    elim (Bool-cases (should_submit_bulk_in_after_barrier t.pending s)) [
      | inr late ↦ rw late m
      | inl first ↦ elim (Bool-cases passed) [
        | inl ok ↦ rw (first, ok) (Moves-end m (still t (barrier_passed mps s n t) refl refl))
        | inr bad ↦
            rw (first, bad)
              (Moves-end m (barrier_failed-Moves s t ((drain-IsWorker cs w f v).tracked s) first))
      ]
    ]

on_completion-some :
    (s : ℕ) (c : Completion) (w : BulkInWorker)
    → w.active_seqnum ≡ some s
    → answer s c (record w { read_pending = false; active_seqnum = none }) ≡ on_completion c w
unfolding on_completion
on_completion-some s c w e = rw (e, on_completion) refl

on_completion-none :
    (c : Completion) (w : BulkInWorker)
    → w.active_seqnum ≡ none
    → record w { read_pending = false; active_seqnum = none } ≡ on_completion c w
unfolding on_completion
on_completion-none c w e = rw (e, on_completion) (rw e refl)

on_completion-Moves :
    (c : Completion) (w : BulkInWorker) → IsWorker w → Moves w (on_completion c w) [] []
on_completion-Moves c w v = elim (Option-cases w.active_seqnum) [
  | inl e ↦
      subst (λ t. Moves w t [] []) (on_completion-none c w e)
        (still w (record w { read_pending = false; active_seqnum = none }) refl refl)
  | inr (s, e) ↦
      let t : BulkInWorker = record w { read_pending = false; active_seqnum = none } in
      subst (λ t. Moves w t [] []) (on_completion-some s c w e)
        (Moves-end (still w t refl refl)
          (answer-Moves s c t (v.tracked s) (subst (λ o. Leads o w.pending) e v.leads)))
]

on_read_command-Moves :
    (c : BulkInCommand) (w : BulkInWorker)
    → Moves w (on_read_command c w) (brings c) (withdraws c w)
unfolding on_read_command on_command
on_read_command-Moves (submit r) w = on_command-Moves (submit r) w
on_read_command-Moves (unlink_command s) w = elim (Bool-cases (is_active w.active_seqnum s)) [
  | inl e ↦ rw e (
      let m = on_command-Moves (unlink_command s) w in
      record { counted = m.counted; ordered = m.ordered })
  | inr e ↦ rw e (on_command-Moves (unlink_command s) w)
]

on_idle_command-Moves :
    (c : BulkInCommand) (w : BulkInWorker)
    → next w.pending ≡ none
    → Moves w (on_idle_command c w) (brings c) (withdraws c w)
unfolding on_idle_command on_command
on_idle_command-Moves (submit r) w n = on_command-Moves (submit r) w
on_idle_command-Moves (unlink_command s) w n =
    rw (next-contains s w.pending n) (still w w refl refl)

pub Step-Moves :
    {mps : ℕ} {w t : BulkInWorker} (st : Step mps w t)
    → IsWorker w
    → Moves w t (step_brings st) (step_withdraws st)
Step-Moves {w = w} (orphan s _ n l) v = absurd (no_orphan s w n l (v.tracked s))
Step-Moves {mps} {w} (barrier s r passed cs _ _ _ f) v = on_barrier-Moves mps s _ passed cs w f v
Step-Moves {w = w} (interrupted c _ _ f) v = on_command-Moves c w
Step-Moves {w = w} (completed c _) v = on_completion-Moves c w v
Step-Moves {w = w} (commanded c _ f) v = on_read_command-Moves c w
Step-Moves {w = w} (idle c _ n f) v = on_idle_command-Moves c w n

-- What holds of a run: every request is accounted for once, and answers keep the order.
pub record IsAccounted (x : Run) : Type 0 where
  pub counted :
      (k : ℕ)
      → count k (answered x.worker) + count k x.worker.pending + count k x.withdrawn
        ≡ count k x.submitted
  pub ordered : Sub (answered x.worker ++ x.worker.pending) x.submitted

start-IsWorker : IsWorker initial
unfolding initial count lookup
start-IsWorker = record { tracked = λ k. refl; reading = refl; leads = tt }

start-IsAccounted : IsAccounted (record { worker = initial; submitted = []; withdrawn = [] })
unfolding initial count
start-IsAccounted = record { counted = λ k. refl; ordered = done }

pub Runs-IsWorker : {mps : ℕ} {x : Run} → Runs mps x → IsWorker x.worker
Runs-IsWorker start = start-IsWorker
Runs-IsWorker (step h st) = Step-IsWorker st (Runs-IsWorker h)

-- In every run of the bulk IN worker, whatever the schedule of its commands, barriers and reads,
-- each sequence number was submitted as often as it was answered, is pending or was unlinked while
-- pending, and the numbers answered and then those pending are a subsequence of those submitted.
pub Runs-IsAccounted : {mps : ℕ} {x : Run} → Runs mps x → IsAccounted x
Runs-IsAccounted start = start-IsAccounted
Runs-IsAccounted (step {x} h st) =
    let a = Runs-IsAccounted h in
    let m = Step-Moves st (Runs-IsWorker h) in
    record {
      counted = λ k. ground (
        arith,
        a.counted k,
        m.counted k,
        count-append k x.submitted (step_brings st),
        count-append k x.withdrawn (step_withdraws st),
      );
      ordered = Sub-trans m.ordered (Sub-widen (step_brings st) a.ordered);
    }
