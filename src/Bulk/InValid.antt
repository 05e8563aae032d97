-- ===== src/Bulk/InValid.antt =====
-- What every step of `run_bulk_in_worker` of src/usbip_server/mod.rs keeps.
use lusbip.Base.{
  ℕ, ◌≡◌, ◌≤◌, refl, Bool, false, List, [], ◌∷◌, Option, none, some, ◌==◌, contains, lookup,
  lookup-insert, lookup-remove, Bool-cases, Option-cases, inl, inr, arith,
}
use lusbip.Bulk.Pending.{
  push, next, unlink, should_submit_bulk_in_after_barrier, count, count-push, count-unlink,
  contains-count, count-next, next-should_submit, should_submit-push, should_submit-unlink,
}
use lusbip.Bulk.InWorker.{
  BulkInRequest, BulkInCommand, submit, unlink_command, BulkInWorker, accept, forget, on_command,
  drain, barrier_failed, barrier_passed, on_barrier, Completion, answer, on_completion, is_active,
  on_read_command, on_idle_command,
}
use lusbip.Bulk.InTrace.{
  IsFresh, AreFresh, Tracked, Leads, IsWorker, Step, orphan, barrier, interrupted, completed,
  commanded, idle,
}

accept-Tracked :
    (k : ℕ) (r : BulkInRequest) (w : BulkInWorker)
    → contains r.header.seqnum w.pending ≡ false
    → Tracked k w
    → Tracked r.header.seqnum w
    → Tracked k (accept r w)
unfolding accept
accept-Tracked k r w f h hs = ground (
  arith,
  lookup-insert r.header.seqnum k r w.requests,
  count-push k r.header.seqnum w.pending,
  contains-count r.header.seqnum w.pending,
)

forget-Tracked : (k s : ℕ) (w : BulkInWorker) → Tracked k w → Tracked s w → Tracked k (forget s w)
unfolding forget
forget-Tracked k s w h hs =
    ground
      (arith, lookup-remove s k w.requests, count-unlink k s w.pending, contains-count s w.pending)

-- The active request still leads after a command.
push-Leads :
    (o : Option ℕ) (k : ℕ) (ss : List ℕ) → is_active o k ≡ false → Leads o ss → Leads o (push ss k)
unfolding is_active
push-Leads none k ss f h = tt
push-Leads (some s) k ss f (inl out) =
    inl (ground (arith, contains-count s ss, contains-count s (push ss k), count-push s k ss))
push-Leads (some s) k ss f (inr first) = inr (should_submit-push s k ss first)

unlink-Leads :
    (o : Option ℕ) (k : ℕ) (ss : List ℕ) → count k ss ≤ 1 → Leads o ss → Leads o (unlink ss k)
unlink-Leads none k ss c h = tt
unlink-Leads (some s) k ss c (inl out) =
    inl (ground (arith, contains-count s ss, contains-count s (unlink ss k), count-unlink s k ss))
unlink-Leads (some s) k ss c (inr first) = elim (Bool-cases (k == s)) [
  | inl e ↦ inl (
      ground (
        arith,
        contains-count k ss,
        contains-count s (unlink ss k),
        count-unlink s k ss,
        count-next s ss first,
      ))
  | inr e ↦ inr (should_submit-unlink s k ss first e)
]

Tracked-le : (k : ℕ) (w : BulkInWorker) → Tracked k w → count k w.pending ≤ 1
Tracked-le k w h = ground (arith, h)

accept-IsWorker :
    (r : BulkInRequest) (w : BulkInWorker)
    → IsFresh (submit r) w
    → IsWorker w
    → IsWorker (accept r w)
unfolding accept
accept-IsWorker r w f v = record {
  tracked = λ k. accept-Tracked k r w f.0 (v.tracked k) (v.tracked r.header.seqnum);
  reading = v.reading;
  leads = push-Leads w.active_seqnum r.header.seqnum w.pending f.1 v.leads;
}

forget-IsWorker : (s : ℕ) (w : BulkInWorker) → IsWorker w → IsWorker (forget s w)
unfolding forget
forget-IsWorker s w v = record {
  tracked = λ k. forget-Tracked k s w (v.tracked k) (v.tracked s);
  reading = v.reading;
  leads = unlink-Leads w.active_seqnum s w.pending (Tracked-le s w (v.tracked s)) v.leads;
}

on_command-IsWorker :
    (c : BulkInCommand) (w : BulkInWorker) → IsFresh c w → IsWorker w → IsWorker (on_command c w)
unfolding on_command
on_command-IsWorker (submit r) w f v = accept-IsWorker r w f v
on_command-IsWorker (unlink_command s) w f v = forget-IsWorker s w v

pub drain-IsWorker :
    (cs : List BulkInCommand) (w : BulkInWorker)
    → AreFresh cs w
    → IsWorker w
    → IsWorker (drain cs w)
unfolding drain
drain-IsWorker [] w f v = v
drain-IsWorker (c ∷ cs) w f v =
    drain-IsWorker cs (on_command c w) f.1 (on_command-IsWorker c w f.0 v)

-- Answering the pending request `s`, or dropping its answer when it was unlinked, is forgetting it.
answer-IsWorker : (s : ℕ) (c : Completion) (w : BulkInWorker) → IsWorker w → IsWorker (answer s c w)
unfolding answer forget
answer-IsWorker s c w v = elim (Option-cases (lookup s w.requests)) [
  | inl e ↦
      rw (e, answer)
        (record {
          tracked = λ k. ground (
            arith,
            e,
            v.tracked k,
            v.tracked s,
            count-unlink k s w.pending,
            contains-count s w.pending,
          );
          reading = v.reading;
          leads = unlink-Leads w.active_seqnum s w.pending (Tracked-le s w (v.tracked s)) v.leads;
        })
  | inr (r, e) ↦
      let f = forget-IsWorker s w v in
      rw (e, answer) (record { tracked = f.tracked; reading = f.reading; leads = f.leads })
]

barrier_failed-IsWorker : (s : ℕ) (w : BulkInWorker) → IsWorker w → IsWorker (barrier_failed s w)
unfolding barrier_failed forget
barrier_failed-IsWorker s w v = elim (Option-cases (lookup s w.requests)) [
  | inl e ↦
      rw (e, barrier_failed)
        (record {
          tracked = λ k. ground (
            arith,
            e,
            v.tracked k,
            v.tracked s,
            count-unlink k s w.pending,
            contains-count s w.pending,
          );
          reading = v.reading;
          leads = unlink-Leads w.active_seqnum s w.pending (Tracked-le s w (v.tracked s)) v.leads;
        })
  | inr (r, e) ↦
      let f = forget-IsWorker s w v in
      rw (e, barrier_failed) (record { tracked = f.tracked; reading = f.reading; leads = f.leads })
]

on_barrier-IsWorker :
    (mps s n : ℕ) (passed : Bool) (cs : List BulkInCommand) (w : BulkInWorker)
    → AreFresh cs w
    → IsWorker w
    → IsWorker (on_barrier mps s n passed cs w)
unfolding on_barrier barrier_passed
on_barrier-IsWorker mps s n passed cs w f v =
    let t = drain cs w in
    let vt = drain-IsWorker cs w f v in
    elim (Bool-cases (should_submit_bulk_in_after_barrier t.pending s)) [
      | inr late ↦ rw late vt
      | inl first ↦ elim (Bool-cases passed) [
        | inl ok ↦
            rw (first, ok) (record { tracked = vt.tracked; reading = refl; leads = inr first })
        | inr bad ↦ rw (first, bad) (barrier_failed-IsWorker s t vt)
      ]
    ]

on_completion-IsWorker :
    (c : Completion) (w : BulkInWorker) → IsWorker w → IsWorker (on_completion c w)
unfolding on_completion
on_completion-IsWorker c w v = elim (Option-cases w.active_seqnum) [
  | inl e ↦
      rw (e, on_completion) (record { tracked = v.tracked; reading = rw e refl; leads = rw e tt })
  | inr (s, e) ↦
      rw (e, on_completion)
        (answer-IsWorker s c (record w { read_pending = false; active_seqnum = none })
          (record { tracked = v.tracked; reading = refl; leads = tt }))
]

on_read_command-IsWorker :
    (c : BulkInCommand) (w : BulkInWorker)
    → IsFresh c w
    → IsWorker w
    → IsWorker (on_read_command c w)
unfolding on_read_command
on_read_command-IsWorker (submit r) w f v = accept-IsWorker r w f v
on_read_command-IsWorker (unlink_command s) w f v =
    let vf = forget-IsWorker s w v in
    elim (Bool-cases (is_active w.active_seqnum s)) [
      | inl e ↦ rw e (record { tracked = vf.tracked; reading = vf.reading; leads = vf.leads })
      | inr e ↦ rw e vf
    ]

on_idle_command-IsWorker :
    (c : BulkInCommand) (w : BulkInWorker)
    → IsFresh c w
    → IsWorker w
    → IsWorker (on_idle_command c w)
unfolding on_idle_command
on_idle_command-IsWorker (submit r) w f v = accept-IsWorker r w f v
on_idle_command-IsWorker (unlink_command s) w f v = v

-- The worker never drops a pending number for want of its request.
pub no_orphan :
    (s : ℕ) (w : BulkInWorker)
    → next w.pending ≡ some s
    → lookup s w.requests ≡ none
    → Tracked s w
    → ⊥
no_orphan s w n l h =
    ground (arith, l, h, count-next s w.pending (next-should_submit s w.pending n))

pub Step-IsWorker : {mps : ℕ} {w t : BulkInWorker} → Step mps w t → IsWorker w → IsWorker t
Step-IsWorker {w = w} (orphan s _ n l) v = absurd (no_orphan s w n l (v.tracked s))
Step-IsWorker {mps} {w} (barrier s r passed cs _ _ _ f) v =
    on_barrier-IsWorker mps s _ passed cs w f v
Step-IsWorker {w = w} (interrupted c _ _ f) v = on_command-IsWorker c w f v
Step-IsWorker {w = w} (completed c _) v = on_completion-IsWorker c w v
Step-IsWorker {w = w} (commanded c _ f) v = on_read_command-IsWorker c w f v
Step-IsWorker {w = w} (idle c _ _ f) v = on_idle_command-IsWorker c w f v
