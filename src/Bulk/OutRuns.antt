-- ===== src/Bulk/OutRuns.antt =====
-- Runs of `run_bulk_out_worker` of src/usbip_server/mod.rs, and what they keep.
use lusbip.Base.{
  ℕ, ◌%◌, ◌^◌, ◌≡◌, inl, inr, refl, sym, ◌∙◌, Bool, true, false, List, [], ◌∷◌, ◌++◌, Option, none,
  some, ◌==◌, if◌then◌else◌, length, Option-cases,
}
use lusbip.Bulk.OutWorker.{
  BulkOutRequest, BulkOutEvent, BulkOutCommand, submit, flush, shutdown, unlink_command, WriterCall,
  write_all, flush_call, BulkOutWorker, initial, written, on_submit, flush_result, flush_calls,
  record_result, on_flush, on_shutdown, on_command, on_idle, on_closed,
}

unfoldable pub acknowledged : List BulkOutEvent → List ℕ
acknowledged [] = []
acknowledged (e ∷ es) =
    let rest = acknowledged es in
    if e.response.status == 0 then e.response.actual_length ∷ rest else rest

module _ {E : Type 0} where
  -- The data that writes took and that no successful flush followed, in order.
  unfoldable pub unflushed : List (WriterCall E) → List (List ℕ)
  unflushed [] = []
  unflushed (write_all bytes none ∷ cs) = unflushed cs ++ bytes ∷ []
  unflushed (write_all bytes (some error) ∷ cs) = unflushed cs
  unflushed (flush_call none ∷ cs) = []
  unflushed (flush_call (some error) ∷ cs) = unflushed cs

  -- The writer has answered with an error.
  unfoldable pub has_failed : List (WriterCall E) → Bool
  has_failed [] = false
  has_failed (write_all bytes none ∷ cs) = has_failed cs
  has_failed (write_all bytes (some error) ∷ cs) = true
  has_failed (flush_call none ∷ cs) = has_failed cs
  has_failed (flush_call (some error) ∷ cs) = true

  abbrev pub is_some : Option E → Bool
  is_some none = false
  is_some (some error) = true

  -- A worker that still runs: a failure is recorded exactly when the writer has failed, and
  -- without one, what is not flushed is known to be.
  pub record IsWorker (w : BulkOutWorker E) : Type 0 where
    pub recorded : is_some w.failure ≡ has_failed w.calls
    pub clean : has_failed w.calls ≡ false → w.needs_flush ≡ false → unflushed w.calls ≡ []

  pub data Step (w : BulkOutWorker E) : BulkOutWorker E → Type 0 where
    command :
        (answer : Option E) (c : BulkOutCommand) → w.running ≡ true → Step w (on_command answer c w)
    idle : (answer : Option E) → w.running ≡ true → w.needs_flush ≡ true → Step w (on_idle answer w)
    closed : (answer : Option E) → w.running ≡ true → Step w (on_closed answer w)

  pub data Reach : BulkOutWorker E → Type 0 where
    start : Reach initial
    step : {w t : BulkOutWorker E} → Reach w → Step w t → Reach t

  -- The lengths of the data that writes took, and those acknowledged with success.
  unfoldable pub taken : List (WriterCall E) → List ℕ
  taken [] = []
  taken (write_all bytes none ∷ cs) = (length bytes % 2 ^ 32) ∷ taken cs
  taken (write_all bytes (some error) ∷ cs) = taken cs
  taken (flush_call answer ∷ cs) = taken cs

  written-IsWorker :
      (answer : Option E) (r : BulkOutRequest) (w : BulkOutWorker E)
      → IsWorker w
      → IsWorker (written answer r w)
  unfolding written has_failed unflushed
  written-IsWorker none r w v = record { recorded = v.recorded; clean = λ f n. absurd (cc n) }
  written-IsWorker (some e) r w v = record { recorded = refl; clean = λ f n. absurd (cc f) }

  on_submit-IsWorker :
      (answer : Option E) (r : BulkOutRequest) (w : BulkOutWorker E)
      → IsWorker w
      → IsWorker (on_submit answer r w)
  unfolding on_submit
  on_submit-IsWorker answer r w v = elim (Option-cases w.failure) [
    | inr (e, h) ↦ rw (h, on_submit) (record { recorded = v.recorded; clean = v.clean })
    | inl h ↦ rw (h, on_submit) (written-IsWorker answer r w v)
  ]

  -- A flush that goes well has flushed everything; one that fails is recorded.
  pub flush_calls-flushed :
      (answer failure : Option E) (n : Bool) (cs : List (WriterCall E))
      → is_some failure ≡ has_failed cs
      → (has_failed cs ≡ false → n ≡ false → unflushed cs ≡ [])
      → flush_result answer failure n ≡ none
      → unflushed (flush_calls answer failure n cs) ≡ []
  unfolding flush_result flush_calls unflushed
  flush_calls-flushed answer (some e) n cs r c h = absurd (cc h)
  flush_calls-flushed (some e) none true cs r c h = absurd (cc h)
  flush_calls-flushed none none true cs r c h = refl
  flush_calls-flushed answer none false cs r c h = c (sym r) refl

  flush_calls-recorded :
      (answer failure : Option E) (n : Bool) (cs : List (WriterCall E))
      → is_some failure ≡ has_failed cs
      → is_some (record_result (flush_result answer failure n) failure)
        ≡ has_failed (flush_calls answer failure n cs)
  unfolding flush_result flush_calls record_result has_failed
  flush_calls-recorded answer (some e) n cs r = r
  flush_calls-recorded (some e) none true cs r = refl
  flush_calls-recorded none none true cs r = r
  flush_calls-recorded answer none false cs r = r

  pub flush_calls-clean :
      (answer failure : Option E) (n : Bool) (cs : List (WriterCall E))
      → is_some failure ≡ has_failed cs
      → flush_result answer failure n ≡ none
      → has_failed (flush_calls answer failure n cs) ≡ false
  unfolding flush_result flush_calls has_failed
  flush_calls-clean answer (some e) n cs r h = absurd (cc h)
  flush_calls-clean (some e) none true cs r h = absurd (cc h)
  flush_calls-clean none none true cs r h = sym r
  flush_calls-clean answer none false cs r h = sym r

  result_none : (o f : Option E) → is_some (record_result o f) ≡ false → o ≡ none
  unfolding record_result
  result_none none f h = refl
  result_none (some e) f h = absurd (cc h)

  on_flush-IsWorker :
      (answer : Option E) (w : BulkOutWorker E) → IsWorker w → IsWorker (on_flush answer w)
  unfolding on_flush
  on_flush-IsWorker answer w v =
      let r = flush_calls-recorded answer w.failure w.needs_flush w.calls v.recorded in
      record {
        recorded = r;
        clean = λ f n.
            flush_calls-flushed answer w.failure w.needs_flush w.calls v.recorded v.clean
              (result_none (flush_result answer w.failure w.needs_flush) w.failure (r ∙ f));
      }

  on_idle-IsWorker :
      (answer : Option E) (w : BulkOutWorker E) → IsWorker w → IsWorker (on_idle answer w)
  unfolding on_idle record_result has_failed unflushed
  on_idle-IsWorker none w v = record { recorded = v.recorded; clean = λ f n. refl }
  on_idle-IsWorker (some e) w v = record { recorded = refl; clean = λ f n. absurd (cc f) }

  Step-IsWorker : {w t : BulkOutWorker E} → Step w t → t.running ≡ true → IsWorker w → IsWorker t
  unfolding on_command on_shutdown on_closed
  Step-IsWorker {w} (command a (submit r) _) h v = on_submit-IsWorker a r w v
  Step-IsWorker {w} (command a flush _) h v = on_flush-IsWorker a w v
  Step-IsWorker {w} (command a shutdown _) h v = absurd (cc h)
  Step-IsWorker {w} (command a (unlink_command s) _) h v = v
  Step-IsWorker {w} (idle a _ _) h v = on_idle-IsWorker a w v
  Step-IsWorker {w} (closed a _) h v = absurd (cc h)

  Step-running : {w t : BulkOutWorker E} → Step w t → w.running ≡ true
  Step-running (command a c h) = h
  Step-running (idle a h n) = h
  Step-running (closed a h) = h

  start-IsWorker : IsWorker (initial {E = E})
  unfolding initial has_failed unflushed
  start-IsWorker = record { recorded = refl; clean = λ f n. refl }

  -- In every run, while the worker runs: a failure is recorded exactly when a call of the writer
  -- has failed; and without one, when no flush is due, everything written has been flushed.
  pub Reach-IsWorker : {w : BulkOutWorker E} → Reach w → w.running ≡ true → IsWorker w
  Reach-IsWorker start h = start-IsWorker
  Reach-IsWorker (step r s) h = Step-IsWorker s h (Reach-IsWorker r (Step-running s))
