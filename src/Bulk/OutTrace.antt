-- ===== src/Bulk/OutTrace.antt =====
-- What the answers of `run_bulk_out_worker` of src/usbip_server/mod.rs promise.
use lusbip.Base.{
  ◌%◌, ◌^◌, ◌≡◌, inl, inr, refl, sym, ap, ◌∙◌, Bool, true, false, List, ◌∷◌, Option, none, some,
  if◌then◌else◌, length, Option-cases,
}
use lusbip.Protocol.Reply.{usbip_ret_submit_success, usbip_ret_submit_fail}
use lusbip.Bulk.OutWorker.{
  BulkOutRequest, submit, flush, shutdown, unlink_command, WriterCall, flush_call, BulkOutWorker,
  initial, event, accepted, rejected, written, on_submit, flush_calls, on_flush, on_shutdown,
  on_command, on_idle, on_closed,
}
use lusbip.Bulk.OutRuns.{acknowledged, Step, command, idle, closed, Reach, start, step, taken}

module _ {E : Type 0} where
  written-acknowledged :
      (answer : Option E) (r : BulkOutRequest) (w : BulkOutWorker E)
      → acknowledged w.events ≡ taken w.calls
      → acknowledged (written answer r w).events ≡ taken (written answer r w).calls
  unfolding written acknowledged taken event accepted rejected usbip_ret_submit_success
      usbip_ret_submit_fail
  written-acknowledged none r w v = ap (λ l. (length r.data_bytes % 2 ^ 32) ∷ l) v
  written-acknowledged (some e) r w v = v

  on_submit-acknowledged :
      (answer : Option E) (r : BulkOutRequest) (w : BulkOutWorker E)
      → acknowledged w.events ≡ taken w.calls
      → acknowledged (on_submit answer r w).events ≡ taken (on_submit answer r w).calls
  unfolding on_submit acknowledged event rejected usbip_ret_submit_fail
  on_submit-acknowledged answer r w v = elim (Option-cases w.failure) [
    | inr (e, h) ↦ rw (h, on_submit) v
    | inl h ↦ rw (h, on_submit) (written-acknowledged answer r w v)
  ]

  taken-flush_calls :
      (a f : Option E) (n : Bool) (cs : List (WriterCall E))
      → taken (flush_calls a f n cs) ≡ taken cs
  unfolding taken flush_calls
  taken-flush_calls a (some e) n cs = refl
  taken-flush_calls a none true cs = refl
  taken-flush_calls a none false cs = refl

  taken-flush_if :
      (a : Option E) (n : Bool) (cs : List (WriterCall E))
      → taken (if n then flush_call a ∷ cs else cs) ≡ taken cs
  unfolding taken
  taken-flush_if a true cs = refl
  taken-flush_if a false cs = refl

  Step-acknowledged :
      {w t : BulkOutWorker E}
      → Step w t
      → acknowledged w.events ≡ taken w.calls
      → acknowledged t.events ≡ taken t.calls
  unfolding on_command on_flush on_shutdown on_idle on_closed taken
  Step-acknowledged {w} (command a (submit r) _) v = on_submit-acknowledged a r w v
  Step-acknowledged {w} (command a flush _) v =
      v ∙ sym (taken-flush_calls a w.failure w.needs_flush w.calls)
  Step-acknowledged {w} (command a shutdown _) v =
      v ∙ sym (taken-flush_calls a w.failure w.needs_flush w.calls)
  Step-acknowledged {w} (command a (unlink_command s) _) v = v
  Step-acknowledged {w} (idle a _ _) v = v
  Step-acknowledged {w} (closed a _) v = v ∙ sym (taken-flush_if a w.needs_flush w.calls)

  -- In every run, the lengths acknowledged with success are those of the writes that succeeded, one
  -- for one and in order: nothing is acknowledged that the writer has not taken.
  pub Reach-acknowledged : {w : BulkOutWorker E} → Reach w → acknowledged w.events ≡ taken w.calls
  unfolding initial acknowledged taken
  Reach-acknowledged start = refl
  Reach-acknowledged (step r s) = Step-acknowledged s (Reach-acknowledged r)
