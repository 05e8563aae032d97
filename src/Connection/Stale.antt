-- ===== src/Connection/Stale.antt =====
-- Answers of workers that `handler` of src/usbip_server/mod.rs reads after a further import, which
-- has stopped these workers but leaves what they sent in the channels.
use lusbip.Base.{ℕ, ◌^◌, ◌<◌, ◌≡◌, refl, Bool, false, ◌∷◌, Option, ◌==◌, contains, arith}
use lusbip.Device.Codes.{UsbDevice}
use lusbip.Bulk.Pending.{should_write_bulk_out_response, should_write_bulk_in_response}
use lusbip.Bulk.InWorker.{BulkInEvent}
use lusbip.Bulk.OutWorker.{BulkOutEvent}
use lusbip.Connection.Defs.{
  Session, ret_submit, next_generation, on_import, write, in_event_done, on_in_event, on_out_event,
}

generation_differs : (g : ℕ) → g < 2 ^ 64 → (next_generation g == g) ≡ false
unfolding next_generation
generation_differs g h = ground arith

module _ {D I : Type 0} (opens : ℕ → Bool) (device : Option (UsbDevice D I)) (s : Session D I) where
  -- Of the answers sent before an import and read after it, one of a bulk OUT request changes nothing,
  -- and one of a bulk IN request is written to the client, whatever device and request it was for.
  -- The generation is below 2 ^ 64.
  pub import-events :
      (from_out : BulkOutEvent) (from_in : BulkInEvent)
      → s.generation < 2 ^ 64
      → from_out.generation ≡ s.generation
      → (on_out_event from_out (on_import opens device s) ≡ on_import opens device s)
        × ((on_in_event from_in (on_import opens device s)).written
            ≡ ret_submit from_in.response ∷ s.written)
  unfolding on_out_event on_in_event in_event_done write on_import should_write_bulk_in_response
      should_write_bulk_out_response contains
  import-events from_out from_in small same =
      (rw (same, generation_differs s.generation small) refl, refl)
