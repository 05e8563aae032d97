-- ===== src/Connection/Runs.antt =====
-- Runs of a connection (`handler` of src/usbip_server/mod.rs) from its first import on: the
-- requests that came, those that went to a worker to the host, those whose answers by such a worker
-- were read, and those that were unlinked with success are kept beside the handler's own state.
use lusbip.Base.{
  ℕ, ◌+◌, ◌<◌, ◌≤◌, ◌≡◌, Bool, ◌&&◌, List, [], ◌∷◌, some, ◌==◌, if◌then◌else◌, contains, lookup,
}
use lusbip.Protocol.Stream.{ok}
use lusbip.Protocol.Header.{UsbIpHeaderBasic}
use lusbip.Device.Codes.{UsbDevice}
use lusbip.Device.Urb.{Transfers, real_ep}
use lusbip.Bulk.Pending.{count}
use lusbip.Bulk.InTrace.{is_some, answered}
use lusbip.Bulk.InOrder
use lusbip.Bulk.InWorker.{BulkInEvent}
use lusbip.Bulk.OutWorker.{BulkOutEvent}
use lusbip.Connection.Defs.{
  Session, connected, on_import, on_submit, find_unlinked, on_unlink, on_in_event, on_out_event,
}
use lusbip.Connection.Tables.{answers, Balanced}

pub record Run (D I : Type 0) : Type 0 where
  pub session : Session D I
  pub submitted : List ℕ
  pub via : List ℕ
  pub consumed : List ℕ
  pub unlinked : List ℕ

-- A bulk IN worker, for packets of some size, with a run of it.
pub record Worker : Type 0 where
  pub packet : ℕ
  pub run : InOrder.Run
  pub runs : InOrder.Runs packet run

-- How often some workers were given a number, and how often they answered it.
unfoldable pub given : ℕ → List Worker → ℕ
given k [] = 0
given k (w ∷ ws) = count k w.run.submitted + given k ws

unfoldable pub answered_by : ℕ → List Worker → ℕ
answered_by k [] = 0
answered_by k (w ∷ ws) = count k (answered w.run.worker) + answered_by k ws

abbrev pub add_if : Bool → ℕ → List ℕ → List ℕ
add_if b k ks = if b then k ∷ ks else ks

module _ {D I : Type 0} where
  -- Whether a request goes to a worker to the host.
  abbrev pub goes_in : Bool → UsbIpHeaderBasic → Session D I → Bool
  goes_in taken header s = header.direction == 1 && contains (real_ep header) s.in_workers && taken

  -- Whether an unlink is answered with success.
  abbrev pub found : ℕ → Session D I → Bool
  found k s = (find_unlinked (lookup k s.in_seqnums) (lookup k s.out_seqnums) k s).0

  -- A client does not reuse a sequence number. A worker answers with the header of the request. The
  -- channels deliver nothing twice: when an answer of the bulk IN workers is read, the workers have
  -- received a number no more often than the handler has sent it, and have answered this one
  -- more often than its answer was read so far.
  pub data Step (host : Transfers D I) (debug : Bool) : Run D I → Run D I → Type 0 where
    submits :
        {x : Run D I} {t : Session D I} {d : UsbDevice D I} (taken passed : Bool)
        (header : UsbIpHeaderBasic) (size : ℕ) (setup out_data : List ℕ)
        → x.session.imported ≡ some d
        → count header.seqnum x.submitted ≡ 0
        → on_submit host debug taken passed header size setup out_data x.session ≡ ok t
        → Step host debug x (record x {
          session = t;
          submitted = header.seqnum ∷ x.submitted;
          via = add_if (goes_in taken header x.session) header.seqnum x.via;
        })
    unlinks :
        {x : Run D I} (header : UsbIpHeaderBasic) (k : ℕ)
        → Step host debug x (record x {
          session = on_unlink header k x.session;
          unlinked = add_if (found k x.session) k x.unlinked;
        })
    in_event :
        {x : Run D I} (e : BulkInEvent) (workers : List Worker)
        → e.response.header.seqnum ≡ e.seqnum
        → given e.seqnum workers ≤ count e.seqnum x.via
        → count e.seqnum x.consumed < answered_by e.seqnum workers
        → Step host debug x
            (record x { session = on_in_event e x.session; consumed = e.seqnum ∷ x.consumed })
    out_event :
        {x : Run D I} (e : BulkOutEvent)
        → e.response.header.seqnum ≡ e.seqnum
        → Step host debug x (record x { session = on_out_event e x.session })

  pub data Runs (host : Transfers D I) (debug : Bool) : Run D I → Type 0 where
    start :
        (opens : ℕ → Bool) (d : UsbDevice D I)
        → Runs host debug (record {
          session = on_import opens (some d) connected;
          submitted = [];
          via = [];
          consumed = [];
          unlinked = [];
        })
    step : {x y : Run D I} → Runs host debug x → Step host debug x y → Runs host debug y

-- The request `k` in the tables and in what was written.
pub record View {D I : Type 0} (k : ℕ) (x : Run D I) : Type 0 where
  pub balanced :
      Balanced
        (is_some (lookup k x.session.in_seqnums))
        (contains k x.session.pending_out)
        (contains k x.session.cancelled)
        (count k x.submitted)
        (count k x.via)
        (count k x.consumed)
        (count k x.unlinked)
        (answers k x.session.written)
  pub paired : is_some (lookup k x.session.out_seqnums) ≡ contains k x.session.pending_out
