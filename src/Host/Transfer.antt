-- ===== src/Host/Transfer.antt =====
-- What src/usbip_server/host.rs asks of a device for a bulk transfer.
use lusbip.Base.{
  ℕ, suc, ◌+◌, ◌*◌, ◌-◌, ◌/◌, ◌%◌, ◌^◌, ◌≡◌, ◌≢◌, ◌≤◌, ◌<◌, Bool, List, [], ◌∷◌, Option, none, some,
  arith,
}
use lusbip.Protocol.Stream.{Outcome, ok, err, panic}
use lusbip.Device.Codes.{output}
use lusbip.Host.Calls.{Host, Call, Answer, done, failed, transfer_out}
use lusbip.Host.Interface.{Nusb, requested_len, after_write, interface_bulk}

-- Whole packets with room for the transfer, and for no packet more.
pub requested_len_lem :
    (debug : Bool) (size max_packet_size : ℕ)
    → 0 < size
    → size < 2 ^ 32
    → 0 < max_packet_size
    → (len : ℕ) × (requested_len debug size max_packet_size ≡ some len)
      × (size ≤ len)
      × (len < size + max_packet_size)
      × (len % max_packet_size ≡ 0)
unfolding requested_len
requested_len_lem debug size m h k p =
    let e : (size + 2 ^ 32 - 1) % 2 ^ 32 ≡ size - 1 = omega arith in
    let whole : ((size - 1) / m + 1) * m ≡ size - 1 - (size - 1) % m + m = grind arith in
    (((size - 1) / m + 1) * m, rw e (ground arith), grind arith, grind arith, grind arith)

-- How often the calls write to an endpoint.
unfoldable pub writes : List Call → ℕ
writes [] = 0
writes (transfer_out address req timeout ∷ calls) = suc (writes calls)
writes (c ∷ calls) = writes calls

unfoldable pub if_done : Answer → List ℕ → Option (List ℕ)
if_done (done bytes) req = some req
if_done (failed e) req = none

-- The bytes of the last call, if that was a write and succeeded.
unfoldable pub written_last : Host → List Call → Option (List ℕ)
written_last host [] = none
written_last host (transfer_out address req timeout ∷ calls) =
    if_done (host calls (transfer_out address req timeout)) req
written_last host (c ∷ calls) = none

unfoldable pub if_ok : Outcome (List ℕ) → List ℕ → Option (List ℕ)
if_ok (ok bytes) req = some req
if_ok (err e) req = none
if_ok panic req = none

-- A bulk OUT transfer writes at most twice, and succeeds exactly when its last call wrote all the data.
pub interface_bulk-output :
    (host : Host) (debug : Bool) (nusb : Nusb) (address size : ℕ) (req : List ℕ) (calls : List Call)
    → let r = interface_bulk host debug nusb output address size req calls in
      (writes r.1 ≤ writes calls + 2) × (written_last host r.1 ≡ if_ok r.0 req) × (r.0 ≢ panic)
unfolding interface_bulk after_write writes written_last if_done if_ok
interface_bulk-output host debug nusb address size req calls = ground arith
