-- ===== src/Host/Calls.antt =====
-- The calls of nusb that src/usbip_server/host.rs makes. What the library answers is an argument, which
-- answers a call from those before it; a function also gives the calls made so far, latest first.
use lusbip.Base.{ℕ, ◌/◌, ◌%◌, ◌^◌, List, [], ◌∷◌, Option, none, some, ◌==◌, if◌then◌else◌}
use lusbip.Protocol.Stream.{Outcome, ok, err, panic, transfer_failed}
use lusbip.Protocol.Setup.{SetupPacket}
use lusbip.Device.Codes.{Direction, EndpointAttributes}

pub data ControlType : Type 0 where
  standard class vendor : ControlType

pub data Recipient : Type 0 where
  device interface endpoint other : Recipient

-- `ControlIn` and `ControlOut`, less the length of the one and the data of the other.
pub record Control : Type 0 where
  pub control_type : ControlType
  pub recipient : Recipient
  pub request : ℕ
  pub value : ℕ
  pub index : ℕ

pub data ControlTransport : Type 0 where
  claimed_interface device_handle : ControlTransport

-- Endpoints are named by their address, and timeouts given in milliseconds.
pub data Call : Type 0 where
  control_in : ControlTransport → Control → ℕ → ℕ → Call
  control_out : ControlTransport → Control → List ℕ → ℕ → Call
  open_endpoint : EndpointAttributes → Direction → ℕ → Call
  read_exact : ℕ → ℕ → ℕ → Call
  write_all : ℕ → List ℕ → ℕ → Call
  flush : ℕ → Call
  transfer_in : ℕ → ℕ → ℕ → Call
  transfer_out : ℕ → List ℕ → ℕ → Call
  clear_halt : ℕ → Call
  reset_device list_devices open_device : Call
  set_configuration : ℕ → Call

-- `TransferError`, as far as it is told apart.
pub data TransferError : Type 0 where
  cancelled stall other : TransferError

pub data Answer : Type 0 where
  done : List ℕ → Answer
  failed : TransferError → Answer

abbrev pub Host : Type 0
Host = List Call → Call → Answer

abbrev pub M : Type 0 → Type 0
M A = List Call → Outcome A × List Call

infixl 5 ◌>>=◌ ◌>>◌
abbrev pub ◌>>=◌ : {A B : Type 0} → M A → (A → M B) → M B
◌>>=◌ m f h = let (r, t) = m h in elim r [ ok a ↦ f a t | err e ↦ (err e, t) | panic ↦ (panic, t) ]

abbrev pub ◌>>◌ : {A B : Type 0} → M A → M B → M B
m >> k = m >>= λ _. k

abbrev pub pure : {A : Type 0} → A → M A
pure a h = (ok a, h)

abbrev pub fails : {A : Type 0} → M A
fails h = (err transfer_failed, h)

-- `unimplemented!`, and a panic of arithmetic.
abbrev pub panics : {A : Type 0} → M A
panics h = (panic, h)

abbrev pub or_panic : {A : Type 0} → Option A → M A
or_panic none = panics
or_panic (some a) = pure a

module _ (host : Host) where
  abbrev pub call : Call → M Answer
  call c h = (ok (host h c), c ∷ h)

  -- A call whose error is returned.
  abbrev pub ask : Call → M (List ℕ)
  ask c h = elim (host h c) [
    | done bytes ↦ (ok bytes, c ∷ h)
    | failed e ↦ (err transfer_failed, c ∷ h)
  ]

-- What a read that failed leaves is dropped.
abbrev pub bytes_or_none : Answer → List ℕ
bytes_or_none (done bytes) = bytes
bytes_or_none (failed e) = []

unfoldable pub control_type_of : ℕ → Option ControlType
control_type_of request_type =
    let k = request_type / 2 ^ 5 % 4 in
    if k == 0
    then some standard
    else if k == 1
    then some class
    else if k == 2
    then some vendor
    else none

unfoldable pub recipient_of : ℕ → Option Recipient
recipient_of request_type =
    let k = request_type % 32 in
    if k == 0
    then some Recipient.device
    else if k == 1
    then some interface
    else if k == 2
    then some Recipient.endpoint
    else if k == 3
    then some Recipient.other
    else none

unfoldable pub control_of : SetupPacket → M Control
control_of setup = do
  control_type ← or_panic (control_type_of setup.request_type)
  recipient ← or_panic (recipient_of setup.request_type)
  pure (record {
    control_type = control_type;
    recipient = recipient;
    request = setup.request;
    value = setup.value;
    index = setup.index;
  })

abbrev pub second : ℕ
second = 1000

abbrev pub bulk_in_poll_timeout : ℕ
bulk_in_poll_timeout = 20

abbrev pub interrupt_in_poll_timeout : ℕ
interrupt_in_poll_timeout = 20
