-- ===== src/Client/Commands.antt =====
-- The commands that src/client.rs runs. The runner of src/process.rs is an argument that answers each
-- command from those before it; a function also gives the commands run so far, latest first. Of an
-- error there is the cause, not the words.
use lusbip.Base.{ℕ, Bool, List, [], ◌∷◌, Option, none, some, if◌then◌else◌, Text, text_eq, any}
use lusbip.Client.Listing.{
  RemoteUsbDevice, AttachedUsbPort, parse_usbip_list_output, parse_usbip_port_output,
  extract_vid_pid, filter_map,
}
use lusbip.Client.States.{RemoteUsbDeviceState, AttachTarget, ports_to_detach}

-- `usbip list -r`, `usbip port`, `sudo -n usbip attach -r .. -b ..` and `sudo -n usbip detach -p ..`.
pub data Command : Type 0 where
  list_remote : Text → ℕ → Command
  list_ports : Command
  attach : Text → ℕ → Text → Command
  detach : Text → Command

pub record Output : Type 0 where
  pub success : Bool
  pub stdout : Text
  pub stderr : Text

abbrev pub Runner : Type 0
Runner = List Command → Command → Option Output

pub data ClientError : Type 0 where
  not_executed : ClientError
  failed : Output → ClientError
  occupied not_managed not_identified : Text → ClientError
  not_available : ClientError
  not_detached : List Text → ClientError

pub data Result (A : Type 0) : Type 0 where
  ok : A → Result A
  err : ClientError → Result A

-- What a command that ran has done, read by a function of its output.
unfoldable pub read_output : {A : Type 0} → (Text → A) → Option Output → Result A
read_output f none = err not_executed
read_output f (some output) = if output.success then ok (f output.stdout) else err (failed output)

module _ (runner : Runner) where
  unfoldable pub query_remote_devices :
      Text → ℕ → List Command → Result (List RemoteUsbDevice) × List Command
  query_remote_devices remote tcp_port h = (
    read_output parse_usbip_list_output (runner h (list_remote remote tcp_port)),
    list_remote remote tcp_port ∷ h,
  )

  unfoldable pub query_attached_ports : List Command → Result (List AttachedUsbPort) × List Command
  query_attached_ports h =
      (read_output parse_usbip_port_output (runner h list_ports), list_ports ∷ h)

  unfoldable pub detach_port : Text → List Command → Result Unit × List Command
  detach_port port h = (read_output (λ s. tt) (runner h (detach port)), detach port ∷ h)

  unfoldable pub attach_remote_device : Text → ℕ → Text → List Command → Result Unit × List Command
  attach_remote_device remote tcp_port bus_id h = (
    read_output (λ s. tt) (runner h (attach remote tcp_port bus_id)),
    attach remote tcp_port bus_id ∷ h,
  )

  -- The loop of `auto_detach_matching_ports`, which an error ends.
  unfoldable pub detach_each : List Text → List Command → Result Unit × List Command
  detach_each [] h = (ok tt, h)
  detach_each (port ∷ ports) h =
      let (r, t) = detach_port port h in
      let rest = detach_each ports t in elim r [ err e ↦ (err e, t) | ok u ↦ rest ]

  -- `toggle_remote_device` where the device is free. The ports that `query_attached_ports_resilient`
  -- finds are an argument.
  unfoldable pub attach_free :
      Text → ℕ → RemoteUsbDevice → List AttachedUsbPort → List Command → Result Unit × List Command
  attach_free remote tcp_port device ports h =
      let target : AttachTarget = record {
        remote_host = remote;
        bus_id = some device.bus_id;
        vid_pid = extract_vid_pid device.description;
      } in
      let (r, t) = detach_each (ports_to_detach ports target) h in
      let last = attach_remote_device remote tcp_port device.bus_id t in
      elim r [ err e ↦ (err e, t) | ok u ↦ last ]

  unfoldable pub toggle_remote_device :
      Text
      → ℕ
      → RemoteUsbDeviceState
      → List AttachedUsbPort
      → List Command
      → Result Unit × List Command
  toggle_remote_device remote tcp_port selected ports h = elim selected.attached_port [
    | some port ↦ detach_port port h
    | none ↦ elim selected.occupied_by [
      | some client ↦ (err (occupied client), h)
      | none ↦ attach_free remote tcp_port selected.device ports h
    ]
  ]

-- `detached`: the ports of the states, each once.
unfoldable pub unique_ports : List Text → List Text → List Text
unique_ports seen [] = []
unique_ports seen (p ∷ ps) =
    let fresh = p ∷ unique_ports (p ∷ seen) ps in
    let rest = unique_ports seen ps in if any (text_eq p) seen then rest else fresh

-- The commands of `detach_attached_remote_devices_on_exit` once the states are known.
unfoldable pub detach_attached_remote_devices_on_exit :
    Runner → List RemoteUsbDeviceState → List Command → Result Unit × List Command
detach_attached_remote_devices_on_exit runner states h =
    detach_each runner (unique_ports [] (filter_map (λ s. s.attached_port) states)) h
