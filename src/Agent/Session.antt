-- ===== src/Agent/Session.antt =====
-- The background agent of src/client_agent.rs: what `toggle` and `shutdown` do with the ports that
-- the agent has attached itself. The set of these is a list without repetition in the order of the
-- set.
use lusbip.Base.{
  ℕ, Bool, true, false, not, ◌&&◌, ◌||◌, List, [], ◌∷◌, map, Option, none, some, ◌==◌, ltb,
  if◌then◌else◌, Text, text_eq, any, find, retain,
}
use lusbip.Agent.Control.{TuiItem}
use lusbip.Client.Listing.{RemoteUsbDevice, AttachedUsbPort}
use lusbip.Client.States.{
  RemoteUsbDeviceState, is_text, remote_device_states, attached_port_belongs_to_remote,
}
use lusbip.Client.Labels.{format_remote_device_state, attached_port_from_label}
use lusbip.Client.Commands.{
  Command, Runner, ClientError, occupied, not_managed, not_identified, not_available, not_detached,
  Result, ok, err, query_remote_devices, query_attached_ports, detach_port, attach_remote_device,
}

-- The order of texts, and `BTreeSet::insert` and `remove`.
unfoldable pub text_lt : Text → Text → Bool
text_lt [] [] = false
text_lt [] (d ∷ ds) = true
text_lt (c ∷ cs) [] = false
text_lt (c ∷ cs) (d ∷ ds) = ltb c d || (c == d && text_lt cs ds)

unfoldable pub insert_text : Text → List Text → List Text
insert_text p [] = p ∷ []
insert_text p (q ∷ qs) =
    let later = q ∷ insert_text p qs in
    if text_eq p q then q ∷ qs else if text_lt p q then p ∷ q ∷ qs else later

unfoldable pub remove_text : Text → List Text → List Text
remove_text p qs = retain (λ q. not (text_eq q p)) qs

-- What the agent answers: `ControlResponse::Message` or `ControlResponse::Error`.
pub data Answer : Type 0 where
  detached : Text → Answer
  attached : Text → Answer
  refused : ClientError → Answer

module _ (runner : Runner) (remote : Text) (tcp_port : ℕ) where
  unfoldable pub item_of : RemoteUsbDeviceState → TuiItem
  item_of s = record { id = s.device.bus_id; label = format_remote_device_state s }

  -- A list that fails is empty while a port of the server is attached.
  unfoldable pub listed_or_none :
      List AttachedUsbPort → Result (List RemoteUsbDevice) → Result (List RemoteUsbDevice)
  listed_or_none ports (ok devices) = ok devices
  listed_or_none ports (err e) =
      if any (attached_port_belongs_to_remote remote) ports then ok [] else err e

  unfoldable pub items_of :
      List AttachedUsbPort → Result (List RemoteUsbDevice) → Result (List TuiItem)
  items_of ports (ok devices) = ok (map item_of (remote_device_states remote devices ports))
  items_of ports (err e) = err e

  unfoldable pub snapshot_of :
      Result (List AttachedUsbPort) × List Command → Result (List TuiItem) × List Command
  snapshot_of (err e, h) = (err e, h)
  snapshot_of (ok ports, h) =
      let (listed, t) = query_remote_devices runner remote tcp_port h in
      (items_of ports (listed_or_none ports listed), t)

  unfoldable pub snapshot : List Command → Result (List TuiItem) × List Command
  snapshot h = snapshot_of (query_attached_ports runner h)

  unfoldable pub detach_answer :
      Text → List Text → Result Unit × List Command → Answer × List Text × List Command
  detach_answer port managed (ok u, h) = (detached port, remove_text port managed, h)
  detach_answer port managed (err e, h) = (refused e, managed, h)

  unfoldable pub detach_managed :
      Text → List Text → List Command → Answer × List Text × List Command
  detach_managed port managed h =
      if any (text_eq port) managed
      then detach_answer port managed (detach_port runner port h)
      else (refused (not_managed port), managed, h)

  unfoldable pub port_of_item : Option TuiItem → Option Text
  port_of_item none = none
  port_of_item (some item) = attached_port_from_label item.label

  unfoldable pub attached_answer :
      Text → List Text → Result (List TuiItem) × List Command → Answer × List Text × List Command
  attached_answer bus_id managed (err e, h) = (refused e, managed, h)
  attached_answer bus_id managed (ok items, h) =
      elim (port_of_item (find (λ i. text_eq i.id bus_id) items)) [
        | none ↦ (refused (not_identified bus_id), managed, h)
        | some port ↦ (attached bus_id, insert_text port managed, h)
      ]

  unfoldable pub after_attach :
      Text → List Text → Result Unit × List Command → Answer × List Text × List Command
  after_attach bus_id managed (err e, h) = (refused e, managed, h)
  after_attach bus_id managed (ok u, h) = attached_answer bus_id managed (snapshot h)

  unfoldable pub toggle_selected :
      Text
      → List Text
      → Option RemoteUsbDeviceState
      → List Command
      → Answer × List Text × List Command
  toggle_selected bus_id managed none h = (refused not_available, managed, h)
  toggle_selected bus_id managed (some selected) h = elim selected.attached_port [
    | some port ↦ detach_managed port managed h
    | none ↦ elim selected.occupied_by [
      | some client ↦ (refused (occupied client), managed, h)
      | none ↦ after_attach bus_id managed (attach_remote_device runner remote tcp_port bus_id h)
    ]
  ]

  unfoldable pub toggle_listed :
      Text
      → List Text
      → List AttachedUsbPort
      → Result (List RemoteUsbDevice) × List Command
      → Answer × List Text × List Command
  toggle_listed bus_id managed ports (err e, h) = (refused e, managed, h)
  toggle_listed bus_id managed ports (ok devices, h) =
      toggle_selected bus_id managed
        (find (λ s. text_eq s.device.bus_id bus_id) (remote_device_states remote devices ports)) h

  unfoldable pub toggle_ports :
      Text
      → List Text
      → Result (List AttachedUsbPort) × List Command
      → Answer × List Text × List Command
  toggle_ports bus_id managed (err e, h) = (refused e, managed, h)
  toggle_ports bus_id managed (ok ports, h) =
      elim (find (λ p. is_text p.remote_host remote && is_text p.remote_bus_id bus_id) ports) [
        | some port ↦ detach_managed port.port managed h
        | none ↦ toggle_listed bus_id managed ports (query_remote_devices runner remote tcp_port h)
      ]

  unfoldable pub toggle : Text → List Text → List Command → Answer × List Text × List Command
  toggle bus_id managed h = toggle_ports bus_id managed (query_attached_ports runner h)

-- A port of the loop of `shutdown`, before the others.
unfoldable pub shutdown_port :
    Text → Result Unit → List Text × List Text × List Command → List Text × List Text × List Command
shutdown_port port (ok u) later = later
shutdown_port port (err e) (failures, kept, h) = (port ∷ failures, port ∷ kept, h)

-- The loop of `shutdown`: the ports that could not be detached, and the ports that stay managed.
unfoldable pub shutdown_ports :
    Runner → List Text → List Command → List Text × List Text × List Command
shutdown_ports runner [] h = ([], [], h)
shutdown_ports runner (port ∷ ports) h =
    let (r, t) = detach_port runner port h in shutdown_port port r (shutdown_ports runner ports t)

unfoldable pub shutdown_result : List Text → Result Unit
shutdown_result [] = ok tt
shutdown_result (f ∷ fs) = err (not_detached (f ∷ fs))

unfoldable pub shutdown : Runner → List Text → List Command → Result Unit × List Text × List Command
shutdown runner managed h =
    let (failures, kept, t) = shutdown_ports runner managed h in (shutdown_result failures, kept, t)
