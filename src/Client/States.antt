-- ===== src/Client/States.antt =====
-- What src/client.rs shows of the devices of a server: those listed, with the local ports that they
-- are attached to and the clients that have them.
use lusbip.Base.{
  Bool, true, false, not, ◌&&◌, ◌||◌, List, [], ◌∷◌, ◌++◌, map, Option, none, some, if◌then◌else◌,
  Text, text_eq, any, find, retain,
}
use lusbip.Client.Texts.{to_ascii_lowercase}
use lusbip.Client.Listing.{
  RemoteUsbDevice, AttachedUsbPort, extract_vid_pid, extract_occupied_by, unique_remote_devices,
  filter_map,
}

pub record RemoteUsbDeviceState : Type 0 where
  pub device : RemoteUsbDevice
  pub attached_port : Option Text
  pub occupied_by : Option Text

pub record AttachTarget : Type 0 where
  pub remote_host : Text
  pub bus_id : Option Text
  pub vid_pid : Option Text

-- `o.as_deref() == Some(s)`.
unfoldable pub is_text : Option Text → Text → Bool
is_text none s = false
is_text (some t) s = text_eq t s

unfoldable pub is_none : Option Text → Bool
is_none none = true
is_none (some t) = false

unfoldable pub vid_pid_matches : Option Text → Option Text → Bool
vid_pid_matches none port = false
vid_pid_matches (some device) none = false
vid_pid_matches (some device) (some port) = text_eq device port

unfoldable pub port_matches_remote_device :
    Text → RemoteUsbDevice → Option Text → AttachedUsbPort → Bool
port_matches_remote_device remote device vid_pid port =
    (is_text port.remote_host remote && is_text port.remote_bus_id device.bus_id)
    || (is_text port.remote_host remote && vid_pid_matches vid_pid port.vid_pid)
    || (is_none port.remote_host && vid_pid_matches vid_pid port.vid_pid)

unfoldable pub attached_port_belongs_to_remote : Text → AttachedUsbPort → Bool
attached_port_belongs_to_remote remote port =
    is_text port.remote_host remote || (is_none port.remote_host && not (is_none port.vid_pid))

-- `Attached USB/IP device`, and `attached-port-`.
abbrev pub attached_words : Text
attached_words =
    65 ∷ 116 ∷ 116 ∷ 97 ∷ 99 ∷ 104 ∷ 101 ∷ 100 ∷ 32 ∷ 85 ∷ 83 ∷ 66 ∷ 47 ∷ 73 ∷ 80 ∷ 32 ∷ 100 ∷ 101
    ∷ 118 ∷ 105 ∷ 99 ∷ 101 ∷ []

abbrev pub attached_port_words : Text
attached_port_words =
    97 ∷ 116 ∷ 116 ∷ 97 ∷ 99 ∷ 104 ∷ 101 ∷ 100 ∷ 45 ∷ 112 ∷ 111 ∷ 114 ∷ 116 ∷ 45 ∷ []

unfoldable pub attached_port_description : AttachedUsbPort → Text
attached_port_description port = elim port.vid_pid [
  | none ↦ attached_words
  | some vid_pid ↦ attached_words ++ (32 ∷ 40 ∷ vid_pid) ++ 41 ∷ []
]

unfoldable pub port_of : Option AttachedUsbPort → Option Text
port_of none = none
port_of (some p) = some p.port

unfoldable pub find_port : Text → List AttachedUsbPort → RemoteUsbDevice → Option Text
find_port remote ports device =
    port_of
      (find (port_matches_remote_device remote device (extract_vid_pid device.description)) ports)

-- A device of the list.
unfoldable pub listed_state : Text → List AttachedUsbPort → RemoteUsbDevice → RemoteUsbDeviceState
listed_state remote ports device = record {
  device = device;
  attached_port = find_port remote ports device;
  occupied_by = extract_occupied_by device.description;
}

-- A port of the server that no device of the list was found for.
unfoldable pub port_state : AttachedUsbPort → RemoteUsbDeviceState
port_state port = record {
  device = record {
    bus_id = elim port.remote_bus_id [
      | none ↦ attached_port_words ++ port.port
      | some bus_id ↦ bus_id
    ];
    description = attached_port_description port;
  };
  attached_port = some port.port;
  occupied_by = none;
}

unfoldable pub remote_device_states :
    Text → List RemoteUsbDevice → List AttachedUsbPort → List RemoteUsbDeviceState
remote_device_states remote listed ports =
    let devices = unique_remote_devices listed in
    let used_ports = filter_map (find_port remote ports) devices in
    map (listed_state remote ports) devices
    ++ map port_state (
        retain
          (λ port.
            not (any (text_eq port.port) used_ports) && attached_port_belongs_to_remote remote port)
          ports)

-- `occupancy.get(bus_id)`: of the entries of a key the last one.
unfoldable pub occupant : Text → List (Text × Text) → Option Text
occupant bus_id [] = none
occupant bus_id ((key, client) ∷ rest) = elim (occupant bus_id rest) [
  | some later ↦ some later
  | none ↦ if text_eq key bus_id then some client else none
]

unfoldable pub with_occupancy : List (Text × Text) → RemoteUsbDeviceState → RemoteUsbDeviceState
with_occupancy occupancy state = elim (occupant state.device.bus_id occupancy) [
  | none ↦ state
  | some client ↦ record state { occupied_by = some client }
]

unfoldable pub apply_remote_occupancy :
    List RemoteUsbDeviceState → List (Text × Text) → List RemoteUsbDeviceState
apply_remote_occupancy states occupancy = map (with_occupancy occupancy) states

unfoldable pub should_detach : AttachedUsbPort → AttachTarget → Bool
should_detach port target =
    let bus_matches : Bool = elim target.bus_id [
      | none ↦ false
      | some bus_id ↦ is_text port.remote_bus_id bus_id
    ] in
    let matches_vid_pid : Bool = elim target.vid_pid [
      | none ↦ false
      | some vid_pid ↦ is_text port.vid_pid (to_ascii_lowercase vid_pid)
    ] in
    if not (is_text port.remote_host target.remote_host)
    then is_none port.remote_host && matches_vid_pid
    else if is_none target.bus_id && is_none target.vid_pid
    then true
    else bus_matches || matches_vid_pid

unfoldable pub ports_to_detach : List AttachedUsbPort → AttachTarget → List Text
ports_to_detach ports target = map (λ p. p.port) (retain (λ p. should_detach p target) ports)

unfoldable pub ports_to_detach_for_missing_remote_devices :
    Text → List RemoteUsbDevice → List AttachedUsbPort → List Text
ports_to_detach_for_missing_remote_devices remote devices ports =
    map (λ p. p.port)
      (retain
        (λ p. is_text p.remote_host remote && elim p.remote_bus_id [
          | none ↦ true
          | some bus_id ↦ not (any (λ (d : RemoteUsbDevice). text_eq d.bus_id bus_id) devices)
        ])
        ports)
