-- ===== src/Client/Listing.antt =====
-- What src/client.rs reads from the output of `usbip list`, of `usbip port` and of the server's
-- status of occupancy.
use lusbip.Base.{
  ℕ, Bool, true, ◌&&◌, ◌||◌, List, [], ◌∷◌, ◌++◌, Option, none, some, ◌==◌, if◌then◌else◌, Text,
  text_eq, any, length, get_or,
}
use lusbip.Agent.Control.{strip_prefix}
use lusbip.Client.Texts.{
  trim, is_empty, starts_with, lines, split_once, first_word, to_ascii_lowercase, is_ascii_hexdigit,
  ◌>>=◌,
}

pub record RemoteUsbDevice : Type 0 where
  pub bus_id : Text
  pub description : Text

pub record AttachedUsbPort : Type 0 where
  pub port : Text
  pub remote_host : Option Text
  pub remote_bus_id : Option Text
  pub vid_pid : Option Text

-- The words that the two functions below look for: Exportable, `Port `, `usbip://` and
-- `[occupied by `.
abbrev exportable : Text
exportable = 69 ∷ 120 ∷ 112 ∷ 111 ∷ 114 ∷ 116 ∷ 97 ∷ 98 ∷ 108 ∷ 101 ∷ []

abbrev port_word : Text
port_word = 80 ∷ 111 ∷ 114 ∷ 116 ∷ 32 ∷ []

abbrev usbip_url : Text
usbip_url = 117 ∷ 115 ∷ 98 ∷ 105 ∷ 112 ∷ 58 ∷ 47 ∷ 47 ∷ []

abbrev pub occupied_by_word : Text
occupied_by_word = 91 ∷ 111 ∷ 99 ∷ 99 ∷ 117 ∷ 112 ∷ 105 ∷ 101 ∷ 100 ∷ 32 ∷ 98 ∷ 121 ∷ 32 ∷ []

unfoldable pub all_chars : (ℕ → Bool) → Text → Bool
all_chars p [] = true
all_chars p (c ∷ cs) = p c && all_chars p cs

-- The test on the bytes in the brackets; where all characters are ASCII these are the characters.
unfoldable pub is_vid_pid : Text → Bool
is_vid_pid value =
    length value == 9
    && get_or value 4 0 == 58
    && all_chars (λ c. c == 58 || is_ascii_hexdigit c) value

unfoldable pub extract_vid_pid : Text → Option Text
extract_vid_pid line = do
  (left, rest) ← split_once (40 ∷ []) line
  (value, right) ← split_once (41 ∷ []) rest
  if is_vid_pid value then some (to_ascii_lowercase value) else none

unfoldable pub before_colon : Text → Text
before_colon s = elim (split_once (58 ∷ []) s) [ none ↦ s | some (left, right) ↦ left ]

unfoldable pub extract_usbip_url : Text → Option (Text × Text)
extract_usbip_url line = do
  (left, url) ← split_once usbip_url line
  (host_port, path) ← split_once (47 ∷ []) url
  word ← first_word path
  let host = trim (before_colon host_port)
  let bus_id = trim word
  if is_empty host || is_empty bus_id then none else some (host, bus_id)

unfoldable pub extract_occupied_by : Text → Option Text
extract_occupied_by description = do
  (left, rest) ← split_once occupied_by_word description
  (client, right) ← split_once (93 ∷ []) rest
  if is_empty (trim client) then none else some (trim client)

unfoldable pub unique_from : List Text → List RemoteUsbDevice → List RemoteUsbDevice
unique_from seen [] = []
unique_from seen (d ∷ ds) =
    let fresh = d ∷ unique_from (d.bus_id ∷ seen) ds in
    let rest = unique_from seen ds in if any (text_eq d.bus_id) seen then rest else fresh

unfoldable pub unique_remote_devices : List RemoteUsbDevice → List RemoteUsbDevice
unique_remote_devices devices = unique_from [] devices

unfoldable pub listed_device : Text → Text → Option RemoteUsbDevice
listed_device bus_id description =
    if is_empty bus_id || is_empty description
    then none
    else some (record { bus_id = bus_id; description = description })

-- A line of the list, without the spaces around it.
unfoldable pub listed_line : Text → Option RemoteUsbDevice
listed_line trimmed =
    if is_empty trimmed
      || starts_with exportable trimmed
      || starts_with (61 ∷ []) trimmed
      || starts_with (45 ∷ []) trimmed
      || starts_with (58 ∷ []) trimmed
    then none
    else elim (split_once (58 ∷ []) trimmed) [
      | none ↦ none
      | some (bus_id, description) ↦ listed_device (trim bus_id) (trim description)
    ]

unfoldable pub onto_some {ℓ} : {A : Type ℓ} → Option A → List A → List A
onto_some none rest = rest
onto_some (some a) rest = a ∷ rest

unfoldable pub filter_map {ℓ κ} : {A : Type ℓ} {B : Type κ} → (A → Option B) → List A → List B
filter_map f [] = []
filter_map f (x ∷ xs) = onto_some (f x) (filter_map f xs)

unfoldable pub parse_usbip_list_output : Text → List RemoteUsbDevice
parse_usbip_list_output stdout =
    unique_remote_devices (filter_map (λ line. listed_line (trim line)) (lines stdout))

unfoldable pub new_port : Text → AttachedUsbPort
new_port rest = record {
  port = trim (before_colon rest);
  remote_host = none;
  remote_bus_id = none;
  vid_pid = none;
}

unfoldable pub with_vid_pid : Text → AttachedUsbPort → AttachedUsbPort
with_vid_pid trimmed p = elim p.vid_pid [
  | some v ↦ p
  | none ↦ record p { vid_pid = extract_vid_pid trimmed }
]

unfoldable pub with_url : Text → AttachedUsbPort → AttachedUsbPort
with_url trimmed p = elim (extract_usbip_url trimmed) [
  | none ↦ p
  | some (host, bus_id) ↦ record p { remote_host = some host; remote_bus_id = some bus_id }
]

unfoldable pub take_port : Option AttachedUsbPort → List AttachedUsbPort
take_port none = []
take_port (some p) = p ∷ []

-- The loop over the lines, with the port that the lines describe.
unfoldable pub read_ports : Option AttachedUsbPort → List Text → List AttachedUsbPort
read_ports current [] = take_port current
read_ports current (line ∷ rest) =
    let trimmed = trim line in
    elim (strip_prefix port_word trimmed) [
      | some named ↦ take_port current ++ read_ports (some (new_port named)) rest
      | none ↦ elim current [
        | none ↦ read_ports none rest
        | some p ↦ read_ports (some (with_url trimmed (with_vid_pid trimmed p))) rest
      ]
    ]

unfoldable pub parse_usbip_port_output : Text → List AttachedUsbPort
parse_usbip_port_output stdout = read_ports none (lines stdout)

unfoldable pub occupancy_line : Text → Option (Text × Text)
occupancy_line line = do
  (bus_id, client) ← split_once (9 ∷ []) line
  if is_empty (trim bus_id) || is_empty (trim client) then none else some (trim bus_id, trim client)

-- The map that `collect` builds keeps the last value of a key; it is an association list here, in
-- which a lookup takes the last entry.
unfoldable pub parse_remote_occupancy_status : Text → List (Text × Text)
parse_remote_occupancy_status status = filter_map occupancy_line (lines status)
