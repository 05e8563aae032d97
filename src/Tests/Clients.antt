-- ===== src/Tests/Clients.antt =====
-- The client of src/client.rs, the lists of src/tui.rs and the agent of src/client_agent.rs at concrete
-- inputs.
use lusbip.Base.{not, any, text_eq, ◌≡◌, refl, true, [], ◌∷◌, ◌++◌, some, Text}
use lusbip.Agent.Control.{TuiItem, strip_prefix}
use lusbip.Client.Listing.{
  RemoteUsbDevice, AttachedUsbPort, extract_vid_pid, is_vid_pid, all_chars, extract_occupied_by,
}
use lusbip.Client.States.{is_text, is_none, find_port}
use lusbip.Client.Texts.{
  split_once, to_ascii_lowercase, onto_left, is_whitespace, is_empty, is_ascii_hexdigit, ◌>>=◌,
}
use lusbip.Client.Shown.{is_of_kind, find_port-twin}
use lusbip.Client.Occupied.{extract_occupied_by-occupied_product}
use lusbip.Registry.Devlist.{occupied_product}
use lusbip.Client.Commands.{Runner}
use lusbip.Agent.Session.{toggle}
use lusbip.Agent.Managed.{AreAllowed, toggle-AreAllowed}

-- The server `h`, and the port `0` with its device `1-1`.
abbrev remote : Text
remote = 104 ∷ []

-- `1a2b:3c4d`, and `(1A2B:3C4D)`.
abbrev vid_pid : Text
vid_pid = 49 ∷ 97 ∷ 50 ∷ 98 ∷ 58 ∷ 51 ∷ 99 ∷ 52 ∷ 100 ∷ []

abbrev twin : RemoteUsbDevice
twin = record {
  bus_id = 49 ∷ 45 ∷ 50 ∷ [];
  description = 40 ∷ 49 ∷ 65 ∷ 50 ∷ 66 ∷ 58 ∷ 51 ∷ 67 ∷ 52 ∷ 68 ∷ 41 ∷ [];
}

abbrev other_twin : RemoteUsbDevice
other_twin = record twin { bus_id = 49 ∷ 45 ∷ 51 ∷ [] }

abbrev port : AttachedUsbPort
port = record {
  port = 48 ∷ [];
  remote_host = some remote;
  remote_bus_id = some (49 ∷ 45 ∷ 49 ∷ []);
  vid_pid = some vid_pid;
}

find_port-twin_example :
    (find_port remote (port ∷ []) twin ≡ find_port remote (port ∷ []) other_twin)
    × (is_none (find_port remote (port ∷ []) other_twin)
        ≡ not (any (is_of_kind remote vid_pid) (port ∷ [])))
unfolding extract_vid_pid split_once onto_left to_ascii_lowercase ◌>>=◌ strip_prefix is_vid_pid
    all_chars is_ascii_hexdigit any is_text text_eq
find_port-twin_example =
    find_port-twin remote vid_pid twin other_twin (port ∷ []) refl refl refl refl

abbrev first_item : TuiItem
first_item = record { id = 49 ∷ []; label = [] }

abbrev second_item : TuiItem
second_item = record { id = 50 ∷ []; label = [] }

-- A runner whose commands all go well and print nothing.
abbrev quiet : Runner
quiet h c = some (record { success = true; stdout = []; stderr = [] })

toggle-AreAllowed_example :
    AreAllowed ((48 ∷ []) ∷ []) (toggle quiet remote 3240 (49 ∷ 45 ∷ 49 ∷ []) ((48 ∷ []) ∷ []) []).2
toggle-AreAllowed_example = toggle-AreAllowed quiet remote 3240 ((48 ∷ []) ∷ []) (49 ∷ 45 ∷ 49 ∷ [])

-- `a: b [occupied by 9] c`.
extract_occupied_by-occupied_product_example :
    extract_occupied_by
      ((97 ∷ 58 ∷ 32 ∷ []) ++ (occupied_product (some (98 ∷ [])) (57 ∷ []) ++ 32 ∷ 99 ∷ []))
    ≡ some (57 ∷ [])
unfolding all_chars is_whitespace is_empty
extract_occupied_by-occupied_product_example =
    extract_occupied_by-occupied_product (97 ∷ 58 ∷ 32 ∷ []) (98 ∷ []) (57 ∷ []) (32 ∷ 99 ∷ []) refl
      refl refl refl refl
