-- ===== src/Server/Status.antt =====
-- What src/server.rs tells of its devices: the rows and the text of its status, and the answer of its
-- occupancy port, which clients read. Addresses are texts.
use lusbip.Base.{
  ℕ, ◌+◌, ◌/◌, ◌%◌, ◌^◌, Bool, List, [], ◌∷◌, ◌++◌, map, Option, none, some, Text, ltb,
  if◌then◌else◌, retain,
}
use lusbip.Client.States.{occupant}
use lusbip.Server.Filter.{DeviceInfo, ServerDeviceFilter, matches, export_bus_id}

pub record SharedDeviceView : Type 0 where
  pub bus_id : Text
  pub vid_pid : Text
  pub product : Text
  pub client : Option Text

-- `occupied by `, `available`, ` | ` and `Unknown`.
abbrev pub occupied_word : Text
occupied_word = 111 ∷ 99 ∷ 99 ∷ 117 ∷ 112 ∷ 105 ∷ 101 ∷ 100 ∷ 32 ∷ 98 ∷ 121 ∷ 32 ∷ []

abbrev pub available_word : Text
available_word = 97 ∷ 118 ∷ 97 ∷ 105 ∷ 108 ∷ 97 ∷ 98 ∷ 108 ∷ 101 ∷ []

abbrev pub bar : Text
bar = 32 ∷ 124 ∷ 32 ∷ []

abbrev pub unknown_word : Text
unknown_word = 85 ∷ 110 ∷ 107 ∷ 110 ∷ 111 ∷ 119 ∷ 110 ∷ []

unfoldable pub status_of : Option Text → Text
status_of none = available_word
status_of (some client) = occupied_word ++ client

unfoldable pub format_shared_device_row : SharedDeviceView → Text
format_shared_device_row device =
    device.bus_id
    ++ (bar ++ (device.vid_pid ++ (bar ++ (device.product ++ (bar ++ status_of device.client)))))

-- A digit of `{:04x}`, and its four of a `u16`.
unfoldable pub hex_digit : ℕ → ℕ
hex_digit d = if ltb d 10 then 48 + d else 87 + d

unfoldable pub hex_word : ℕ → Text
hex_word n =
    hex_digit (n / 16 ^ 3 % 16)
    ∷ hex_digit (n / 16 ^ 2 % 16)
    ∷ hex_digit (n / 16 % 16)
    ∷ hex_digit (n % 16)
    ∷ []

unfoldable pub product_of : Option Text → Text
product_of none = unknown_word
product_of (some product) = product

unfoldable pub shared_device_view : Bool → DeviceInfo → SharedDeviceView
shared_device_view linux device = record {
  bus_id = export_bus_id linux device;
  vid_pid = hex_word device.vendor_id ++ 58 ∷ hex_word device.product_id;
  product = product_of device.product_string;
  client = none;
}

unfoldable pub shared_device_views :
    Bool → ServerDeviceFilter → List DeviceInfo → List SharedDeviceView
shared_device_views linux filter devices =
    map (shared_device_view linux) (retain (matches linux filter) devices)

-- The first lines of the status, without their ends.
abbrev pub listening : Text
listening =
    76 ∷ 85 ∷ 83 ∷ 66 ∷ 73 ∷ 80 ∷ 32 ∷ 85 ∷ 83 ∷ 66 ∷ 47 ∷ 73 ∷ 80 ∷ 32 ∷ 115 ∷ 101 ∷ 114 ∷ 118
    ∷ 101 ∷ 114 ∷ 32 ∷ 108 ∷ 105 ∷ 115 ∷ 116 ∷ 101 ∷ 110 ∷ 105 ∷ 110 ∷ 103 ∷ 32 ∷ 111 ∷ 110 ∷ 32
    ∷ []

abbrev pub keys_line : Text
keys_line =
    69 ∷ 115 ∷ 99 ∷ 58 ∷ 32 ∷ 98 ∷ 97 ∷ 99 ∷ 107 ∷ 103 ∷ 114 ∷ 111 ∷ 117 ∷ 110 ∷ 100 ∷ 32 ∷ 124 ∷ 32
    ∷ 67 ∷ 116 ∷ 114 ∷ 108 ∷ 43 ∷ 67 ∷ 58 ∷ 32 ∷ 115 ∷ 116 ∷ 111 ∷ 112 ∷ 32 ∷ 97 ∷ 110 ∷ 100 ∷ 32
    ∷ 114 ∷ 101 ∷ 108 ∷ 101 ∷ 97 ∷ 115 ∷ 101 ∷ 32 ∷ 100 ∷ 101 ∷ 118 ∷ 105 ∷ 99 ∷ 101 ∷ 115 ∷ 46 ∷ []

abbrev pub heading : Text
heading =
    66 ∷ 117 ∷ 115 ∷ 32 ∷ 73 ∷ 68 ∷ 32 ∷ 124 ∷ 32 ∷ 86 ∷ 73 ∷ 68 ∷ 58 ∷ 80 ∷ 73 ∷ 68 ∷ 32 ∷ 124 ∷ 32
    ∷ 80 ∷ 114 ∷ 111 ∷ 100 ∷ 117 ∷ 99 ∷ 116 ∷ 32 ∷ 124 ∷ 32 ∷ 83 ∷ 116 ∷ 97 ∷ 116 ∷ 117 ∷ 115 ∷ []

abbrev pub ruler : Text
ruler =
    45 ∷ 45 ∷ 45 ∷ 45 ∷ 45 ∷ 45 ∷ 45 ∷ 45 ∷ 45 ∷ 45 ∷ 45 ∷ 45 ∷ 45 ∷ 45 ∷ 45 ∷ 45 ∷ 45 ∷ 45 ∷ 45
    ∷ 45 ∷ 45 ∷ 45 ∷ 45 ∷ 45 ∷ 45 ∷ 45 ∷ 45 ∷ 45 ∷ 45 ∷ 45 ∷ 45 ∷ 45 ∷ 45 ∷ 45 ∷ 45 ∷ 45 ∷ []

abbrev pub not_refreshed : Text
not_refreshed =
    85 ∷ 110 ∷ 97 ∷ 98 ∷ 108 ∷ 101 ∷ 32 ∷ 116 ∷ 111 ∷ 32 ∷ 114 ∷ 101 ∷ 102 ∷ 114 ∷ 101 ∷ 115 ∷ 104
    ∷ 32 ∷ 85 ∷ 83 ∷ 66 ∷ 32 ∷ 108 ∷ 105 ∷ 115 ∷ 116 ∷ 58 ∷ 32 ∷ []

abbrev pub nothing_shared : Text
nothing_shared =
    40 ∷ 110 ∷ 111 ∷ 32 ∷ 109 ∷ 97 ∷ 116 ∷ 99 ∷ 104 ∷ 105 ∷ 110 ∷ 103 ∷ 32 ∷ 85 ∷ 83 ∷ 66 ∷ 32 ∷ 100
    ∷ 101 ∷ 118 ∷ 105 ∷ 99 ∷ 101 ∷ 115 ∷ 32 ∷ 99 ∷ 117 ∷ 114 ∷ 114 ∷ 101 ∷ 110 ∷ 116 ∷ 108 ∷ 121
    ∷ 32 ∷ 112 ∷ 108 ∷ 117 ∷ 103 ∷ 103 ∷ 101 ∷ 100 ∷ 32 ∷ 105 ∷ 110 ∷ 41 ∷ []

abbrev pub line_end : Text
line_end = 13 ∷ 10 ∷ []

unfoldable pub status_head : Text → Text
status_head addr =
    listening
    ++ (addr
        ++ (line_end
            ++ (keys_line
                ++ (line_end ++ (line_end ++ (heading ++ (line_end ++ (ruler ++ line_end))))))))

unfoldable pub status_rows : List (Text × Text) → List SharedDeviceView → Text
status_rows occupancy [] = []
status_rows occupancy (view ∷ views) =
    format_shared_device_row (record view { client = occupant view.bus_id occupancy })
    ++ (line_end ++ status_rows occupancy views)

unfoldable pub status_body : List (Text × Text) → List SharedDeviceView → Text
status_body occupancy [] = nothing_shared ++ line_end
status_body occupancy (view ∷ views) = status_rows occupancy (view ∷ views)

-- What nusb lists: devices, or the words of an error.
pub data Listed : Type 0 where
  devices : List DeviceInfo → Listed
  refused : Text → Listed

unfoldable pub build_server_status :
    Bool → Text → ServerDeviceFilter → List (Text × Text) → Listed → Text
build_server_status linux addr filter occupancy (devices infos) =
    status_head addr ++ status_body occupancy (shared_device_views linux filter infos)
build_server_status linux addr filter occupancy (refused error) =
    status_head addr ++ (not_refreshed ++ (error ++ (line_end ++ status_body occupancy [])))

-- The answer of `serve_occupancy_status`: a line for each entry of the map, in its order.
unfoldable pub occupancy_status : List (Text × Text) → Text
occupancy_status [] = []
occupancy_status ((bus_id, client) ∷ rest) = bus_id ++ 9 ∷ (client ++ 10 ∷ occupancy_status rest)
