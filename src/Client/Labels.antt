-- ===== src/Client/Labels.antt =====
-- The labels of devices in the lists of src/tui.rs: `format_remote_device_state` of src/client.rs
-- writes them, `attached_port_from_label` of src/client_agent.rs reads the port from one, and
-- `optimistic_toggle_label` of src/tui.rs changes one before its action is done.
use lusbip.Base.{
  ℕ, ◌≡◌, refl, ap, Bool, true, false, not, [], ◌∷◌, ◌++◌, Option, none, some, ◌==◌, Text, arith,
}
use lusbip.Agent.Control.{strip_prefix}
use lusbip.Client.Texts.{split_once, onto_left, ◌>>=◌}
use lusbip.Client.Listing.{RemoteUsbDevice, all_chars}
use lusbip.Client.States.{RemoteUsbDeviceState}

-- `[x]`, ` port `, `[!] locked by `, `[ ]` and ` | `.
abbrev pub checked : Text
checked = 91 ∷ 120 ∷ 93 ∷ []

abbrev pub checked_port : Text
checked_port = 91 ∷ 120 ∷ 93 ∷ 32 ∷ 112 ∷ 111 ∷ 114 ∷ 116 ∷ 32 ∷ []

abbrev pub locked_by : Text
locked_by = 91 ∷ 33 ∷ 93 ∷ 32 ∷ 108 ∷ 111 ∷ 99 ∷ 107 ∷ 101 ∷ 100 ∷ 32 ∷ 98 ∷ 121 ∷ 32 ∷ []

abbrev pub unchecked : Text
unchecked = 91 ∷ 32 ∷ 93 ∷ []

abbrev pub bar : Text
bar = 32 ∷ 124 ∷ 32 ∷ []

unfoldable pub state_status : Option Text → Option Text → Text
state_status (some port) occupied_by = checked_port ++ port
state_status none (some client) = locked_by ++ client
state_status none none = unchecked

-- `{bus_id} | {description}`.
unfoldable pub device_text : RemoteUsbDevice → Text
device_text device = device.bus_id ++ (bar ++ device.description)

unfoldable pub format_remote_device_state : RemoteUsbDeviceState → Text
format_remote_device_state s =
    state_status s.attached_port s.occupied_by ++ (bar ++ device_text s.device)

unfoldable pub attached_port_from_label : Text → Option Text
attached_port_from_label label = do
  rest ← strip_prefix checked_port label
  (port, right) ← split_once bar rest
  some port

unfoldable pub after_bar : Text → Text
after_bar rest = elim (split_once bar rest) [ none ↦ rest | some (left, right) ↦ right ]

-- `strip_prefix` of the first text, then the second in its place, or the label as it is.
unfoldable pub replace_prefix : Text → Text → Text → Text
replace_prefix from to label = elim (strip_prefix from label) [
  | none ↦ label
  | some rest ↦ to ++ rest
]

unfoldable pub optimistic_toggle_label : Text → Bool → Text
optimistic_toggle_label label true = replace_prefix unchecked checked label
optimistic_toggle_label label false = elim (strip_prefix checked_port label) [
  | some rest ↦ unchecked ++ (bar ++ after_bar rest)
  | none ↦ replace_prefix checked unchecked label
]

-- Ports have no space in their names.
abbrev pub HasNoSpace : Text → Type 0
HasNoSpace port = all_chars (λ c. not (c == 32)) port ≡ true

strip_prefix-bar : (c : ℕ) (s : Text) → (c == 32) ≡ false → strip_prefix bar (c ∷ s) ≡ none
unfolding strip_prefix
strip_prefix-bar c s h = let e : (32 == c) ≡ false = ground (arith, h) in rw e refl

split_once-bar :
    (port s : Text) → HasNoSpace port → split_once bar (port ++ (bar ++ s)) ≡ some (port, s)
unfolding split_once strip_prefix all_chars onto_left
split_once-bar [] s h = refl
split_once-bar (c ∷ cs) s h =
    let e : (c == 32) ≡ false = ground arith in
    let k : HasNoSpace cs = ground arith in
    rw (strip_prefix-bar c (cs ++ (bar ++ s)) e, split_once)
      (ap (onto_left c) (split_once-bar cs s k))

module _ (device : RemoteUsbDevice) (port : Text) (client : Option Text)
    (named : HasNoSpace port) where
  -- The label of a device at a port, whose name has no space, is read back as that port; and the
  -- label that is shown while the device is being detached is the one of the device with no port
  -- and no client.
  pub attached_port_from_label-format :
      let s : RemoteUsbDeviceState = record {
        device = device;
        attached_port = some port;
        occupied_by = client;
      } in
      (attached_port_from_label (format_remote_device_state s) ≡ some port)
      × (optimistic_toggle_label (format_remote_device_state s) false
          ≡ format_remote_device_state
              (record { device = device; attached_port = none; occupied_by = none }))
  unfolding attached_port_from_label format_remote_device_state optimistic_toggle_label state_status
      after_bar strip_prefix ◌>>=◌
  attached_port_from_label-format =
      let b = split_once-bar port (device_text device) named in (rw b refl, rw (b, after_bar) refl)
