-- ===== src/Client/Shown.antt =====
-- Which ports and bus ids `remote_device_states` of src/client.rs shows.
use lusbip.Base.{
  ◌≡◌, refl, Bool, false, not, ◌&&◌, ◌||◌, List, [], ◌∷◌, ◌++◌, Option, none, some, Text, text_eq,
  text_eq_iff, any, find, arith,
}
use lusbip.Client.Listing.{RemoteUsbDevice, AttachedUsbPort, extract_vid_pid}
use lusbip.Client.States.{
  RemoteUsbDeviceState, is_text, is_none, vid_pid_matches, port_of, port_matches_remote_device,
  attached_port_belongs_to_remote, find_port,
}

pub any-append :
    {A : Type 0} (p : A → Bool) (xs ys : List A) → any p (xs ++ ys) ≡ (any p xs || any p ys)
unfolding any
any-append p [] ys = refl
any-append p (x ∷ xs) ys = ground (arith, any-append p xs ys)

pub text_eq_sym : (s t : Text) → text_eq s t ≡ text_eq t s
text_eq_sym s t = ground (arith, text_eq_iff s t, text_eq_iff t s)

-- A state shows the port `q`; such a port of the list belongs to the server; a device or a state
-- has the id `b`.
abbrev pub shows : Text → List RemoteUsbDeviceState → Bool
shows q states = any (λ s. is_text s.attached_port q) states

abbrev pub belongs : Text → Text → List AttachedUsbPort → Bool
belongs remote q ports =
    any (λ p. attached_port_belongs_to_remote remote p && text_eq p.port q) ports

abbrev pub is_listed : Text → List RemoteUsbDevice → Bool
is_listed b devices = any (λ d. text_eq d.bus_id b) devices

abbrev pub has_state : Text → List RemoteUsbDeviceState → Bool
has_state b states = any (λ s. text_eq s.device.bus_id b) states

-- The ports that no device was found for.
abbrev pub left_over : Text → List Text → AttachedUsbPort → Bool
left_over remote us p = not (any (text_eq p.port) us) && attached_port_belongs_to_remote remote p

-- A port of the server, or one whose server is not known, has the vendor and product `v`.
abbrev pub is_of_kind : Text → Text → AttachedUsbPort → Bool
is_of_kind remote v port =
    (is_text port.remote_host remote || is_none port.remote_host) && is_text port.vid_pid v

-- A port of the server that was attached from the bus id of `device` has another vendor or product.
abbrev pub is_changed : Text → Text → RemoteUsbDevice → AttachedUsbPort → Bool
is_changed remote v device port =
    is_text port.remote_host remote
    && is_text port.remote_bus_id device.bus_id
    && not (is_text port.vid_pid v)

matches_kind : (v : Text) (o : Option Text) → vid_pid_matches (some v) o ≡ is_text o v
unfolding vid_pid_matches is_text
matches_kind v none = refl
matches_kind v (some u) = text_eq_sym v u

matches-is_of_kind :
    (remote v : Text) (device : RemoteUsbDevice) (port : AttachedUsbPort)
    → is_changed remote v device port ≡ false
    → port_matches_remote_device remote device (some v) port ≡ is_of_kind remote v port
unfolding port_matches_remote_device
matches-is_of_kind remote v device port h = ground (arith, matches_kind v port.vid_pid, h)

find-is_of_kind :
    (remote v : Text) (device : RemoteUsbDevice) (ports : List AttachedUsbPort)
    → any (is_changed remote v device) ports ≡ false
    → find (port_matches_remote_device remote device (some v)) ports
      ≡ find (is_of_kind remote v) ports
unfolding find any
find-is_of_kind remote v device [] h = refl
find-is_of_kind remote v device (p ∷ ports) h =
    let first : is_changed remote v device p ≡ false = ground arith in
    let others : any (is_changed remote v device) ports ≡ false = ground arith in
    rw (matches-is_of_kind remote v device p first, find-is_of_kind remote v device ports others)
      refl

is_none-find :
    (p : AttachedUsbPort → Bool) (ports : List AttachedUsbPort)
    → is_none (port_of (find p ports)) ≡ not (any p ports)
unfolding is_none port_of find any
is_none-find p [] = refl
is_none-find p (q ∷ ports) = ground (arith, is_none-find p ports)

-- Two listed devices of one vendor and product are shown with the same port, whatever bus ids they
-- and the ports have, and with one exactly when some port of the server, or of an unknown server,
-- has that vendor and product; if no port that was attached from one of their ids has another one.
pub find_port-twin :
    (remote v : Text) (device twin : RemoteUsbDevice) (ports : List AttachedUsbPort)
    → extract_vid_pid device.description ≡ some v
    → extract_vid_pid twin.description ≡ some v
    → any (is_changed remote v device) ports ≡ false
    → any (is_changed remote v twin) ports ≡ false
    → (find_port remote ports device ≡ find_port remote ports twin)
      × (is_none (find_port remote ports twin) ≡ not (any (is_of_kind remote v) ports))
unfolding find_port
find_port-twin remote v device twin ports ed et d t =
    rw (ed, et)
      (rw (find-is_of_kind remote v device ports d, find-is_of_kind remote v twin ports t)
        (refl, is_none-find (is_of_kind remote v) ports))
