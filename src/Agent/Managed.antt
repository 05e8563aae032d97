-- ===== src/Agent/Managed.antt =====
-- What the agent of src/client_agent.rs does to ports: it detaches only those that it manages.
use lusbip.Base.{
  ℕ, ◌≡◌, refl, Bool, true, ◌&&◌, List, [], ◌∷◌, Option, none, some, Text, text_eq, any, find, All,
  Bool-cases, Option-cases, inl, inr,
}
use lusbip.Agent.Control.{TuiItem}
use lusbip.Client.Listing.{RemoteUsbDevice, AttachedUsbPort}
use lusbip.Client.States.{RemoteUsbDeviceState, is_text, remote_device_states}
use lusbip.Client.Commands.{
  Command, list_remote, list_ports, attach, detach, Runner, Result, ok, err, query_remote_devices,
  query_attached_ports, detach_port, attach_remote_device,
}
use lusbip.Agent.Session.{
  snapshot_of, snapshot, detach_answer, detach_managed, port_of_item, attached_answer, after_attach,
  toggle_selected, toggle_listed, toggle_ports, toggle,
}

-- A command that detaches no port but those in the list.
abbrev pub allowed : List Text → Command → Bool
allowed managed (list_remote remote tcp_port) = true
allowed managed list_ports = true
allowed managed (attach remote tcp_port bus_id) = true
allowed managed (detach port) = any (text_eq port) managed

abbrev pub AreAllowed : List Text → List Command → Type 0
AreAllowed managed h = All (λ c. allowed managed c ≡ true) h

module _ (runner : Runner) (remote : Text) (tcp_port : ℕ) (managed : List Text) where
  snapshot_of-AreAllowed :
      (r : Result (List AttachedUsbPort)) (h : List Command)
      → AreAllowed managed h
      → AreAllowed managed (snapshot_of runner remote tcp_port (r, h)).1
  unfolding snapshot_of query_remote_devices
  snapshot_of-AreAllowed (err e) h a = a
  snapshot_of-AreAllowed (ok ports) h a = (refl, a)

  attached_answer-AreAllowed :
      (bus_id : Text) (r : Result (List TuiItem)) (h : List Command)
      → AreAllowed managed h
      → AreAllowed managed (attached_answer runner remote tcp_port bus_id managed (r, h)).2
  unfolding attached_answer
  attached_answer-AreAllowed bus_id (err e) h a = a
  attached_answer-AreAllowed bus_id (ok items) h a =
      elim (Option-cases
        (port_of_item runner remote tcp_port (find (λ i. text_eq i.id bus_id) items))) [
          | inl e ↦ rw (e, attached_answer) a
          | inr (p, e) ↦ rw (e, attached_answer) a
        ]

  after_attach-AreAllowed :
      (bus_id : Text) (r : Result Unit) (h : List Command)
      → AreAllowed managed h
      → AreAllowed managed (after_attach runner remote tcp_port bus_id managed (r, h)).2
  unfolding after_attach snapshot query_attached_ports
  after_attach-AreAllowed bus_id (err e) h a = a
  after_attach-AreAllowed bus_id (ok u) h a =
      let ports = query_attached_ports runner h in
      let s = snapshot runner remote tcp_port h in
      attached_answer-AreAllowed bus_id s.0 s.1 (snapshot_of-AreAllowed ports.0 ports.1 (refl, a))

  detach_answer-AreAllowed :
      (port : Text) (r : Result Unit) (h : List Command)
      → AreAllowed managed h
      → AreAllowed managed (detach_answer runner remote tcp_port port managed (r, h)).2
  unfolding detach_answer
  detach_answer-AreAllowed port (ok u) h a = a
  detach_answer-AreAllowed port (err e) h a = a

  detach_managed-AreAllowed :
      (port : Text) (h : List Command)
      → AreAllowed managed h
      → AreAllowed managed (detach_managed runner remote tcp_port port managed h).2
  unfolding detach_managed detach_port
  detach_managed-AreAllowed port h a = elim (Bool-cases (any (text_eq port) managed)) [
    | inl e ↦
        rw e (detach_answer-AreAllowed port (detach_port runner port h).0 (detach port ∷ h) (e, a))
    | inr e ↦ rw e a
  ]

  toggle_selected-AreAllowed :
      (bus_id : Text) (o : Option RemoteUsbDeviceState) (h : List Command)
      → AreAllowed managed h
      → AreAllowed managed (toggle_selected runner remote tcp_port bus_id managed o h).2
  unfolding toggle_selected attach_remote_device
  toggle_selected-AreAllowed bus_id none h a = a
  toggle_selected-AreAllowed bus_id (some s) h a = selected s.attached_port s.occupied_by
    where
      selected :
          (port client : Option Text)
          → AreAllowed managed
              (toggle_selected runner remote tcp_port bus_id managed
                (some (record { device = s.device; attached_port = port; occupied_by = client }))
                h).2
      selected (some port) client = detach_managed-AreAllowed port h a
      selected none (some client) = a
      selected none none =
          let r = attach_remote_device runner remote tcp_port bus_id h in
          after_attach-AreAllowed bus_id r.0 r.1 (refl, a)

  toggle_listed-AreAllowed :
      (bus_id : Text) (ports : List AttachedUsbPort) (r : Result (List RemoteUsbDevice))
      (h : List Command)
      → AreAllowed managed h
      → AreAllowed managed (toggle_listed runner remote tcp_port bus_id managed ports (r, h)).2
  unfolding toggle_listed
  toggle_listed-AreAllowed bus_id ports (err e) h a = a
  toggle_listed-AreAllowed bus_id ports (ok devices) h a =
      toggle_selected-AreAllowed bus_id
        (find (λ s. text_eq s.device.bus_id bus_id) (remote_device_states remote devices ports)) h a

  toggle_ports-AreAllowed :
      (bus_id : Text) (r : Result (List AttachedUsbPort)) (h : List Command)
      → AreAllowed managed h
      → AreAllowed managed (toggle_ports runner remote tcp_port bus_id managed (r, h)).2
  unfolding toggle_ports query_remote_devices
  toggle_ports-AreAllowed bus_id (err e) h a = a
  toggle_ports-AreAllowed bus_id (ok ports) h a =
      elim (Option-cases
        (find (λ p. is_text p.remote_host remote && is_text p.remote_bus_id bus_id) ports)) [
          | inr (p, e) ↦ rw (e, toggle_ports) (detach_managed-AreAllowed p.port h a)
          | inl e ↦
              let q = query_remote_devices runner remote tcp_port h in
              rw (e, toggle_ports) (toggle_listed-AreAllowed bus_id ports q.0 q.1 (refl, a))
        ]

  -- Whatever the commands answer, a toggle detaches no port but those that the agent manages.
  pub toggle-AreAllowed :
      (bus_id : Text) → AreAllowed managed (toggle runner remote tcp_port bus_id managed []).2
  unfolding toggle query_attached_ports
  toggle-AreAllowed bus_id =
      let q = query_attached_ports runner [] in toggle_ports-AreAllowed bus_id q.0 q.1 (refl, tt)

-- The commands that detach the ports in order, latest first.
abbrev pub detaches : List Text → List Command → List Command
detaches [] h = h
detaches (port ∷ ports) h = detaches ports (detach port ∷ h)
