-- ===== src/Registry/Occupancy.antt =====
-- The occupancy map that `handler` and `server_with_occupancy_listener` of src/usbip_server/mod.rs keep:
-- which peer has which bus id. Peers are numbered as connections.
use lusbip.Base.{ℕ, ◌≡◌, List, Option, none, some, Text, text_eq, if◌then◌else◌}
use lusbip.Device.Codes.{UsbDevice}
use lusbip.Registry.Defs.{UsbIpServer, Result, ok, err, remove_device}
use lusbip.Registry.Import.{ImportReply, handle_op_req_import}
use lusbip.Registry.Sessions.{World, import_on, close}

abbrev pub Occupancy : Type 0
Occupancy = Text → Option ℕ

-- `insert` and `remove` of the map.
abbrev pub with_occupant : Text → Option ℕ → Occupancy → Occupancy
with_occupant bus_id peer occupancy b = if text_eq bus_id b then peer else occupancy b

pub record Tracked (D I : Type 0) : Type 0 where
  pub world : World D I
  pub occupancy : Occupancy

module _ {D I : Type 0} where
  unfoldable pub set_occupancy : ℕ → Option (UsbDevice D I) → Occupancy → Occupancy
  set_occupancy i none occupancy = occupancy
  set_occupancy i (some device) occupancy = with_occupant device.bus_id (some i) occupancy

  unfoldable pub clear_occupancy : Option (UsbDevice D I) → Occupancy → Occupancy
  clear_occupancy none occupancy = occupancy
  clear_occupancy (some device) occupancy = with_occupant device.bus_id none occupancy

  -- What the import of connection `i` does with the map, by its answer: the previous id is cleared and
  -- the new one set, and on an error the device that is released is cleared.
  unfoldable pub after_answer :
      ℕ
      → Option (UsbDevice D I)
      → Result (ImportReply D I) × Option (UsbDevice D I) × UsbIpServer D I
      → Occupancy
      → Occupancy
  after_answer i previous (ok reply, device, t) occupancy =
      set_occupancy i device (clear_occupancy previous occupancy)
  after_answer i previous (err e, device, t) occupancy = clear_occupancy device occupancy

  unfoldable pub import_tracked : ℕ → List ℕ → Tracked D I → Tracked D I
  import_tracked i busid s =
      let previous = s.world.session i in
      record {
        world = import_on i busid s.world;
        occupancy =
            after_answer i previous (handle_op_req_import busid previous s.world.server)
              s.occupancy;
      }

  -- The end of a connection.
  unfoldable pub close_tracked : ℕ → Tracked D I → Tracked D I
  close_tracked i s = record {
    world = close i s.world;
    occupancy = clear_occupancy (s.world.session i) s.occupancy;
  }

  -- An import whose answer cannot be written: the error ends the connection, which has the new device.
  unfoldable pub import_cut : ℕ → List ℕ → Tracked D I → Tracked D I
  import_cut i busid s =
      let w = import_on i busid s.world in
      close_tracked i (record { world = w; occupancy = s.occupancy })

  pub data TrackedStep (s : Tracked D I) : Tracked D I → Type 0 where
    imports_tracked : (i : ℕ) (busid : List ℕ) → TrackedStep s (import_tracked i busid s)
    closes_tracked : (i : ℕ) → TrackedStep s (close_tracked i s)
    removes_tracked :
        (bus_id : Text) (t : UsbIpServer D I)
        → remove_device bus_id s.world.server ≡ ok t
        → TrackedStep s (record s { world = record (s.world) { server = t } })

  pub data TrackedReach (s : Tracked D I) : Tracked D I → Type 0 where
    here : TrackedReach s s
    next : {t u : Tracked D I} → TrackedReach s t → TrackedStep t u → TrackedReach s u

  -- The map has a peer for exactly the ids that the peer's connection imported.
  pub record IsTracked (session : ℕ → Option (UsbDevice D I)) (occupancy : Occupancy) : Type 0 where
    pub listed : (i : ℕ) (d : UsbDevice D I) → session i ≡ some d → occupancy d.bus_id ≡ some i
    pub held :
        (b : Text) (i : ℕ)
        → occupancy b ≡ some i
        → (d : UsbDevice D I) × (session i ≡ some d) × (d.bus_id ≡ b)

  -- No two connections have devices of one id.
  abbrev pub OneOwner : (ℕ → Option (UsbDevice D I)) → Type 0
  OneOwner session =
      (i j : ℕ) (d e : UsbDevice D I)
      → session i ≡ some d
      → session j ≡ some e
      → d.bus_id ≡ e.bus_id
      → i ≡ j
