-- ===== src/Lib.antt =====
-- lusbip shares USB devices over TCP by the USB/IP protocol. The server keeps a registry of devices,
-- serves each connection by a handler and runs workers for bulk endpoints; a client imports devices
-- and may leave an agent in the background that it talks to over a local socket.
--
-- Protocol: src/usbip_server/usbip_protocol.rs and setup.rs. The socket (tokio's AsyncReadExt) is
--   the record AsyncRead of Protocol/Stream with the library's documented laws; parsers run in a
--   monad over it whose outcomes are a value, an error or a panic, and `debug` says whether
--   debug_assert! is compiled in. Command has the parser `read_from_socket` and the printer
--   `to_bytes`, Header the packets' header, Setup the setup packets and the requests recognised in
--   them, Reply the replies to submitted and unlinked requests.
-- Device: src/usbip_server/device.rs, endpoint.rs, interface.rs and consts.rs. Handles of the
--   operating system and the handlers of interfaces are parameters `D` and `I`. Strings is the pool
--   behind `new_string`, Endpoints `find_ep`, Export `to_bytes`, Descriptors the function
--   `extract_configuration_descriptors` of src/usbip_server/mod.rs. Replies has the replies of
--   src/usbip_server/usbip_protocol.rs that hold devices. Standard has the descriptors that
--   `handle_urb` answers with, Answers what holds of them, Urb `handle_urb` and
--   `handle_usbip_cmd_submit` of src/usbip_server/mod.rs, Submit these two together. The transfers of
--   src/usbip_server/host.rs are the record Transfers of Urb, which Host fills.
-- Registry: `UsbIpServer` of src/usbip_server/mod.rs. Defs has its methods, Import the handler of
--   OP_REQ_IMPORT, Sessions many connections on one registry, whose imports and ends are steps with
--   nothing between their locks; Races takes `occupy` apart at the lock that it drops.
--   Devlist has the devices of OP_REP_DEVLIST; Ledger is an abstract registry, and Refines relates
--   the two. Occupancy is the map of which peer has which bus id, Held and Tracking its agreement
--   with the connections, Stale and Overlap where they disagree.
-- Bulk: `run_bulk_in_worker` and `run_bulk_out_worker` of src/usbip_server/mod.rs. Each way in which
--   a worker wakes up is a function (InWorker, OutWorker), and the step relations of InTrace and
--   OutRuns compose them in every order. InValid, InOrder, InShift, InMoves and OutTrace are about
--   these runs, InServed about a worker without further commands. What endpoints answer is an
--   argument. A client does not reuse the number of a request that is still under way. A worker
--   that ends because its channel is closed takes no further step.
-- Connection: the loop of `handler` of src/usbip_server/mod.rs. Defs has a function for each branch,
--   with what it sends to the workers and writes to the client, Runs composes them in every order
--   from the first import on, with answers of bulk IN workers that run as in Bulk, Once follows one
--   sequence number through a run, and Stale is about answers that are read after a further import.
-- Agent: the messages of src/client_agent.rs: percent encoding, requests and responses.
--   Session is what its `toggle` and `shutdown` do with ports, and Managed which ports those are.
-- Client: src/client.rs and src/tui.rs. Listing reads the output of usbip, States the states of
--   remote devices, Labels their labels, Commands the commands that attach and detach ports,
--   Selection the lists of src/tui.rs; Shown is about the states,
--   and Occupied about the clients named in descriptions. The runner of src/process.rs is an
--   argument that answers a command from those before it, so that its answers are arbitrary.
-- Server: which devices are shared. Filter is `ServerDeviceFilter` of src/server.rs and
--   `sync_from_host_with_filter` of src/usbip_server/mod.rs; what nusb tells of a device is a
--   record, and the opening of devices an argument. Exported is about the devices shared.
--   Status has the text of `build_server_status` and the answer of `serve_occupancy_status`, for
--   which addresses are texts, and Told what the client reads from that answer. Synced adds the rounds
--   of `sync_server_devices` to the steps of Registry's Occupancy.
-- Tui: the loop `run_action_list` of src/tui.rs. Refresh has its state and what it does with answers to
--   actions and with items loaded anew, Loop the rest of a round, Steps the steps of the loop and
--   of its two threads in every order, Keeps, Runs and Stale what holds of them. Keys has the keys,
--   `select_one` and `select_many`, Frame the lines of `draw_items`, Layout and Visible what they
--   measure and show, Items the items after a load. Clocks, channels and events are arguments.
-- Host: src/usbip_server/host.rs. Calls has the calls of nusb, whose answers are an argument that
--   answers a call from those before it, Nusb of Interface the packet sizes and the lengths of buffers
--   that it takes, as parameters; Interface and Handlers the transfers, Transfer and Panics
--   what holds of them, the latter also through `handle_usbip_cmd_submit`.
-- Simulated: the keyboard of src/usbip_server/hid.rs (Keyboard, Typing), the serial port of cdc.rs, and
--   `verify_descriptor` of util.rs.
-- Base: names, tests, lists, maps, texts and bits that all of them share. Tests: concrete runs.
--
-- Integers are natural numbers with their wrap-around written out, and usize has 64 bits; bytes,
-- code points and hash keys are numbers, and hash maps and sets are lists. Three loops run on fuel:
-- the search of `new_string` over the 254 indices of a u8 before its counter overflows, and the walk
-- over raw descriptors, each pass of which takes two bytes or more, so that their number is enough;
-- and `verify_descriptor`, which ends on descriptors within their number of bytes, and with a length
-- byte 0 never.
--
-- Not modelled: sockets, the failure of allocations, tasks, signals, files and the terminal (input
-- and output), the calls of nusb themselves, the client's doctor and locks, the loop of
-- src/server.rs and its process files, and the command line.
pub mod Base
pub mod Protocol
pub mod Device
pub mod Registry
pub mod Bulk
pub mod Connection
pub mod Client
pub mod Server
pub mod Host
pub mod Simulated
pub mod Tui
pub mod Agent
pub mod Tests
