-- ===== src/Protocol/Errors.antt =====
-- What the parser of src/usbip_server/usbip_protocol.rs refuses, and when it panics.
use lusbip.Base.{ℕ, ◌≡◌, ◌≢◌, ◌⊎◌, ◌<◌, Bool, true, List, ◌++◌, length, arith}
use lusbip.Protocol.Stream.{
  AsyncRead, err, panic, debug_assert, IsU16, IsU32, u16_to_be_bytes, u32_to_be_bytes,
  unexpected_eof, unknown_version, unknown_command,
}
use lusbip.Protocol.Header.{
  usbip_version, op_req_devlist_code, op_req_import_code, usbip_cmd_submit_code,
  usbip_cmd_unlink_code,
}
use lusbip.Protocol.Command.{read_devlist, read_command, read_versioned, read_from_socket}

module _ (io : AsyncRead) (debug : Bool) where
  -- A 16-bit version other than 0 and 0x0111 is refused, whatever follows it.
  pub unknown_version_refused :
      (s : io.Stream) (v : ℕ) (rest : List ℕ)
      → IsU16 v
      → v ≢ 0
      → v ≢ usbip_version
      → io.bytes s ≡ u16_to_be_bytes v ++ rest
      → read_from_socket io debug s ≡ err (unknown_version v)
  unfolding read_from_socket read_versioned
  unknown_version_refused s v rest b h k e =
      let first = io.read_u16_ok s v rest b e in ground (arith, first.1)

  -- A 16-bit command code other than the four of the protocol is refused, behind a known version.
  pub unknown_command_refused :
      (s : io.Stream) (v c : ℕ) (rest : List ℕ)
      → IsU16 c
      → (v ≡ 0) ⊎ (v ≡ usbip_version)
      → c ≢ op_req_devlist_code
      → c ≢ op_req_import_code
      → c ≢ usbip_cmd_submit_code
      → c ≢ usbip_cmd_unlink_code
      → io.bytes s ≡ u16_to_be_bytes v ++ (u16_to_be_bytes c ++ rest)
      → read_from_socket io debug s ≡ err (unknown_command c)
  unfolding read_from_socket read_versioned read_command
  unknown_command_refused s v c rest bc known h1 h2 h3 h4 e =
      let first = io.read_u16_ok s v (u16_to_be_bytes c ++ rest) (ground arith) e in
      let second = io.read_u16_ok first.0 c rest bc first.2 in ground (arith, first.1, second.1)

  -- A stream of fewer than the two bytes of the version is an UnexpectedEof error.
  pub closed_connection :
      (s : io.Stream) → length (io.bytes s) < 2 → read_from_socket io debug s ≡ err unexpected_eof
  unfolding read_from_socket
  closed_connection s h = ground (arith, io.read_u16_eof s h)

  -- A debug build panics on a request for the device list whose status is a word other than 0.
  pub nonzero_status_panics :
      (s : io.Stream) (status : ℕ) (rest : List ℕ)
      → debug ≡ true
      → IsU32 status
      → status ≢ 0
      → io.bytes s
        ≡ u16_to_be_bytes usbip_version
          ++ (u16_to_be_bytes op_req_devlist_code ++ (u32_to_be_bytes status ++ rest))
      → read_from_socket io debug s ≡ panic
  unfolding read_from_socket read_versioned read_command read_devlist debug_assert
  nonzero_status_panics s status rest d b h e =
      let first = io.read_u16_ok s usbip_version _ (omega arith) e in
      let second = io.read_u16_ok first.0 op_req_devlist_code _ (omega arith) first.2 in
      let third = io.read_u32_ok second.0 status rest b second.2 in
      ground (arith, first.1, second.1, third.1)
