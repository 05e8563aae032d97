-- ===== src/Protocol/RoundTrip.antt =====
-- The parser of src/usbip_server/usbip_protocol.rs reads what the printer writes.
use lusbip.Base.{
  ℕ, ◌*◌, ◌≡◌, refl, Bool, true, List, [], ◌++◌, ◌==◌, if◌then◌else◌, length, length-zero,
  Bool-cases, inl, inr, replicate, length-append, ◌+◌, arith,
}
use lusbip.Protocol.Stream.{
  AsyncRead, ok, IsU16, IsU32, u16_to_be_bytes, u32_to_be_bytes, Reads, Reads-return, Reads-bind,
  Reads-last, Reads-u16, Reads-u32, Reads-exact, Reads-assert,
}
use lusbip.Protocol.Header.{
  UsbIpHeaderBasic, IsHeader, fields_to_bytes, to_bytes as header_bytes, Reads-header,
  usbip_version, op_req_devlist_code, op_req_import_code, usbip_cmd_submit_code,
  usbip_cmd_unlink_code, to_bytes_split,
}
use lusbip.Protocol.Command.{
  CmdSubmit, UsbIpCommand, op_req_devlist, op_req_import, usbip_cmd_submit, usbip_cmd_unlink,
  has_iso_packets, read_data, read_iso, read_devlist, read_import, read_submit, read_unlink,
  read_command, read_versioned, read_from_socket, encode, lengths_agree, to_bytes, IsSubmit,
  IsCommand,
}

lengths_agree-IsCommand : (c : UsbIpCommand) → IsCommand c → lengths_agree c ≡ true
unfolding lengths_agree
lengths_agree-IsCommand (op_req_devlist status) v = refl
lengths_agree-IsCommand (op_req_import status busid) v = refl
lengths_agree-IsCommand (usbip_cmd_submit c) v = ground (arith, v.content_len)
lengths_agree-IsCommand (usbip_cmd_unlink header n) v = refl

to_bytes-encode :
    (debug : Bool) (c : UsbIpCommand) (i : List ℕ) → to_bytes debug c ≡ ok i → i ≡ encode c
unfolding to_bytes
to_bytes-encode debug c i e = ground arith

abbrev pub printed_length : UsbIpCommand → ℕ
printed_length (op_req_devlist status) = 8
printed_length (op_req_import status busid) = 40
printed_length (usbip_cmd_submit c) = 48 + length c.content + length c.iso_packet_descriptor
printed_length (usbip_cmd_unlink header n) = 48

length-encode : (c : UsbIpCommand) → IsCommand c → length (encode c) ≡ printed_length c
unfolding encode header_bytes u16_to_be_bytes u32_to_be_bytes
length-encode (op_req_devlist status) v = refl
length-encode (op_req_import status busid) v = omega (arith, v.1)
length-encode (usbip_cmd_submit c) v = omega (
  arith,
  v.setup_len,
  length-append c.setup (c.content ++ c.iso_packet_descriptor),
  length-append c.content c.iso_packet_descriptor,
)
length-encode (usbip_cmd_unlink header n) v = refl

module _ (io : AsyncRead) (debug : Bool) where
  Reads-data :
      (direction n : ℕ) (xs : List ℕ)
      → length xs ≡ (if direction == 1 then 0 else n)
      → Reads io (read_data io direction n) xs xs
  unfolding read_data
  Reads-data direction n xs h = elim (Bool-cases (direction == 1)) [
    | inl e ↦ rw (e, length-zero xs (rw e at h)) (Reads-return io [])
    | inr e ↦ rw e (Reads-exact io n xs (rw e at h))
  ]

  Reads-iso :
      (n : ℕ) (xs : List ℕ)
      → length xs ≡ (if has_iso_packets n then 16 * n else 0)
      → Reads io (read_iso io n) xs xs
  unfolding read_iso
  Reads-iso n xs h = elim (Bool-cases (has_iso_packets n)) [
    | inl e ↦ rw e (Reads-exact io (16 * n) xs (rw e at h))
    | inr e ↦ rw (e, length-zero xs (rw e at h)) (Reads-return io [])
  ]

  Reads-devlist : Reads io (read_devlist io debug) (u32_to_be_bytes 0) (op_req_devlist 0)
  unfolding read_devlist u32_to_be_bytes
  Reads-devlist =
      Reads-bind io _ _ (u32_to_be_bytes 0) [] _ _ (Reads-u32 io 0 (omega arith))
        (Reads-bind io _ _ [] [] _ _ (Reads-assert io debug _ refl) (Reads-return io _))

  Reads-import :
      (busid : List ℕ)
      → length busid ≡ 32
      → Reads io (read_import io debug) (u32_to_be_bytes 0 ++ busid) (op_req_import 0 busid)
  unfolding read_import
  Reads-import busid h = Reads-bind io _ _ _ _ _ _ (Reads-u32 io 0 (omega arith)) (
      Reads-bind io _ _ [] _ _ _ (Reads-assert io debug _ refl)
        (Reads-last io _ _ _ _ (Reads-exact io 32 busid h)))

  Reads-submit :
      (c : CmdSubmit)
      → IsSubmit c
      → Reads io
          (read_submit io debug)
          (fields_to_bytes c.header
            ++ (u32_to_be_bytes c.transfer_flags
                ++ (u32_to_be_bytes c.transfer_buffer_length
                    ++ (u32_to_be_bytes c.start_frame
                        ++ (u32_to_be_bytes c.number_of_packets
                            ++ (u32_to_be_bytes c.interval
                                ++ (c.setup ++ (c.content ++ c.iso_packet_descriptor))))))))
          (usbip_cmd_submit c)
  unfolding read_submit
  Reads-submit c v =
      Reads-bind io _ _ _ _ _ _ (Reads-header io debug _ c.header v.header_ok v.command_ok) (
        Reads-bind io _ _ _ _ _ _ (Reads-u32 io _ v.flags_word) (
          Reads-bind io _ _ _ _ _ _ (Reads-u32 io _ v.length_word) (
            Reads-bind io _ _ _ _ _ _ (Reads-u32 io _ v.frame_word) (
              Reads-bind io _ _ _ _ _ _ (Reads-u32 io _ v.packets_word) (
                Reads-bind io _ _ _ _ _ _ (Reads-u32 io _ v.interval_word) (
                  Reads-bind io _ _ _ _ _ _ (Reads-exact io 8 c.setup v.setup_len) (
                    Reads-bind io _ _ _ _ _ _ (Reads-data _ _ c.content v.content_len)
                      (Reads-last io _ _ _ _ (Reads-iso _ c.iso_packet_descriptor v.iso_len)))))))))

  Reads-unlink :
      (header : UsbIpHeaderBasic) (unlink_seqnum : ℕ)
      → IsHeader header
      → header.command ≡ usbip_cmd_unlink_code
      → IsU32 unlink_seqnum
      → Reads io
          (read_unlink io debug)
          (fields_to_bytes header ++ (u32_to_be_bytes unlink_seqnum ++ replicate 24 0))
          (usbip_cmd_unlink header unlink_seqnum)
  unfolding read_unlink
  Reads-unlink header n v e h = Reads-bind io _ _ _ _ _ _ (Reads-header io debug _ header v e) (
      Reads-bind io _ _ _ _ _ _ (Reads-u32 io n h) (
        Reads-last io _ (λ _. usbip_cmd_unlink header n) (replicate 24 0) _
          (Reads-exact io 24 (replicate 24 0) refl)))

  Reads-command :
      (command : ℕ) (c : UsbIpCommand) (i : List ℕ)
      → IsU16 command
      → Reads io (read_command io debug command) i c
      → Reads io (read_versioned io debug usbip_version) (u16_to_be_bytes command ++ i) c
  unfolding read_versioned
  Reads-command command c i h r = Reads-bind io _ _ _ _ _ _ (Reads-u16 io command h) r

  -- The commands on a device have no version: their code fills 32 bits, so the upper half is 0.
  Reads-unversioned :
      (command : ℕ) (c : UsbIpCommand) (i : List ℕ)
      → IsU16 command
      → Reads io (read_command io debug command) i c
      → Reads io (read_versioned io debug 0) (u16_to_be_bytes command ++ i) c
  unfolding read_versioned
  Reads-unversioned command c i h r = Reads-bind io _ _ _ _ _ _ (Reads-u16 io command h) r

  Reads-encode :
      (c : UsbIpCommand) → IsCommand c → Reads io (read_from_socket io debug) (encode c) c
  unfolding read_from_socket encode read_command header_bytes
  Reads-encode (op_req_devlist status) h = rw h (
      Reads-bind io _ _ _ _ _ _ (Reads-u16 io usbip_version (omega arith))
        (Reads-command op_req_devlist_code _ _ (omega arith) Reads-devlist))
  Reads-encode (op_req_import status busid) h = rw (h.0) (
      Reads-bind io _ _ _ _ _ _ (Reads-u16 io usbip_version (omega arith))
        (Reads-command op_req_import_code _ _ (omega arith) (Reads-import busid h.1)))
  Reads-encode (usbip_cmd_submit c) v =
      rw (to_bytes_split c.header usbip_cmd_submit_code _ (omega arith) v.command_ok) (
        Reads-bind io _ _ _ _ _ _ (Reads-u16 io 0 (omega arith))
          (Reads-unversioned usbip_cmd_submit_code _ _ (omega arith) (Reads-submit c v)))
  Reads-encode (usbip_cmd_unlink header n) h =
      rw (to_bytes_split header usbip_cmd_unlink_code _ (omega arith) h.1) (
        Reads-bind io _ _ _ _ _ _ (Reads-u16 io 0 (omega arith)) (
          Reads-unversioned usbip_cmd_unlink_code _ _ (omega arith)
            (Reads-unlink header n h.0 h.1 h.2)))

  -- From a stream that begins with the bytes that `to_bytes` printed for a well-formed command,
  -- the parser returns the same command and leaves exactly the bytes that follow.
  pub read_from_socket-to_bytes :
      (c : UsbIpCommand) (s : io.Stream) (i rest : List ℕ)
      → IsCommand c
      → to_bytes debug c ≡ ok i
      → io.bytes s ≡ i ++ rest
      → (t : io.Stream) × (read_from_socket io debug s ≡ ok (c, t)) × (io.bytes t ≡ rest)
  read_from_socket-to_bytes c s i rest v e h =
      Reads-encode c v s rest (rw (to_bytes-encode debug c i e) at h)

-- Printing a well-formed command fails no assertion, in either build, and gives 8 bytes for a
-- request of the device list, 40 for an import and 48 for an unlink; a submitted request takes 48
-- bytes and its data and packet descriptors.
pub to_bytes-IsCommand :
    (debug : Bool) (c : UsbIpCommand)
    → IsCommand c
    → (i : List ℕ) × (to_bytes debug c ≡ ok i) × (length i ≡ printed_length c)
unfolding to_bytes
to_bytes-IsCommand debug c v =
    (encode c, ground (arith, lengths_agree-IsCommand c v), length-encode c v)
