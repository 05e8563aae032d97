-- ===== src/Protocol/Command.antt =====
-- src/usbip_server/usbip_protocol.rs: the commands of the virtual host controller.
use lusbip.Base.{
  ℕ, ◌*◌, ◌≡◌, Bool, true, false, ◌&&◌, ◌||◌, List, [], ◌++◌, ◌==◌, ◌!=◌, if◌then◌else◌, length,
  replicate, ◌%◌, ◌^◌,
}
use lusbip.Protocol.Stream.{
  AsyncRead, M, Outcome, ok, panic, ◌>>=◌, ◌>>◌, return, fail, debug_assert, IsU32, u16_to_be_bytes,
  u32_to_be_bytes, unknown_version, unknown_command,
}
use lusbip.Protocol.Header.{
  UsbIpHeaderBasic, IsHeader, to_bytes as header_bytes, read_from_socket_with_command,
  usbip_version, op_req_devlist_code, op_req_import_code, usbip_cmd_submit_code,
  usbip_cmd_unlink_code,
}

pub record CmdSubmit : Type 0 where
  pub header : UsbIpHeaderBasic
  pub transfer_flags : ℕ
  pub transfer_buffer_length : ℕ
  pub start_frame : ℕ
  pub number_of_packets : ℕ
  pub interval : ℕ
  pub setup : List ℕ
  pub content : List ℕ
  pub iso_packet_descriptor : List ℕ

pub data UsbIpCommand : Type 0 where
  op_req_devlist : ℕ → UsbIpCommand
  op_req_import : ℕ → List ℕ → UsbIpCommand
  usbip_cmd_submit : CmdSubmit → UsbIpCommand
  usbip_cmd_unlink : UsbIpHeaderBasic → ℕ → UsbIpCommand

-- `number_of_packets != 0 && number_of_packets != 0xFFFFFFFF`.
abbrev pub has_iso_packets : ℕ → Bool
has_iso_packets n = n != 0 && n != 0xFFFFFFFF

module _ (io : AsyncRead) where
  open io use {Stream, read_u16, read_u32, read_exact}

  unfoldable pub read_data : ℕ → ℕ → M Stream (List ℕ)
  read_data direction transfer_buffer_length =
      if direction == 1 then return [] else read_exact transfer_buffer_length

  unfoldable pub read_iso : ℕ → M Stream (List ℕ)
  read_iso number_of_packets =
      if has_iso_packets number_of_packets then read_exact (16 * number_of_packets) else return []

  -- The branch for each command, after the version and the command's code.
  unfoldable pub read_devlist : Bool → M Stream UsbIpCommand
  read_devlist debug = do
    status ← read_u32
    debug_assert debug (status == 0)
    return (op_req_devlist status)

  unfoldable pub read_import : Bool → M Stream UsbIpCommand
  read_import debug = do
    status ← read_u32
    debug_assert debug (status == 0)
    busid ← read_exact 32
    return (op_req_import status busid)

  unfoldable pub read_submit : Bool → M Stream UsbIpCommand
  read_submit debug = do
    header ← read_from_socket_with_command io debug usbip_cmd_submit_code
    transfer_flags ← read_u32
    transfer_buffer_length ← read_u32
    start_frame ← read_u32
    number_of_packets ← read_u32
    interval ← read_u32
    setup ← read_exact 8
    content ← read_data header.direction transfer_buffer_length
    iso_packet_descriptor ← read_iso number_of_packets
    return (
        usbip_cmd_submit (record {
          header = header;
          transfer_flags = transfer_flags;
          transfer_buffer_length = transfer_buffer_length;
          start_frame = start_frame;
          number_of_packets = number_of_packets;
          interval = interval;
          setup = setup;
          content = content;
          iso_packet_descriptor = iso_packet_descriptor;
        }))

  unfoldable pub read_unlink : Bool → M Stream UsbIpCommand
  read_unlink debug = do
    header ← read_from_socket_with_command io debug usbip_cmd_unlink_code
    unlink_seqnum ← read_u32
    padding ← read_exact 24
    return (usbip_cmd_unlink header unlink_seqnum)

  unfoldable pub read_command : Bool → ℕ → M Stream UsbIpCommand
  read_command debug command =
      if command == op_req_devlist_code
      then read_devlist debug
      else if command == op_req_import_code
      then read_import debug
      else if command == usbip_cmd_submit_code
      then read_submit debug
      else if command == usbip_cmd_unlink_code
      then read_unlink debug
      else fail (unknown_command command)

  unfoldable pub read_versioned : Bool → ℕ → M Stream UsbIpCommand
  read_versioned debug version =
      if version != 0 && version != usbip_version
      then fail (unknown_version version)
      else read_u16 >>= read_command debug

  unfoldable pub read_from_socket : Bool → M Stream UsbIpCommand
  read_from_socket debug = read_u16 >>= read_versioned debug

-- What `to_bytes` writes once its assertion has passed.
unfoldable pub encode : UsbIpCommand → List ℕ
encode (op_req_devlist status) =
    u16_to_be_bytes usbip_version ++ (u16_to_be_bytes op_req_devlist_code ++ u32_to_be_bytes status)
encode (op_req_import status busid) =
    u16_to_be_bytes usbip_version
    ++ (u16_to_be_bytes op_req_import_code ++ (u32_to_be_bytes status ++ busid))
encode (usbip_cmd_submit c) =
    header_bytes c.header
    ++ (u32_to_be_bytes c.transfer_flags
        ++ (u32_to_be_bytes c.transfer_buffer_length
            ++ (u32_to_be_bytes c.start_frame
                ++ (u32_to_be_bytes c.number_of_packets
                    ++ (u32_to_be_bytes c.interval
                        ++ (c.setup ++ (c.content ++ c.iso_packet_descriptor)))))))
encode (usbip_cmd_unlink header unlink_seqnum) =
    header_bytes header ++ (u32_to_be_bytes unlink_seqnum ++ replicate 24 0)

-- The assertion of `to_bytes`, on submitted requests.
unfoldable pub lengths_agree : UsbIpCommand → Bool
lengths_agree (op_req_devlist status) = true
lengths_agree (op_req_import status busid) = true
lengths_agree (usbip_cmd_submit c) =
    c.header.direction != 0 || c.transfer_buffer_length == length c.content % 2 ^ 32
lengths_agree (usbip_cmd_unlink header unlink_seqnum) = true

unfoldable pub to_bytes : Bool → UsbIpCommand → Outcome (List ℕ)
to_bytes debug c =
    if debug && (if lengths_agree c then false else true) then panic else ok (encode c)

-- A submitted request as the protocol has it: the words fit their fields, and the data and the
-- packet descriptors have the lengths that the other fields announce.
pub record IsSubmit (c : CmdSubmit) : Type 0 where
  pub header_ok : IsHeader c.header
  pub command_ok : c.header.command ≡ usbip_cmd_submit_code
  pub flags_word : IsU32 c.transfer_flags
  pub length_word : IsU32 c.transfer_buffer_length
  pub frame_word : IsU32 c.start_frame
  pub packets_word : IsU32 c.number_of_packets
  pub interval_word : IsU32 c.interval
  pub setup_len : length c.setup ≡ 8
  pub content_len :
      length c.content ≡ (if c.header.direction == 1 then 0 else c.transfer_buffer_length)
  pub iso_len :
      length c.iso_packet_descriptor
      ≡ (if has_iso_packets c.number_of_packets then 16 * c.number_of_packets else 0)

abbrev pub IsCommand : UsbIpCommand → Type 0
IsCommand (op_req_devlist status) = status ≡ 0
IsCommand (op_req_import status busid) = (status ≡ 0) × (length busid ≡ 32)
IsCommand (usbip_cmd_submit c) = IsSubmit c
IsCommand (usbip_cmd_unlink header unlink_seqnum) =
    IsHeader header × (header.command ≡ usbip_cmd_unlink_code) × IsU32 unlink_seqnum
