-- ===== src/Tests/Requests.antt =====
-- Requests and replies of src/usbip_server/usbip_protocol.rs and setup.rs at concrete inputs.
use lusbip.Base.{ℕ, ◌≡◌, refl, true, List, [], ◌∷◌, ◌++◌, replicate, arith}
use lusbip.Protocol.Stream.{ok}
use lusbip.Protocol.Setup.{SetupPacket}
use lusbip.Protocol.Header.{UsbIpHeaderBasic, IsHeader}
use lusbip.Protocol.Command.{
  UsbIpCommand, usbip_cmd_submit, IsCommand, encode, lengths_agree, to_bytes, read_from_socket,
}
use lusbip.Protocol.RoundTrip.{read_from_socket-to_bytes}
use lusbip.Tests.Socket.{socket}

abbrev header : UsbIpHeaderBasic
header = record { command = 1; seqnum = 7; devid = 0x10002; direction = 0; ep = 2 }

header-IsHeader : IsHeader header
header-IsHeader = record {
  command_word = omega arith;
  seqnum_word = omega arith;
  devid_word = omega arith;
  direction_bit = omega arith;
  ep_word = omega arith;
}

-- A request to write three bytes to endpoint 2.
abbrev write_three : UsbIpCommand
write_three = usbip_cmd_submit (record {
  header = header;
  transfer_flags = 0;
  transfer_buffer_length = 3;
  start_frame = 0;
  number_of_packets = 0;
  interval = 0;
  setup = replicate 8 0;
  content = 10 ∷ 20 ∷ 30 ∷ [];
  iso_packet_descriptor = [];
})

write_three-IsCommand : IsCommand write_three
write_three-IsCommand = record {
  header_ok = header-IsHeader;
  command_ok = refl;
  flags_word = omega arith;
  length_word = omega arith;
  frame_word = omega arith;
  packets_word = omega arith;
  interval_word = omega arith;
  setup_len = refl;
  content_len = refl;
  iso_len = refl;
}

read_from_socket-to_bytes_example :
    (t : List ℕ) × (read_from_socket socket true (encode write_three ++ 99 ∷ [])
      ≡ ok (write_three, t))
    × (t ≡ 99 ∷ [])
unfolding to_bytes lengths_agree
read_from_socket-to_bytes_example =
    read_from_socket-to_bytes socket true write_three (encode write_three ++ 99 ∷ [])
      (encode write_three) (99 ∷ []) write_three-IsCommand refl refl

-- GET_DESCRIPTOR for the device.
abbrev get_descriptor : SetupPacket
get_descriptor = record { request_type = 0x80; request = 6; value = 0x100; index = 0; length = 18 }

-- CLEAR_FEATURE of the halt of endpoint 0x81.
abbrev clear_halt : List ℕ
clear_halt = 2 ∷ 1 ∷ 0 ∷ 0 ∷ 0x81 ∷ 0 ∷ 0 ∷ 0 ∷ []
