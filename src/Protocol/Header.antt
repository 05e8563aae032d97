-- ===== src/Protocol/Header.antt =====
-- src/usbip_server/usbip_protocol.rs: the codes and the header of context-sensitive packets.
use lusbip.Base.{
  ℕ, ◌+◌, ◌*◌, ◌^◌, ◌≡◌, ◌≤◌, refl, Bool, true, List, [], ◌++◌, ◌==◌, length, get_or, slice, subst,
  bit_and, bit_and-one, arith,
}
use lusbip.Protocol.Stream.{
  AsyncRead, M, ◌>>=◌, ◌>>◌, return, debug_assert, IsU16, IsU32, u16_to_be_bytes, u32_to_be_bytes,
  Reads, Reads-bind, Reads-u32, Reads-assert, Reads-last,
}

abbrev pub usbip_version : ℕ
usbip_version = 0x0111

abbrev pub op_req_devlist_code : ℕ
op_req_devlist_code = 0x8005

abbrev pub op_req_import_code : ℕ
op_req_import_code = 0x8003

abbrev pub op_rep_devlist_code : ℕ
op_rep_devlist_code = 0x0005

abbrev pub op_rep_import_code : ℕ
op_rep_import_code = 0x0003

abbrev pub usbip_cmd_submit_code : ℕ
usbip_cmd_submit_code = 0x0001

abbrev pub usbip_cmd_unlink_code : ℕ
usbip_cmd_unlink_code = 0x0002

abbrev pub usbip_ret_submit_code : ℕ
usbip_ret_submit_code = 0x0003

abbrev pub usbip_ret_unlink_code : ℕ
usbip_ret_unlink_code = 0x0004

pub record UsbIpHeaderBasic : Type 0 where
  pub command : ℕ
  pub seqnum : ℕ
  pub devid : ℕ
  pub direction : ℕ
  pub ep : ℕ

-- `u32::from_be_bytes` of a slice of four bytes.
pub u32_from_be_bytes : List ℕ → ℕ
u32_from_be_bytes bs =
    get_or bs 0 0 * 2 ^ 24 + get_or bs 1 0 * 2 ^ 16 + get_or bs 2 0 * 256 + get_or bs 3 0

-- `from_bytes` on an array of 20 bytes.
unfoldable pub from_bytes : List ℕ → UsbIpHeaderBasic
unfolding u32_from_be_bytes
from_bytes bytes = record {
  command = u32_from_be_bytes (slice bytes 0 4);
  seqnum = u32_from_be_bytes (slice bytes 4 8);
  devid = u32_from_be_bytes (slice bytes 8 12);
  direction = u32_from_be_bytes (slice bytes 12 16);
  ep = u32_from_be_bytes (slice bytes 16 20);
}

-- The five words copied into an array of 20 bytes.
unfoldable pub to_bytes : UsbIpHeaderBasic → List ℕ
to_bytes h =
    u32_to_be_bytes h.command
    ++ (u32_to_be_bytes h.seqnum
        ++ (u32_to_be_bytes h.devid ++ (u32_to_be_bytes h.direction ++ u32_to_be_bytes h.ep)))

-- The fields after the command, which `read_from_socket` has read before.
unfoldable pub fields_to_bytes : UsbIpHeaderBasic → List ℕ
fields_to_bytes h =
    u32_to_be_bytes h.seqnum
    ++ (u32_to_be_bytes h.devid ++ (u32_to_be_bytes h.direction ++ u32_to_be_bytes h.ep))

-- Every field fits 32 bits, and the direction is 0 or 1.
pub record IsHeader (h : UsbIpHeaderBasic) : Type 0 where
  pub command_word : IsU32 h.command
  pub seqnum_word : IsU32 h.seqnum
  pub devid_word : IsU32 h.devid
  pub direction_bit : h.direction ≤ 1
  pub ep_word : IsU32 h.ep

module _ (io : AsyncRead) where
  open io use {Stream, read_u32}

  unfoldable pub read_from_socket_with_command : Bool → ℕ → M Stream UsbIpHeaderBasic
  read_from_socket_with_command debug command = do
    seqnum ← read_u32
    devid ← read_u32
    direction ← read_u32
    debug_assert debug (bit_and direction 1 == direction)
    ep ← read_u32
    return (record {
      command = command;
      seqnum = seqnum;
      devid = devid;
      direction = direction;
      ep = ep;
    })

pub from_be-to_be : (v : ℕ) → IsU32 v → u32_from_be_bytes (u32_to_be_bytes v) ≡ v
unfolding u32_from_be_bytes u32_to_be_bytes
from_be-to_be v h = omega arith

-- A header whose fields fit 32 bits is read back from its 20 bytes.
pub from_bytes-to_bytes : (h : UsbIpHeaderBasic) → IsHeader h → from_bytes (to_bytes h) ≡ h
unfolding from_bytes to_bytes u32_to_be_bytes
from_bytes-to_bytes h v = ground arith

pub length-to_bytes : (h : UsbIpHeaderBasic) → length (to_bytes h) ≡ 20
unfolding to_bytes u32_to_be_bytes
length-to_bytes h = refl

direction_bit : (d : ℕ) → d ≤ 1 → (bit_and d 1 == d) ≡ true
direction_bit d h = ground (arith, bit_and-one d)

-- The parser of a header reads the bytes of its fields after the command.
Reads-header_fields :
    (io : AsyncRead) (debug : Bool) (h : UsbIpHeaderBasic)
    → IsHeader h
    → Reads io (read_from_socket_with_command io debug h.command) (fields_to_bytes h) h
unfolding read_from_socket_with_command fields_to_bytes
Reads-header_fields io debug h v = Reads-bind io _ _ _ _ _ _ (Reads-u32 io h.seqnum v.seqnum_word) (
    Reads-bind io _ _ _ _ _ _ (Reads-u32 io h.devid v.devid_word) (
      Reads-bind io _ _ _ _ _ _ (Reads-u32 io h.direction (omega (arith, v.direction_bit))) (
        Reads-bind io _ _ [] _ _ _
          (Reads-assert io debug _ (direction_bit h.direction v.direction_bit))
          (Reads-last io _ _ _ _ (Reads-u32 io h.ep v.ep_word)))))

-- The same with the command that was read before.
pub Reads-header :
    (io : AsyncRead) (debug : Bool) (command : ℕ) (h : UsbIpHeaderBasic)
    → IsHeader h
    → h.command ≡ command
    → Reads io (read_from_socket_with_command io debug command) (fields_to_bytes h) h
Reads-header io debug command h v e =
    subst (λ c. Reads io (read_from_socket_with_command io debug c) (fields_to_bytes h) h) e
      (Reads-header_fields io debug h v)

-- A code of 16 bits fills the lower half of a header's first word; the parser takes the upper half
-- for version 0.
pub to_bytes_split :
    (h : UsbIpHeaderBasic) (command : ℕ) (tail : List ℕ)
    → IsU16 command
    → h.command ≡ command
    → to_bytes h ++ tail
      ≡ u16_to_be_bytes 0 ++ (u16_to_be_bytes command ++ (fields_to_bytes h ++ tail))
unfolding to_bytes fields_to_bytes u32_to_be_bytes u16_to_be_bytes
to_bytes_split h command tail b e = ground arith
