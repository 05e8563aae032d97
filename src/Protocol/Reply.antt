-- ===== src/Protocol/Reply.antt =====
-- src/usbip_server/usbip_protocol.rs: the replies to submitted and unlinked requests.
use lusbip.Base.{
  ℕ, ◌+◌, ◌≡◌, refl, Bool, true, false, ◌&&◌, List, [], ◌++◌, ◌!=◌, if◌then◌else◌, length,
  replicate, arith, length-append,
}
use lusbip.Protocol.Stream.{Outcome, ok, panic, u32_to_be_bytes}
use lusbip.Protocol.Header.{
  UsbIpHeaderBasic, to_bytes as header_bytes, usbip_ret_submit_code, usbip_ret_unlink_code,
}

-- `UsbIpResponse::UsbIpRetSubmit`.
pub record RetSubmit : Type 0 where
  pub header : UsbIpHeaderBasic
  pub status : ℕ
  pub actual_length : ℕ
  pub start_frame : ℕ
  pub number_of_packets : ℕ
  pub error_count : ℕ
  pub transfer_buffer : List ℕ
  pub iso_packet_descriptor : List ℕ

-- `UsbIpResponse::UsbIpRetUnlink`.
pub record RetUnlink : Type 0 where
  pub header : UsbIpHeaderBasic
  pub status : ℕ

unfoldable pub usbip_ret_submit_success : UsbIpHeaderBasic → ℕ → ℕ → List ℕ → List ℕ → RetSubmit
usbip_ret_submit_success header start_frame actual_length transfer_buffer iso = record {
  header = header;
  status = 0;
  actual_length = actual_length;
  start_frame = start_frame;
  number_of_packets = 0;
  error_count = 0;
  transfer_buffer = transfer_buffer;
  iso_packet_descriptor = iso;
}

unfoldable pub usbip_ret_submit_fail : UsbIpHeaderBasic → ℕ → RetSubmit
usbip_ret_submit_fail header actual_length = record {
  header = header;
  status = 1;
  actual_length = actual_length;
  start_frame = 0;
  number_of_packets = 0;
  error_count = 0;
  transfer_buffer = [];
  iso_packet_descriptor = [];
}

unfoldable pub usbip_ret_unlink_success : UsbIpHeaderBasic → RetUnlink
usbip_ret_unlink_success header = record { header = header; status = 0 }

unfoldable pub usbip_ret_unlink_fail : UsbIpHeaderBasic → RetUnlink
usbip_ret_unlink_fail header = record { header = header; status = 1 }

-- The reply's header: the request's sequence number under the reply's code, and zeros.
-- `bulk_in_response_header` and the assignments of the two handlers of mod.rs.
unfoldable pub response_header : ℕ → UsbIpHeaderBasic → UsbIpHeaderBasic
response_header code h = record h { command = code; devid = 0; direction = 0; ep = 0 }

unfoldable pub bulk_in_response_header : UsbIpHeaderBasic → UsbIpHeaderBasic
unfolding response_header
bulk_in_response_header h = response_header usbip_ret_submit_code h

unfoldable pub handle_usbip_cmd_unlink : UsbIpHeaderBasic → ℕ → Bool → RetUnlink
unfolding usbip_ret_unlink_success usbip_ret_unlink_fail response_header
handle_usbip_cmd_unlink header unlink_seqnum was_pending =
    let h = response_header usbip_ret_unlink_code header in
    if was_pending then usbip_ret_unlink_success h else usbip_ret_unlink_fail h

-- `to_bytes` of the two replies, with their assertions on the command in a debug build.
unfoldable pub ret_submit_bytes : RetSubmit → List ℕ
ret_submit_bytes r =
    header_bytes r.header
    ++ (u32_to_be_bytes r.status
        ++ (u32_to_be_bytes r.actual_length
            ++ (u32_to_be_bytes r.start_frame
                ++ (u32_to_be_bytes r.number_of_packets
                    ++ (u32_to_be_bytes r.error_count
                        ++ (replicate 8 0 ++ (r.transfer_buffer ++ r.iso_packet_descriptor)))))))

unfoldable pub ret_unlink_bytes : RetUnlink → List ℕ
ret_unlink_bytes r = header_bytes r.header ++ (u32_to_be_bytes r.status ++ replicate 24 0)

unfoldable pub ret_submit_to_bytes : Bool → RetSubmit → Outcome (List ℕ)
ret_submit_to_bytes debug r =
    if debug && r.header.command != usbip_ret_submit_code then panic else ok (ret_submit_bytes r)

unfoldable pub ret_unlink_to_bytes : Bool → RetUnlink → Outcome (List ℕ)
ret_unlink_to_bytes debug r =
    if debug && r.header.command != usbip_ret_unlink_code then panic else ok (ret_unlink_bytes r)

-- The reply to a read request is 48 bytes and the data, in both builds: its header passes the
-- assertion of `to_bytes`. It carries the request's sequence number.
pub ret_submit_to_bytes-success :
    (debug : Bool) (h : UsbIpHeaderBasic) (n : ℕ) (buffer : List ℕ)
    → let r = usbip_ret_submit_success (bulk_in_response_header h) 0 n buffer [] in
      (ret_submit_to_bytes debug r ≡ ok (ret_submit_bytes r))
      × (length (ret_submit_bytes r) ≡ 48 + length buffer)
      × (r.header.seqnum ≡ h.seqnum)
unfolding ret_submit_to_bytes usbip_ret_submit_success bulk_in_response_header ret_submit_bytes
    header_bytes u32_to_be_bytes
ret_submit_to_bytes-success debug h n buffer =
    (ground arith, omega (arith, length-append {0} buffer []), refl)

-- Every reply to an unlink is 48 bytes, in both builds, for the unlink's own sequence number, and
-- its status is 0 exactly when the request was still pending.
pub ret_unlink_to_bytes-handle :
    (debug : Bool) (h : UsbIpHeaderBasic) (k : ℕ) (was_pending : Bool)
    → let r = handle_usbip_cmd_unlink h k was_pending in
      (ret_unlink_to_bytes debug r ≡ ok (ret_unlink_bytes r))
      × (length (ret_unlink_bytes r) ≡ 48)
      × (r.header.seqnum ≡ h.seqnum)
      × (r.status ≡ (if was_pending then 0 else 1))
unfolding ret_unlink_to_bytes handle_usbip_cmd_unlink ret_unlink_bytes header_bytes u32_to_be_bytes
ret_unlink_to_bytes-handle debug h k true = (ground arith, refl, refl, refl)
ret_unlink_to_bytes-handle debug h k false = (ground arith, refl, refl, refl)
