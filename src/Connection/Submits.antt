-- ===== src/Connection/Submits.antt =====
-- A CMD_SUBMIT in `handler` of src/usbip_server/mod.rs keeps the view of every number.
use lusbip.Base.{
  ℕ, ◌≡◌, refl, subst, Bool, true, false, not, ◌&&◌, List, ◌∷◌, Option, ◌==◌, contains,
  lookup-insert, contains-add, Bool-cases, Option-cases, inl, inr,
}
use lusbip.Protocol.Stream.{Outcome, ok, err, panic}
use lusbip.Protocol.Header.{UsbIpHeaderBasic, usbip_ret_submit_code}
use lusbip.Protocol.Reply.{
  RetSubmit, response_header, usbip_ret_submit_fail, usbip_ret_submit_success,
}
use lusbip.Device.Codes.{UsbDevice, Direction, input, output, direction}
use lusbip.Device.Endpoints.{find_ep}
use lusbip.Device.Urb.{Transfers, real_ep, urb_reply, handle_urb, handle_usbip_cmd_submit}
use lusbip.Protocol.Setup.{parse}
use lusbip.Bulk.Pending.{count, requires_bulk_out_control_barrier}
use lusbip.Connection.Defs.{
  Session, ret_submit, write, send_in, send_out, is_bulk_out, write_result, submit_at_once,
  submit_on,
}
use lusbip.Connection.Tables.{
  count-same, count-other, answers-same, answers-other, first_to_in, first_to_out, first_at_once,
}
use lusbip.Connection.Runs.{Run, add_if, goes_in, View}
use lusbip.Connection.Keys.{ok_inj, at_key, key_of}

-- A transfer is answered for its own number, unless it panics.
abbrev Replies : ℕ → Outcome RetSubmit → Type 0
Replies n (ok r) = r.header.seqnum ≡ n
Replies n (err e) = ⊥
Replies n panic = Unit

urb_reply-Replies :
    (header : UsbIpHeaderBasic) (dir : Direction) (size : ℕ) (o : Outcome (List ℕ)) (c : Option ℕ)
    → Replies header.seqnum (urb_reply header dir size (o, c)).0
unfolding urb_reply usbip_ret_submit_success usbip_ret_submit_fail
urb_reply-Replies header input size (ok resp) c = refl
urb_reply-Replies header output size (ok resp) c = refl
urb_reply-Replies header input size (err e) c = refl
urb_reply-Replies header output size (err e) c = refl
urb_reply-Replies header dir size panic c = tt

submit-Replies :
    {D I : Type 0} (host : Transfers D I) (debug : Bool) (d : UsbDevice D I)
    (header : UsbIpHeaderBasic) (size : ℕ) (setup out_data : List ℕ)
    → Replies header.seqnum (handle_usbip_cmd_submit host debug d header size setup out_data).0
unfolding handle_usbip_cmd_submit response_header usbip_ret_submit_fail
submit-Replies host debug d header size setup out_data =
    elim (Option-cases (find_ep (real_ep header) d)) [
      | inl e ↦ rw (e, handle_usbip_cmd_submit) refl
      | inr ((ep, intf), e) ↦
          let o = handle_urb host debug d ep intf size (parse setup) out_data in
          rw (e, handle_usbip_cmd_submit)
            (urb_reply-Replies (response_header usbip_ret_submit_code header) (direction ep) size
              o.0 o.1)
    ]

module _ {D I : Type 0} (k : ℕ) (x : Run D I) (v : View k x) where
  send_in-View :
      (header : UsbIpHeaderBasic) (size : ℕ)
      → count header.seqnum x.submitted ≡ 0
      → View k (record x {
        session = send_in header size x.session;
        submitted = header.seqnum ∷ x.submitted;
        via = header.seqnum ∷ x.via;
      })
  unfolding send_in
  send_in-View header size fresh =
      let q = header.seqnum in
      let l = lookup-insert q k (real_ep header) x.session.in_seqnums in
      elim (Bool-cases (q == k)) [
        | inl e ↦ record {
          balanced =
              rw (l, count-same q k x.submitted e, count-same q k x.via e, e)
                (first_to_in v.balanced (at_key q k x.submitted e fresh));
          paired = v.paired;
        }
        | inr e ↦ record {
          balanced = rw (l, count-other q k x.submitted e, count-other q k x.via e, e) v.balanced;
          paired = v.paired;
        }
      ]

  send_out-View :
      (header : UsbIpHeaderBasic) (out_data : List ℕ)
      → count header.seqnum x.submitted ≡ 0
      → View k (record x {
        session = send_out header out_data x.session;
        submitted = header.seqnum ∷ x.submitted;
      })
  unfolding send_out
  send_out-View header out_data fresh =
      let q = header.seqnum in
      let l = lookup-insert q k (real_ep header) x.session.out_seqnums in
      let c = contains-add q k x.session.pending_out in
      elim (Bool-cases (q == k)) [
        | inl e ↦ record {
          balanced =
              rw (c, count-same q k x.submitted e, e)
                (first_to_out v.balanced (at_key q k x.submitted e fresh));
          paired = rw (l, c, e) refl;
        }
        | inr e ↦ record {
          balanced = rw (c, count-other q k x.submitted e, e) v.balanced;
          paired = rw (l, c, e) v.paired;
        }
      ]

  answered-View :
      (header : UsbIpHeaderBasic) (r : RetSubmit)
      → r.header.seqnum ≡ header.seqnum
      → count header.seqnum x.submitted ≡ 0
      → View k (record x {
        session = write (ret_submit r) x.session;
        submitted = header.seqnum ∷ x.submitted;
      })
  unfolding write
  answered-View header r same fresh =
      let q = header.seqnum in
      elim (Bool-cases (q == k)) [
        | inl e ↦ record {
          balanced =
              rw
                (
                  answers-same k r x.session.written (key_of r.header.seqnum q k true same e),
                  count-same q k x.submitted e,
                )
                (first_at_once v.balanced (at_key q k x.submitted e fresh));
          paired = v.paired;
        }
        | inr e ↦ record {
          balanced =
              rw
                (
                  answers-other k r x.session.written (key_of r.header.seqnum q k false same e),
                  count-other q k x.submitted e,
                )
                v.balanced;
          paired = v.paired;
        }
      ]

  write_result-View :
      (header : UsbIpHeaderBasic) (o : Outcome RetSubmit) {t : Session D I}
      → Replies header.seqnum o
      → count header.seqnum x.submitted ≡ 0
      → write_result x.session o ≡ ok t
      → View k (record x { session = t; submitted = header.seqnum ∷ x.submitted })
  unfolding write_result
  write_result-View header (ok r) {t} same fresh h =
      subst (λ t. View k (record x { session = t; submitted = header.seqnum ∷ x.submitted }))
        (ok_inj h) (answered-View header r same fresh)
  write_result-View header (err e) same fresh h = absurd same
  write_result-View header panic same fresh h = absurd (cc h)

  submit_at_once-View :
      (host : Transfers D I) (debug passed : Bool) (d : UsbDevice D I) (header : UsbIpHeaderBasic)
      (size : ℕ) (setup out_data : List ℕ) {t : Session D I}
      → count header.seqnum x.submitted ≡ 0
      → submit_at_once host debug passed d header size setup out_data x.session ≡ ok t
      → View k (record x { session = t; submitted = header.seqnum ∷ x.submitted })
  unfolding submit_at_once write_result response_header usbip_ret_submit_fail
  submit_at_once-View host debug passed d header size setup out_data fresh h =
      elim (Bool-cases (requires_bulk_out_control_barrier (real_ep header) && not passed)) [
        | inl e ↦
            write_result-View header
              (ok (usbip_ret_submit_fail (response_header usbip_ret_submit_code header) 0)) refl
              fresh (rw (e, submit_at_once) at h)
        | inr e ↦
            write_result-View header
              (handle_usbip_cmd_submit host debug d header size setup out_data).0
              (submit-Replies host debug d header size setup out_data) fresh
              (rw (e, submit_at_once) at h)
      ]

  pub submit_on-View :
      (host : Transfers D I) (debug taken passed : Bool) (d : UsbDevice D I)
      (header : UsbIpHeaderBasic) (size : ℕ) (setup out_data : List ℕ) {t : Session D I}
      → count header.seqnum x.submitted ≡ 0
      → submit_on host debug taken passed d header size setup out_data x.session ≡ ok t
      → View k (record x {
        session = t;
        submitted = header.seqnum ∷ x.submitted;
        via = add_if (goes_in taken header x.session) header.seqnum x.via;
      })
  unfolding submit_on
  submit_on-View host debug taken passed d header size setup out_data {t} fresh h =
      elim (Bool-cases (goes_in taken header x.session)) [
        | inl e ↦ rw e (
            subst
              (λ t. View k (record x {
                session = t;
                submitted = header.seqnum ∷ x.submitted;
                via = header.seqnum ∷ x.via;
              }))
              (ok_inj (rw (e, submit_on) at h)) (send_in-View header size fresh))
        | inr e ↦
            elim (Bool-cases
              (is_bulk_out d header && contains (real_ep header) x.session.out_workers && taken)) [
                | inl f ↦ rw e (
                    subst
                      (λ t.
                        View k (record x { session = t; submitted = header.seqnum ∷ x.submitted }))
                      (ok_inj (rw (e, f, submit_on) at h)) (send_out-View header out_data fresh))
                | inr f ↦ rw e (
                    submit_at_once-View host debug passed d header size setup out_data fresh
                      (rw (e, f, submit_on) at h))
              ]
      ]
