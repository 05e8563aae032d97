-- ===== src/Connection/Unlinks.antt =====
-- A CMD_UNLINK in `handler` of src/usbip_server/mod.rs keeps the view of every number.
use lusbip.Base.{
  ℕ, ◌≡◌, refl, subst, true, false, ◌∷◌, Option, none, some, ◌==◌, contains, discard, remove,
  lookup, lookup-remove, contains-add, contains-discard, Bool-cases, inl, inr,
}
use lusbip.Protocol.Header.{UsbIpHeaderBasic}
use lusbip.Bulk.Pending.{count}
use lusbip.Bulk.InTrace.{is_some}
use lusbip.Connection.Defs.{
  write, unlink_from_in, unlink_from_out, find_unlinked, write_unlinked, on_unlink,
}
use lusbip.Connection.Tables.{answers, Balanced, count-same, count-other, unlinked_in, unlinked_out}
use lusbip.Connection.Runs.{Run, add_if, found, View}
use lusbip.Connection.Keys.{some_at, contains_key}

module _ {D I : Type 0} (k : ℕ) (x : Run D I) (v : View k x) where
  -- The tables lose a request that no worker has.
  pub discarded-View :
      (j : ℕ)
      → contains j x.session.pending_out ≡ false
      → View k (record x {
        session = record x.session {
          out_seqnums = remove j x.session.out_seqnums;
          pending_out = discard j x.session.pending_out;
        };
      })
  discarded-View j f =
      let l = lookup-remove j k x.session.out_seqnums in
      let c = contains-discard j k x.session.pending_out in
      elim (Bool-cases (j == k)) [
        | inl e ↦ record {
          balanced =
              rw (c, e)
                (subst
                  (λ b.
                    Balanced (is_some (lookup k x.session.in_seqnums)) b
                      (contains k x.session.cancelled) (count k x.submitted) (count k x.via)
                      (count k x.consumed) (count k x.unlinked) (answers k x.session.written))
                  (contains_key j k x.session.pending_out false e f) v.balanced);
          paired = rw (l, c, e) refl;
        }
        | inr e ↦ record { balanced = rw (c, e) v.balanced; paired = rw (l, c, e) v.paired }
      ]

  unlink_in-View :
      (header : UsbIpHeaderBasic) (j address : ℕ)
      → lookup j x.session.in_seqnums ≡ some address
      → View k (record x {
        session = write_unlinked header j (true, unlink_from_in j address x.session);
        unlinked = j ∷ x.unlinked;
      })
  unfolding write_unlinked write unlink_from_in answers
  unlink_in-View header j address h =
      let l = lookup-remove j k x.session.in_seqnums in
      let c = contains-add j k x.session.cancelled in
      elim (Bool-cases (j == k)) [
        | inl e ↦ record {
          balanced =
              rw (l, c, count-same j k x.unlinked e, e)
                (unlinked_in v.balanced (some_at j k x.session.in_seqnums address e h));
          paired = v.paired;
        }
        | inr e ↦ record {
          balanced = rw (l, c, count-other j k x.unlinked e, e) v.balanced;
          paired = v.paired;
        }
      ]

  unlink_out-View :
      (header : UsbIpHeaderBasic) (j address : ℕ)
      → View k (record x {
        session =
            write_unlinked header j
              (contains j x.session.pending_out, unlink_from_out j address x.session);
        unlinked = add_if (contains j x.session.pending_out) j x.unlinked;
      })
  unfolding write_unlinked write unlink_from_out answers
  unlink_out-View header j address =
      let l = lookup-remove j k x.session.out_seqnums in
      let c = contains-discard j k x.session.pending_out in
      elim (Bool-cases (contains j x.session.pending_out)) [
        | inr f ↦
            rw f (let w = discarded-View j f in record { balanced = w.balanced; paired = w.paired })
        | inl f ↦ elim (Bool-cases (j == k)) [
          | inl e ↦ record {
            balanced =
                rw (c, f, count-same j k x.unlinked e, e)
                  (unlinked_out v.balanced (contains_key j k x.session.pending_out true e f));
            paired = rw (l, c, e) refl;
          }
          | inr e ↦ record {
            balanced = rw (c, f, count-other j k x.unlinked e, e) v.balanced;
            paired = rw (l, c, e) v.paired;
          }
        ]
      ]

  unlink_none-View :
      (header : UsbIpHeaderBasic) (j : ℕ)
      → View k (record x { session = write_unlinked header j (false, x.session) })
  unfolding write_unlinked write answers
  unlink_none-View header j = record { balanced = v.balanced; paired = v.paired }

  find_unlinked-View :
      (header : UsbIpHeaderBasic) (j : ℕ) (o p : Option ℕ)
      → lookup j x.session.in_seqnums ≡ o
      → View k (record x {
        session = write_unlinked header j (find_unlinked o p j x.session);
        unlinked = add_if (find_unlinked o p j x.session).0 j x.unlinked;
      })
  unfolding find_unlinked
  find_unlinked-View header j (some address) p h = unlink_in-View header j address h
  find_unlinked-View header j none (some address) h = unlink_out-View header j address
  find_unlinked-View header j none none h = unlink_none-View header j

  pub on_unlink-View :
      (header : UsbIpHeaderBasic) (j : ℕ)
      → View k (record x {
        session = on_unlink header j x.session;
        unlinked = add_if (found j x.session) j x.unlinked;
      })
  unfolding on_unlink
  on_unlink-View header j =
      find_unlinked-View header j (lookup j x.session.in_seqnums) (lookup j x.session.out_seqnums)
        refl
