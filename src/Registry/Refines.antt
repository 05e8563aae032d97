-- ===== src/Registry/Refines.antt =====
-- `UsbIpServer` of src/usbip_server/mod.rs refines the abstract registry.
use lusbip.Base.{
  ◌≡◌, refl, sym, fun_ext, subst, ap, ◌∙◌, Bool, true, false, not, ◌&&◌, ◌||◌, List, [], ◌∷◌, Text,
  text_eq, text_eq_iff, if◌then◌else◌, any, Bool-cases, inl, inr, arith,
}
use lusbip.Device.Codes.{UsbDevice}
use lusbip.Registry.Defs.{UsbIpServer, remove_device, cleanup, add_device, sync_retain, sync_append}
use lusbip.Registry.Unique.{holds, Distinct, holds-append, appends-Distinct}
use lusbip.Registry.Invariant.{IsRegistry, occupy_moves, occupy_missing, release_lem}
use lusbip.Registry.Sync.{remove_moves, sync_retain_lem, cleanup_lem}
use lusbip.Registry.Ledger.{
  absent, free, used, imported, Call, call_occupy, call_release, call_remove, call_add, call_sync,
  IsNew, AreNew, call_cleanup, update, is_known, status_of, occupy_entry, remove_entry, ledger_of,
  perform, occupied_answer, removed_answer, call, call_all, perform_all,
}

occupied_status :
    (a u e : Bool) → status_of (a && not e) (u || e) ≡ (if e then used else status_of a u)
unfolding status_of
occupied_status a u e = ground arith

released_status :
    (a u e : Bool) → status_of (a || e) (u && not e) ≡ (if e then free else status_of a u)
unfolding status_of
released_status a u e = ground arith

-- An id that is removed was not in use.
removed_status :
    (a u e : Bool)
    → (e ≡ true → u ≡ false)
    → status_of (a && not e) u ≡ (if e then absent else status_of a u)
unfolding status_of
removed_status a u true h = rw (h refl) (ground arith)
removed_status a u false h = ground arith

kept_status : (a u p : Bool) → status_of (a && p) (u && p) ≡ (if p then status_of a u else absent)
unfolding status_of
kept_status a u p = ground arith

cleaned_status :
    (a u l : Bool)
    → status_of (not l && (a || u)) false
      ≡ (if not l && is_known (status_of a u) then free else absent)
unfolding status_of is_known
cleaned_status a u l = ground arith

added_status : (a u n : Bool) → status_of (a || n) u ≡ (if n then free else status_of a u)
unfolding status_of
added_status a u n = ground arith

unknown : (a u : Bool) → status_of a u ≡ absent → (a ≡ false) × (u ≡ false)
unfolding status_of
unknown true u h = absurd (cc h)
unknown false true h = absurd (cc h)
unknown false false h = (refl, refl)

and_false : (a : Bool) → (a && false) ≡ false
and_false a = ground arith

or_false : (a u : Bool) → (a && u) ≡ false → ((a || false) && u) ≡ false
or_false a u h = ground arith

or_none : (a : Bool) → (a || false) ≡ a
or_none a = ground arith

module _ {D I : Type 0} where
  -- A call answers as the ledger does, leads to the registry of the ledger's next state, and keeps
  -- the registry well formed.
  record Refines (c : Call D I) (s : UsbIpServer D I) : Type 0 where
    answers : (call c s).0 ≡ (perform c (ledger_of s)).0
    leads : ledger_of (call c s).1 ≡ (perform c (ledger_of s)).1
    well_formed : IsRegistry (call c s).1

  occupy-Refines : (c : Text) (s : UsbIpServer D I) → IsRegistry s → Refines (call_occupy c) s
  unfolding call perform occupied_answer occupy_entry ledger_of status_of update
  occupy-Refines c s v = elim (Bool-cases (holds c s.available_devices)) [
    | inl h ↦
        let (d, t, e, named, vt, left, taken) = occupy_moves c s v h in
        record {
          answers = rw (e, h) (ap imported named);
          leads =
              rw (e, h)
                (fun_ext (λ b.
                  rw (left b, taken b)
                    (occupied_status (holds b s.available_devices) (holds b s.used_devices)
                      (text_eq c b))));
          well_formed = rw e vt;
        }
    | inr h ↦ elim (Bool-cases (holds c s.used_devices)) [
      | inl k ↦ record {
        answers = rw (occupy_missing c s h, h, k) refl;
        leads = rw (occupy_missing c s h, h, k) refl;
        well_formed = rw (occupy_missing c s h) v;
      }
      | inr k ↦ record {
        answers = rw (occupy_missing c s h, h, k) refl;
        leads = rw (occupy_missing c s h, h, k) refl;
        well_formed = rw (occupy_missing c s h) v;
      }
    ]
  ]

  -- An available id is not in use.
  not_used :
      (c b : Text) (s : UsbIpServer D I)
      → IsRegistry s
      → holds c s.available_devices ≡ true
      → text_eq c b ≡ true
      → holds b s.used_devices ≡ false
  not_used c b s v h e =
      let w : holds c s.used_devices ≡ false = ground (arith, v.apart c) in
      subst (λ x. holds x s.used_devices ≡ false) ((text_eq_iff c b).0 e) w

  remove-Refines : (c : Text) (s : UsbIpServer D I) → IsRegistry s → Refines (call_remove c) s
  unfolding call perform removed_answer remove_entry remove_device ledger_of status_of update
  remove-Refines c s v = elim (Bool-cases (holds c s.available_devices)) [
    | inl h ↦
        let (t, e, vt, left, same) = remove_moves c s v h in
        record {
          answers = rw (e, h) refl;
          leads =
              rw (e, h)
                (fun_ext (λ b.
                  rw (left b, same)
                    (removed_status (holds b s.available_devices) (holds b s.used_devices)
                      (text_eq c b) (not_used c b s v h))));
          well_formed = rw e vt;
        }
    | inr h ↦ elim (Bool-cases (holds c s.used_devices)) [
      | inl k ↦ record {
        answers = rw (h, k) refl;
        leads = rw (h, k) refl;
        well_formed = rw (h, k) v;
      }
      | inr k ↦ record {
        answers = rw (h, k) refl;
        leads = rw (h, k) refl;
        well_formed = rw (h, k) v;
      }
    ]
  ]

  -- Devices of ids that the registry does not know are added, in one place for both calls.
  append-IsRegistry :
      (new : List (UsbDevice D I)) (s : UsbIpServer D I)
      → IsRegistry s
      → Distinct new
      → ((b : Text) → holds b new ≡ true → ledger_of s b ≡ absent)
      → IsRegistry (sync_append new s)
  unfolding sync_append ledger_of
  append-IsRegistry new s v once fresh =
      let a = λ (b : Text) (h : holds b new ≡ true).
        unknown (holds b s.available_devices) (holds b s.used_devices) (fresh b h) in
      record {
        available_once =
            appends-Distinct s.available_devices new v.available_once once (λ b h. (a b h).0);
        used_once = v.used_once;
        apart = λ b. elim (Bool-cases (holds b new)) [
          | inl h ↦
              rw (holds-append b s.available_devices new, (a b h).1)
                (and_false (holds b s.available_devices || holds b new))
          | inr h ↦
              rw (holds-append b s.available_devices new, h)
                (or_false (holds b s.available_devices) (holds b s.used_devices) (v.apart b))
        ];
      }

  ledger_of-append :
      (new : List (UsbDevice D I)) (s : UsbIpServer D I) (b : Text)
      → ledger_of (sync_append new s) b ≡ (if holds b new then free else ledger_of s b)
  unfolding sync_append ledger_of
  ledger_of-append new s b =
      rw (holds-append b s.available_devices new)
        (added_status (holds b s.available_devices) (holds b s.used_devices) (holds b new))

  ledger_of-retain :
      (current : List Text) (s : UsbIpServer D I) (b : Text)
      → IsRegistry s
      → ledger_of (sync_retain current s) b
        ≡ (if any (text_eq b) current then ledger_of s b else absent)
  unfolding ledger_of
  ledger_of-retain current s b v =
      let w = sync_retain_lem current b s v in
      rw (w.1, w.2)
        (kept_status (holds b s.available_devices) (holds b s.used_devices)
          (any (text_eq b) current))

  add-Refines :
      (d : UsbDevice D I) (s : UsbIpServer D I)
      → IsRegistry s
      → ledger_of s d.bus_id ≡ absent
      → Refines (call_add d) s
  unfolding call perform add_device sync_append update any
  add-Refines d s v fresh = record {
    answers = refl;
    leads = fun_ext (λ b. ledger_of-append (d ∷ []) s b ∙ rw (or_none (text_eq d.bus_id b)) refl);
    well_formed =
        append-IsRegistry (d ∷ []) s v (refl, tt)
          (λ b h.
            let e : text_eq d.bus_id b ≡ true = sym (or_none (text_eq d.bus_id b)) ∙ h in
            subst (λ x. ledger_of s x ≡ absent) ((text_eq_iff d.bus_id b).0 e) fresh);
  }

  sync-Refines :
      (current : List Text) (new : List (UsbDevice D I)) (s : UsbIpServer D I)
      → IsRegistry s
      → IsNew (call_sync current new) (ledger_of s)
      → Refines (call_sync current new) s
  unfolding call perform
  sync-Refines current new s v fresh =
      let t = sync_retain current s in
      record {
        answers = refl;
        leads = fun_ext (λ b.
            ledger_of-append new t b
            ∙ ap (λ l. if holds b new then free else l) (ledger_of-retain current s b v));
        well_formed =
            append-IsRegistry new t (sync_retain_lem current [] s v).0 fresh.0
              (λ b h. ledger_of-retain current s b v ∙ rw (fresh.1 b h).0 (fresh.1 b h).1);
      }

  call-Refines :
      (c : Call D I) (s : UsbIpServer D I) → IsRegistry s → IsNew c (ledger_of s) → Refines c s
  unfolding call perform ledger_of update any
  call-Refines (call_occupy c) s v n = occupy-Refines c s v
  call-Refines (call_remove c) s v n = remove-Refines c s v
  call-Refines (call_add d) s v n = add-Refines d s v n
  call-Refines (call_sync current new) s v n = sync-Refines current new s v n
  call-Refines (call_release d) s v n = record {
    answers = refl;
    leads = fun_ext (λ b.
        let w = release_lem d b s v in
        rw (w.1, w.2)
          (released_status (holds b s.available_devices) (holds b s.used_devices)
            (text_eq d.bus_id b)));
    well_formed = (release_lem d d.bus_id s v).0;
  }
  call-Refines (call_cleanup linux) s v n = record {
    answers = refl;
    leads = fun_ext (λ b.
        let w = cleanup_lem linux b s v in
        ap (λ l. status_of (holds b (cleanup linux s).1.available_devices) (holds b l)) w.3
        ∙ ap (λ a. status_of a false) w.4
        ∙ cleaned_status (holds b s.available_devices) (holds b s.used_devices) linux);
    well_formed = (cleanup_lem linux [] s v).2;
  }

  -- Whatever calls are made of a well-formed registry one after the other, each as a whole, where
  -- devices are added under ids that it does not know, they answer as the abstract registry does, the
  -- registry then is the abstract one's last state, and it is well formed.
  pub call_all-perform_all :
      (cs : List (Call D I)) (s : UsbIpServer D I)
      → IsRegistry s
      → AreNew cs (ledger_of s)
      → ((call_all cs s).0 ≡ (perform_all cs (ledger_of s)).0)
        × (ledger_of (call_all cs s).1 ≡ (perform_all cs (ledger_of s)).1)
        × IsRegistry (call_all cs s).1
  unfolding call_all perform_all
  call_all-perform_all [] s v n = (refl, refl, v)
  call_all-perform_all (c ∷ cs) s v n =
      let r = call-Refines c s v n.0 in
      let (answers, last, w) =
        call_all-perform_all cs (call c s).1 r.well_formed (subst (AreNew cs) (sym r.leads) n.1) in
      (rw (answers, r.answers, r.leads) refl, last ∙ ap (λ l. (perform_all cs l).1) r.leads, w)
