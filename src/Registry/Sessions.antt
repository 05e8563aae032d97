-- ===== src/Registry/Sessions.antt =====
-- Many connections on one registry of src/usbip_server/mod.rs. Each `handler` has the device that
-- its client imported; a step is one import, or the end of one connection, with nothing between
-- its locks.
use lusbip.Base.{
  ℕ, ◌≡◌, ◌≢◌, refl, sym, ap, subst, fun_ext, ◌∙◌, Bool, true, false, ◌||◌, List, Option, none,
  some, Text, text_eq, text_eq_iff, any, if◌then◌else◌, ◌==◌, arith, ==_iff, false≢true, Bool-cases,
  inl, inr, ◌⊎◌,
}
use mathlib.Core.Option.{some-injective}
use lusbip.Device.Codes.{UsbDevice}
use lusbip.Registry.Defs.{UsbIpServer, Result, ok, err, trim_busid, remove_device, new_simulated}
use lusbip.Registry.Unique.{holds, Distinct}
use lusbip.Registry.Invariant.{IsRegistry, occupy_moves, occupy_missing, release_lem}
use lusbip.Registry.Sync.{remove_device-IsRegistry}
use lusbip.Registry.Import.{
  ImportReply, handle_op_req_import, handle_valid, handle_invalid, import_named, give_back, is_utf8,
}

pub record World (D I : Type 0) : Type 0 where
  pub server : UsbIpServer D I
  pub session : ℕ → Option (UsbDevice D I)

or_true : (a b : Bool) → b ≡ true → (a || b) ≡ true
or_true a b h = ground arith

module _ {D I : Type 0} where
  abbrev pub put :
      ℕ → Option (UsbDevice D I) → (ℕ → Option (UsbDevice D I)) → ℕ → Option (UsbDevice D I)
  put i o f j = if i == j then o else f j

  -- What `handler` does with the answer to `OpReqImport` on connection `i`: on an error it releases
  -- the device that the connection has.
  unfoldable pub after_import :
      ℕ
      → World D I
      → Result (ImportReply D I) × Option (UsbDevice D I) × UsbIpServer D I
      → World D I
  after_import i w (ok reply, device, t) = record { server = t; session = put i device w.session }
  after_import i w (err e, device, t) = record {
    server = give_back device t;
    session = put i none w.session;
  }

  unfoldable pub import_on : ℕ → List ℕ → World D I → World D I
  unfolding after_import
  import_on i busid w = after_import i w (handle_op_req_import busid (w.session i) w.server)

  -- The end of connection `i`, by an error of its socket: its device is released.
  unfoldable pub close : ℕ → World D I → World D I
  close i w = record { server = give_back (w.session i) w.server; session = put i none w.session }

  pub data Step (w : World D I) : World D I → Type 0 where
    imports : (i : ℕ) (busid : List ℕ) → Step w (import_on i busid w)
    closes : (i : ℕ) → Step w (close i w)
    removes :
        (bus_id : Text) (t : UsbIpServer D I)
        → remove_device bus_id w.server ≡ ok t
        → Step w (record w { server = t })

  pub data Reach (w : World D I) : World D I → Type 0 where
    here : Reach w w
    next : {t u : World D I} → Reach w t → Step t u → Reach w u

  -- Every connection's device is in use, and no two connections have devices of the same id.
  pub record IsExclusive (w : World D I) : Type 0 where
    pub registry : IsRegistry w.server
    pub in_use :
        (i : ℕ) (d : UsbDevice D I)
        → w.session i ≡ some d
        → holds d.bus_id w.server.used_devices ≡ true
    pub one_owner :
        (i j : ℕ) (d e : UsbDevice D I)
        → w.session i ≡ some d
        → w.session j ≡ some e
        → d.bus_id ≡ e.bus_id
        → i ≡ j

  pub same_id : (d e : UsbDevice D I) → some d ≡ some e → d.bus_id ≡ e.bus_id
  same_id d e h = ap (λ (x : UsbDevice D I). x.bus_id) (some-injective d e h)

  pub put-some :
      (i j : ℕ) (o : Option (UsbDevice D I)) (f : ℕ → Option (UsbDevice D I)) (d : UsbDevice D I)
      → put i o f j ≡ some d
      → ((i ≡ j) × (o ≡ some d)) ⊎ ((i ≢ j) × (f j ≡ some d))
  put-some i j o f d h = elim (Bool-cases (i == j)) [
    | inl e ↦ inl ((==_iff i j).0 e, rw e at h)
    | inr e ↦ inr (λ q. false≢true (sym e ∙ (==_iff i j).1 q), rw e at h)
  ]

  pub put-none :
      (i j : ℕ) (f : ℕ → Option (UsbDevice D I)) (d : UsbDevice D I)
      → put i none f j ≡ some d
      → (i ≢ j) × (f j ≡ some d)
  put-none i j f d h = elim (put-some i j none f d h) [ inl p ↦ absurd (cc (p.1)) | inr p ↦ p ]

  -- Another connection's device has another id.
  text_ne :
      (i j : ℕ) (w : World D I) (d e : UsbDevice D I)
      → IsExclusive w
      → w.session i ≡ some d
      → w.session j ≡ some e
      → i ≢ j
      → text_eq d.bus_id e.bus_id ≡ false
  text_ne i j w d e v hi hj ne = elim (Bool-cases (text_eq d.bus_id e.bus_id)) [
    | inl q ↦ absurd (ne (v.one_owner i j d e hi hj ((text_eq_iff d.bus_id e.bus_id).0 q)))
    | inr q ↦ q
  ]

  close_with :
      (i : ℕ) (w : World D I) (o : Option (UsbDevice D I))
      → w.session i ≡ o
      → IsExclusive w
      → IsExclusive (record { server = give_back o w.server; session = put i none w.session })
  unfolding give_back
  close_with i w none h v = record {
    registry = v.registry;
    in_use = λ j e q. v.in_use j e (put-none i j w.session e q).1;
    one_owner = λ j k e f q r.
        v.one_owner j k e f (put-none i j w.session e q).1 (put-none i k w.session f r).1;
  }
  close_with i w (some d) h v = record {
    registry = (release_lem d d.bus_id w.server v.registry).0;
    in_use = λ j e q.
        let p = put-none i j w.session e q in
        rw
          (
            (release_lem d e.bus_id w.server v.registry).2,
            text_ne i j w d e v h p.1 p.0,
            v.in_use j e p.1,
          )
          refl;
    one_owner = λ j k e f q r.
        v.one_owner j k e f (put-none i j w.session e q).1 (put-none i k w.session f r).1;
  }

  close-IsExclusive : (i : ℕ) (w : World D I) → IsExclusive w → IsExclusive (close i w)
  unfolding close
  close-IsExclusive i w v = close_with i w (w.session i) refl v

  -- The world after connection `i`, which has no device, imports one of an id that was available.
  occupied-IsExclusive :
      (i : ℕ) (c : Text) (w : World D I) (d : UsbDevice D I) (t : UsbIpServer D I)
      → w.session i ≡ none
      → IsExclusive w
      → d.bus_id ≡ c
      → holds c w.server.available_devices ≡ true
      → IsRegistry t
      → ((b : Text) → holds b t.used_devices ≡ (holds b w.server.used_devices || text_eq c b))
      → IsExclusive (record { server = t; session = put i (some d) w.session })
  occupied-IsExclusive i c w d t empty v named free vt used = record {
    registry = vt;
    in_use = λ j e q. elim (put-some i j (some d) w.session e q) [
      | inl p ↦ rw (used e.bus_id) (
          or_true (holds e.bus_id w.server.used_devices) (text_eq c e.bus_id)
            ((text_eq_iff c e.bus_id).1 (sym named ∙ same_id d e p.1)))
      | inr p ↦ rw (used e.bus_id, v.in_use j e p.1) refl
    ];
    one_owner = λ j k e f q r s. elim (put-some i j (some d) w.session e q) [
      | inl p ↦ elim (put-some i k (some d) w.session f r) [
        | inl p' ↦ sym p.0 ∙ p'.0
        | inr p' ↦ absurd (clash k f p'.1 (sym s ∙ sym (same_id d e p.1) ∙ named))
      ]
      | inr p ↦ elim (put-some i k (some d) w.session f r) [
        | inl p' ↦ absurd (clash j e p.1 (s ∙ sym (same_id d f p'.1) ∙ named))
        | inr p' ↦ v.one_owner j k e f p.1 p'.1 s
      ]
    ];
  }
    where
      clash : (k : ℕ) (f : UsbDevice D I) → w.session k ≡ some f → f.bus_id ≡ c → ⊥
      clash k f h e = false≢true (
          sym (v.registry.apart c)
          ∙ rw (free, sym (ap (λ (b : Text). holds b w.server.used_devices) e) ∙ v.in_use k f h)
              refl)

  -- A connection without a device that imports `c`.
  occupy-IsExclusive :
      (i : ℕ) (c : Text) (w : World D I)
      → w.session i ≡ none
      → IsExclusive w
      → let (reply, device, t) = import_named c w.server in
        IsExclusive (record { server = t; session = put i device w.session })
  unfolding import_named give_back
  occupy-IsExclusive i c w empty v = elim (Bool-cases (holds c w.server.available_devices)) [
    | inl free ↦
        let (d, t, e, named, vt, left, used) = occupy_moves c w.server v.registry free in
        rw (e, import_named) (occupied-IsExclusive i c w d t empty v named free vt used)
    | inr taken ↦ rw (occupy_missing c w.server taken, import_named) (close_with i w none empty v)
  ]

  -- `put` twice at one connection keeps the last.
  pub put_twice :
      (i : ℕ) (o p : Option (UsbDevice D I)) (f : ℕ → Option (UsbDevice D I))
      → put i o (put i p f) ≡ put i o f
  put_twice i o p f = fun_ext (λ j. ground arith)

  pub put_self :
      (i : ℕ) (o : Option (UsbDevice D I)) (f : ℕ → Option (UsbDevice D I)) → put i o f i ≡ o
  put_self i o f = ground arith

  import_on-IsExclusive :
      (i : ℕ) (busid : List ℕ) (w : World D I) → IsExclusive w → IsExclusive (import_on i busid w)
  unfolding import_on close
  import_on-IsExclusive i busid w v =
      let named = import_named (trim_busid busid) (give_back (w.session i) w.server) in
      elim (Bool-cases (is_utf8 (trim_busid busid))) [
        | inl u ↦ rw (handle_valid busid (w.session i) w.server u) (
            subst (λ f. IsExclusive (record { server = named.2; session = f }))
              (put_twice i named.1 none w.session)
              (occupy-IsExclusive i (trim_busid busid) (close i w) (put_self i none w.session)
                (close-IsExclusive i w v)))
        | inr u ↦ rw (handle_invalid busid (w.session i) w.server u) (close-IsExclusive i w v)
      ]

  pub Step-IsExclusive : {w t : World D I} → Step w t → IsExclusive w → IsExclusive t
  Step-IsExclusive {w} (imports i busid) v = import_on-IsExclusive i busid w v
  Step-IsExclusive {w} (closes i) v = close-IsExclusive i w v
  Step-IsExclusive {w} (removes bus_id t e) v =
      let (vt, same) = remove_device-IsRegistry bus_id w.server t v.registry e in
      record { registry = vt; in_use = λ j d q. rw same (v.in_use j d q); one_owner = v.one_owner }

  -- Whatever the clients of a registry with distinct devices do, no bus id is ever imported by two
  -- connections, and every imported device is in use.
  pub Reach-IsExclusive :
      (devices : List (UsbDevice D I)) {w : World D I}
      → Distinct devices
      → Reach (record { server = new_simulated devices; session = λ i. none }) w
      → IsExclusive w
  unfolding new_simulated
  Reach-IsExclusive devices h here = record {
    registry = record {
      available_once = h;
      used_once = tt;
      apart = λ b. unfold any in ground arith;
    };
    in_use = λ i d q. absurd (cc q);
    one_owner = λ i j d e q r s. absurd (cc q);
  }
  Reach-IsExclusive devices h (next r st) = Step-IsExclusive st (Reach-IsExclusive devices h r)
