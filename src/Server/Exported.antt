-- ===== src/Server/Exported.antt =====
-- What a synchronisation of src/usbip_server/mod.rs leaves in the registry.
use lusbip.Base.{
  ◌≡◌, refl, sym, ◌∙◌, Bool, true, not, ◌&&◌, List, [], ◌∷◌, map, Text, text_eq, any, retain,
  Bool-cases, inl, inr, arith,
}
use lusbip.Device.Codes.{UsbDevice}
use lusbip.Registry.Defs.{UsbIpServer, sync_retain, unknown_bus_ids, sync_append}
use lusbip.Registry.Unique.{holds, holds-append}
use lusbip.Registry.Invariant.{IsRegistry}
use lusbip.Registry.Sync.{sync_retain_lem}
use lusbip.Client.Shown.{text_eq_sym}
use lusbip.Server.Filter.{
  DeviceInfo, ServerDeviceFilter, is_usb_hub, export_bus_id, matches, current_infos,
  sync_from_host_with_filter,
}

-- One of the devices has the id `b`; one of those has it and passes the filter.
abbrev pub names : Bool → Text → List DeviceInfo → Bool
names linux b infos = any (λ i. text_eq (export_bus_id linux i) b) infos

abbrev pub is_shared : Bool → ServerDeviceFilter → Text → List DeviceInfo → Bool
is_shared linux f b infos =
    any (λ i. text_eq (export_bus_id linux i) b && matches linux f i && not (is_usb_hub i)) infos

names-retain :
    (linux : Bool) (b : Text) (p : DeviceInfo → Bool) (infos : List DeviceInfo)
    → names linux b (retain p infos) ≡ true
    → names linux b infos ≡ true
unfolding any retain
names-retain linux b p [] h = absurd (cc h)
names-retain linux b p (i ∷ infos) h = ground (arith, names-retain linux b p infos)

names-current :
    (linux : Bool) (f : ServerDeviceFilter) (b : Text) (infos : List DeviceInfo)
    → names linux b (current_infos linux f infos) ≡ is_shared linux f b infos
unfolding any retain current_infos
names-current linux f b [] = refl
names-current linux f b (i ∷ infos) = ground (arith, names-current linux f b infos)

any-map_export :
    (linux : Bool) (b : Text) (infos : List DeviceInfo)
    → any (text_eq b) (map (export_bus_id linux) infos) ≡ names linux b infos
unfolding any
any-map_export linux b [] = refl
any-map_export linux b (i ∷ infos) =
    ground (arith, any-map_export linux b infos, text_eq_sym b (export_bus_id linux i))

module _ {D I : Type 0} where
  -- If devices are opened under the ids of what nusb lists, then after a synchronisation of a well-formed
  -- registry every id that is available is that of a listed device which passes the filter and is
  -- no hub.
  pub sync_from_host-is_shared :
      (linux : Bool) (f : ServerDeviceFilter) (opened : List DeviceInfo → List (UsbDevice D I))
      (infos : List DeviceInfo) (s : UsbIpServer D I) (b : Text)
      → ((new : List DeviceInfo) → holds b (opened new) ≡ true → names linux b new ≡ true)
      → IsRegistry s
      → holds b (sync_from_host_with_filter linux f opened infos s).1.available_devices ≡ true
      → is_shared linux f b infos ≡ true
  unfolding sync_from_host_with_filter sync_append
  sync_from_host-is_shared linux f opened infos s b opens v h =
      let current = current_infos linux f infos in
      let ids = map (export_bus_id linux) current in
      let t = sync_retain ids s in
      let p = λ (i : DeviceInfo). any (text_eq (export_bus_id linux i)) (unknown_bus_ids ids t) in
      let kept = (sync_retain_lem ids b s v).1 in
      let split = holds-append b t.available_devices (opened (retain p current)) in
      let listed = any-map_export linux b current ∙ names-current linux f b infos in
      elim (Bool-cases (holds b (opened (retain p current)))) [
        | inl new ↦
            sym (names-current linux f b infos)
            ∙ names-retain linux b p current (opens (retain p current) new)
        | inr old ↦ ground (arith, kept, split, listed, old)
      ]
