-- ===== src/Registry/Ledger.antt =====
-- An abstract registry of src/usbip_server/mod.rs: for each bus id whether it is absent, free or in
-- use, with no lists, order or devices; and the methods of `UsbIpServer` as they act on it.
use lusbip.Base.{
  ◌≡◌, Bool, true, false, not, ◌&&◌, List, [], ◌∷◌, Text, text_eq, if◌then◌else◌, any,
}
use lusbip.Device.Codes.{UsbDevice}
use lusbip.Registry.Defs.{
  UsbIpServer, RegistryError, in_use, not_found, no_available_device, Result, ok, err,
  remove_device, occupy, release, cleanup, add_device, sync_retain, sync_append,
}
use lusbip.Registry.Unique.{holds, Distinct}

pub data Status : Type 0 where
  absent free used : Status

abbrev pub Ledger : Type 0
Ledger = Text → Status

-- What a caller sees: an import tells the id of the device that it hands out.
pub data Answer : Type 0 where
  done : Answer
  imported : Text → Answer
  refused : RegistryError → Answer

-- Calls of the methods. A synchronisation has the current ids, and the devices that it opens.
pub data Call (D I : Type 0) : Type 0 where
  call_occupy : Text → Call D I
  call_release : UsbDevice D I → Call D I
  call_remove : Text → Call D I
  call_add : UsbDevice D I → Call D I
  call_sync : List Text → List (UsbDevice D I) → Call D I
  call_cleanup : Bool → Call D I

unfoldable pub update : Text → Status → Ledger → Ledger
update c status ledger b = if text_eq c b then status else ledger b

unfoldable pub is_known : Status → Bool
is_known absent = false
is_known free = true
is_known used = true

-- The registry as the ledger sees it.
unfoldable pub status_of : Bool → Bool → Status
status_of true in_used = free
status_of false true = used
status_of false false = absent

unfoldable pub occupy_entry : Text → Ledger → Status → Answer × Ledger
occupy_entry c ledger free = (imported c, update c used ledger)
occupy_entry c ledger used = (refused no_available_device, ledger)
occupy_entry c ledger absent = (refused no_available_device, ledger)

unfoldable pub remove_entry : Text → Ledger → Status → Answer × Ledger
remove_entry c ledger free = (done, update c absent ledger)
remove_entry c ledger used = (refused in_use, ledger)
remove_entry c ledger absent = (refused not_found, ledger)

module _ {D I : Type 0} where
  unfoldable pub ledger_of : UsbIpServer D I → Ledger
  ledger_of s b = status_of (holds b s.available_devices) (holds b s.used_devices)

  unfoldable pub perform : Call D I → Ledger → Answer × Ledger
  perform (call_occupy c) ledger = occupy_entry c ledger (ledger c)
  perform (call_release d) ledger = (done, update d.bus_id free ledger)
  perform (call_remove c) ledger = remove_entry c ledger (ledger c)
  perform (call_add d) ledger = (done, update d.bus_id free ledger)
  perform (call_sync current new) ledger = (
    done,
    λ b. if holds b new then free else if any (text_eq b) current then ledger b else absent,
  )
  perform (call_cleanup linux) ledger =
      (done, λ b. if not linux && is_known (ledger b) then free else absent)

  unfoldable pub occupied_answer :
      UsbIpServer D I → Result (UsbDevice D I × UsbIpServer D I) → Answer × UsbIpServer D I
  occupied_answer s (ok (d, t)) = (imported d.bus_id, t)
  occupied_answer s (err e) = (refused e, s)

  unfoldable pub removed_answer :
      UsbIpServer D I → Result (UsbIpServer D I) → Answer × UsbIpServer D I
  removed_answer s (ok t) = (done, t)
  removed_answer s (err e) = (refused e, s)

  unfoldable pub call : Call D I → UsbIpServer D I → Answer × UsbIpServer D I
  call (call_occupy c) s = occupied_answer s (occupy c s)
  call (call_release d) s = (done, release d s)
  call (call_remove c) s = removed_answer s (remove_device c s)
  call (call_add d) s = (done, add_device d s)
  call (call_sync current new) s = (done, sync_append new (sync_retain current s))
  call (call_cleanup linux) s = (done, (cleanup linux s).1)

  unfoldable pub call_all : List (Call D I) → UsbIpServer D I → List Answer × UsbIpServer D I
  call_all [] s = ([], s)
  call_all (c ∷ cs) s =
      let (answer, t) = call c s in let (answers, u) = call_all cs t in (answer ∷ answers, u)

  unfoldable pub perform_all : List (Call D I) → Ledger → List Answer × Ledger
  perform_all [] ledger = ([], ledger)
  perform_all (c ∷ cs) ledger =
      let (answer, next) = perform c ledger in
      let (answers, last) = perform_all cs next in (answer ∷ answers, last)

  -- The devices that a call adds have ids that the registry does not know, each once; those that a
  -- synchronisation opens have current ids.
  abbrev pub IsNew : Call D I → Ledger → Type 0
  IsNew (call_occupy c) ledger = Unit
  IsNew (call_release d) ledger = Unit
  IsNew (call_remove c) ledger = Unit
  IsNew (call_add d) ledger = ledger d.bus_id ≡ absent
  IsNew (call_sync current new) ledger =
      Distinct new
      × ((b : Text) → holds b new ≡ true → (any (text_eq b) current ≡ true) × (ledger b ≡ absent))
  IsNew (call_cleanup linux) ledger = Unit

  abbrev pub AreNew : List (Call D I) → Ledger → Type 0
  AreNew [] ledger = Unit
  AreNew (c ∷ cs) ledger = IsNew c ledger × AreNew cs (perform c ledger).1
