-- ===== src/Tests/Descriptors.antt =====
-- Strings, endpoints and descriptors of src/usbip_server/device.rs and mod.rs at concrete inputs.
use lusbip.Base.{ℕ, ◌+◌, refl, true, List, [], ◌∷◌, Text}
use lusbip.Device.Export.{HasLength}
use lusbip.Device.Replies.{
  op_rep_devlist, devlist_to_bytes, devices_capacity, devlist_to_bytes-HasLength,
}
use lusbip.Device.Descriptors.{
  extract_configuration_descriptors, AreConfigurations, extract-AreConfigurations,
}
use lusbip.Tests.Devices.{stick}

-- Index 1 is taken.
abbrev pool : List (ℕ × Text)
pool = (1, 65 ∷ []) ∷ []

abbrev larger_pool : List (ℕ × Text)
larger_pool = (1, 65 ∷ []) ∷ (2, 66 ∷ []) ∷ []

devlist_to_bytes-HasLength_example :
    HasLength
      (12 + devices_capacity (stick (49 ∷ []) ∷ stick (50 ∷ []) ∷ []))
      (devlist_to_bytes true (op_rep_devlist (stick (49 ∷ []) ∷ stick (50 ∷ []) ∷ [])))
devlist_to_bytes-HasLength_example =
    devlist_to_bytes-HasLength true (stick (49 ∷ []) ∷ stick (50 ∷ []) ∷ []) (refl, (refl, tt))

-- A configuration with one interface and no endpoints.
abbrev small_configuration : List ℕ
small_configuration =
    9 ∷ 2 ∷ 18 ∷ 0 ∷ 1 ∷ 1 ∷ 0 ∷ 0x80 ∷ 50 ∷ 9 ∷ 4 ∷ 0 ∷ 0 ∷ 0 ∷ 8 ∷ 6 ∷ 80 ∷ 0 ∷ []

extract-AreConfigurations_example :
    AreConfigurations (extract_configuration_descriptors (18 ∷ 1 ∷ small_configuration))
extract-AreConfigurations_example = extract-AreConfigurations (18 ∷ 1 ∷ small_configuration)
