-- ===== src/Snapshot/Store.antt =====
-- snapshot.go: `Store`. Its atomic pointer is the current snapshot, `none` before the first. Writers
-- hold a mutex from the read to the publication, so an update is one step.
pub mod Laws
use homewizard_exporter.Prelude.{String, Option, none, some, []}
use homewizard_exporter.Snapshot.{Device, Devices, Snapshot, new_device}
use homewizard_exporter.NameMap.{lookup, insert}

abbrev pub Store : Type 0 → Type 0
Store F = Option (Snapshot F)

module _ {F : Type 0} where
  abbrev pub devices_of : Store F → Devices F
  devices_of none = []
  devices_of (some s) = s.devices

  -- `Device`
  unfoldable pub device : Store F → String → Option (Device F)
  unfolding lookup
  device none name = none
  device (some s) name = lookup name s.devices

  abbrev pub or_new : String → Option (Device F) → Device F
  or_new name none = new_device name
  or_new name (some d) = d

  -- `Update`
  unfoldable pub update : Store F → String → (Device F → Device F) → Store F
  unfolding lookup insert
  update s name mutate =
      let devices = devices_of s in
      some (record { devices = insert name (mutate (or_new name (lookup name devices))) devices })
