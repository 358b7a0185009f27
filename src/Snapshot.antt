-- ===== src/Snapshot.antt =====
-- internal/snapshot/snapshot.go: the most recent readings of every device. `F` is the type of a
-- float64. A map of devices is an association list; its iteration order is not observed, since
-- `Sorted` is the only reader of the whole map.
pub mod Freshness
pub mod Store
pub mod Sorting
use homewizard_exporter.Prelude.{
  String, Bool, false, not, ◌&&◌, Option, none, some, List, [], ◌∷◌, map, if◌then◌else◌,
}
use homewizard_exporter.Prelude.Int.{ltb_ℤ, pos}
use homewizard_exporter.NameMap.{NameMap, sort}
use homewizard_exporter.Time.{Time, Duration, is_zero, after, sub}
use homewizard_exporter.Config.{ApiVersion}
use homewizard_exporter.Homewizard.Models.{
  Info, Measurement, System, State, Batteries, no_info, no_measurement, no_system, no_state,
  no_batteries,
}
use homewizard_exporter.Homewizard.Capabilities.{Capabilities}

pub record Device (F : Type 0) : Type 0 where
  pub name : String
  pub host : String
  pub api_version : ApiVersion
  pub info : Info
  pub caps : Capabilities
  pub measurement : Measurement F
  pub system : System F
  pub state : State
  pub batteries : Batteries F
  pub measured_at : Time
  pub system_at : Time
  pub state_at : Time
  pub batteries_at : Time

-- `&Device{Name: name}`
unfoldable pub new_device : {F : Type 0} → String → Device F
new_device name = record {
  name = name;
  host = "";
  api_version = "";
  info = no_info;
  caps = record {
    measurement = false;
    system = false;
    state = false;
    telegram = false;
    batteries = false;
  };
  measurement = no_measurement;
  system = no_system;
  state = no_state;
  batteries = no_batteries;
  measured_at = 0;
  system_at = 0;
  state_at = 0;
  batteries_at = 0;
}

-- The loop of `LastUpdate`.
unfoldable pub latest : Time → List Time → Time
latest last [] = last
latest last (at ∷ ats) = latest (if after at last then at else last) ats

abbrev pub Devices : Type 0 → Type 0
Devices F = NameMap (Device F)

module _ {F : Type 0} where
  -- `LastUpdate`
  unfoldable pub last_update : Device F → Time
  unfolding latest
  last_update d = latest d.measured_at (d.system_at ∷ d.state_at ∷ d.batteries_at ∷ [])

  -- `Fresh`
  unfoldable pub is_fresh : Device F → Time → Duration → Bool
  is_fresh d now stale_after =
      let last = last_update d in not (is_zero last) && ltb_ℤ (sub now last) stale_after

-- `Snapshot`; a published one is never changed.
pub record Snapshot (F : Type 0) : Type 0 where
  pub devices : Devices F

-- `Sorted`
unfoldable pub sorted : {F : Type 0} → Option (Snapshot F) → List (Device F)
unfolding sort
sorted none = []
sorted (some s) = map (λ p. p.1) (sort s.devices)
