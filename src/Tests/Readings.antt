-- ===== src/Tests/Readings.antt =====
-- The properties of the two projections, of timestamps and of the snapshot.
use mathlib.Core.List.{Perm}
use homewizard_exporter.Prelude.{
  ℕ, ◌≤◌, ◌<◌, String, ◌≡◌, refl, ◌≢◌, ◌↔◌, ◌⊎◌, true, none, some, List, [], ◌∷◌, map, arith,
  eq_iff, length, All,
}
use homewizard_exporter.Prelude.Int.{pos}
use homewizard_exporter.Homewizard.Errors.{ok, err, message}
use homewizard_exporter.Homewizard.Models.{Measurement}
use homewizard_exporter.Homewizard.Timestamps.{parse_iso, parse_compact, parsed, compact_layout}
use homewizard_exporter.Homewizard.Timestamps.Laws.{
  IsDigit, value_from, compact_limit, parse_compact_lem,
}
use homewizard_exporter.Homewizard.V1.Projection as V1
use homewizard_exporter.Homewizard.V2.Projection as V2
use homewizard_exporter.Homewizard.V1.Projection.Laws as V1Laws
use homewizard_exporter.Homewizard.V2.Projection.Laws as V2Laws
use homewizard_exporter.Snapshot.{Device, Snapshot, is_fresh, last_update, new_device, sorted}
use homewizard_exporter.Snapshot.Freshness.{IsRecent, is_fresh_iff, last_update-max}
use homewizard_exporter.Snapshot.Store.{device, or_new, update}
use homewizard_exporter.Snapshot.Store.Laws.{
  device-update, update_comm, IsWellFormed, update-IsWellFormed, IsRising,
}
use homewizard_exporter.NameMap.{lookup}
use homewizard_exporter.Snapshot.Sorting.{sorted-IsRising}
use homewizard_exporter.Tests.Samples.{platform, v1_body, v2_body}

abbrev v1_measurement : Measurement ℕ
v1_measurement = record (V1.copied v1_body) {
  monthly_power_peak_at = 0;
  external =
      record { unique_id = "G1"; type = "gas_meter"; unit = "m3"; value = 7; timestamp = 0 } ∷ [];
}

v1_projected : V1.measurement platform v1_body ≡ ok v1_measurement
unfolding V1.measurement V1.externals V1.promote_gas V1.gas_meter V1.first_non_empty
v1_projected = refl

v1_measurement_lem_example :
    (map (V1Laws.reading platform) v1_measurement.external
      ≡ V1Laws.with_gas platform v1_body (some 7) [])
    × (record v1_measurement { external = []; monthly_power_peak_at = 0 } ≡ V1.copied v1_body)
v1_measurement_lem_example = V1Laws.v1_measurement_lem platform v1_body v1_projected

abbrev v2_measurement : Measurement ℕ
v2_measurement = record (V2.copied v2_body) {
  timestamp = 0;
  monthly_power_peak_at = 0;
  external =
      record { unique_id = "W1"; type = "water_meter"; unit = "m3"; value = 3; timestamp = 0 } ∷ [];
}

v2_projected : V2.measurement platform v2_body ≡ ok v2_measurement
unfolding V2.measurement parse_iso V2.externals
v2_projected = refl

v2_measurement_lem_example :
    (map (V2Laws.reading platform) v2_measurement.external
      ≡ V2Laws.valued platform v2_body.external)
    × (parse_iso platform "" ≡ ok 0)
    × (parse_iso platform "" ≡ ok 0)
    × (record v2_measurement { external = []; timestamp = 0; monthly_power_peak_at = 0 }
        ≡ V2.copied v2_body)
v2_measurement_lem_example = V2Laws.v2_measurement_lem platform v2_body v2_projected

abbrev noon : ℕ
noon = 90_101_120_000

parse_compact_lem_example :
    ((noon < compact_limit)
      × (s : List ℕ) × (length s ≡ 12)
      × All IsDigit s
      × (value_from 0 s ≡ noon)
      × (parse_compact platform noon ≡ parsed (platform.parse_in_location compact_layout s)))
    ⊎ ((compact_limit ≤ noon)
        × (parse_compact platform noon ≡ err (message "timestamp is not YYMMDDhhmmss")))
parse_compact_lem_example = parse_compact_lem platform noon noon refl refl

abbrev kitchen : Device ℕ
kitchen = record (new_device "kitchen") { measured_at = 50; state_at = 70 }

abbrev shed : Device ℕ
shed = record (new_device "shed") { system_at = 10 }

abbrev house : Snapshot ℕ
house = record { devices = ("shed", shed) ∷ ("kitchen", kitchen) ∷ [] }

is_fresh_iff_example :
    (is_fresh kitchen 75 (pos 20) ≡ true)
    ↔ (IsRecent 20 75 50 ⊎ (IsRecent 20 75 0 ⊎ (IsRecent 20 75 70 ⊎ IsRecent 20 75 0)))
unfolding new_device
is_fresh_iff_example = is_fresh_iff kitchen 75 20 (omega arith)

last_update-max_example : last_update kitchen ≡ 70
unfolding new_device
last_update-max_example = last_update-max kitchen

abbrev read_at : ℕ → Device ℕ → Device ℕ
read_at at d = record d { measured_at = at }

device-update_example :
    device (update (some house) "shed" (read_at 9)) "shed"
    ≡ some (read_at 9 (or_new "shed" (device (some house) "shed")))
device-update_example = device-update (some house) "shed" "shed" (read_at 9)

kitchen-ne-shed : ◌≢◌ {A = String} "kitchen" "shed"
kitchen-ne-shed = ground (arith, eq_iff "kitchen" "shed")

update_comm_example :
    device (update (update none "kitchen" (read_at 1)) "shed" (read_at 2)) "shed"
    ≡ device (update (update none "shed" (read_at 2)) "kitchen" (read_at 1)) "shed"
update_comm_example =
    update_comm none "kitchen" "shed" "shed" (read_at 1) (read_at 2) kitchen-ne-shed

house-IsWellFormed : IsWellFormed (some house)
unfolding new_device lookup
house-IsWellFormed = record { distinct = (refl, (refl, tt)); own = (refl, (refl, tt)) }

update-IsWellFormed_example : IsWellFormed (update (some house) "shed" (read_at 9))
update-IsWellFormed_example =
    update-IsWellFormed (some house) "shed" (read_at 9) (λ d. refl) house-IsWellFormed

sorted-IsRising_example :
    IsRising (sorted (some house)) × Perm (sorted (some house)) (shed ∷ kitchen ∷ [])
sorted-IsRising_example = sorted-IsRising house house-IsWellFormed
