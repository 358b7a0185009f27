-- ===== src/Metrics/Collector.antt =====
-- internal/metrics/collector.go: the samples that a scrape emits, in their order.
pub mod Laws
use homewizard_exporter.Prelude.{
  ◌+◌, ◌/◌, String, Bool, not, ◌||◌, Option, none, some, List, [], ◌∷◌, ◌++◌, str_eq, if◌then◌else◌,
  is_some, length,
}
use homewizard_exporter.Prelude.Int.{ℤ, pos, sub_ℕ}
use homewizard_exporter.Time.{Time, Duration, is_zero, second}
use homewizard_exporter.Homewizard.Models.{
  Measurement, External, System, State, Batteries, Phases, Tariffs,
}
use homewizard_exporter.Homewizard.Timestamps.{Platform}
use homewizard_exporter.Snapshot.{Device, is_fresh, last_update, sorted}
use homewizard_exporter.Snapshot.Store.{Store}
use homewizard_exporter.Metrics.Descriptors
use homewizard_exporter.Metrics.Descriptors.{
  Desc, desc_up, desc_device_info, desc_smart_meter_info, desc_wifi_info, desc_last_update,
  desc_measurement_timestamp, desc_energy_import_tariff, desc_energy_export_tariff,
  desc_external_value, desc_external_timestamp, desc_wifi_rssi, desc_wifi_strength, desc_uptime,
  desc_cloud_enabled, desc_led_brightness, desc_api_v1_enabled, desc_socket_power_on,
  desc_socket_switch_lock, desc_socket_brightness, desc_batteries_power, desc_batteries_target,
  desc_batteries_max_consumption, desc_batteries_max_production, desc_batteries_count,
  desc_batteries_charge_to_full, desc_batteries_mode, desc_batteries_permission,
  desc_battery_state_of_charge, desc_monthly_peak_timestamp, desc_devices_total,
}
use homewizard_exporter.Metrics.Tables.{
  Reader, PhaseReader, measurement_gauges, measurement_phase_gauges, measurement_counters,
  measurement_phase_counters,
}

pub data Kind : Type 0 where
  gauge_value : Kind
  counter_value : Kind

-- A constant metric: `prometheus.MustNewConstMetric` panics when the number of the label values is not
-- that of the descriptor's labels.
pub record Sample (F : Type 0) : Type 0 where
  pub desc : Desc
  pub kind : Kind
  pub value : F
  pub labels : List String

-- The samples of every element.
unfoldable pub each {ℓ} :
    {A : Type ℓ} {F : Type 0} → (A → List (Sample F)) → List A → List (Sample F)
each f [] = []
each f (x ∷ xs) = f x ++ each f xs

-- `emitter.plain`
abbrev pub plain : {F : Type 0} → Desc → Kind → F → List String → List (Sample F)
plain d kind value labels = record { desc = d; kind = kind; value = value; labels = labels } ∷ []

-- The text of the `ssid` label, or the empty text.
abbrev own_ssid : Time → Option String → String
own_ssid at none = ""
own_ssid at (some ssid) = if is_zero at then "" else ssid

module _ {F : Type 0} where
  -- `emitter.gauge`
  abbrev pub gauge : Desc → String → F → List String → List (Sample F)
  gauge d device value labels = plain d gauge_value value (device ∷ labels)

  -- `emitter.optional`
  unfoldable pub optional : Desc → Kind → String → Option F → List String → List (Sample F)
  optional d kind device none labels = []
  optional d kind device (some value) labels = plain d kind value (device ∷ labels)

  -- `emitter.perPhase`
  unfoldable pub per_phase : Desc → Kind → String → Phases F → List (Sample F)
  per_phase d kind device p =
      optional d kind device p.l1 ("l1" ∷ [])
      ++ optional d kind device p.l2 ("l2" ∷ [])
      ++ optional d kind device p.l3 ("l3" ∷ [])

  -- `wifiSSID`
  unfoldable pub wifi_ssid : Device F → String
  wifi_ssid d =
      let own = own_ssid d.system_at d.system.wifi_ssid in
      if not (str_eq own "")
      then own
      else if is_zero d.measured_at
      then ""
      else d.measurement.wifi_ssid

  -- The samples behind a condition.
  abbrev pub emit_if : Bool → List (Sample F) → List (Sample F)
  emit_if b samples = if b then samples else []

-- `t.Unix()`, the seconds since 1970
abbrev pub unix : Time → ℤ
unix t = sub_ℕ (t / second) 62_135_596_800

abbrev pub tariffs : {F : Type 0} → Measurement F → List (String × Option F × Option F)
tariffs m =
    ("1", m.energy_import_tariff_kwh.t1, m.energy_export_tariff_kwh.t1)
    ∷ ("2", m.energy_import_tariff_kwh.t2, m.energy_export_tariff_kwh.t2)
    ∷ ("3", m.energy_import_tariff_kwh.t3, m.energy_export_tariff_kwh.t3)
    ∷ ("4", m.energy_import_tariff_kwh.t4, m.energy_export_tariff_kwh.t4)
    ∷ []

module _ (P : Platform) where
  -- `boolValue`
  abbrev pub bool_value : Bool → P.F
  bool_value b = P.of_int (pos (if b then 1 else 0))

  -- A gauge of a flag that may be missing.
  unfoldable pub flag : Desc → String → Option Bool → List (Sample P.F)
  flag d device none = []
  flag d device (some b) = gauge d device (bool_value b) []

  -- A gauge of a percentage that may be missing, as a fraction.
  unfoldable pub ratio : Desc → String → Option P.F → List (Sample P.F)
  ratio d device none = []
  ratio d device (some x) = gauge d device (P.div x 100) []

  -- A gauge of a time that may be unset.
  unfoldable pub stamp : Desc → String → Time → List String → List (Sample P.F)
  stamp d device at labels = emit_if (not (is_zero at)) (gauge d device (P.of_int (unix at)) labels)

  -- `formatOptional`
  abbrev pub format_optional : Option P.F → String
  format_optional none = ""
  format_optional (some x) = P.format x

  unfoldable pub tariff_samples : String → String × Option P.F × Option P.F → List (Sample P.F)
  tariff_samples device (name, taken, fed) =
      optional desc_energy_import_tariff counter_value device taken (name ∷ [])
      ++ optional desc_energy_export_tariff counter_value device fed (name ∷ [])

  unfoldable pub external_samples : String → External P.F → List (Sample P.F)
  external_samples device e =
      gauge desc_external_value device e.value (e.unique_id ∷ e.type ∷ e.unit ∷ [])
      ++ stamp desc_external_timestamp device e.timestamp (e.unique_id ∷ e.type ∷ [])

  -- `collectMeasurement`
  unfoldable pub collect_measurement : Device P.F → List (Sample P.F)
  collect_measurement d =
      let m = d.measurement in
      each (λ g. optional g.desc gauge_value d.name (g.value m) []) (measurement_gauges P.F)
      ++ each (λ c. optional c.desc counter_value d.name (c.value m) []) (measurement_counters P.F)
      ++ each (λ g. per_phase g.desc gauge_value d.name (g.values m)) (measurement_phase_gauges P.F)
      ++ each (λ c. per_phase c.desc counter_value d.name (c.values m))
          (measurement_phase_counters P.F)
      ++ each (tariff_samples d.name) (tariffs m)
      ++ ratio desc_battery_state_of_charge d.name m.state_of_charge_pct
      ++ stamp desc_measurement_timestamp d.name m.timestamp []
      ++ stamp desc_monthly_peak_timestamp d.name m.monthly_power_peak_at []
      ++ emit_if
          (not (str_eq m.meter_model "")
            || not (str_eq m.unique_id "")
            || is_some m.protocol_version)
          (gauge desc_smart_meter_info d.name (P.of_int (pos 1))
            (m.meter_model ∷ format_optional m.protocol_version ∷ m.unique_id ∷ []))
      ++ ratio desc_wifi_strength d.name m.wifi_strength_pct
      ++ each (external_samples d.name) m.external

  -- `collectSystem`
  unfoldable pub collect_system : Device P.F → List (Sample P.F)
  collect_system d =
      let s = d.system in
      optional desc_wifi_rssi gauge_value d.name s.wifi_rssi_db []
      ++ optional desc_uptime gauge_value d.name s.uptime_s []
      ++ flag desc_cloud_enabled d.name s.cloud_enabled
      ++ flag desc_api_v1_enabled d.name s.api_v1_enabled
      ++ ratio desc_led_brightness d.name s.led_brightness

  abbrev pub brightness : String → Option ℤ → List (Sample P.F)
  brightness device none = []
  brightness device (some b) = gauge desc_socket_brightness device (P.div (P.of_int b) 255) []

  -- `collectState`
  unfoldable pub collect_state : Device P.F → List (Sample P.F)
  collect_state d =
      flag desc_socket_power_on d.name d.state.power_on
      ++ flag desc_socket_switch_lock d.name d.state.switch_lock
      ++ brightness d.name d.state.brightness

  unfoldable pub permission_sample : String → String → List (Sample P.F)
  permission_sample device permission =
      gauge desc_batteries_permission device (P.of_int (pos 1)) (permission ∷ [])

  -- `collectBatteries`
  unfoldable pub collect_batteries : Device P.F → List (Sample P.F)
  collect_batteries d =
      let b = d.batteries in
      optional desc_batteries_power gauge_value d.name b.power_w []
      ++ optional desc_batteries_target gauge_value d.name b.target_power_w []
      ++ optional desc_batteries_max_consumption gauge_value d.name b.max_consumption_w []
      ++ optional desc_batteries_max_production gauge_value d.name b.max_production_w []
      ++ optional desc_batteries_count gauge_value d.name b.battery_count []
      ++ flag desc_batteries_charge_to_full d.name b.charge_to_full
      ++ emit_if (not (str_eq b.mode ""))
          (gauge desc_batteries_mode d.name (P.of_int (pos 1)) (b.mode ∷ []))
      ++ each (permission_sample d.name) b.permissions

  -- `collectDevice`
  unfoldable pub collect_device : Duration → Time → Device P.F → List (Sample P.F)
  collect_device stale_after now d =
      gauge desc_up d.name (bool_value (is_fresh d now stale_after)) []
      ++ gauge desc_device_info d.name (P.of_int (pos 1)) (
          d.info.product_type ∷ d.info.product_name ∷ d.info.serial ∷ d.info.firmware_version
          ∷ d.api_version ∷ d.info.api_version ∷ [])
      ++ stamp desc_last_update d.name (last_update d) []
      ++ emit_if (not (is_zero d.measured_at)) (collect_measurement d)
      ++ emit_if (not (is_zero d.system_at)) (collect_system d)
      ++ emit_if (not (is_zero d.state_at)) (collect_state d)
      ++ emit_if (not (is_zero d.batteries_at)) (collect_batteries d)
      ++ emit_if (not (str_eq (wifi_ssid d) ""))
          (gauge desc_wifi_info d.name (P.of_int (pos 1)) (wifi_ssid d ∷ []))

  -- `Collect`
  unfoldable pub collect : Store P.F → Duration → Time → List (Sample P.F)
  collect none stale_after now = []
  collect (some s) stale_after now =
      let devices = sorted (some s) in
      plain desc_devices_total gauge_value (P.of_int (pos (length devices))) []
      ++ each (collect_device stale_after now) devices
