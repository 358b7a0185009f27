-- ===== src/Metrics/Tables.antt =====
-- descriptors.go: the tables of the measurement's series, and the list of every descriptor.
use homewizard_exporter.Prelude.{Option, List, [], ◌∷◌, ◌++◌, map}
use homewizard_exporter.Homewizard.Models.{Measurement, Phases}
use homewizard_exporter.Metrics.Descriptors.{
  Desc, desc, desc_devices_total, desc_up, desc_device_info, desc_smart_meter_info, desc_wifi_info,
  desc_last_update, desc_measurement_timestamp, desc_energy_import_tariff,
  desc_energy_export_tariff, desc_external_value, desc_external_timestamp, desc_wifi_rssi,
  desc_wifi_strength, desc_uptime, desc_cloud_enabled, desc_led_brightness, desc_api_v1_enabled,
  desc_socket_power_on, desc_socket_switch_lock, desc_socket_brightness, desc_batteries_power,
  desc_batteries_target, desc_batteries_max_consumption, desc_batteries_max_production,
  desc_batteries_count, desc_batteries_charge_to_full, desc_batteries_mode,
  desc_batteries_permission, desc_battery_state_of_charge, desc_monthly_peak_timestamp,
}

-- A descriptor with the value that it shows of a measurement.
pub record Reader (F : Type 0) : Type 0 where
  pub desc : Desc
  pub value : Measurement F → Option F

pub record PhaseReader (F : Type 0) : Type 0 where
  pub desc : Desc
  pub values : Measurement F → Phases F

unfoldable pub measurement_gauges : (F : Type 0) → List (Reader F)
measurement_gauges F =
    record { desc = desc "active_power_watts" ([]); value = λ m. m.power_w }
    ∷ record { desc = desc "active_voltage_volts" ([]); value = λ m. m.voltage_v }
    ∷ record { desc = desc "active_current_amperes" ([]); value = λ m. m.current_a }
    ∷ record {
      desc = desc "active_apparent_power_voltamperes" ([]);
      value = λ m. m.apparent_power_va;
    }
    ∷ record {
      desc = desc "active_reactive_power_voltamperes_reactive" ([]);
      value = λ m. m.reactive_power_var;
    }
    ∷ record {
      desc = desc "active_apparent_current_amperes" ([]);
      value = λ m. m.apparent_current_a;
    }
    ∷ record {
      desc = desc "active_reactive_current_amperes" ([]);
      value = λ m. m.reactive_current_a;
    }
    ∷ record { desc = desc "active_power_factor_ratio" ([]); value = λ m. m.power_factor }
    ∷ record { desc = desc "frequency_hertz" ([]); value = λ m. m.frequency_hz }
    ∷ record { desc = desc "active_tariff" ([]); value = λ m. m.tariff }
    ∷ record { desc = desc "average_power_15m_watts" ([]); value = λ m. m.average_power15m_w }
    ∷ record { desc = desc "monthly_power_peak_watts" ([]); value = λ m. m.monthly_power_peak_w }
    ∷ record { desc = desc "active_water_liters_per_minute" ([]); value = λ m. m.active_water_lpm }
    ∷ []

unfoldable pub measurement_phase_gauges : (F : Type 0) → List (PhaseReader F)
measurement_phase_gauges F =
    record { desc = desc "active_power_phase_watts" ("phase" ∷ []); values = λ m. m.power_phase_w }
    ∷ record {
      desc = desc "active_voltage_phase_volts" ("phase" ∷ []);
      values = λ m. m.voltage_phase_v;
    }
    ∷ record {
      desc = desc "active_current_phase_amperes" ("phase" ∷ []);
      values = λ m. m.current_phase_a;
    }
    ∷ record {
      desc = desc "active_apparent_power_phase_voltamperes" ("phase" ∷ []);
      values = λ m. m.apparent_power_phase_va;
    }
    ∷ record {
      desc = desc "active_reactive_power_phase_voltamperes_reactive" ("phase" ∷ []);
      values = λ m. m.reactive_power_phase_va;
    }
    ∷ record {
      desc = desc "active_apparent_current_phase_amperes" ("phase" ∷ []);
      values = λ m. m.apparent_current_phase_a;
    }
    ∷ record {
      desc = desc "active_reactive_current_phase_amperes" ("phase" ∷ []);
      values = λ m. m.reactive_current_phase_a;
    }
    ∷ record {
      desc = desc "active_power_factor_phase_ratio" ("phase" ∷ []);
      values = λ m. m.power_factor_phase;
    }
    ∷ []

unfoldable pub measurement_counters : (F : Type 0) → List (Reader F)
measurement_counters F =
    record { desc = desc "energy_import_kwh_total" ([]); value = λ m. m.energy_import_kwh }
    ∷ record { desc = desc "energy_export_kwh_total" ([]); value = λ m. m.energy_export_kwh }
    ∷ record { desc = desc "water_m3_total" ([]); value = λ m. m.total_water_m3 }
    ∷ record { desc = desc "battery_cycles_total" ([]); value = λ m. m.cycles }
    ∷ record { desc = desc "power_fail_count_total" ([]); value = λ m. m.any_power_fail_count }
    ∷ record {
      desc = desc "long_power_fail_count_total" ([]);
      value = λ m. m.long_power_fail_count;
    }
    ∷ []

unfoldable pub measurement_phase_counters : (F : Type 0) → List (PhaseReader F)
measurement_phase_counters F =
    record {
      desc = desc "voltage_sag_count_total" ("phase" ∷ []);
      values = λ m. m.voltage_sag_phase_count;
    }
    ∷ record {
      desc = desc "voltage_swell_count_total" ("phase" ∷ []);
      values = λ m. m.voltage_swell_phase_count;
    }
    ∷ []

-- The literal that `allDescs` begins with.
unfoldable pub single_descs : List Desc
single_descs =
    desc_up ∷ desc_device_info ∷ desc_smart_meter_info ∷ desc_wifi_info ∷ desc_devices_total
    ∷ desc_last_update ∷ desc_measurement_timestamp ∷ desc_energy_import_tariff
    ∷ desc_energy_export_tariff ∷ desc_external_value ∷ desc_external_timestamp ∷ desc_wifi_rssi
    ∷ desc_wifi_strength ∷ desc_uptime ∷ desc_cloud_enabled ∷ desc_led_brightness
    ∷ desc_api_v1_enabled ∷ desc_socket_power_on ∷ desc_socket_switch_lock ∷ desc_socket_brightness
    ∷ desc_batteries_power ∷ desc_batteries_target ∷ desc_batteries_max_consumption
    ∷ desc_batteries_max_production ∷ desc_batteries_count ∷ desc_batteries_charge_to_full
    ∷ desc_batteries_mode ∷ desc_batteries_permission ∷ desc_battery_state_of_charge
    ∷ desc_monthly_peak_timestamp ∷ []

-- `allDescs`
unfoldable pub all_descs : Type 0 → List Desc
all_descs F =
    single_descs
    ++ map (λ g. g.desc) (measurement_gauges F)
    ++ map (λ g. g.desc) (measurement_phase_gauges F)
    ++ map (λ c. c.desc) (measurement_counters F)
    ++ map (λ c. c.desc) (measurement_phase_counters F)
