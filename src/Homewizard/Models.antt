-- ===== src/Homewizard/Models.antt =====
-- internal/homewizard/models.go: the shared model. `F` is the type of a float64; a pointer is an
-- `Option`, an array over the phases or the tariffs a record.
use homewizard_exporter.Prelude.{String, Bool, Option, none, List, []}
use homewizard_exporter.Prelude.Int.{ℤ}
use homewizard_exporter.Time.{Time}

abbrev pub product_p1 : String
product_p1 = "HWE-P1"

abbrev pub product_socket : String
product_socket = "HWE-SKT"

abbrev pub product_water : String
product_water = "HWE-WTR"

abbrev pub product_kwh1 : String
product_kwh1 = "HWE-KWH1"

abbrev pub product_kwh3 : String
product_kwh3 = "HWE-KWH3"

abbrev pub product_sdm230 : String
product_sdm230 = "SDM230-wifi"

abbrev pub product_sdm630 : String
product_sdm630 = "SDM630-wifi"

abbrev pub product_battery : String
product_battery = "HWE-BAT"

abbrev pub product_display : String
product_display = "HWE-DSP"

abbrev pub unknown_product_id : String
unknown_product_id = ""

-- `[phaseCount]*float64`
pub record Phases (F : Type 0) : Type 0 where
  pub l1 : Option F
  pub l2 : Option F
  pub l3 : Option F

-- `[maxTariffs]*float64`
pub record Tariffs (F : Type 0) : Type 0 where
  pub t1 : Option F
  pub t2 : Option F
  pub t3 : Option F
  pub t4 : Option F

pub record Info : Type 0 where
  pub product_type : String
  pub product_name : String
  pub serial : String
  pub firmware_version : String
  pub api_version : String

pub record External (F : Type 0) : Type 0 where
  pub unique_id : String
  pub type : String
  pub unit : String
  pub value : F
  pub timestamp : Time

pub record Measurement (F : Type 0) : Type 0 where
  pub meter_model : String
  pub unique_id : String
  pub protocol_version : Option F
  pub timestamp : Time
  pub tariff : Option F
  pub energy_import_kwh : Option F
  pub energy_export_kwh : Option F
  pub energy_import_tariff_kwh : Tariffs F
  pub energy_export_tariff_kwh : Tariffs F
  pub power_w : Option F
  pub power_phase_w : Phases F
  pub voltage_v : Option F
  pub voltage_phase_v : Phases F
  pub current_a : Option F
  pub current_phase_a : Phases F
  pub apparent_power_va : Option F
  pub apparent_power_phase_va : Phases F
  pub reactive_power_var : Option F
  pub reactive_power_phase_va : Phases F
  pub apparent_current_a : Option F
  pub apparent_current_phase_a : Phases F
  pub reactive_current_a : Option F
  pub reactive_current_phase_a : Phases F
  pub power_factor : Option F
  pub power_factor_phase : Phases F
  pub frequency_hz : Option F
  pub voltage_sag_phase_count : Phases F
  pub voltage_swell_phase_count : Phases F
  pub any_power_fail_count : Option F
  pub long_power_fail_count : Option F
  pub average_power15m_w : Option F
  pub monthly_power_peak_w : Option F
  pub monthly_power_peak_at : Time
  pub active_water_lpm : Option F
  pub total_water_m3 : Option F
  pub state_of_charge_pct : Option F
  pub cycles : Option F
  pub external : List (External F)
  pub wifi_ssid : String
  pub wifi_strength_pct : Option F

pub record State : Type 0 where
  pub power_on : Option Bool
  pub switch_lock : Option Bool
  pub brightness : Option ℤ

pub record System (F : Type 0) : Type 0 where
  pub wifi_ssid : Option String
  pub wifi_rssi_db : Option F
  pub uptime_s : Option F
  pub cloud_enabled : Option Bool
  pub led_brightness : Option F
  pub api_v1_enabled : Option Bool

pub record Batteries (F : Type 0) : Type 0 where
  pub mode : String
  pub permissions : List String
  pub charge_to_full : Option Bool
  pub battery_count : Option F
  pub power_w : Option F
  pub target_power_w : Option F
  pub max_consumption_w : Option F
  pub max_production_w : Option F

-- The zero values, `Info{}` and so on.
abbrev pub no_info : Info
no_info = record {
  product_type = "";
  product_name = "";
  serial = "";
  firmware_version = "";
  api_version = "";
}

abbrev pub no_measurement : {F : Type 0} → Measurement F
no_measurement = record {
  meter_model = "";
  unique_id = "";
  protocol_version = none;
  timestamp = 0;
  tariff = none;
  energy_import_kwh = none;
  energy_export_kwh = none;
  energy_import_tariff_kwh = record { t1 = none; t2 = none; t3 = none; t4 = none };
  energy_export_tariff_kwh = record { t1 = none; t2 = none; t3 = none; t4 = none };
  power_w = none;
  power_phase_w = record { l1 = none; l2 = none; l3 = none };
  voltage_v = none;
  voltage_phase_v = record { l1 = none; l2 = none; l3 = none };
  current_a = none;
  current_phase_a = record { l1 = none; l2 = none; l3 = none };
  apparent_power_va = none;
  apparent_power_phase_va = record { l1 = none; l2 = none; l3 = none };
  reactive_power_var = none;
  reactive_power_phase_va = record { l1 = none; l2 = none; l3 = none };
  apparent_current_a = none;
  apparent_current_phase_a = record { l1 = none; l2 = none; l3 = none };
  reactive_current_a = none;
  reactive_current_phase_a = record { l1 = none; l2 = none; l3 = none };
  power_factor = none;
  power_factor_phase = record { l1 = none; l2 = none; l3 = none };
  frequency_hz = none;
  voltage_sag_phase_count = record { l1 = none; l2 = none; l3 = none };
  voltage_swell_phase_count = record { l1 = none; l2 = none; l3 = none };
  any_power_fail_count = none;
  long_power_fail_count = none;
  average_power15m_w = none;
  monthly_power_peak_w = none;
  monthly_power_peak_at = 0;
  active_water_lpm = none;
  total_water_m3 = none;
  state_of_charge_pct = none;
  cycles = none;
  external = [];
  wifi_ssid = "";
  wifi_strength_pct = none;
}

abbrev pub no_system : {F : Type 0} → System F
no_system = record {
  wifi_ssid = none;
  wifi_rssi_db = none;
  uptime_s = none;
  cloud_enabled = none;
  led_brightness = none;
  api_v1_enabled = none;
}

abbrev pub no_batteries : {F : Type 0} → Batteries F
no_batteries = record {
  mode = "";
  permissions = [];
  charge_to_full = none;
  battery_count = none;
  power_w = none;
  target_power_w = none;
  max_consumption_w = none;
  max_production_w = none;
}

abbrev pub no_state : State
no_state = record { power_on = none; switch_lock = none; brightness = none }
