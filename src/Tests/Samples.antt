-- ===== src/Tests/Samples.antt =====
-- Sample data for the tests: floats are natural numbers, and a body is its own name.
use homewizard_exporter.Prelude.{
  ℕ, ◌+◌, ◌*◌, ◌/◌, String, true, false, Option, none, some, [], ◌∷◌, str_eq, ◌==◌, if◌then◌else◌,
  length,
}
use homewizard_exporter.Prelude.Int.{pos, pos_part}
use homewizard_exporter.Time.{second}
use homewizard_exporter.Config
use homewizard_exporter.Config.{Config, bare_device, default}
use homewizard_exporter.Homewizard.Models.{Info, no_system, no_batteries}
use homewizard_exporter.Homewizard.Timestamps.{Platform}
use homewizard_exporter.Homewizard.V1.{V1Data}
use homewizard_exporter.Homewizard.V2.{V2Measurement, V2External}
use homewizard_exporter.Homewizard.Capabilities.{Capabilities}
use homewizard_exporter.Homewizard.Tls.{no_identity}
use homewizard_exporter.Homewizard.Client.{Base, Url, Net, Codec, Client, Response}
use homewizard_exporter.Poller.{Settings, Clock}

abbrev pub platform : Platform
platform = record {
  F = ℕ;
  le_zero = λ x. x == 0;
  to_int64 = pos;
  add = λ x y. x + y;
  div = λ x n. x / n;
  of_int = pos_part;
  format = λ x. "";
  parse_in_location = λ layout s. some (length s);
}

abbrev pub v1_body : V1Data ℕ
v1_body = record {
  unique_id = "";
  smr_version = none;
  meter_model = "";
  wifi_ssid = "home";
  wifi_strength = none;
  active_tariff = none;
  total_power_import_kwh = none;
  total_power_import_t1_kwh = none;
  total_power_import_t2_kwh = none;
  total_power_import_t3_kwh = none;
  total_power_import_t4_kwh = none;
  total_power_export_kwh = none;
  total_power_export_t1_kwh = none;
  total_power_export_t2_kwh = none;
  total_power_export_t3_kwh = none;
  total_power_export_t4_kwh = none;
  active_power_w = some 250;
  active_power_l1_w = some 250;
  active_power_l2_w = none;
  active_power_l3_w = none;
  active_voltage_v = none;
  active_voltage_l1_v = none;
  active_voltage_l2_v = none;
  active_voltage_l3_v = none;
  active_current_a = none;
  active_current_l1_a = none;
  active_current_l2_a = none;
  active_current_l3_a = none;
  active_apparent_current_a = none;
  active_apparent_current_l1_a = none;
  active_apparent_current_l2_a = none;
  active_apparent_current_l3_a = none;
  active_reactive_current_a = none;
  active_reactive_current_l1_a = none;
  active_reactive_current_l2_a = none;
  active_reactive_current_l3_a = none;
  active_apparent_power_va = none;
  active_apparent_power_l1_va = none;
  active_apparent_power_l2_va = none;
  active_apparent_power_l3_va = none;
  active_reactive_power_var = none;
  active_reactive_power_l1_var = none;
  active_reactive_power_l2_var = none;
  active_reactive_power_l3_var = none;
  active_power_factor = none;
  active_power_factor_l1 = none;
  active_power_factor_l2 = none;
  active_power_factor_l3 = none;
  active_frequency_hz = none;
  voltage_sag_l1_count = none;
  voltage_sag_l2_count = none;
  voltage_sag_l3_count = none;
  voltage_swell_l1_count = none;
  voltage_swell_l2_count = none;
  voltage_swell_l3_count = none;
  any_power_fail_count = none;
  long_power_fail_count = none;
  active_power_average_w = none;
  montly_power_peak_w = none;
  montly_power_peak_timestamp = none;
  total_gas_m3 = some 7;
  gas_timestamp = none;
  unique_gas_id = "";
  gas_unique_id = "G1";
  external = [];
  active_liter_lpm = none;
  total_liter_m3 = none;
  total_liter_offset_m3 = none;
}

abbrev pub meter : V2External ℕ
meter = record {
  unique_id = "W1";
  type = "water_meter";
  timestamp = "";
  value = some 3;
  unit = "m3";
}

abbrev pub v2_body : V2Measurement ℕ
v2_body = record {
  unique_id = "";
  protocol_version = none;
  meter_model = "";
  timestamp = "";
  tariff = none;
  energy_import_kwh = none;
  energy_import_t1_kwh = none;
  energy_import_t2_kwh = none;
  energy_import_t3_kwh = none;
  energy_import_t4_kwh = none;
  energy_export_kwh = none;
  energy_export_t1_kwh = none;
  energy_export_t2_kwh = none;
  energy_export_t3_kwh = none;
  energy_export_t4_kwh = none;
  power_w = some 250;
  power_l1_w = none;
  power_l2_w = none;
  power_l3_w = none;
  voltage_v = none;
  voltage_l1_v = none;
  voltage_l2_v = none;
  voltage_l3_v = none;
  current_a = none;
  current_l1_a = none;
  current_l2_a = none;
  current_l3_a = none;
  apparent_current_a = none;
  apparent_current_l1_a = none;
  apparent_current_l2_a = none;
  apparent_current_l3_a = none;
  reactive_current_a = none;
  reactive_current_l1_a = none;
  reactive_current_l2_a = none;
  reactive_current_l3_a = none;
  apparent_power_va = none;
  apparent_power_l1_va = none;
  apparent_power_l2_va = none;
  apparent_power_l3_va = none;
  reactive_power_var = none;
  reactive_power_l1_var = none;
  reactive_power_l2_var = none;
  reactive_power_l3_var = none;
  power_factor = none;
  power_factor_l1 = none;
  power_factor_l2 = none;
  power_factor_l3 = none;
  frequency_hz = none;
  voltage_sag_l1_count = none;
  voltage_sag_l2_count = none;
  voltage_sag_l3_count = none;
  voltage_swell_l1_count = none;
  voltage_swell_l2_count = none;
  voltage_swell_l3_count = none;
  any_power_fail_count = none;
  long_power_fail_count = none;
  average_power15m_w = none;
  monthly_power_peak_w = none;
  monthly_power_peak_timestamp = "";
  state_of_charge_pct = none;
  cycles = none;
  external = meter ∷ [];
}

abbrev pub p1_info : Info
p1_info = record {
  product_type = "HWE-P1";
  product_name = "P1 meter";
  serial = "5c2fafaabbcc";
  firmware_version = "6.01";
  api_version = "v1";
}

abbrev answer {ℓ} : {A : Type ℓ} → String → A → String → Option A
answer name a body = if str_eq body name then some a else none

abbrev pub codec : Codec ℕ
codec = record {
  info = answer "info" p1_info;
  v1_data = answer "data" v1_body;
  v2_measurement = answer "measurement" v2_body;
  system = answer "system" no_system;
  state = λ body. none;
  batteries = answer "batteries" no_batteries;
  flat_error = λ body. none;
  nested_error = answer "disabled" ("202", "API not enabled");
  token = answer "token" "T1";
  user = λ name. name;
}

abbrev answers : String → Response
answers path =
    if str_eq path "/api"
    then record { status = 200; body = "info" }
    else if str_eq path "/api/v1/data"
    then record { status = 200; body = "data" }
    else record { status = 404; body = "" }

-- The resolution of a reference that is a path.
abbrev pub join : Base → String → Option Url
join base path = some (record { base = base; path = path })

-- A P1 meter with the v1 API that serves no /system.
abbrev pub p1_net : Net
p1_net = record { resolve = join; send = λ r. some (answers r.path); handshake = λ r. none }

-- A network without the device.
abbrev pub silence : Net
silence = record { resolve = join; send = λ r. none; handshake = λ r. none }

abbrev pub p1 : Config.Device
p1 = record (bare_device "192.0.2.7") {
  name = "p1";
  api_version = "v1";
  tls = record { mode = "verify"; ca_file = "" };
}

abbrev pub p1_caps : Capabilities
p1_caps = record {
  measurement = true;
  system = true;
  state = false;
  telegram = true;
  batteries = false;
}

abbrev pub p1_client : Client
p1_client = record {
  name = "p1";
  host = "192.0.2.7";
  version = "v1";
  base = record { https = false; host = "192.0.2.7" };
  token = "";
  info = p1_info;
  cert = no_identity;
  caps = p1_caps;
}

abbrev pub one_device : Config
one_device = record default { devices = p1 ∷ [] }

abbrev pub settings : Settings
settings = record {
  devices = p1 ∷ [];
  cfg = default.poll;
  stale_after = pos (60 * second);
  backoff_min = pos (5 * second);
  backoff_max = pos (120 * second);
}

abbrev pub clock : Clock
clock = record { measured = 100; state = 101; due = 102; system = 103; batteries = 104 }
