-- ===== src/Homewizard/Agreement.antt =====
-- v1.go and v2.go: the two generations of the API name the same quantities differently.
use homewizard_exporter.Prelude.{none, []}
use homewizard_exporter.Homewizard.V1.{V1Data}
use homewizard_exporter.Homewizard.V2.{V2Measurement}
use homewizard_exporter.Homewizard.V1.Projection.{copied}
use homewizard_exporter.Homewizard.V2.Projection.{copied as copied_v2}

-- A v1 response under the names of v2. What v2 alone reports is missing, and so are the texts of
-- timestamps and the list of meters, which `copied` does not read.
abbrev pub as_v2 : {F : Type 0} → V1Data F → V2Measurement F
as_v2 d = record {
  unique_id = d.unique_id;
  protocol_version = d.smr_version;
  meter_model = d.meter_model;
  timestamp = "";
  tariff = d.active_tariff;
  energy_import_kwh = d.total_power_import_kwh;
  energy_import_t1_kwh = d.total_power_import_t1_kwh;
  energy_import_t2_kwh = d.total_power_import_t2_kwh;
  energy_import_t3_kwh = d.total_power_import_t3_kwh;
  energy_import_t4_kwh = d.total_power_import_t4_kwh;
  energy_export_kwh = d.total_power_export_kwh;
  energy_export_t1_kwh = d.total_power_export_t1_kwh;
  energy_export_t2_kwh = d.total_power_export_t2_kwh;
  energy_export_t3_kwh = d.total_power_export_t3_kwh;
  energy_export_t4_kwh = d.total_power_export_t4_kwh;
  power_w = d.active_power_w;
  power_l1_w = d.active_power_l1_w;
  power_l2_w = d.active_power_l2_w;
  power_l3_w = d.active_power_l3_w;
  voltage_v = d.active_voltage_v;
  voltage_l1_v = d.active_voltage_l1_v;
  voltage_l2_v = d.active_voltage_l2_v;
  voltage_l3_v = d.active_voltage_l3_v;
  current_a = d.active_current_a;
  current_l1_a = d.active_current_l1_a;
  current_l2_a = d.active_current_l2_a;
  current_l3_a = d.active_current_l3_a;
  apparent_current_a = d.active_apparent_current_a;
  apparent_current_l1_a = d.active_apparent_current_l1_a;
  apparent_current_l2_a = d.active_apparent_current_l2_a;
  apparent_current_l3_a = d.active_apparent_current_l3_a;
  reactive_current_a = d.active_reactive_current_a;
  reactive_current_l1_a = d.active_reactive_current_l1_a;
  reactive_current_l2_a = d.active_reactive_current_l2_a;
  reactive_current_l3_a = d.active_reactive_current_l3_a;
  apparent_power_va = d.active_apparent_power_va;
  apparent_power_l1_va = d.active_apparent_power_l1_va;
  apparent_power_l2_va = d.active_apparent_power_l2_va;
  apparent_power_l3_va = d.active_apparent_power_l3_va;
  reactive_power_var = d.active_reactive_power_var;
  reactive_power_l1_var = d.active_reactive_power_l1_var;
  reactive_power_l2_var = d.active_reactive_power_l2_var;
  reactive_power_l3_var = d.active_reactive_power_l3_var;
  power_factor = d.active_power_factor;
  power_factor_l1 = d.active_power_factor_l1;
  power_factor_l2 = d.active_power_factor_l2;
  power_factor_l3 = d.active_power_factor_l3;
  frequency_hz = d.active_frequency_hz;
  voltage_sag_l1_count = d.voltage_sag_l1_count;
  voltage_sag_l2_count = d.voltage_sag_l2_count;
  voltage_sag_l3_count = d.voltage_sag_l3_count;
  voltage_swell_l1_count = d.voltage_swell_l1_count;
  voltage_swell_l2_count = d.voltage_swell_l2_count;
  voltage_swell_l3_count = d.voltage_swell_l3_count;
  any_power_fail_count = d.any_power_fail_count;
  long_power_fail_count = d.long_power_fail_count;
  average_power15m_w = d.active_power_average_w;
  monthly_power_peak_w = d.montly_power_peak_w;
  monthly_power_peak_timestamp = "";
  state_of_charge_pct = none;
  cycles = none;
  external = [];
}
