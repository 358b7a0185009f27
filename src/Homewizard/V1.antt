-- ===== src/Homewizard/V1.antt =====
-- internal/homewizard/v1.go: the response of /api/v1/data, and its projection onto the shared model.
pub mod Projection
use homewizard_exporter.Prelude.{String, Option, List}

pub record V1External (F : Type 0) : Type 0 where
  pub unique_id : String
  pub type : String
  pub timestamp : Option F
  pub value : Option F
  pub unit : String

pub record V1Data (F : Type 0) : Type 0 where
  pub unique_id : String
  pub smr_version : Option F
  pub meter_model : String
  pub wifi_ssid : String
  pub wifi_strength : Option F
  pub active_tariff : Option F
  pub total_power_import_kwh : Option F
  pub total_power_import_t1_kwh : Option F
  pub total_power_import_t2_kwh : Option F
  pub total_power_import_t3_kwh : Option F
  pub total_power_import_t4_kwh : Option F
  pub total_power_export_kwh : Option F
  pub total_power_export_t1_kwh : Option F
  pub total_power_export_t2_kwh : Option F
  pub total_power_export_t3_kwh : Option F
  pub total_power_export_t4_kwh : Option F
  pub active_power_w : Option F
  pub active_power_l1_w : Option F
  pub active_power_l2_w : Option F
  pub active_power_l3_w : Option F
  pub active_voltage_v : Option F
  pub active_voltage_l1_v : Option F
  pub active_voltage_l2_v : Option F
  pub active_voltage_l3_v : Option F
  pub active_current_a : Option F
  pub active_current_l1_a : Option F
  pub active_current_l2_a : Option F
  pub active_current_l3_a : Option F
  pub active_apparent_current_a : Option F
  pub active_apparent_current_l1_a : Option F
  pub active_apparent_current_l2_a : Option F
  pub active_apparent_current_l3_a : Option F
  pub active_reactive_current_a : Option F
  pub active_reactive_current_l1_a : Option F
  pub active_reactive_current_l2_a : Option F
  pub active_reactive_current_l3_a : Option F
  pub active_apparent_power_va : Option F
  pub active_apparent_power_l1_va : Option F
  pub active_apparent_power_l2_va : Option F
  pub active_apparent_power_l3_va : Option F
  pub active_reactive_power_var : Option F
  pub active_reactive_power_l1_var : Option F
  pub active_reactive_power_l2_var : Option F
  pub active_reactive_power_l3_var : Option F
  pub active_power_factor : Option F
  pub active_power_factor_l1 : Option F
  pub active_power_factor_l2 : Option F
  pub active_power_factor_l3 : Option F
  pub active_frequency_hz : Option F
  pub voltage_sag_l1_count : Option F
  pub voltage_sag_l2_count : Option F
  pub voltage_sag_l3_count : Option F
  pub voltage_swell_l1_count : Option F
  pub voltage_swell_l2_count : Option F
  pub voltage_swell_l3_count : Option F
  pub any_power_fail_count : Option F
  pub long_power_fail_count : Option F
  pub active_power_average_w : Option F
  pub montly_power_peak_w : Option F
  pub montly_power_peak_timestamp : Option F
  pub total_gas_m3 : Option F
  pub gas_timestamp : Option F
  pub unique_gas_id : String
  pub gas_unique_id : String
  pub external : List (V1External F)
  pub active_liter_lpm : Option F
  pub total_liter_m3 : Option F
  pub total_liter_offset_m3 : Option F
