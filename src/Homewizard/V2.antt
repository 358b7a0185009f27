-- ===== src/Homewizard/V2.antt =====
-- internal/homewizard/v2.go: the response of /api/measurement, and its projection onto the shared
-- model.
pub mod Projection
use homewizard_exporter.Prelude.{String, Option, List}

pub record V2External (F : Type 0) : Type 0 where
  pub unique_id : String
  pub type : String
  pub timestamp : String
  pub value : Option F
  pub unit : String

pub record V2Measurement (F : Type 0) : Type 0 where
  pub unique_id : String
  pub protocol_version : Option F
  pub meter_model : String
  pub timestamp : String
  pub tariff : Option F
  pub energy_import_kwh : Option F
  pub energy_import_t1_kwh : Option F
  pub energy_import_t2_kwh : Option F
  pub energy_import_t3_kwh : Option F
  pub energy_import_t4_kwh : Option F
  pub energy_export_kwh : Option F
  pub energy_export_t1_kwh : Option F
  pub energy_export_t2_kwh : Option F
  pub energy_export_t3_kwh : Option F
  pub energy_export_t4_kwh : Option F
  pub power_w : Option F
  pub power_l1_w : Option F
  pub power_l2_w : Option F
  pub power_l3_w : Option F
  pub voltage_v : Option F
  pub voltage_l1_v : Option F
  pub voltage_l2_v : Option F
  pub voltage_l3_v : Option F
  pub current_a : Option F
  pub current_l1_a : Option F
  pub current_l2_a : Option F
  pub current_l3_a : Option F
  pub apparent_current_a : Option F
  pub apparent_current_l1_a : Option F
  pub apparent_current_l2_a : Option F
  pub apparent_current_l3_a : Option F
  pub reactive_current_a : Option F
  pub reactive_current_l1_a : Option F
  pub reactive_current_l2_a : Option F
  pub reactive_current_l3_a : Option F
  pub apparent_power_va : Option F
  pub apparent_power_l1_va : Option F
  pub apparent_power_l2_va : Option F
  pub apparent_power_l3_va : Option F
  pub reactive_power_var : Option F
  pub reactive_power_l1_var : Option F
  pub reactive_power_l2_var : Option F
  pub reactive_power_l3_var : Option F
  pub power_factor : Option F
  pub power_factor_l1 : Option F
  pub power_factor_l2 : Option F
  pub power_factor_l3 : Option F
  pub frequency_hz : Option F
  pub voltage_sag_l1_count : Option F
  pub voltage_sag_l2_count : Option F
  pub voltage_sag_l3_count : Option F
  pub voltage_swell_l1_count : Option F
  pub voltage_swell_l2_count : Option F
  pub voltage_swell_l3_count : Option F
  pub any_power_fail_count : Option F
  pub long_power_fail_count : Option F
  pub average_power15m_w : Option F
  pub monthly_power_peak_w : Option F
  pub monthly_power_peak_timestamp : String
  pub state_of_charge_pct : Option F
  pub cycles : Option F
  pub external : List (V2External F)
