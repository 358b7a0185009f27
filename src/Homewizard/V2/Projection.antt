-- ===== src/Homewizard/V2/Projection.antt =====
-- v2.go: `measurement`.
pub mod Laws
use homewizard_exporter.Prelude.{Option, none, some, List, [], ◌∷◌}
use homewizard_exporter.Time.{Time}
use homewizard_exporter.Homewizard.Models.{Measurement, External}
use homewizard_exporter.Homewizard.Errors.{Result, ok, context, ◌>>=◌}
use homewizard_exporter.Homewizard.Timestamps.{Platform, parse_compact, parse_iso}
use homewizard_exporter.Homewizard.V2.{V2Measurement, V2External}

-- The literal that `measurement` begins with: what is copied field by field.
unfoldable pub copied : {F : Type 0} → V2Measurement F → Measurement F
copied d = record {
  meter_model = d.meter_model;
  unique_id = d.unique_id;
  protocol_version = d.protocol_version;
  timestamp = 0;
  tariff = d.tariff;
  energy_import_kwh = d.energy_import_kwh;
  energy_export_kwh = d.energy_export_kwh;
  energy_import_tariff_kwh = record {
    t1 = d.energy_import_t1_kwh;
    t2 = d.energy_import_t2_kwh;
    t3 = d.energy_import_t3_kwh;
    t4 = d.energy_import_t4_kwh;
  };
  energy_export_tariff_kwh = record {
    t1 = d.energy_export_t1_kwh;
    t2 = d.energy_export_t2_kwh;
    t3 = d.energy_export_t3_kwh;
    t4 = d.energy_export_t4_kwh;
  };
  power_w = d.power_w;
  power_phase_w = record { l1 = d.power_l1_w; l2 = d.power_l2_w; l3 = d.power_l3_w };
  voltage_v = d.voltage_v;
  voltage_phase_v = record { l1 = d.voltage_l1_v; l2 = d.voltage_l2_v; l3 = d.voltage_l3_v };
  current_a = d.current_a;
  current_phase_a = record { l1 = d.current_l1_a; l2 = d.current_l2_a; l3 = d.current_l3_a };
  apparent_power_va = d.apparent_power_va;
  apparent_power_phase_va = record {
    l1 = d.apparent_power_l1_va;
    l2 = d.apparent_power_l2_va;
    l3 = d.apparent_power_l3_va;
  };
  reactive_power_var = d.reactive_power_var;
  reactive_power_phase_va = record {
    l1 = d.reactive_power_l1_var;
    l2 = d.reactive_power_l2_var;
    l3 = d.reactive_power_l3_var;
  };
  apparent_current_a = d.apparent_current_a;
  apparent_current_phase_a = record {
    l1 = d.apparent_current_l1_a;
    l2 = d.apparent_current_l2_a;
    l3 = d.apparent_current_l3_a;
  };
  reactive_current_a = d.reactive_current_a;
  reactive_current_phase_a = record {
    l1 = d.reactive_current_l1_a;
    l2 = d.reactive_current_l2_a;
    l3 = d.reactive_current_l3_a;
  };
  power_factor = d.power_factor;
  power_factor_phase = record {
    l1 = d.power_factor_l1;
    l2 = d.power_factor_l2;
    l3 = d.power_factor_l3;
  };
  frequency_hz = d.frequency_hz;
  voltage_sag_phase_count = record {
    l1 = d.voltage_sag_l1_count;
    l2 = d.voltage_sag_l2_count;
    l3 = d.voltage_sag_l3_count;
  };
  voltage_swell_phase_count = record {
    l1 = d.voltage_swell_l1_count;
    l2 = d.voltage_swell_l2_count;
    l3 = d.voltage_swell_l3_count;
  };
  any_power_fail_count = d.any_power_fail_count;
  long_power_fail_count = d.long_power_fail_count;
  average_power15m_w = d.average_power15m_w;
  monthly_power_peak_w = d.monthly_power_peak_w;
  monthly_power_peak_at = 0;
  active_water_lpm = none;
  total_water_m3 = none;
  state_of_charge_pct = d.state_of_charge_pct;
  cycles = d.cycles;
  external = [];
  wifi_ssid = "";
  wifi_strength_pct = none;
}

module _ (P : Platform) where
  abbrev pub external_at : V2External P.F → P.F → Time → External P.F
  external_at e value at = record {
    unique_id = e.unique_id;
    type = e.type;
    unit = e.unit;
    value = value;
    timestamp = at;
  }

  -- One round of the loop over `d.External`: an entry with no value is skipped, a bad timestamp is
  -- the result whatever follows it.
  unfoldable pub prepend :
      V2External P.F → Option P.F → Result (List (External P.F)) → Result (List (External P.F))
  prepend e none rest = rest
  prepend e (some value) rest = do
    at ← context "external timestamp" (parse_iso P e.timestamp)
    more ← rest
    ok (external_at e value at ∷ more)

  unfoldable pub externals : List (V2External P.F) → Result (List (External P.F))
  unfolding prepend
  externals [] = ok []
  externals (e ∷ es) = prepend e e.value (externals es)

  -- `measurement`
  unfoldable pub measurement : V2Measurement P.F → Result (Measurement P.F)
  measurement d = do
    at ← context "timestamp" (parse_iso P d.timestamp)
    peak ← context "monthly_power_peak_timestamp" (parse_iso P d.monthly_power_peak_timestamp)
    found ← externals d.external
    ok (record (copied d) { timestamp = at; monthly_power_peak_at = peak; external = found })
