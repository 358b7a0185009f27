-- ===== src/Homewizard/V1/Projection.antt =====
-- v1.go: `measurement`.
pub mod Laws
use homewizard_exporter.Prelude.{String, Option, none, some, List, [], ◌∷◌, str_eq, if◌then◌else◌}
use homewizard_exporter.Time.{Time}
use homewizard_exporter.Homewizard.Models.{Measurement, External}
use homewizard_exporter.Homewizard.Errors.{Result, ok, context, ◌>>=◌}
use homewizard_exporter.Homewizard.Timestamps.{Platform, parse_compact, parse_iso}
use homewizard_exporter.Homewizard.V1.{V1Data, V1External}

-- The literal that `measurement` begins with: what is copied field by field.
unfoldable pub copied : {F : Type 0} → V1Data F → Measurement F
copied d = record {
  meter_model = d.meter_model;
  unique_id = d.unique_id;
  protocol_version = d.smr_version;
  timestamp = 0;
  tariff = d.active_tariff;
  energy_import_kwh = d.total_power_import_kwh;
  energy_export_kwh = d.total_power_export_kwh;
  energy_import_tariff_kwh = record {
    t1 = d.total_power_import_t1_kwh;
    t2 = d.total_power_import_t2_kwh;
    t3 = d.total_power_import_t3_kwh;
    t4 = d.total_power_import_t4_kwh;
  };
  energy_export_tariff_kwh = record {
    t1 = d.total_power_export_t1_kwh;
    t2 = d.total_power_export_t2_kwh;
    t3 = d.total_power_export_t3_kwh;
    t4 = d.total_power_export_t4_kwh;
  };
  power_w = d.active_power_w;
  power_phase_w = record {
    l1 = d.active_power_l1_w;
    l2 = d.active_power_l2_w;
    l3 = d.active_power_l3_w;
  };
  voltage_v = d.active_voltage_v;
  voltage_phase_v = record {
    l1 = d.active_voltage_l1_v;
    l2 = d.active_voltage_l2_v;
    l3 = d.active_voltage_l3_v;
  };
  current_a = d.active_current_a;
  current_phase_a = record {
    l1 = d.active_current_l1_a;
    l2 = d.active_current_l2_a;
    l3 = d.active_current_l3_a;
  };
  apparent_power_va = d.active_apparent_power_va;
  apparent_power_phase_va = record {
    l1 = d.active_apparent_power_l1_va;
    l2 = d.active_apparent_power_l2_va;
    l3 = d.active_apparent_power_l3_va;
  };
  reactive_power_var = d.active_reactive_power_var;
  reactive_power_phase_va = record {
    l1 = d.active_reactive_power_l1_var;
    l2 = d.active_reactive_power_l2_var;
    l3 = d.active_reactive_power_l3_var;
  };
  apparent_current_a = d.active_apparent_current_a;
  apparent_current_phase_a = record {
    l1 = d.active_apparent_current_l1_a;
    l2 = d.active_apparent_current_l2_a;
    l3 = d.active_apparent_current_l3_a;
  };
  reactive_current_a = d.active_reactive_current_a;
  reactive_current_phase_a = record {
    l1 = d.active_reactive_current_l1_a;
    l2 = d.active_reactive_current_l2_a;
    l3 = d.active_reactive_current_l3_a;
  };
  power_factor = d.active_power_factor;
  power_factor_phase = record {
    l1 = d.active_power_factor_l1;
    l2 = d.active_power_factor_l2;
    l3 = d.active_power_factor_l3;
  };
  frequency_hz = d.active_frequency_hz;
  voltage_sag_phase_count = record {
    l1 = d.voltage_sag_l1_count;
    l2 = d.voltage_sag_l2_count;
    l3 = d.voltage_sag_l3_count;
  };
  voltage_swell_phase_count = record {
    l1 = d.voltage_swell_l1_count;
    l2 = d.voltage_swell_l2_count;
    l3 = d.voltage_swell_l3_count;
  };
  any_power_fail_count = d.any_power_fail_count;
  long_power_fail_count = d.long_power_fail_count;
  average_power15m_w = d.active_power_average_w;
  monthly_power_peak_w = d.montly_power_peak_w;
  monthly_power_peak_at = 0;
  active_water_lpm = d.active_liter_lpm;
  total_water_m3 = d.total_liter_m3;
  state_of_charge_pct = none;
  cycles = none;
  external = [];
  wifi_ssid = d.wifi_ssid;
  wifi_strength_pct = d.wifi_strength;
}

-- `firstNonEmpty`
unfoldable pub first_non_empty : List String → String
first_non_empty [] = ""
first_non_empty (v ∷ values) = if str_eq v "" then first_non_empty values else v

module _ (P : Platform) where
  -- `if p != nil { at, err := parseCompactTimestamp(*p) … }`
  abbrev pub optional_time : Option P.F → Result Time
  optional_time none = ok 0
  optional_time (some x) = parse_compact P x

  abbrev pub external_at : V1External P.F → P.F → Time → External P.F
  external_at e value at = record {
    unique_id = e.unique_id;
    type = e.type;
    unit = e.unit;
    value = value;
    timestamp = at;
  }

  -- One round of the loop over `d.External`: an entry with no value is skipped, a bad timestamp is
  -- the result whatever follows it.
  unfoldable pub prepend :
      V1External P.F → Option P.F → Result (List (External P.F)) → Result (List (External P.F))
  prepend e none rest = rest
  prepend e (some value) rest = do
    at ← context "external timestamp" (optional_time e.timestamp)
    more ← rest
    ok (external_at e value at ∷ more)

  unfoldable pub externals : List (V1External P.F) → Result (List (External P.F))
  unfolding prepend
  externals [] = ok []
  externals (e ∷ es) = prepend e e.value (externals es)

  -- The gas meter of older firmware.
  unfoldable pub gas_meter : V1Data P.F → P.F → Time → External P.F
  gas_meter d value at = record {
    unique_id = first_non_empty (d.unique_gas_id ∷ d.gas_unique_id ∷ []);
    type = "gas_meter";
    unit = "m3";
    value = value;
    timestamp = at;
  }

  -- `if len(m.External) == 0 && d.TotalGasM3 != nil`
  unfoldable pub promote_gas :
      V1Data P.F → Option P.F → List (External P.F) → Result (List (External P.F))
  promote_gas d none es = ok es
  promote_gas d (some value) (e ∷ es) = ok (e ∷ es)
  promote_gas d (some value) [] = context "gas_timestamp" (optional_time d.gas_timestamp) >>= λ at.
      ok (gas_meter d value at ∷ [])

  -- `measurement`
  unfoldable pub measurement : V1Data P.F → Result (Measurement P.F)
  measurement d = do
    peak ← context "montly_power_peak_timestamp" (optional_time d.montly_power_peak_timestamp)
    found ← externals d.external
    all ← promote_gas d d.total_gas_m3 found
    ok (record (copied d) { monthly_power_peak_at = peak; external = all })
