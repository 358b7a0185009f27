-- ===== src/Metrics/Collector/Laws.antt =====
-- collector.go: the samples of a scrape against their descriptors.
use homewizard_exporter.Prelude.{String, refl, Option, none, some, [], ◌∷◌, length, All}
use homewizard_exporter.Prelude.Int.{pos, ℤ}
use homewizard_exporter.Time.{Time, Duration}
use homewizard_exporter.Homewizard.Models.{External}
use homewizard_exporter.Homewizard.Timestamps.{Platform}
use homewizard_exporter.Snapshot.{Device, is_fresh, last_update, sorted}
use homewizard_exporter.Snapshot.Store.{Store}
use homewizard_exporter.Metrics.Descriptors.{
  desc_up, desc_device_info, desc_smart_meter_info, desc_wifi_info, desc_last_update,
  desc_measurement_timestamp, desc_energy_import_tariff, desc_energy_export_tariff,
  desc_external_value, desc_external_timestamp, desc_wifi_rssi, desc_wifi_strength, desc_uptime,
  desc_cloud_enabled, desc_led_brightness, desc_api_v1_enabled, desc_socket_power_on,
  desc_socket_switch_lock, desc_batteries_power, desc_batteries_target,
  desc_batteries_max_consumption, desc_batteries_max_production, desc_batteries_count,
  desc_batteries_charge_to_full, desc_batteries_mode, desc_batteries_permission,
  desc_battery_state_of_charge, desc_monthly_peak_timestamp, desc_devices_total,
}
use homewizard_exporter.Metrics.Tables.{
  measurement_gauges, measurement_phase_gauges, measurement_counters, measurement_phase_counters,
  single_descs, all_descs,
}
use homewizard_exporter.Metrics.Collector.{
  gauge_value, counter_value, plain, bool_value, brightness, format_optional, tariff_samples,
  external_samples, permission_sample, collect_measurement, collect_system, collect_state,
  collect_batteries, collect_device, collect, wifi_ssid, tariffs,
}
use homewizard_exporter.Metrics.Sound.{
  AllSound, IsSound, alone, append, each-AllSound, each-AllSound_all, emit_if-AllSound,
  flag-AllSound, gauge-AllSound, is_listed, measurement_counters-Takes, measurement_gauges-Takes,
  measurement_phase_counters-Takes, measurement_phase_gauges-Takes, nothing, optional-AllSound,
  per_phase-AllSound, ratio-AllSound, stamp-AllSound,
}

module _ (P : Platform) where
  tariff_samples-AllSound :
      (device name : String) (taken fed : Option P.F)
      → AllSound P.F (tariff_samples P device (name, taken, fed))
  unfolding is_listed all_descs single_descs tariff_samples
  tariff_samples-AllSound device name taken fed =
      append P.F _ _
        (optional-AllSound P.F desc_energy_import_tariff counter_value device taken (name ∷ [])
          (refl, refl))
        (optional-AllSound P.F desc_energy_export_tariff counter_value device fed (name ∷ [])
          (refl, refl))

  external_samples-AllSound :
      (device : String) (e : External P.F) → AllSound P.F (external_samples P device e)
  unfolding is_listed all_descs single_descs external_samples
  external_samples-AllSound device e =
      append P.F _ _
        (gauge-AllSound P desc_external_value device e.value (e.unique_id ∷ e.type ∷ e.unit ∷ [])
          (refl, refl))
        (stamp-AllSound P desc_external_timestamp device e.timestamp (e.unique_id ∷ e.type ∷ [])
          (refl, refl))

  permission_sample-AllSound :
      (device permission : String) → AllSound P.F (permission_sample P device permission)
  unfolding is_listed all_descs single_descs permission_sample
  permission_sample-AllSound device permission =
      gauge-AllSound P desc_batteries_permission device (P.of_int (pos 1)) (permission ∷ [])
        (refl, refl)

  collect_measurement-AllSound : (d : Device P.F) → AllSound P.F (collect_measurement P d)
  unfolding is_listed all_descs single_descs collect_measurement
  collect_measurement-AllSound d =
      append P.F _ _
        (append P.F _ _
          (append P.F _ _
            (append P.F _ _
              (append P.F _ _
                (append P.F _ _
                  (append P.F _ _
                    (append P.F _ _
                      (append P.F _ _
                        (append P.F _ _
                          (each-AllSound P.F _ (measurement_gauges P.F)
                            (λ g h.
                              optional-AllSound P.F g.desc gauge_value d.name
                                (g.value d.measurement) [] h)
                            (measurement_gauges-Takes P.F))
                          (each-AllSound P.F _ (measurement_counters P.F)
                            (λ c h.
                              optional-AllSound P.F c.desc counter_value d.name
                                (c.value d.measurement) [] h)
                            (measurement_counters-Takes P.F)))
                        (each-AllSound P.F _ (measurement_phase_gauges P.F)
                          (λ g h.
                            per_phase-AllSound P.F g.desc gauge_value d.name
                              (g.values d.measurement) h)
                          (measurement_phase_gauges-Takes P.F)))
                      (each-AllSound P.F _ (measurement_phase_counters P.F)
                        (λ c h.
                          per_phase-AllSound P.F c.desc counter_value d.name
                            (c.values d.measurement) h)
                        (measurement_phase_counters-Takes P.F)))
                    (each-AllSound_all P.F _ (tariffs d.measurement)
                      (λ x. tariff_samples-AllSound d.name x.0 x.1 x.2)))
                  (ratio-AllSound P desc_battery_state_of_charge d.name
                    d.measurement.state_of_charge_pct (refl, refl)))
                (stamp-AllSound P desc_measurement_timestamp d.name d.measurement.timestamp []
                  (refl, refl)))
              (stamp-AllSound P desc_monthly_peak_timestamp d.name
                d.measurement.monthly_power_peak_at [] (refl, refl)))
            (emit_if-AllSound P.F _ _ (
              gauge-AllSound P desc_smart_meter_info d.name (P.of_int (pos 1))
                (d.measurement.meter_model
                  ∷ format_optional P d.measurement.protocol_version
                  ∷ d.measurement.unique_id
                  ∷ [])
                (refl, refl))))
          (ratio-AllSound P desc_wifi_strength d.name d.measurement.wifi_strength_pct (refl, refl)))
        (each-AllSound_all P.F _ d.measurement.external (external_samples-AllSound d.name))

  collect_system-AllSound : (d : Device P.F) → AllSound P.F (collect_system P d)
  unfolding is_listed all_descs single_descs collect_system
  collect_system-AllSound d =
      append P.F _ _
        (append P.F _ _
          (append P.F _ _
            (append P.F _ _
              (optional-AllSound P.F desc_wifi_rssi gauge_value d.name d.system.wifi_rssi_db []
                (refl, refl))
              (optional-AllSound P.F desc_uptime gauge_value d.name d.system.uptime_s []
                (refl, refl)))
            (flag-AllSound P desc_cloud_enabled d.name d.system.cloud_enabled (refl, refl)))
          (flag-AllSound P desc_api_v1_enabled d.name d.system.api_v1_enabled (refl, refl)))
        (ratio-AllSound P desc_led_brightness d.name d.system.led_brightness (refl, refl))

  brightness-AllSound : (device : String) (b : Option ℤ) → AllSound P.F (brightness P device b)
  unfolding is_listed all_descs single_descs
  brightness-AllSound device none = nothing P.F
  brightness-AllSound device (some b) = alone P.F _ (refl, refl)

  collect_state-AllSound : (d : Device P.F) → AllSound P.F (collect_state P d)
  unfolding is_listed all_descs single_descs collect_state
  collect_state-AllSound d =
      append P.F _ _
        (append P.F _ _ (flag-AllSound P desc_socket_power_on d.name d.state.power_on (refl, refl))
          (flag-AllSound P desc_socket_switch_lock d.name d.state.switch_lock (refl, refl)))
        (brightness-AllSound d.name d.state.brightness)

  collect_batteries-AllSound : (d : Device P.F) → AllSound P.F (collect_batteries P d)
  unfolding is_listed all_descs single_descs collect_batteries
  collect_batteries-AllSound d =
      append P.F _ _
        (append P.F _ _
          (append P.F _ _
            (append P.F _ _
              (append P.F _ _
                (append P.F _ _
                  (append P.F _ _
                    (optional-AllSound P.F desc_batteries_power gauge_value d.name
                      d.batteries.power_w [] (refl, refl))
                    (optional-AllSound P.F desc_batteries_target gauge_value d.name
                      d.batteries.target_power_w [] (refl, refl)))
                  (optional-AllSound P.F desc_batteries_max_consumption gauge_value d.name
                    d.batteries.max_consumption_w [] (refl, refl)))
                (optional-AllSound P.F desc_batteries_max_production gauge_value d.name
                  d.batteries.max_production_w [] (refl, refl)))
              (optional-AllSound P.F desc_batteries_count gauge_value d.name
                d.batteries.battery_count [] (refl, refl)))
            (flag-AllSound P desc_batteries_charge_to_full d.name d.batteries.charge_to_full
              (refl, refl)))
          (emit_if-AllSound P.F _ _ (
            gauge-AllSound P desc_batteries_mode d.name (P.of_int (pos 1)) (d.batteries.mode ∷ [])
              (refl, refl))))
        (each-AllSound_all P.F _ d.batteries.permissions (permission_sample-AllSound d.name))

  collect_device-AllSound :
      (limit : Duration) (now : Time) (d : Device P.F) → AllSound P.F (collect_device P limit now d)
  unfolding is_listed all_descs single_descs collect_device
  collect_device-AllSound limit now d =
      append P.F _ _
        (append P.F _ _
          (append P.F _ _
            (append P.F _ _
              (append P.F _ _
                (append P.F _ _
                  (append P.F _ _
                    (gauge-AllSound P desc_up d.name (bool_value P (is_fresh d now limit)) []
                      (refl, refl))
                    (gauge-AllSound P desc_device_info d.name (P.of_int (pos 1))
                      (d.info.product_type ∷ d.info.product_name ∷ d.info.serial
                        ∷ d.info.firmware_version ∷ d.api_version ∷ d.info.api_version ∷ [])
                      (refl, refl)))
                  (stamp-AllSound P desc_last_update d.name (last_update d) [] (refl, refl)))
                (emit_if-AllSound P.F _ _ (collect_measurement-AllSound d)))
              (emit_if-AllSound P.F _ _ (collect_system-AllSound d)))
            (emit_if-AllSound P.F _ _ (collect_state-AllSound d)))
          (emit_if-AllSound P.F _ _ (collect_batteries-AllSound d)))
        (emit_if-AllSound P.F _ _ (
          gauge-AllSound P desc_wifi_info d.name (P.of_int (pos 1)) (wifi_ssid d ∷ [])
            (refl, refl)))

  collect-AllSound :
      (s : Store P.F) (limit : Duration) (now : Time) → AllSound P.F (collect P s limit now)
  unfolding is_listed all_descs single_descs collect
  collect-AllSound none limit now = nothing P.F
  collect-AllSound (some s) limit now =
      append P.F
        (plain desc_devices_total gauge_value (P.of_int (pos (length (sorted (some s))))) []) _
        (alone P.F _ (refl, refl))
        (each-AllSound_all P.F _ (sorted (some s)) (collect_device-AllSound limit now))

  -- Every sample of a scrape has a descriptor that was described to the registry and as many label
  -- values as that descriptor has labels, so no scrape panics or is refused for an unknown series.
  pub collect-IsSound :
      (s : Store P.F) (limit : Duration) (now : Time) → All (IsSound P.F) (collect P s limit now)
  collect-IsSound s limit now = (collect-AllSound s limit now).all
