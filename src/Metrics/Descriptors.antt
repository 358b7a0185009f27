-- ===== src/Metrics/Descriptors.antt =====
-- internal/metrics/descriptors.go: the descriptors of the series, without their help texts.
use Prim.Native.String
use homewizard_exporter.Prelude.{String, List, [], ◌∷◌}

-- `prometheus.Desc`: the name of a series and of its variable labels.
pub record Desc : Type 0 where
  pub name : String
  pub labels : List String

-- `desc`
abbrev pub desc : String → List String → Desc
desc name labels = record { name = String.◌++◌ "homewizard_" name; labels = "device" ∷ labels }

abbrev pub desc_devices_total : Desc
desc_devices_total = record { name = "homewizard_devices_total"; labels = [] }

abbrev pub desc_up : Desc
desc_up = desc "up" ([])

abbrev pub desc_device_info : Desc
desc_device_info =
    desc "device_info"
      ("product_type" ∷ "product_name" ∷ "serial" ∷ "firmware_version" ∷ "api" ∷ "api_version" ∷ [])

abbrev pub desc_smart_meter_info : Desc
desc_smart_meter_info =
    desc "smart_meter_info" ("meter_model" ∷ "protocol_version" ∷ "unique_id" ∷ [])

abbrev pub desc_wifi_info : Desc
desc_wifi_info = desc "wifi_info" ("ssid" ∷ [])

abbrev pub desc_last_update : Desc
desc_last_update = desc "last_update_timestamp_seconds" ([])

abbrev pub desc_measurement_timestamp : Desc
desc_measurement_timestamp = desc "measurement_timestamp_seconds" ([])

abbrev pub desc_energy_import_tariff : Desc
desc_energy_import_tariff = desc "energy_import_tariff_kwh_total" ("tariff" ∷ [])

abbrev pub desc_energy_export_tariff : Desc
desc_energy_export_tariff = desc "energy_export_tariff_kwh_total" ("tariff" ∷ [])

abbrev pub desc_external_value : Desc
desc_external_value = desc "external_meter_value" ("unique_id" ∷ "type" ∷ "unit" ∷ [])

abbrev pub desc_external_timestamp : Desc
desc_external_timestamp = desc "external_meter_timestamp_seconds" ("unique_id" ∷ "type" ∷ [])

abbrev pub desc_wifi_rssi : Desc
desc_wifi_rssi = desc "wifi_rssi_dbm" ([])

abbrev pub desc_wifi_strength : Desc
desc_wifi_strength = desc "wifi_strength_ratio" ([])

abbrev pub desc_uptime : Desc
desc_uptime = desc "uptime_seconds" ([])

abbrev pub desc_cloud_enabled : Desc
desc_cloud_enabled = desc "cloud_enabled" ([])

abbrev pub desc_led_brightness : Desc
desc_led_brightness = desc "status_led_brightness_ratio" ([])

abbrev pub desc_api_v1_enabled : Desc
desc_api_v1_enabled = desc "api_v1_enabled" ([])

abbrev pub desc_socket_power_on : Desc
desc_socket_power_on = desc "socket_power_on" ([])

abbrev pub desc_socket_switch_lock : Desc
desc_socket_switch_lock = desc "socket_switch_lock" ([])

abbrev pub desc_socket_brightness : Desc
desc_socket_brightness = desc "socket_brightness_ratio" ([])

abbrev pub desc_batteries_power : Desc
desc_batteries_power = desc "batteries_power_watts" ([])

abbrev pub desc_batteries_target : Desc
desc_batteries_target = desc "batteries_target_power_watts" ([])

abbrev pub desc_batteries_max_consumption : Desc
desc_batteries_max_consumption = desc "batteries_max_consumption_watts" ([])

abbrev pub desc_batteries_max_production : Desc
desc_batteries_max_production = desc "batteries_max_production_watts" ([])

abbrev pub desc_batteries_count : Desc
desc_batteries_count = desc "batteries_count" ([])

abbrev pub desc_batteries_charge_to_full : Desc
desc_batteries_charge_to_full = desc "batteries_charge_to_full" ([])

abbrev pub desc_batteries_mode : Desc
desc_batteries_mode = desc "batteries_mode_info" ("mode" ∷ [])

abbrev pub desc_batteries_permission : Desc
desc_batteries_permission = desc "batteries_permission" ("permission" ∷ [])

abbrev pub desc_battery_state_of_charge : Desc
desc_battery_state_of_charge = desc "battery_state_of_charge_ratio" ([])

abbrev pub desc_monthly_peak_timestamp : Desc
desc_monthly_peak_timestamp = desc "monthly_power_peak_timestamp_seconds" ([])
