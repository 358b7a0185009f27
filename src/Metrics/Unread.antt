-- ===== src/Metrics/Unread.antt =====
-- collector.go: the samples of a device that was never read.
use homewizard_exporter.Prelude.{ℕ, ◌≤◌, ◌≡◌, refl, false, [], ◌∷◌, ◌++◌, arith, eq_iff}
use homewizard_exporter.Prelude.Int.{pos}
use homewizard_exporter.Time.{Time, Duration}
use homewizard_exporter.Homewizard.Timestamps.{Platform}
use homewizard_exporter.Snapshot.{Device, is_fresh, last_update}
use homewizard_exporter.Snapshot.Freshness.{last_update-max}
use homewizard_exporter.Snapshot.Freshness.{last_update-max}
use homewizard_exporter.Metrics.Descriptors.{desc_up, desc_device_info}
use homewizard_exporter.Metrics.Collector.{gauge, stamp, bool_value, collect_device, wifi_ssid}

zero_of : (n : ℕ) → n ≤ 0 → n ≡ 0
zero_of n h = omega arith

module _ (P : Platform) where
  wifi_ssid-unread : (d : Device P.F) → d.system_at ≡ 0 → d.measured_at ≡ 0 → wifi_ssid d ≡ ""
  unfolding wifi_ssid
  wifi_ssid-unread d h k = ground (arith, eq_iff "" "")

  is_fresh-unread :
      (limit : Duration) (now : Time) (d : Device P.F)
      → last_update d ≡ 0
      → is_fresh d now limit ≡ false
  unfolding is_fresh
  is_fresh-unread limit now d h = rw h

  -- A device that was never read, so that all its four times are zero, shows two series only: that it
  -- is not up, and its identity.
  pub collect_device-unread :
      (limit : Duration) (now : Time) (d : Device P.F)
      → last_update d ≡ 0
      → collect_device P limit now d
        ≡ gauge desc_up d.name (bool_value P false) []
          ++ gauge desc_device_info d.name (P.of_int (pos 1)) (
              d.info.product_type ∷ d.info.product_name ∷ d.info.serial ∷ d.info.firmware_version
              ∷ d.api_version ∷ d.info.api_version ∷ [])
  unfolding collect_device stamp
  collect_device-unread limit now d h =
      let max = last_update-max d in
      let m = zero_of d.measured_at (omega (arith, max, h)) in
      let s = zero_of d.system_at (omega (arith, max, h)) in
      let t = zero_of d.state_at (omega (arith, max, h)) in
      let b = zero_of d.batteries_at (omega (arith, max, h)) in
      simp (m, s, t, b, h, is_fresh-unread limit now d h, wifi_ssid-unread d s m) refl
