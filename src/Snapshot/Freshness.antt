-- ===== src/Snapshot/Freshness.antt =====
-- snapshot.go: `LastUpdate` and `Fresh` against the four times of a device.
use homewizard_exporter.Prelude.{ℕ, ◌+◌, ◌≤◌, ◌<◌, max, ◌≡◌, ◌↔◌, ◌⊎◌, true, not, ◌&&◌, arith}
use homewizard_exporter.Prelude.Int.{pos, max_int64, ltb_ℤ}
use homewizard_exporter.Time.{Time, is_zero, sub}
use homewizard_exporter.Snapshot.{Device, last_update, is_fresh}

-- A read at `at` that happened, less than `n` nanoseconds before `now`.
abbrev pub IsRecent : ℕ → Time → Time → Type 0
IsRecent n now at = (0 < at) × (now < at + n)

IsRecent-iff :
    (last now n : ℕ)
    → n ≤ max_int64
    → ((not (is_zero last) && ltb_ℤ (sub now last) (pos n)) ≡ true) ↔ IsRecent n now last
IsRecent-iff last now n h = ground arith

module _ {F : Type 0} where
  pub last_update-max :
      (d : Device F)
      → last_update d ≡ max (max (max d.measured_at d.system_at) d.state_at) d.batteries_at
  unfolding last_update
  last_update-max d = ground arith

  -- With a positive limit a device is fresh exactly when one of its four kinds of reading was read
  -- within the limit; a time that was never set does not count.
  pub is_fresh_iff :
      (d : Device F) (now : Time) (n : ℕ)
      → n ≤ max_int64
      → (is_fresh d now (pos n) ≡ true) ↔ (
          IsRecent n now d.measured_at
          ⊎ (IsRecent n now d.system_at
              ⊎ (IsRecent n now d.state_at ⊎ IsRecent n now d.batteries_at)))
  unfolding is_fresh
  is_fresh_iff d now n h = ground (arith, IsRecent-iff (last_update d) now n, last_update-max d)
