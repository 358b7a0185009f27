-- ===== src/Poller/Health.antt =====
-- poller.go: `Healthz`, the readiness check.
use homewizard_exporter.Prelude.{
  ℕ, zero, suc, String, ◌≡◌, ◌≢◌, ◌↔◌, ◌⊎◌, inl, inr, true, Option, none, some, List, [], ◌∷◌, map,
  arith, if◌then◌else◌, Bool-cases, is_empty,
}
use homewizard_exporter.Text.{text_ltb}
use homewizard_exporter.Time.{Time, Duration, is_zero, sub, truncate}
use homewizard_exporter.NameMap.{place, sort}
use homewizard_exporter.Snapshot.{Device, Devices, is_fresh, last_update, sorted}
use homewizard_exporter.Snapshot.Store.{Store, devices_of}

-- Why a device has no fresh readings: never read, or read that long ago.
pub data Stale : Type 0 where
  never : String → Stale
  old : String → Duration → Stale

-- The two errors of `Healthz`.
pub data Unhealthy : Type 0 where
  no_devices : Unhealthy
  no_fresh : List Stale → Unhealthy

abbrev verdict : ℕ × List Stale → Option Unhealthy
verdict (zero, stale) = some (no_fresh stale)
verdict (suc fresh, stale) = none

verdict-none : (v : ℕ × List Stale) → (verdict v ≡ none) ↔ (v.0 ≢ 0)
verdict-none (zero, stale) = ground arith
verdict-none (suc n, stale) = ground arith

module _ {F : Type 0} where
  -- What a stale device is listed as.
  unfoldable pub stale_line : Time → Device F → Stale
  stale_line now d =
      let last = last_update d in
      if is_zero last then never d.name else old d.name (truncate (sub now last))

  -- The loop: the number of fresh devices, and a line for every other one.
  unfoldable pub survey : Time → Duration → List (Device F) → ℕ × List Stale
  survey now limit [] = (0, [])
  survey now limit (d ∷ ds) =
      let (fresh, stale) = survey now limit ds in
      if is_fresh d now limit then (suc fresh, stale) else (fresh, stale_line now d ∷ stale)

  -- `Healthz`, `none` where it reports no error
  unfoldable pub healthz : Store F → Time → Duration → Option Unhealthy
  healthz s now limit =
      if is_empty (devices_of s) then some no_devices else verdict (survey now limit (sorted s))

  -- Some device of a list is fresh.
  abbrev pub SomeFresh : Time → Duration → List (Device F) → Type 0
  SomeFresh now limit [] = ⊥
  SomeFresh now limit (d ∷ ds) = (is_fresh d now limit ≡ true) ⊎ SomeFresh now limit ds

  pub survey_fresh :
      (now : Time) (limit : Duration) (ds : List (Device F))
      → ((survey now limit ds).0 ≢ 0) ↔ SomeFresh now limit ds
  unfolding survey
  survey_fresh now limit [] = ground arith
  survey_fresh now limit (d ∷ ds) = ground (arith, survey_fresh now limit ds)

  place-SomeFresh :
      (now : Time) (limit : Duration) (n : String) (d : Device F) (ds : Devices F)
      → SomeFresh now limit (map (λ p. p.1) (place n d ds))
        ↔ SomeFresh now limit (map (λ p. p.1) ((n, d) ∷ ds))
  unfolding place
  place-SomeFresh now limit n d [] = ground arith
  place-SomeFresh now limit n d ((m, e) ∷ ds) = elim (Bool-cases (text_ltb m n)) [
    | inl less ↦ rw less (ground (arith, place-SomeFresh now limit n d ds))
    | inr more ↦ rw more (ground arith)
  ]

  pub sort-SomeFresh :
      (now : Time) (limit : Duration) (ds : Devices F)
      → SomeFresh now limit (map (λ p. p.1) (sort ds)) ↔ SomeFresh now limit (map (λ p. p.1) ds)
  unfolding sort
  sort-SomeFresh now limit [] = ground arith
  sort-SomeFresh now limit ((n, d) ∷ ds) =
      ground (arith, place-SomeFresh now limit n d (sort ds), sort-SomeFresh now limit ds)

  ready_iff :
      (now : Time) (limit : Duration) (ds : Devices F)
      → ((if is_empty ds
            then some no_devices
            else verdict (survey now limit (map (λ p. p.1) (sort ds))))
          ≡ none)
        ↔ SomeFresh now limit (map (λ p. p.1) ds)
  ready_iff now limit [] = ground arith
  ready_iff now limit (e ∷ ds) =
      let devices = map (λ p. p.1) (sort (e ∷ ds)) in
      ground (
        arith,
        verdict-none (survey now limit devices),
        survey_fresh now limit devices,
        sort-SomeFresh now limit (e ∷ ds),
      )

  -- The exporter is ready exactly when some device of the snapshot is fresh.
  pub healthz_iff :
      (s : Store F) (now : Time) (limit : Duration)
      → (healthz s now limit ≡ none) ↔ SomeFresh now limit (map (λ p. p.1) (devices_of s))
  unfolding healthz sorted
  healthz_iff none now limit = ground arith
  healthz_iff (some s) now limit = ready_iff now limit s.devices
