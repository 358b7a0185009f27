-- ===== src/Web/View/Laws.antt =====
-- view.go: `buildView` against the readiness check.
use homewizard_exporter.Prelude.{
  ◌+◌, ◌≡◌, refl, ◌≢◌, ◌↔◌, ◌⊎◌, true, false, none, some, List, [], ◌∷◌, map, arith, if◌then◌else◌,
  length,
}
use homewizard_exporter.Time.{Time, Duration}
use homewizard_exporter.Homewizard.Timestamps.{Platform}
use homewizard_exporter.Snapshot.{Device, Snapshot, is_fresh, last_update, sorted}
use homewizard_exporter.Snapshot.Store.{Store}
use homewizard_exporter.Poller.Health.{
  SomeFresh, healthz, healthz_iff, sort-SomeFresh, survey, survey_fresh,
}
use homewizard_exporter.Web.View.{
  View, describe, count, add_device, gather, judge, build_view, no_view,
}

sorted-SomeFresh :
    {F : Type 0} (s : Snapshot F) (now : Time) (limit : Duration)
    → SomeFresh now limit (sorted (some s)) ↔ SomeFresh now limit (map (λ p. p.1) s.devices)
unfolding sorted
sorted-SomeFresh s now limit = sort-SomeFresh now limit s.devices

module _ (P : Platform) where
  count-online :
      (d : Device P.F) (limit : Duration) (now : Time) (v : View P.F)
      → (count P d (describe d limit now) v.totals).online
        ≡ (if is_fresh d now limit then v.totals.online + 1 else v.totals.online)
  unfolding count describe
  count-online d limit now v = ground arith

  count-devices :
      (d : Device P.F) (limit : Duration) (now : Time) (v : View P.F)
      → (count P d (describe d limit now) v.totals).devices ≡ v.totals.devices + 1
  unfolding count describe
  count-devices d limit now v = ground arith

  fresh-nonzero :
      (d : Device P.F) (limit : Duration) (now : Time)
      → is_fresh d now limit ≡ true
      → last_update d ≢ 0
  unfolding is_fresh
  fresh-nonzero d limit now h = ground arith

  gather-up :
      (limit : Duration) (now : Time) (ds : List (Device P.F)) (v : View P.F)
      → (gather P limit now ds v).up ≡ v.up
  unfolding gather
  gather-up limit now [] v = refl
  gather-up limit now (d ∷ ds) v = gather-up limit now ds _

  gather-updated :
      (limit : Duration) (now : Time) (ds : List (Device P.F)) (v : View P.F)
      → ((v.updated_at ≢ 0) ⊎ SomeFresh now limit ds)
      → (gather P limit now ds v).updated_at ≢ 0
  unfolding gather
  gather-updated limit now [] v h = ground arith
  gather-updated limit now (d ∷ ds) v h =
      gather-updated limit now ds _ (ground (arith, fresh-nonzero d limit now))

  gather-online :
      (limit : Duration) (now : Time) (ds : List (Device P.F)) (v : View P.F)
      → (gather P limit now ds v).totals.online ≡ v.totals.online + (survey now limit ds).0
  unfolding gather survey
  gather-online limit now [] v = ground arith
  gather-online limit now (d ∷ ds) v =
      ground
        (arith, count-online d limit now v, gather-online limit now ds (add_device P limit now d v))

  gather-devices :
      (limit : Duration) (now : Time) (ds : List (Device P.F)) (v : View P.F)
      → (gather P limit now ds v).totals.devices ≡ v.totals.devices + length ds
  unfolding gather
  gather-devices limit now [] v = ground arith
  gather-devices limit now (d ∷ ds) v =
      ground (
        arith,
        count-devices d limit now v,
        gather-devices limit now ds (add_device P limit now d v),
      )

  judge_iff :
      (v : View P.F)
      → v.up ≡ false
      → ((judge P v).up ≡ true) ↔ ((v.updated_at ≢ 0) × (v.totals.online ≢ 0))
  unfolding judge
  judge_iff v h = ground arith

  -- The dashboard says that the exporter is up exactly when the readiness check reports no error: both
  -- mean that some device of the snapshot is fresh.
  pub view_ready :
      (s : Store P.F) (limit : Duration) (now : Time)
      → ((build_view P s limit now).up ≡ true) ↔ (healthz s now limit ≡ none)
  unfolding build_view
  view_ready none limit now = ground (arith, healthz_iff {F = P.F} none now limit)
  view_ready (some s) limit now =
      let v = gather P limit now (sorted (some s)) (no_view P) in
      ground (
        arith,
        judge_iff v (gather-up limit now (sorted (some s)) (no_view P)),
        gather-updated limit now (sorted (some s)) (no_view P),
        gather-online limit now (sorted (some s)) (no_view P),
        survey_fresh now limit (sorted (some s)),
        healthz_iff (some s) now limit,
        sorted-SomeFresh s now limit,
      )
