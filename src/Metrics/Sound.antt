-- ===== src/Metrics/Sound.antt =====
-- collector.go: the emitter's functions against the descriptors, and what it is for a sample to
-- fit one.
use homewizard_exporter.Prelude.{
  ℕ, suc, String, ◌≡◌, refl, Bool, true, false, ◌||◌, Option, none, some, List, [], ◌∷◌, ◌++◌,
  str_eq, length, All, All-append,
}
use homewizard_exporter.Time.{Time}
use homewizard_exporter.Homewizard.Models.{Phases}
use homewizard_exporter.Homewizard.Timestamps.{Platform}
use homewizard_exporter.Metrics.Descriptors.{Desc}
use homewizard_exporter.Metrics.Tables.{
  measurement_gauges, measurement_phase_gauges, measurement_counters, measurement_phase_counters,
  single_descs, all_descs,
}
use homewizard_exporter.Metrics.Collector.{
  Kind, Sample, each, gauge, optional, per_phase, emit_if, flag, ratio, stamp, unix,
}

-- A descriptor of that name is in the list.
unfoldable pub is_listed : String → List Desc → Bool
is_listed name [] = false
is_listed name (d ∷ ds) = str_eq d.name name || is_listed name ds

-- A descriptor is described to the registry and has so many labels.
abbrev pub Takes : Type 0 → ℕ → Desc → Type 0
Takes F n d = (is_listed d.name (all_descs F) ≡ true) × (length d.labels ≡ n)

-- A sample's descriptor is described to the registry, and the sample has a value for each of its labels.
abbrev pub IsSound : (F : Type 0) → Sample F → Type 0
IsSound F s = Takes F (length s.labels) s.desc

module _ (F : Type 0) where
  pub record AllSound (ss : List (Sample F)) : Type 0 where
    pub all : All (IsSound F) ss

  pub nothing : AllSound []
  nothing = record { all = tt }

  pub alone : (s : Sample F) → IsSound F s → AllSound (s ∷ [])
  alone s h = record { all = (h, tt) }

  pub measurement_gauges-Takes : All (λ g. Takes F 1 g.desc) (measurement_gauges F)
  unfolding is_listed all_descs single_descs measurement_gauges measurement_phase_gauges
      measurement_counters measurement_phase_counters
  measurement_gauges-Takes = (
    (refl, refl),
    (
      (refl, refl),
      (
        (refl, refl),
        (
          (refl, refl),
          (
            (refl, refl),
            (
              (refl, refl),
              (
                (refl, refl),
                (
                  (refl, refl),
                  (
                    (refl, refl),
                    ((refl, refl), ((refl, refl), ((refl, refl), ((refl, refl), tt)))),
                  ),
                ),
              ),
            ),
          ),
        ),
      ),
    ),
  )

  pub measurement_phase_gauges-Takes : All (λ g. Takes F 2 g.desc) (measurement_phase_gauges F)
  unfolding is_listed all_descs single_descs measurement_gauges measurement_phase_gauges
      measurement_counters measurement_phase_counters
  measurement_phase_gauges-Takes = (
    (refl, refl),
    (
      (refl, refl),
      (
        (refl, refl),
        ((refl, refl), ((refl, refl), ((refl, refl), ((refl, refl), ((refl, refl), tt))))),
      ),
    ),
  )

  pub measurement_counters-Takes : All (λ g. Takes F 1 g.desc) (measurement_counters F)
  unfolding is_listed all_descs single_descs measurement_gauges measurement_phase_gauges
      measurement_counters measurement_phase_counters
  measurement_counters-Takes = (
    (refl, refl),
    ((refl, refl), ((refl, refl), ((refl, refl), ((refl, refl), ((refl, refl), tt))))),
  )

  pub measurement_phase_counters-Takes : All (λ g. Takes F 2 g.desc) (measurement_phase_counters F)
  unfolding is_listed all_descs single_descs measurement_gauges measurement_phase_gauges
      measurement_counters measurement_phase_counters
  measurement_phase_counters-Takes = ((refl, refl), ((refl, refl), tt))

  pub optional-AllSound :
      (d : Desc) (k : Kind) (device : String) (v : Option F) (labels : List String)
      → Takes F (suc (length labels)) d
      → AllSound (optional d k device v labels)
  unfolding optional
  optional-AllSound d k device none labels h = nothing
  optional-AllSound d k device (some v) labels h = alone _ h

  pub emit_if-AllSound : (b : Bool) (ss : List (Sample F)) → AllSound ss → AllSound (emit_if b ss)
  emit_if-AllSound true ss h = h
  emit_if-AllSound false ss h = nothing

  pub append : (xs ys : List (Sample F)) → AllSound xs → AllSound ys → AllSound (xs ++ ys)
  append xs ys h k = record { all = All-append (IsSound F) xs ys h.all k.all }

  pub per_phase-AllSound :
      (d : Desc) (k : Kind) (device : String) (p : Phases F)
      → Takes F 2 d
      → AllSound (per_phase d k device p)
  unfolding per_phase
  per_phase-AllSound d k device p h =
      append _ _
        (append _ _ (optional-AllSound d k device p.l1 _ h) (optional-AllSound d k device p.l2 _ h))
        (optional-AllSound d k device p.l3 _ h)

  -- The samples of a list whose elements are good.
  pub each-AllSound {ℓ κ} :
      {A : Type ℓ} {Q : A → Type κ} (f : A → List (Sample F)) (xs : List A)
      → ((x : A) → Q x → AllSound (f x))
      → All Q xs
      → AllSound (each f xs)
  unfolding each
  each-AllSound f [] h k = nothing
  each-AllSound f (x ∷ xs) h (k, ks) = append (f x) (each f xs) (h x k) (each-AllSound f xs h ks)

  pub each-AllSound_all {ℓ} :
      {A : Type ℓ} (f : A → List (Sample F)) (xs : List A)
      → ((x : A) → AllSound (f x))
      → AllSound (each f xs)
  unfolding each
  each-AllSound_all f [] h = nothing
  each-AllSound_all f (x ∷ xs) h = append (f x) (each f xs) (h x) (each-AllSound_all f xs h)

module _ (P : Platform) where
  pub flag-AllSound :
      (d : Desc) (device : String) (b : Option Bool)
      → Takes P.F 1 d
      → AllSound P.F (flag P d device b)
  unfolding flag
  flag-AllSound d device none h = nothing P.F
  flag-AllSound d device (some b) h = alone P.F _ h

  pub ratio-AllSound :
      (d : Desc) (device : String) (x : Option P.F)
      → Takes P.F 1 d
      → AllSound P.F (ratio P d device x)
  unfolding ratio
  ratio-AllSound d device none h = nothing P.F
  ratio-AllSound d device (some x) h = alone P.F _ h

  pub gauge-AllSound :
      (d : Desc) (device : String) (x : P.F) (labels : List String)
      → Takes P.F (suc (length labels)) d
      → AllSound P.F (gauge d device x labels)
  gauge-AllSound d device x labels h = alone P.F _ h

  pub stamp-AllSound :
      (d : Desc) (device : String) (at : Time) (labels : List String)
      → Takes P.F (suc (length labels)) d
      → AllSound P.F (stamp P d device at labels)
  unfolding stamp
  stamp-AllSound d device at labels h =
      emit_if-AllSound P.F _ _ (gauge-AllSound d device (P.of_int (unix at)) labels h)
