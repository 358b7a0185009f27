-- ===== src/Homewizard/V1/Projection/Laws.antt =====
-- v1.go: the results of `measurement`.
use homewizard_exporter.Prelude.{
  String, ◌≡◌, refl, sym, ap, ◌∙◌, Option, none, some, List, [], ◌∷◌, map, arith, str_eq, eq_iff,
  if◌then◌else◌,
}
use homewizard_exporter.Homewizard.Models.{Measurement, External}
use homewizard_exporter.Homewizard.Errors.{
  Result, ok, context, cons-eq-ok, bind_three-eq-ok, >>=-eq-ok, ok_injective,
}
use homewizard_exporter.Homewizard.Timestamps.{Platform}
use homewizard_exporter.Homewizard.V1.{V1Data, V1External}
use homewizard_exporter.Homewizard.V1.Projection.{
  first_non_empty, copied, external_at, prepend, externals, optional_time, gas_meter, promote_gas,
  measurement,
}

first_non_empty_pair :
    (s t : String) → first_non_empty (s ∷ t ∷ []) ≡ (if str_eq s "" then t else s)
unfolding first_non_empty
first_non_empty_pair s t = ground (arith, eq_iff t "")

module _ (P : Platform) where
  -- The readings of a list of meters: all that identifies them, and the value.
  abbrev pub Reading : Type 0
  Reading = String × String × String × P.F

  abbrev pub reading : External P.F → Reading
  reading e = (e.unique_id, e.type, e.unit, e.value)

  abbrev pub consider : V1External P.F → Option P.F → List Reading → List Reading
  consider e none rest = rest
  consider e (some x) rest = (e.unique_id, e.type, e.unit, x) ∷ rest

  -- The entries that have a value.
  abbrev pub valued : List (V1External P.F) → List Reading
  valued [] = []
  valued (e ∷ es) = consider e e.value (valued es)

  prepend-consider :
      (e : V1External P.F) (o : Option P.F) (rest : Result (List (External P.F)))
      {xs : List (External P.F)}
      → prepend P e o rest ≡ ok xs
      → (ys : List (External P.F)) × (rest ≡ ok ys)
        × (map reading xs ≡ consider e o (map reading ys))
  unfolding prepend
  prepend-consider e none rest {xs} h = (xs, h, refl)
  prepend-consider e (some x) rest {xs} h =
      let stamp = context "external timestamp" (optional_time P e.timestamp) in
      let (at, ys, _, found, same) = cons-eq-ok stamp (external_at P e x) rest h in
      (ys, found, ap (map reading) (sym same))

  pub externals-valued :
      (es : List (V1External P.F)) (xs : List (External P.F))
      → externals P es ≡ ok xs
      → map reading xs ≡ valued es
  unfolding externals
  externals-valued [] xs h = ap (map reading) (sym (ok_injective h))
  externals-valued (e ∷ es) xs h =
      let (ys, found, same) = prepend-consider e e.value (externals P es) h in
      same ∙ ap (consider e e.value) (externals-valued es ys found)

  -- What the meters of a response are: the entries with a value, or else the flat gas meter.
  abbrev pub with_gas : V1Data P.F → Option P.F → List Reading → List Reading
  with_gas d none rs = rs
  with_gas d (some g) (r ∷ rs) = r ∷ rs
  with_gas d (some g) [] =
      (
        (if str_eq d.unique_gas_id "" then d.gas_unique_id else d.unique_gas_id),
        "gas_meter",
        "m3",
        g,
      )
      ∷ []

  promote_gas-with_gas :
      (d : V1Data P.F) (o : Option P.F) (es : List (External P.F)) {xs : List (External P.F)}
      → promote_gas P d o es ≡ ok xs
      → map reading xs ≡ with_gas d o (map reading es)
  unfolding promote_gas gas_meter
  promote_gas-with_gas d none es h = ap (map reading) (sym (ok_injective h))
  promote_gas-with_gas d (some g) (e ∷ es) h = ap (map reading) (sym (ok_injective h))
  promote_gas-with_gas d (some g) [] h =
      let stamp = context "gas_timestamp" (optional_time P d.gas_timestamp) in
      let (at, _, same) = >>=-eq-ok stamp (λ at. ok (gas_meter P d g at ∷ [])) h in
      ap (map reading) (sym (ok_injective same))
      ∙ ap (λ name. (name, "gas_meter", "m3", g) ∷ [])
          (first_non_empty_pair d.unique_gas_id d.gas_unique_id)

  -- A projected response holds what it copies field by field, and its meters are the entries of the
  -- response that have a value, in their order and each once; if there are none, they are the flat
  -- gas meter, if that has a reading, named by the first of its two identifiers that is not empty.
  pub v1_measurement_lem :
      (d : V1Data P.F) {m : Measurement P.F}
      → measurement P d ≡ ok m
      → (map reading m.external ≡ with_gas d d.total_gas_m3 (valued d.external))
        × (record m { external = []; monthly_power_peak_at = 0 } ≡ copied d)
  unfolding measurement copied
  v1_measurement_lem d {m} h =
      let (peak, found, all, _, listed, promoted, same) =
        bind_three-eq-ok
          (context "montly_power_peak_timestamp" (optional_time P d.montly_power_peak_timestamp))
          (externals P d.external) (promote_gas P d d.total_gas_m3)
          (λ at es. record (copied d) { monthly_power_peak_at = at; external = es }) h in
      (
        ap (λ x. map reading x.external) (sym same)
            ∙ promote_gas-with_gas d d.total_gas_m3 found promoted
            ∙ ap (with_gas d d.total_gas_m3) (externals-valued d.external found listed),
        ap {A = Measurement P.F} (λ x. record x { external = []; monthly_power_peak_at = 0 })
            (sym same),
      )
