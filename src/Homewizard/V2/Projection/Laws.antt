-- ===== src/Homewizard/V2/Projection/Laws.antt =====
-- v2.go: the results of `measurement`.
use homewizard_exporter.Prelude.{
  String, ◌≡◌, refl, sym, ap, ◌∙◌, Option, none, some, List, [], ◌∷◌, map,
}
use homewizard_exporter.Homewizard.Models.{Measurement, External}
use homewizard_exporter.Homewizard.Errors.{
  Result, ok, context, cons-eq-ok, bind_two-eq-ok, >>=-eq-ok, ok_injective, context-eq-ok, ◌>>=◌,
}
use homewizard_exporter.Homewizard.Timestamps.{Platform, parse_iso}
use homewizard_exporter.Homewizard.V2.{V2Measurement, V2External}
use homewizard_exporter.Homewizard.V2.Projection.{
  copied, external_at, prepend, externals, measurement,
}

module _ (P : Platform) where
  -- The readings of a list of meters: all that identifies them, and the value.
  abbrev pub Reading : Type 0
  Reading = String × String × String × P.F

  abbrev pub reading : External P.F → Reading
  reading e = (e.unique_id, e.type, e.unit, e.value)

  abbrev pub consider : V2External P.F → Option P.F → List Reading → List Reading
  consider e none rest = rest
  consider e (some x) rest = (e.unique_id, e.type, e.unit, x) ∷ rest

  -- The entries that have a value.
  abbrev pub valued : List (V2External P.F) → List Reading
  valued [] = []
  valued (e ∷ es) = consider e e.value (valued es)

  prepend-consider :
      (e : V2External P.F) (o : Option P.F) (rest : Result (List (External P.F)))
      {xs : List (External P.F)}
      → prepend P e o rest ≡ ok xs
      → (ys : List (External P.F)) × (rest ≡ ok ys)
        × (map reading xs ≡ consider e o (map reading ys))
  unfolding prepend
  prepend-consider e none rest {xs} h = (xs, h, refl)
  prepend-consider e (some x) rest {xs} h =
      let stamp = context "external timestamp" (parse_iso P e.timestamp) in
      let (at, ys, _, found, same) = cons-eq-ok stamp (external_at P e x) rest h in
      (ys, found, ap (map reading) (sym same))

  pub externals-valued :
      (es : List (V2External P.F)) (xs : List (External P.F))
      → externals P es ≡ ok xs
      → map reading xs ≡ valued es
  unfolding externals
  externals-valued [] xs h = ap (map reading) (sym (ok_injective h))
  externals-valued (e ∷ es) xs h =
      let (ys, found, same) = prepend-consider e e.value (externals P es) h in
      same ∙ ap (consider e e.value) (externals-valued es ys found)

  -- A projected response holds what it copies field by field, its own two timestamps, each parsed,
  -- and its meters are the entries of the response that have a value, in their order, each once.
  pub v2_measurement_lem :
      (d : V2Measurement P.F) {m : Measurement P.F}
      → measurement P d ≡ ok m
      → (map reading m.external ≡ valued d.external)
        × (parse_iso P d.timestamp ≡ ok m.timestamp)
        × (parse_iso P d.monthly_power_peak_timestamp ≡ ok m.monthly_power_peak_at)
        × (record m { external = []; timestamp = 0; monthly_power_peak_at = 0 } ≡ copied d)
  unfolding measurement copied
  v2_measurement_lem d {m} h =
      let (at, h1, r1) =
        >>=-eq-ok (context "timestamp" (parse_iso P d.timestamp))
          (λ at.
            context "monthly_power_peak_timestamp" (parse_iso P d.monthly_power_peak_timestamp)
            >>= λ peak. externals P d.external >>= λ es.
                ok (record (copied d) {
                  timestamp = at;
                  monthly_power_peak_at = peak;
                  external = es;
                }))
          h in
      let (peak, es, h2, h3, same) =
        bind_two-eq-ok
          (context "monthly_power_peak_timestamp" (parse_iso P d.monthly_power_peak_timestamp))
          (externals P d.external)
          (λ peak es. record (copied d) {
            timestamp = at;
            monthly_power_peak_at = peak;
            external = es;
          })
          r1 in
      (
        ap (λ x. map reading x.external) (sym same) ∙ externals-valued d.external es h3,
        context-eq-ok "timestamp" (parse_iso P d.timestamp) h1 ∙ ap (λ x. ok (x.timestamp)) same,
        context-eq-ok "monthly_power_peak_timestamp" (parse_iso P d.monthly_power_peak_timestamp) h2
            ∙ ap (λ x. ok (x.monthly_power_peak_at)) same,
        ap {A = Measurement P.F}
            (λ x. record x { external = []; timestamp = 0; monthly_power_peak_at = 0 }) (sym same),
      )
