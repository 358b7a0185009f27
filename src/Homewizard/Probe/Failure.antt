-- ===== src/Homewizard/Probe/Failure.antt =====
-- probe.go: the errors that `New` returns.
use homewizard_exporter.Prelude.{
  String, ◌≡◌, refl, sym, ap, ◌∙◌, ◌↔◌, ◌⊎◌, inl, inr, Bool, true, false, not, ◌||◌, List, [], ◌∷◌,
  ◌++◌, append-nil, append_assoc, arith, str_eq, eq_iff, if◌then◌else◌, Bool-cases, All,
}
use mathlib.Core.Path.{subst}
use homewizard_exporter.Config.{Device, ApiVersion, api_v1, api_v2}
use homewizard_exporter.Homewizard.Errors.{
  Result, ok, err, Error, Sentinel, wrap, errors_is, err_injective, ok-ne-err, Result-cases,
}
use homewizard_exporter.Homewizard.Models.{Info}
use homewizard_exporter.Homewizard.Timestamps.{Platform}
use homewizard_exporter.Homewizard.Tls.{Identity, no_identity}
use homewizard_exporter.Homewizard.Client.{Net, Codec, TokenFile, read_token}
use homewizard_exporter.Homewizard.Probe.{
  probe_order, join_all, any_is, connect_error, fetch_info, blank_client, probe, new,
}
use homewizard_exporter.Homewizard.Probe.Laws.{IsAllowed, probe_order-IsAllowed}

join_all-errors_is : (es : List Error) (s : Sentinel) → errors_is (join_all es) s ≡ any_is s es
join_all-errors_is [] s = refl
join_all-errors_is (e ∷ es) s = ap (λ b. errors_is e s || b) (join_all-errors_is es s)

connect_error-errors_is :
    (token : String) (cert : Identity) (es : List Error) (s : Sentinel)
    → errors_is (connect_error token cert es) s ≡ any_is s es
unfolding connect_error
connect_error-errors_is token cert es s = ground (arith, join_all-errors_is es s)

abbrev OneOf : ApiVersion → List ApiVersion → Type 0
OneOf v [] = ⊥
OneOf v (u ∷ us) = (v ≡ u) ⊎ OneOf v us

OneOf-both :
    (v : ApiVersion) (b : Bool)
    → (v ≡ api_v1) ⊎ (v ≡ api_v2)
    → OneOf v (if b then api_v2 ∷ api_v1 ∷ [] else api_v1 ∷ api_v2 ∷ [])
OneOf-both v true (inl e) = inr (inl e)
OneOf-both v true (inr e) = inl e
OneOf-both v false (inl e) = inl e
OneOf-both v false (inr e) = inr (inl e)

-- Every version that the configuration allows is tried.
probe_order-OneOf :
    (cfg : Device) (token : String) (v : ApiVersion)
    → IsAllowed cfg v
    → OneOf v (probe_order cfg token)
unfolding probe_order
probe_order-OneOf cfg token v (known, one, two) =
    elim (Bool-cases (str_eq cfg.api_version api_v1)) [
      | inl is_one ↦ rw is_one (inl (one ((eq_iff cfg.api_version api_v1).0 is_one)))
      | inr not_one ↦ elim (Bool-cases (str_eq cfg.api_version api_v2)) [
        | inl is_two ↦ rw (not_one, is_two) (inl (two ((eq_iff cfg.api_version api_v2).0 is_two)))
        | inr not_two ↦ rw (not_one, not_two) (OneOf-both v (not (str_eq token "")) known)
      ]
    ]

module _ (P : Platform) (J : Codec P.F) (net : Net) (cfg : Device) (token : String) where
  abbrev failure : ApiVersion → Result Info → List Error
  failure v (ok info) = []
  failure v (err e) = wrap v e ∷ []

  -- The errors of the attempts.
  abbrev failures : List ApiVersion → List Error
  failures [] = []
  failures (v ∷ vs) = failure v (fetch_info P J net (blank_client P J cfg token v)) ++ failures vs

  abbrev pub Fails : ApiVersion → Type 0
  Fails v = (e : Error) × (fetch_info P J net (blank_client P J cfg token v) ≡ err e)

  probe_failed :
      (vs : List ApiVersion) (seen : Identity) (attempts : List Error) {x : Error}
      → probe P J net cfg token vs seen attempts ≡ err x
      → All Fails vs × ((s : Sentinel) → errors_is x s ≡ any_is s (attempts ++ failures vs))
  unfolding probe
  probe_failed [] seen attempts h = (
    tt,
    λ s.
        ap (λ x. errors_is x s) (sym (err_injective h))
        ∙ connect_error-errors_is token seen attempts s
        ∙ ap (any_is s) (sym (append-nil attempts)),
  )
  probe_failed (v ∷ vs) seen attempts h =
      elim (Result-cases (fetch_info P J net (blank_client P J cfg token v))) [
        | inl (info, e) ↦ absurd (ok-ne-err (rw (e, probe) at h))
        | inr (x, e) ↦
            let (fails, says) =
              probe_failed vs _ (attempts ++ wrap v x ∷ []) (rw (e, probe) at h) in
            (
              ((x, e), fails),
              λ s.
                  says s
                  ∙ ap (any_is s) {y = attempts ++ failures (v ∷ vs)}
                      (append_assoc attempts (wrap v x ∷ []) (failures vs) ∙ rw e),
            )
      ]

  OneOf-Fails : (vs : List ApiVersion) (v : ApiVersion) → OneOf v vs → All Fails vs → Fails v
  OneOf-Fails [] v h fails = absurd h
  OneOf-Fails (u ∷ us) v (inl e) (here, later) = subst Fails (sym e) here
  OneOf-Fails (u ∷ us) v (inr h) (here, later) = OneOf-Fails us v h later

  -- A version that the configuration allows fails with an error that is this sentinel.
  abbrev pub IsCause : Sentinel → Type 0
  IsCause s =
      (v : ApiVersion) × IsAllowed cfg v
      × (e : Error) × (fetch_info P J net (blank_client P J cfg token v) ≡ err e)
      × (errors_is e s ≡ true)

  failures-IsCause :
      (vs : List ApiVersion) (s : Sentinel)
      → All (IsAllowed cfg) vs
      → any_is s (failures vs) ≡ true
      → IsCause s
  failures-IsCause [] s allowed h = cc
  failures-IsCause (v ∷ vs) s (here, later) h =
      elim (Result-cases (fetch_info P J net (blank_client P J cfg token v))) [
        | inl (info, e) ↦ failures-IsCause vs s later (rw e at h)
        | inr (x, e) ↦ elim (Bool-cases (errors_is x s)) [
          | inl meant ↦ (v, here, x, e, meant)
          | inr other ↦ failures-IsCause vs s later (rw (e, other) at h)
        ]
      ]

  any_is-failures :
      (vs : List ApiVersion) (s : Sentinel) (v : ApiVersion) (e : Error)
      → OneOf v vs
      → fetch_info P J net (blank_client P J cfg token v) ≡ err e
      → errors_is e s ≡ true
      → any_is s (failures vs) ≡ true
  any_is-failures [] s v e within h k = absurd within
  any_is-failures (u ∷ us) s v e (inl same) h k =
      let at = ap (λ w. fetch_info P J net (blank_client P J cfg token w)) (sym same) ∙ h in
      rw (at, k) refl
  any_is-failures (u ∷ us) s v e (inr later) h k =
      elim (Result-cases (fetch_info P J net (blank_client P J cfg token u))) [
        | inl (info, at) ↦ rw at (any_is-failures us s v e later h k)
        | inr (x, at) ↦ rw at (ground (arith, any_is-failures us s v e later h k))
      ]

module _ (P : Platform) (J : Codec P.F) (net : Net) (files : String → TokenFile)
    (tls : Device → Result (Unit {0})) (cfg : Device) where
  -- Where `New` fails with a token and TLS settings that could be read, every version that the
  -- configuration allows has failed, and the error is one of the sentinels exactly when the error of one of
  -- these versions is: no cause is lost, and none is made up.
  pub new_failed :
      (token : String) {x : Error}
      → read_token files cfg ≡ ok token
      → tls cfg ≡ ok tt
      → new P J net files tls cfg ≡ err x
      → ((v : ApiVersion) → IsAllowed cfg v → Fails P J net cfg token v)
        × ((s : Sentinel) → (errors_is x s ≡ true) ↔ IsCause P J net cfg token s)
  unfolding new
  new_failed token read config h =
      let order = probe_order cfg token in
      let (fails, says) =
        probe_failed P J net cfg token order no_identity [] (rw (read, config, new) at h) in
      (
        λ v k. OneOf-Fails P J net cfg token order v (probe_order-OneOf cfg token v k) fails,
        λ s. (
          λ e.
              failures-IsCause P J net cfg token order s (probe_order-IsAllowed cfg token)
                (sym (says s) ∙ e),
          λ (v, k, e, at, meant).
              says s
              ∙ any_is-failures P J net cfg token order s v e (probe_order-OneOf cfg token v k) at
                  meant,
        ),
      )
