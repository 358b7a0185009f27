-- ===== src/Homewizard/Pair/Waiting.antt =====
-- pair.go: when `Pair` returns.
use homewizard_exporter.Prelude.{
  String, ◌≡◌, ◌↔◌, inl, inr, true, false, not, Option, none, some, List, [], ◌∷◌, arith, str_eq,
  if◌then◌else◌, Bool-cases, All,
}
use homewizard_exporter.Homewizard.Errors.{message}
use homewizard_exporter.Config
use homewizard_exporter.Config.{Tls}
use homewizard_exporter.Homewizard.Pair.{
  is_user_name, pair_client, pair_device, pair, default_user_name, begin_wait,
}
use homewizard_exporter.Homewizard.Errors.{
  Result, ok, err, errors_is, button_not_pressed, Result-cases,
}
use homewizard_exporter.Homewizard.Timestamps.{Platform}
use homewizard_exporter.Homewizard.Tls.{Identity, no_identity}
use homewizard_exporter.Homewizard.Client.{new_request, shaken}
use homewizard_exporter.Homewizard.Probe.{recorded}
use homewizard_exporter.Homewizard.Client.{Codec, Client}
use homewizard_exporter.Homewizard.Pair.{
  first_hint, hint_of, IdentityHint, Attempt, finished, waiting, create_user, wait,
}

module _ (P : Platform) (J : Codec P.F) where
  -- The device answered that its button is not pressed.
  abbrev pub IsUnpressed : Result String → Type 0
  IsUnpressed (ok token) = ⊥
  IsUnpressed (err e) = errors_is e button_not_pressed ≡ true

  -- An attempt after which the loop goes on: the button is not pressed, and the `select` takes the ticker.
  abbrev pub IsPatient : Client → String → Attempt → Type 0
  IsPatient c body a = IsUnpressed (create_user P J a.net c body) × (a.cancelled ≡ false)

  wait_iff :
      (name : String) (c : Client) (body : String) (attempts : List Attempt) (seen : Identity)
      (told : Option IdentityHint)
      → ((wait P J name c body attempts seen told).1 ≡ waiting) ↔ All (IsPatient c body) attempts
  unfolding wait
  wait_iff name c body [] seen told = ground arith
  wait_iff name c body (a ∷ more) seen told = elim (Result-cases (create_user P J a.net c body)) [
    | inl (token, e) ↦ rw e (ground arith)
    | inr (x, e) ↦ elim (Bool-cases (errors_is x button_not_pressed)) [
      | inr other ↦ simp (e, other) (ground arith)
      | inl unpressed ↦ elim (Bool-cases a.cancelled) [
        | inl stop ↦ simp (e, unpressed, stop) (ground arith)
        | inr going ↦
            let id =
              recorded P J (shaken a.net (new_request a.net c "POST" "/api/user" (some body)))
                seen in
            let told' = first_hint P J told (hint_of P J a.net c body seen) in
            let rest = wait_iff name c body more id told' in
            simp (e, unpressed, going) (ground (arith, rest))
      ]
    ]
  ]

  begin_iff :
      (name : String) (c : Client) (attempts : List Attempt) (config : Result (Unit {0}))
      → ((begin_wait P J name c attempts config).1 ≡ waiting)
        ↔ ((config ≡ ok tt) × All (IsPatient c (J.user name)) attempts)
  begin_iff name c attempts (err e) = ground arith
  begin_iff name c attempts (ok tt) =
      ground (arith, wait_iff name c (J.user name) attempts no_identity none)

  chosen_iff :
      (config : Config.Device → Result (Unit {0})) (host name : String) (tls : Tls)
      (attempts : List Attempt)
      → ((if not (is_user_name name)
            then (none, finished (err (message "user name is invalid")))
            else begin_wait P J name
                (pair_client P J host tls)
                attempts
                (config (pair_device P J host tls))).1
          ≡ waiting)
        ↔ ((is_user_name name ≡ true)
            × (config (pair_device P J host tls) ≡ ok tt)
            × All (IsPatient (pair_client P J host tls) (J.user name)) attempts)
  chosen_iff config host name tls attempts = elim (Bool-cases (is_user_name name)) [
    | inr bad ↦ simp bad (ground arith)
    | inl good ↦ simp good (
        ground (
          arith,
          begin_iff name (pair_client P J host tls) attempts (config (pair_device P J host tls)),
        ))
  ]

  -- Pairing is still waiting after a number of attempts exactly when the user name is valid, the
  -- TLS settings were accepted, and in every one of the attempts the device answered that its button
  -- was not pressed and the `select` behind it took the ticker. In every other case it has returned.
  pub pair_waits_iff :
      (config : Config.Device → Result (Unit {0})) (host wanted : String) (tls : Tls)
      (attempts : List Attempt)
      → ((pair P J config host wanted tls attempts).1 ≡ waiting) ↔ (
          (is_user_name (if str_eq wanted "" then default_user_name else wanted) ≡ true)
          × (config (pair_device P J host tls) ≡ ok tt)
          × All
              (IsPatient
                (pair_client P J host tls)
                (J.user (if str_eq wanted "" then default_user_name else wanted)))
              attempts)
  unfolding pair
  pair_waits_iff config host wanted tls attempts =
      chosen_iff config host (if str_eq wanted "" then default_user_name else wanted) tls attempts
