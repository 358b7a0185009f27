-- ===== src/Homewizard/Pair/Laws.antt =====
-- pair.go: the results of `Pair`.
use homewizard_exporter.Prelude.{
  String, ◌≡◌, sym, ap, ◌∙◌, ◌⊎◌, inl, inr, true, false, not, Option, none, List, [], ◌∷◌, str_eq,
  if◌then◌else◌, Bool-cases,
}
use mathlib.Core.Path.{subst}
use homewizard_exporter.Config
use homewizard_exporter.Config.{Tls}
use homewizard_exporter.Homewizard.Errors.{
  Result, ok, err, Error, message, errors_is, button_not_pressed, Result-cases,
}
use homewizard_exporter.Homewizard.Models.{Info}
use homewizard_exporter.Homewizard.Timestamps.{Platform}
use homewizard_exporter.Homewizard.Tls.{Identity}
use homewizard_exporter.Homewizard.Client.{Codec, Client}
use homewizard_exporter.Homewizard.Probe.{fetch_info}
use homewizard_exporter.Homewizard.Pair.{
  IdentityHint, PairResult, Attempt, Progress, waiting, finished, is_user_name, create_user,
  accepted, wait, pair_client, pair_device, pair, default_user_name, begin_wait,
}

abbrev result_or : PairResult → Progress → PairResult
result_or r waiting = r
result_or r (finished (ok x)) = x
result_or r (finished (err e)) = r

finished_injective :
    {x r : PairResult} → ◌≡◌ {A = Progress} (finished (ok x)) (finished (ok r)) → x ≡ r
finished_injective {x} h = ap (result_or x) h

failed_not_ok :
    {e : Error} {r : PairResult} → ◌≡◌ {A = Progress} (finished (err e)) (finished (ok r)) → ⊥
failed_not_ok h = cc

module _ (P : Platform) (J : Codec P.F) where
  -- The device issued the token in this attempt, and answered what it is to a request with that token.
  pub record Confirms (c : Client) (body : String) (r : PairResult) (a : Attempt) : Type 0 where
    pub issued : create_user P J a.net c body ≡ ok r.token
    pub answered : fetch_info P J a.net (record c { token = r.token }) ≡ ok r.info

  -- Some attempt confirms a result, and every one before it found the button unpressed.
  abbrev pub IsConfirmed : Client → String → PairResult → List Attempt → Type 0
  IsConfirmed c body r [] = ⊥
  IsConfirmed c body r (a ∷ more) =
      Confirms c body r a
      ⊎ ((e : Error) × (create_user P J a.net c body ≡ err e)
          × (errors_is e button_not_pressed ≡ true)
          × (a.cancelled ≡ false)
          × IsConfirmed c body r more)

  accepted-eq-ok :
      (name token : String) (o : Result Info) (r : PairResult)
      → ◌≡◌ {A = Progress} (finished (accepted P J name token o)) (finished (ok r))
      → (o ≡ ok r.info) × (token ≡ r.token) × (name ≡ r.name)
  accepted-eq-ok name token (ok info) r h =
      let same = finished_injective h in
      (ap (λ x. ok (x.info)) same, ap (λ x. x.token) same, ap (λ x. x.name) same)
  accepted-eq-ok name token (err e) r h = cc

  wait-IsConfirmed :
      (name : String) (c : Client) (body : String) (attempts : List Attempt) (seen : Identity)
      (told : Option IdentityHint) (r : PairResult)
      → (wait P J name c body attempts seen told).1 ≡ finished (ok r)
      → (name ≡ r.name) × IsConfirmed c body r attempts
  unfolding wait
  wait-IsConfirmed name c body [] seen told r h = cc
  wait-IsConfirmed name c body (a ∷ more) seen told r h =
      elim (Result-cases (create_user P J a.net c body)) [
        | inl (token, e) ↦
            let (info, same, named) =
              accepted-eq-ok name token (fetch_info P J a.net (record c { token = token })) r
                (rw (e, wait) at h) in
            (
              named,
              inl (record {
                issued = e ∙ ap (λ x. ok x) same;
                answered =
                    ap (λ x. fetch_info P J a.net (record c { token = x })) (sym same) ∙ info;
              }),
            )
        | inr (x, e) ↦ elim (Bool-cases (errors_is x button_not_pressed)) [
          | inr other ↦ absurd (failed_not_ok (rw (e, other, wait) at h))
          | inl unpressed ↦ elim (Bool-cases a.cancelled) [
            | inl stop ↦ absurd (failed_not_ok (simp (e, unpressed, stop, wait) at h))
            | inr going ↦
                let (named, later) =
                  wait-IsConfirmed name c body more _ _ r (simp (e, unpressed, going, wait) at h) in
                (named, inr (x, e, unpressed, going, later))
          ]
        ]
      ]

  begin-IsConfirmed :
      (name : String) (c : Client) (attempts : List Attempt) (config : Result (Unit {0}))
      (r : PairResult)
      → (begin_wait P J name c attempts config).1 ≡ finished (ok r)
      → (name ≡ r.name) × IsConfirmed c (J.user name) r attempts
  begin-IsConfirmed name c attempts (err e) r h = cc
  begin-IsConfirmed name c attempts (ok x) r h =
      wait-IsConfirmed name c (J.user name) attempts _ _ r h

  chosen-IsConfirmed :
      (config : Config.Device → Result (Unit {0})) (host name : String) (tls : Tls)
      (attempts : List Attempt) (r : PairResult)
      → (if not (is_user_name name)
          then (none, finished (err (message "user name is invalid")))
          else begin_wait P J name
              (pair_client P J host tls)
              attempts
              (config (pair_device P J host tls))).1
        ≡ finished (ok r)
      → (is_user_name r.name ≡ true)
        × IsConfirmed (pair_client P J host tls) (J.user r.name) r attempts
  chosen-IsConfirmed config host name tls attempts r h = elim (Bool-cases (is_user_name name)) [
    | inr bad ↦ absurd (failed_not_ok (rw bad at h))
    | inl good ↦
        let (named, confirmed) =
          begin-IsConfirmed name (pair_client P J host tls) attempts
            (config (pair_device P J host tls)) r (rw good at h) in
        (
          ap is_user_name (sym named) ∙ good,
          subst (λ n. IsConfirmed (pair_client P J host tls) (J.user n) r attempts) named confirmed,
        )
  ]

  -- A pairing that succeeds returns a valid user name, and a token that the device issued for that name
  -- in some attempt and then accepted, answering with the information that is returned; in every attempt
  -- before, the button had not been pressed.
  pub pair-IsConfirmed :
      (config : Config.Device → Result (Unit {0})) (host wanted : String) (tls : Tls)
      (attempts : List Attempt) {r : PairResult}
      → (pair P J config host wanted tls attempts).1 ≡ finished (ok r)
      → (is_user_name r.name ≡ true)
        × IsConfirmed (pair_client P J host tls) (J.user r.name) r attempts
  unfolding pair
  pair-IsConfirmed config host wanted tls attempts {r} h =
      chosen-IsConfirmed config host (if str_eq wanted "" then default_user_name else wanted) tls
        attempts r h
