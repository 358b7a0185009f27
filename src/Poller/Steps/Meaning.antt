-- ===== src/Poller/Steps/Meaning.antt =====
-- poller.go: the accesses of a pass, all at once, are the pass.
use homewizard_exporter.Prelude.{
  String, ◌≡◌, refl, ap, ◌∙◌, inl, inr, Bool, true, false, Option, none, some, Bool-cases,
}
use homewizard_exporter.Config
use homewizard_exporter.Homewizard.Errors.{Result, ok, err, Error, errors_is, not_found}
use homewizard_exporter.Homewizard.Timestamps.{Platform}
use homewizard_exporter.Homewizard.Models.{Measurement}
use homewizard_exporter.Homewizard.Client
use homewizard_exporter.Homewizard.Client.{Client, Net, Codec, disable}
use homewizard_exporter.Snapshot.{Device}
use homewizard_exporter.Snapshot.Store.{Store, device, update}
use homewizard_exporter.Poller.{
  Settings, Clock, publish_identity, note_secondary, settle, poll_state, poll_system,
  poll_batteries, poll_slow, slow_if, publish, poll_rest, is_due, due, poll,
}
use homewizard_exporter.Poller.Rounds.{Round, poll_with, after_connect, attempt, Polled}
use homewizard_exporter.Poller.Steps.{
  Steps, done, look, write, followed_by, exec, note_steps, settle_steps, state_steps, system_steps,
  batteries_steps, slow_steps, slow_steps_if, rest_steps, publish_steps, poll_steps, Outcome,
  polled_steps, connected_steps, attempt_steps,
}

exec-followed_by :
    {F A B : Type 0} (a : Steps F A) (next : A → Steps F B) (s : Store F)
    → exec (followed_by a next) s ≡ exec (next (exec a s).1) (exec a s).0
unfolding exec followed_by
exec-followed_by (done r) next s = refl
exec-followed_by (look n k) next s = exec-followed_by (k (device s n)) next s
exec-followed_by (write n f k) next s = exec-followed_by k next (update s n f)

module _ (P : Platform) (J : Codec P.F) where
  exec-note_steps :
      (endpoint : String) (e : Error) (c : Client) (s : Store P.F)
      → exec (note_steps P J endpoint e c) s ≡ note_secondary P J endpoint e s c
  unfolding exec note_steps note_secondary
  exec-note_steps endpoint e c s = elim (Bool-cases (errors_is e not_found)) [
    | inl gone ↦ rw gone refl
    | inr other ↦ rw other refl
  ]

  exec-settle_steps {ℓ} :
      {A : Type ℓ} (endpoint : String) (change : A → Device P.F → Device P.F) (r : Result A)
      (c : Client) (s : Store P.F)
      → exec (settle_steps P J endpoint change r c) s ≡ settle P J endpoint change r s c
  unfolding exec
  exec-settle_steps endpoint change (ok a) c s = refl
  exec-settle_steps endpoint change (err e) c s = exec-note_steps endpoint e c s

  module _ (net : Net) (t : Clock) where
    exec-state_steps :
        (c : Client) (s : Store P.F) → exec (state_steps P J net t c) s ≡ poll_state P J net t s c
    unfolding exec state_steps poll_state
    exec-state_steps c s = elim (Bool-cases c.caps.state) [
      | inl on ↦ simp on (exec-settle_steps "state" _ (Client.state P J net c) c s)
      | inr off ↦ simp off refl
    ]

    exec-system_steps :
        (c : Client) (s : Store P.F) → exec (system_steps P J net t c) s ≡ poll_system P J net t s c
    unfolding exec system_steps poll_system
    exec-system_steps c s = elim (Bool-cases c.caps.system) [
      | inl on ↦ simp on (exec-settle_steps "system" _ (Client.system P J net c) c s)
      | inr off ↦ simp off refl
    ]

    exec-batteries_steps :
        (wanted : Bool) (c : Client) (s : Store P.F)
        → exec (batteries_steps P J wanted net t c) s ≡ poll_batteries P J wanted net t s c
    unfolding exec batteries_steps poll_batteries
    exec-batteries_steps true c s = exec-settle_steps "batteries" _ (Client.batteries P J net c) c s
    exec-batteries_steps false c s = refl

    exec-slow_steps :
        (c : Client) (s : Store P.F) → exec (slow_steps P J net t c) s ≡ poll_slow P J net t s c
    unfolding slow_steps poll_slow
    exec-slow_steps c s =
        exec-followed_by (system_steps P J net t c) (batteries_steps P J c.caps.batteries net t) s
        ∙ ap (λ (a : Store P.F × Client). exec (batteries_steps P J c.caps.batteries net t a.1) a.0)
            (exec-system_steps c s)
        ∙ exec-batteries_steps c.caps.batteries (poll_system P J net t s c).1
            (poll_system P J net t s c).0

    exec-slow_steps_if :
        (ready : Bool) (c : Client) (s : Store P.F)
        → exec (slow_steps_if P J ready net t c) s ≡ slow_if P J ready net t s c
    unfolding exec
    exec-slow_steps_if true c s = exec-slow_steps c s
    exec-slow_steps_if false c s = refl

    exec-rest_steps :
        (p : Settings) (c : Client) (s : Store P.F)
        → exec (rest_steps P J p net t c) s ≡ poll_rest P J p net t s c
    unfolding exec rest_steps poll_rest due
    exec-rest_steps p c s =
        let next = λ (c' : Client). look c.name (λ (o : Option (Device P.F)).
          slow_steps_if P J (is_due P J o t.due p.cfg.system_interval) net t c') in
        let a = poll_state P J net t s c in
        exec-followed_by (state_steps P J net t c) next s
        ∙ ap (λ (x : Store P.F × Client). exec (next x.1) x.0) (exec-state_steps c s)
        ∙ exec-slow_steps_if (is_due P J (device a.0 c.name) t.due p.cfg.system_interval) a.1 a.0

    -- The store that is left, and the result.
    abbrev apart : Store P.F × Client × Option Error → Store P.F × (Client × Option Error)
    apart (s, c, e) = (s, (c, e))

    exec-publish_steps :
        (p : Settings) (c : Client) (r : Result (Measurement P.F)) (s : Store P.F)
        → exec (publish_steps P J p net t c r) s ≡ apart (publish P J p net t s c r)
    unfolding exec
    exec-publish_steps p c (err e) s = refl
    exec-publish_steps p c (ok m) s =
        let s' = update s c.name (λ d. record d { measurement = m; measured_at = t.measured }) in
        exec-followed_by (rest_steps P J p net t c) (λ c'. done (c', none)) s'
        ∙ ap (λ (x : Store P.F × Client). (x.0, (x.1, none))) (exec-rest_steps p c s')

    exec-poll_steps :
        (p : Settings) (c : Client) (s : Store P.F)
        → exec (poll_steps P J p net t c) s ≡ apart (poll P J p net t s c)
    unfolding poll_steps poll
    exec-poll_steps p c s = exec-publish_steps p c (Client.measurement P J net c) s

  module _ (connect : Net → Config.Device → Result Client) (p : Settings) (r : Round) where
    -- A pass as the store that it leaves and its outcome.
    abbrev pub parted : Polled P.F → Store P.F × Outcome P J
    parted a = (a.store, (a.client, a.error))

    exec-polled_steps :
        (c : Client) (s : Store P.F)
        → exec (polled_steps P J p r c) s ≡ parted (poll_with P J connect p r s c)
    unfolding exec poll_with
    exec-polled_steps c s =
        exec-followed_by (poll_steps P J p r.net r.clock c) (λ (c', e). done (some c', e)) s
        ∙ ap (λ (x : Store P.F × (Client × Option Error)). (x.0, (some x.1.0, x.1.1)))
            (exec-poll_steps r.net r.clock p c s)

    exec-connected_steps :
        (o : Result Client) (s : Store P.F)
        → exec (connected_steps P J p r o) s ≡ parted (after_connect P J connect p r s o)
    unfolding exec publish_identity
    exec-connected_steps (err e) s = refl
    exec-connected_steps (ok c) s = exec-polled_steps c _

    -- The accesses of an attempt, all at once, are the attempt.
    pub exec-attempt_steps :
        (d : Config.Device) (o : Option Client) (s : Store P.F)
        → exec (attempt_steps P J connect p d r o) s ≡ parted (attempt P J connect p d r s o)
    unfolding attempt_steps attempt
    exec-attempt_steps d none s = exec-connected_steps (connect r.net d) s
    exec-attempt_steps d (some c) s = exec-polled_steps c s
