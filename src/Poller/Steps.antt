-- ===== src/Poller/Steps.antt =====
-- poller.go: the accesses that one pass of the loop makes to the shared store, one at a time. Each is
-- atomic in snapshot.go: a read of the published snapshot, or an update under the mutex.
pub mod Meaning
pub mod Own
use homewizard_exporter.Prelude.{String, Bool, Option, none, some, if◌then◌else◌}
use homewizard_exporter.Config
use homewizard_exporter.Homewizard.Errors.{Result, ok, err, Error, errors_is, not_found, wrap}
use homewizard_exporter.Homewizard.Timestamps.{Platform}
use homewizard_exporter.Homewizard.Models.{Measurement}
use homewizard_exporter.Homewizard.Client
use homewizard_exporter.Homewizard.Client.{Client, Net, Codec, disable}
use homewizard_exporter.Snapshot.{Device}
use homewizard_exporter.Snapshot.Store.{Store, device, update}
use homewizard_exporter.Poller.{Settings, Clock, is_due}
use homewizard_exporter.Poller.Rounds.{Round}

-- What is left of a pass: its result, or an access to the store and what follows it.
pub data Steps (F : Type 0) (R : Type 0) : Type 0 where
  done : R → Steps F R
  look : String → (Option (Device F) → Steps F R) → Steps F R
  write : String → (Device F → Device F) → Steps F R → Steps F R

module _ {F : Type 0} where
  -- The steps of one part, and then those that its result calls for.
  unfoldable pub followed_by : {A B : Type 0} → Steps F A → (A → Steps F B) → Steps F B
  followed_by (done a) next = next a
  followed_by (look n k) next = look n (λ o. followed_by (k o) next)
  followed_by (write n f k) next = write n f (followed_by k next)

  -- All steps at once.
  unfoldable pub exec : {R : Type 0} → Steps F R → Store F → Store F × R
  exec (done r) s = (s, r)
  exec (look n k) s = exec (k (device s n)) s
  exec (write n f k) s = exec k (update s n f)

module _ (P : Platform) (J : Codec P.F) where
  -- `noteSecondary`
  unfoldable pub note_steps : String → Error → Client → Steps P.F Client
  note_steps endpoint e c =
      let c' = disable endpoint c in
      if errors_is e not_found
      then write c.name (λ d. record d { caps = c'.caps }) (done c')
      else done c

  abbrev pub settle_steps {ℓ} :
      {A : Type ℓ} → String → (A → Device P.F → Device P.F) → Result A → Client → Steps P.F Client
  settle_steps endpoint change (ok a) c = write c.name (change a) (done c)
  settle_steps endpoint change (err e) c = note_steps endpoint e c

  unfoldable pub state_steps : Net → Clock → Client → Steps P.F Client
  state_steps net t c =
      if c.caps.state
      then settle_steps "state" (λ state d. record d { state = state; state_at = t.state })
          (Client.state P J net c) c
      else done c

  unfoldable pub system_steps : Net → Clock → Client → Steps P.F Client
  system_steps net t c =
      if c.caps.system
      then settle_steps "system" (λ system d. record d { system = system; system_at = t.system })
          (Client.system P J net c) c
      else done c

  unfoldable pub batteries_steps : Bool → Net → Clock → Client → Steps P.F Client
  batteries_steps wanted net t c =
      if wanted
      then settle_steps "batteries" (λ b d. record d { batteries = b; batteries_at = t.batteries })
          (Client.batteries P J net c) c
      else done c

  -- `pollSlow`
  unfoldable pub slow_steps : Net → Clock → Client → Steps P.F Client
  slow_steps net t c = followed_by (system_steps net t c) (batteries_steps c.caps.batteries net t)

  abbrev pub slow_steps_if : Bool → Net → Clock → Client → Steps P.F Client
  slow_steps_if ready net t c = if ready then slow_steps net t c else done c

  -- The part of `poll` behind the measurement.
  unfoldable pub rest_steps : Settings → Net → Clock → Client → Steps P.F Client
  rest_steps p net t c =
      followed_by (state_steps net t c)
        λ c'. look c.name λ o. slow_steps_if (is_due P J o t.due p.cfg.system_interval) net t c'

  abbrev pub publish_steps :
      Settings → Net → Clock → Client → Result (Measurement P.F) → Steps P.F (Client × Option Error)
  publish_steps p net t c (err e) = done (c, some (wrap "measurement" e))
  publish_steps p net t c (ok m) =
      write c.name (λ d. record d { measurement = m; measured_at = t.measured })
        (followed_by (rest_steps p net t c) λ c'. done (c', none))

  -- `poll`
  unfoldable pub poll_steps : Settings → Net → Clock → Client → Steps P.F (Client × Option Error)
  poll_steps p net t c = publish_steps p net t c (Client.measurement P J net c)

  -- The client that is left, and the error.
  abbrev pub Outcome : Type 0
  Outcome = Option Client × Option Error

  abbrev pub polled_steps : Settings → Round → Client → Steps P.F Outcome
  polled_steps p r c = followed_by (poll_steps p r.net r.clock c) λ (c', e). done (some c', e)

  abbrev pub connected_steps : Settings → Round → Result Client → Steps P.F Outcome
  connected_steps p r (err e) = done (none, some e)
  connected_steps p r (ok c) =
      write c.name
        (λ d. record d { host = c.host; info = c.info; caps = c.caps; api_version = c.version })
        (polled_steps p r c)

  -- The first half of a pass: connect if there is no client, then poll.
  unfoldable pub attempt_steps :
      (Net → Config.Device → Result Client)
      → Settings
      → Config.Device
      → Round
      → Option Client
      → Steps P.F Outcome
  attempt_steps connect p d r none = connected_steps p r (connect r.net d)
  attempt_steps connect p d r (some c) = polled_steps p r c
