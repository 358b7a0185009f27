-- ===== src/Poller.antt =====
-- internal/poller/poller.go: one loop per device keeps the snapshot current. A round of the loop is a
-- function of what the environment does in it; the rounds of different devices interleave.
pub mod Rounds
pub mod Health
pub mod Backoff
pub mod Laws
pub mod Frame
pub mod Local
pub mod Fleet
pub mod Recovery
pub mod Schedule
pub mod Steps
use homewizard_exporter.Prelude.{
  ℕ, zero, suc, ◌+◌, ◌*◌, ◌/◌, ◌%◌, String, Bool, true, ◌||◌, Option, none, some, List,
  if◌then◌else◌,
}
use homewizard_exporter.Homewizard.Models.{Measurement}
use homewizard_exporter.Prelude.Int.{ℤ, pos, negsuc, ltb_ℤ, leb_ℤ, max_int64}
use homewizard_exporter.Time.{Time, Duration, is_zero, sub, second, double}
use homewizard_exporter.Config
use homewizard_exporter.Config.{Poll}
use homewizard_exporter.Homewizard.Errors.{Result, ok, err, Error, errors_is, not_found, wrap}
use homewizard_exporter.Homewizard.Timestamps.{Platform}
use homewizard_exporter.Homewizard.Client
use homewizard_exporter.Homewizard.Client.{Client, Net, Codec, disable}
use homewizard_exporter.Snapshot.{Device}
use homewizard_exporter.Snapshot.Store.{Store, device, update}

abbrev pub default_backoff_min : Duration
default_backoff_min = pos (5 * second)

abbrev pub default_backoff_max : Duration
default_backoff_max = pos (120 * second)

-- The fields of `Poller` that its loops read.
pub record Settings : Type 0 where
  pub devices : List Config.Device
  pub cfg : Poll
  pub stale_after : Duration
  pub backoff_min : Duration
  pub backoff_max : Duration

abbrev max_ℤ : ℤ → ℤ → ℤ
max_ℤ a b = if ltb_ℤ a b then b else a

-- `New`: the two bounds are made positive and put in order.
unfoldable pub new : List Config.Device → Poll → Duration → Duration → Settings
new devices cfg backoff_min backoff_max =
    let low = if leb_ℤ backoff_min (pos 0) then default_backoff_min else backoff_min in
    record {
      devices = devices;
      cfg = cfg;
      stale_after = cfg.stale_after;
      backoff_min = low;
      backoff_max = if ltb_ℤ backoff_max low then max_ℤ default_backoff_max low else backoff_max;
    }

-- `interval`
unfoldable pub interval : Settings → Config.Device → Duration
interval p d = if ltb_ℤ (pos 0) d.interval then d.interval else p.cfg.interval

-- `jitter`, over the random number in 0 … d/50
unfoldable pub jitter : Duration → ℕ → Duration
jitter (pos zero) r = pos 0
jitter (pos (suc n)) r = pos (r % (suc n / 50 + 1))
jitter (negsuc n) r = pos 0

-- The times of one poll, as `time.Now` and `time.Since` read them.
pub record Clock : Type 0 where
  pub measured : Time
  pub state : Time
  pub due : Time
  pub system : Time
  pub batteries : Time

module _ (P : Platform) (J : Codec P.F) where
  -- `publishIdentity`
  unfoldable pub publish_identity : Store P.F → Client → Store P.F
  publish_identity s c =
      update s c.name
        λ d. record d { host = c.host; info = c.info; caps = c.caps; api_version = c.version }

  -- `noteSecondary`
  unfoldable pub note_secondary : String → Error → Store P.F → Client → Store P.F × Client
  note_secondary endpoint e s c =
      let c' = disable endpoint c in
      if errors_is e not_found
      then (update s c.name (λ d. record d { caps = c'.caps }), c')
      else (s, c)

  -- What is done with the answer of a secondary endpoint.
  abbrev settle {ℓ} :
      {A : Type ℓ}
      → String
      → (A → Device P.F → Device P.F)
      → Result A
      → Store P.F
      → Client
      → Store P.F × Client
  settle endpoint write (ok a) s c = (update s c.name (write a), c)
  settle endpoint write (err e) s c = note_secondary endpoint e s c

  unfoldable pub poll_state : Net → Clock → Store P.F → Client → Store P.F × Client
  poll_state net t s c =
      if c.caps.state
      then settle "state" (λ state d. record d { state = state; state_at = t.state })
          (Client.state P J net c) s c
      else (s, c)

  unfoldable pub poll_system : Net → Clock → Store P.F → Client → Store P.F × Client
  poll_system net t s c =
      if c.caps.system
      then settle "system" (λ system d. record d { system = system; system_at = t.system })
          (Client.system P J net c) s c
      else (s, c)

  -- `wanted` is the capability as it was when `pollSlow` began.
  unfoldable pub poll_batteries : Bool → Net → Clock → Store P.F → Client → Store P.F × Client
  poll_batteries wanted net t s c =
      if wanted
      then settle "batteries" (λ b d. record d { batteries = b; batteries_at = t.batteries })
          (Client.batteries P J net c) s c
      else (s, c)

  -- `pollSlow`
  unfoldable pub poll_slow : Net → Clock → Store P.F → Client → Store P.F × Client
  poll_slow net t s c =
      let (s', c') = poll_system net t s c in poll_batteries c.caps.batteries net t s' c'

  abbrev pub is_due : Option (Device P.F) → Time → Duration → Bool
  is_due none now every = true
  is_due (some d) now every = is_zero d.system_at || leb_ℤ every (sub now d.system_at)

  -- `due`
  unfoldable pub due : Store P.F → String → Time → Duration → Bool
  due s name now every = is_due (device s name) now every

  abbrev pub slow_if : Bool → Net → Clock → Store P.F → Client → Store P.F × Client
  slow_if ready net t s c = if ready then poll_slow net t s c else (s, c)

  -- The part of `poll` behind the measurement.
  unfoldable pub poll_rest : Settings → Net → Clock → Store P.F → Client → Store P.F × Client
  poll_rest p net t s c =
      let (s', c') = poll_state net t s c in
      slow_if (due s' c.name t.due p.cfg.system_interval) net t s' c'

  abbrev pub publish :
      Settings
      → Net
      → Clock
      → Store P.F
      → Client
      → Result (Measurement P.F)
      → Store P.F × Client × Option Error
  publish p net t s c (err e) = (s, c, some (wrap "measurement" e))
  publish p net t s c (ok m) =
      let s' = update s c.name (λ d. record d { measurement = m; measured_at = t.measured }) in
      let (s'', c') = poll_rest p net t s' c in (s'', c', none)

  -- `poll`: the store, the client with its capabilities, and the error
  unfoldable pub poll :
      Settings → Net → Clock → Store P.F → Client → Store P.F × Client × Option Error
  poll p net t s c = publish p net t s c (Client.measurement P J net c)
