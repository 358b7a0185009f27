-- ===== src/Poller/Rounds.antt =====
-- poller.go: the loop of one device, a round at a time, and its operational metrics.
use homewizard_exporter.Prelude.{
  ℕ, ◌+◌, Bool, ◌||◌, Option, none, some, List, [], ◌∷◌, if◌then◌else◌,
}
use homewizard_exporter.Prelude.Int.{pos, ltb_ℤ}
use homewizard_exporter.Time.{Time, Duration, double}
use homewizard_exporter.Config
use homewizard_exporter.Homewizard.Errors.{
  Result, ok, err, Error, errors_is, unauthorized, api_disabled,
}
use homewizard_exporter.Homewizard.Timestamps.{Platform}
use homewizard_exporter.Homewizard.Client.{Client, Net, Codec}
use homewizard_exporter.Snapshot.Store.{Store, update}
use homewizard_exporter.Poller.{Settings, Clock, interval, jitter, publish_identity, poll}

-- The four metrics of one device.
pub record Stats : Type 0 where
  pub duration : Duration
  pub total : ℕ
  pub errors : ℕ
  pub last_success : Option Time

abbrev pub no_stats : Stats
no_stats = record { duration = pos 0; total = 0; errors = 0; last_success = none }

-- `observe`
unfoldable pub observe : Stats → Duration → Time → Option Error → Stats
observe m elapsed now none = record m {
  duration = elapsed;
  total = m.total + 1;
  last_success = some now;
}
observe m elapsed now (some e) = record m {
  duration = elapsed;
  total = m.total + 1;
  errors = m.errors + 1;
}

-- What the environment does in one round: the network, the clock, the random number, and whether
-- the context has been cancelled when the round's work is done.
pub record Round : Type 0 where
  pub net : Net
  pub clock : Clock
  pub elapsed : Duration
  pub now : Time
  pub random : ℕ
  pub cancelled : Bool

-- The variables of the loop, with the store it writes to and its metrics.
pub record Loop (F : Type 0) : Type 0 where
  pub client : Option Client
  pub backoff : Duration
  pub store : Store F
  pub stats : Stats

-- `if backoff *= 2; backoff > p.backoffMax { backoff = p.backoffMax }`
unfoldable pub grow : Settings → Duration → Duration
grow p backoff =
    let twice = double backoff in if ltb_ℤ p.backoff_max twice then p.backoff_max else twice

-- `errors.Is(err, ErrUnauthorized) || errors.Is(err, ErrAPIDisabled)`
abbrev pub is_fatal : Error → Bool
is_fatal e = errors_is e unauthorized || errors_is e api_disabled

-- The error of a round, and what the round did to the store and the client.
pub record Polled (F : Type 0) : Type 0 where
  pub store : Store F
  pub client : Option Client
  pub error : Option Error

-- `Duration` addition of a wait and its jitter, which is far below 2^63.
abbrev plus : Duration → Duration → Duration
plus (pos a) (pos b) = pos (a + b)
plus a b = a

module _ (P : Platform) (J : Codec P.F) (connect : Net → Config.Device → Result Client) where
  unfoldable pub poll_with : Settings → Round → Store P.F → Client → Polled P.F
  poll_with p r s c =
      let (s', c', e) = poll P J p r.net r.clock s c in
      record { store = s'; client = some c'; error = e }

  abbrev pub after_connect : Settings → Round → Store P.F → Result Client → Polled P.F
  after_connect p r s (err e) = record { store = s; client = none; error = some e }
  after_connect p r s (ok c) = poll_with p r (publish_identity P J s c) c

  -- The first half of a round: connect if there is no client, then poll.
  unfoldable pub attempt : Settings → Config.Device → Round → Store P.F → Option Client → Polled P.F
  attempt p d r s none = after_connect p r s (connect r.net d)
  attempt p d r s (some c) = poll_with p r s c

  abbrev pub kept : Error → Option Client → Option Client
  kept e c = if is_fatal e then none else c

  abbrev pub conclude :
      Settings → Config.Device → Round → Loop P.F → Polled P.F → Option Error → Loop P.F × Duration
  conclude p d r l a (some e) = (
    record {
      client = kept e a.client;
      backoff = grow p l.backoff;
      store = a.store;
      stats = observe l.stats r.elapsed r.now (some e);
    },
    plus l.backoff (jitter l.backoff r.random),
  )
  conclude p d r l a none = (
    record {
      client = a.client;
      backoff = p.backoff_min;
      store = a.store;
      stats = observe l.stats r.elapsed r.now none;
    },
    plus (interval p d) (jitter (interval p d) r.random),
  )

  -- A round that runs to its end, with the wait before the next one.
  unfoldable pub round : Settings → Config.Device → Round → Loop P.F → Loop P.F × Duration
  round p d r l = let a = attempt p d r l.store l.client in conclude p d r l a a.error

  -- A round in which the context was cancelled: what it published stands, and the loop returns.
  unfoldable pub last_round : Settings → Config.Device → Round → Loop P.F → Loop P.F
  last_round p d r l =
      let a = attempt p d r l.store l.client in
      record l {
        client = a.client;
        store = a.store;
        stats = observe l.stats r.elapsed r.now a.error;
      }

  -- `loop`, over the rounds of a run
  unfoldable pub loop : Settings → Config.Device → List Round → Loop P.F → Loop P.F
  loop p d [] l = l
  loop p d (r ∷ rs) l =
      let rest = loop p d rs (round p d r l).0 in if r.cancelled then last_round p d r l else rest

-- The state in which `loop` begins.
abbrev pub start : {F : Type 0} → Settings → Store F → Loop F
start p s = record { client = none; backoff = p.backoff_min; store = s; stats = no_stats }

-- The first half of `Run`: every device of the configuration gets its host.
unfoldable pub announce : {F : Type 0} → List Config.Device → Store F → Store F
announce [] s = s
announce (d ∷ ds) s = announce ds (update s d.name (λ e. record e { host = d.host }))
