-- ===== src/Poller/Fleet.antt =====
-- poller.go: `Run`, the loops of all devices over one store. The loops run at the same time; what
-- each has done by a moment is a list of turns, one round each, in the order in which they end.
pub mod Alike
pub mod Turns
pub mod Laws
use homewizard_exporter.Prelude.{
  String, Bool, true, false, Option, none, List, [], ◌∷◌, str_eq, if◌then◌else◌,
}
use homewizard_exporter.Time.{Duration}
use homewizard_exporter.Config
use homewizard_exporter.Homewizard.Errors.{Result}
use homewizard_exporter.Homewizard.Timestamps.{Platform}
use homewizard_exporter.Homewizard.Client.{Client, Net, Codec}
use homewizard_exporter.Snapshot.Store.{Store}
use homewizard_exporter.Poller.{Settings}
use homewizard_exporter.Poller.Rounds.{Stats, no_stats, Round, Loop, round, last_round, announce}

-- The local variables of the goroutine of one device, the metrics of that device, and whether the
-- goroutine has returned.
pub record Member : Type 0 where
  pub client : Option Client
  pub backoff : Duration
  pub stats : Stats
  pub stopped : Bool

-- The store that the goroutines share, and the goroutine of every name.
pub record Fleet (F : Type 0) : Type 0 where
  pub store : Store F
  pub members : String → Member

abbrev pub Turn : Type 0
Turn = Config.Device × Round

-- The rounds of one name.
unfoldable pub rounds_of : String → List Turn → List Round
rounds_of n [] = []
rounds_of n ((d, r) ∷ es) = let rest = rounds_of n es in if str_eq d.name n then r ∷ rest else rest

module _ {F : Type 0} where
  -- The loop of one name as it stands in the fleet.
  abbrev pub loop_of : Fleet F → String → Loop F
  loop_of f n =
      let m = f.members n in
      record { client = m.client; backoff = m.backoff; store = f.store; stats = m.stats }

  abbrev pub member : Bool → Loop F → Member
  member stopped l = record {
    client = l.client;
    backoff = l.backoff;
    stats = l.stats;
    stopped = stopped;
  }

  -- What a loop has done becomes the state of its goroutine and of the store.
  unfoldable pub put : String → Bool → Loop F → Fleet F → Fleet F
  put n stopped l f = record {
    store = l.store;
    members = λ k. if str_eq k n then member stopped l else f.members k;
  }

  -- `Run` as it starts its goroutines.
  unfoldable pub launch : Settings → Store F → Fleet F
  launch p s = record {
    store = announce p.devices s;
    members =
        λ n. record { client = none; backoff = p.backoff_min; stats = no_stats; stopped = false };
  }

module _ (P : Platform) (J : Codec P.F) (connect : Net → Config.Device → Result Client) where
  -- One pass of the loop's body, whether or not the context is cancelled in it.
  unfoldable pub pass : Settings → Config.Device → Round → Loop P.F → Loop P.F
  pass p d r l =
      if r.cancelled then last_round P J connect p d r l else (round P J connect p d r l).0

  abbrev pub pass_unless : Bool → Settings → Config.Device → Round → Fleet P.F → Fleet P.F
  pass_unless true p d r f = f
  pass_unless false p d r f = put d.name r.cancelled (pass p d r (loop_of f d.name)) f

  -- One turn: the pass of a goroutine that has not returned, which returns where the context is
  -- cancelled.
  unfoldable pub turn : Settings → Turn → Fleet P.F → Fleet P.F
  turn p (d, r) f = pass_unless (f.members d.name).stopped p d r f

  unfoldable pub turns : Settings → List Turn → Fleet P.F → Fleet P.F
  turns p [] f = f
  turns p (e ∷ es) f = turns p es (turn p e f)

  -- `Run`
  unfoldable pub run : Settings → List Turn → Store P.F → Fleet P.F
  run p es s = turns p es (launch p s)
