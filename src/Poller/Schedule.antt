-- ===== src/Poller/Schedule.antt =====
-- poller.go: the goroutines of `Run` one access to the shared store at a time. While one goroutine is
-- between two accesses of its pass, the others may begin, continue and end theirs.
pub mod Passes
pub mod Follows
pub mod Laws
use homewizard_exporter.Prelude.{
  ◌+◌, String, Bool, true, false, Option, none, some, List, [], ◌∷◌, ◌++◌, str_eq, if◌then◌else◌,
}
use homewizard_exporter.Config
use homewizard_exporter.Homewizard.Errors.{Result, Error}
use homewizard_exporter.Homewizard.Timestamps.{Platform}
use homewizard_exporter.Homewizard.Client.{Client, Net, Codec}
use homewizard_exporter.Snapshot.Store.{Store, device, update}
use homewizard_exporter.Poller.{Settings}
use homewizard_exporter.Poller.Rounds.{Round, Loop, Polled, observe, conclude}
use homewizard_exporter.Poller.Fleet.{Fleet, Member, Turn, loop_of, put, launch}
use homewizard_exporter.Poller.Steps.{Steps, done, look, write, attempt_steps}

-- A goroutine begins a pass of its loop, or the goroutine of a name makes its next access, or ends
-- its pass if there is none left.
pub data Action : Type 0 where
  begin : Config.Device → Round → Action
  advance : String → Action

-- A pass that has begun, and what is left of it.
pub record Task (F : Type 0) : Type 0 where
  pub subject : Config.Device
  pub conditions : Round
  pub rest : Steps F (Option Client × Option Error)

-- The goroutines over their store, and the pass that each of them is in.
pub record Machine (F : Type 0) : Type 0 where
  pub fleet : Fleet F
  pub tasks : String → Option (Task F)

module _ {F : Type 0} where
  unfoldable pub assign : String → Option (Task F) → Machine F → Machine F
  assign n t m = record m { tasks = λ k. if str_eq k n then t else m.tasks k }

  abbrev pub with_store : Store F → Fleet F → Fleet F
  with_store s f = record f { store = s }

  abbrev pub left : Store F → Option Client × Option Error → Polled F
  left s (c, e) = record { store = s; client = c; error = e }

module _ (P : Platform) (J : Codec P.F) (connect : Net → Config.Device → Result Client) where
  -- The second half of a pass, given the outcome of the first.
  unfoldable pub settle_pass : Settings → Config.Device → Round → Loop P.F → Polled P.F → Loop P.F
  settle_pass p d r l a =
      if r.cancelled
      then record l {
        client = a.client;
        store = a.store;
        stats = observe l.stats r.elapsed r.now a.error;
      }
      else (conclude P J connect p d r l a a.error).0

  -- The next access of a pass, or its end.
  unfoldable pub proceed :
      Settings
      → Config.Device
      → Round
      → Steps P.F (Option Client × Option Error)
      → Machine P.F
      → Machine P.F
  proceed p d r (done o) m =
      let l = loop_of m.fleet d.name in
      assign d.name none (record m {
        fleet = put d.name r.cancelled (settle_pass p d r l (left m.fleet.store o)) m.fleet;
      })
  proceed p d r (look n k) m =
      assign d.name
        (some (record { subject = d; conditions = r; rest = k (device m.fleet.store n) })) m
  proceed p d r (write n f k) m =
      assign d.name (some (record { subject = d; conditions = r; rest = k }))
        (record m { fleet = with_store (update m.fleet.store n f) m.fleet })

  abbrev pub proceed_with : Settings → Option (Task P.F) → Machine P.F → Machine P.F
  proceed_with p none m = m
  proceed_with p (some t) m = proceed p t.subject t.conditions t.rest m

  abbrev pub begin_unless :
      Settings → Bool → Option (Task P.F) → Config.Device → Round → Machine P.F → Machine P.F
  begin_unless p true t d r m = m
  begin_unless p false (some t) d r m = m
  begin_unless p false none d r m =
      let q = attempt_steps P J connect p d r (m.fleet.members d.name).client in
      assign d.name (some (record { subject = d; conditions = r; rest = q })) m

  -- What one action does: a goroutine begins a pass only if it has not returned and is in none.
  unfoldable pub act : Settings → Action → Machine P.F → Machine P.F
  act p (begin d r) m = begin_unless p (m.fleet.members d.name).stopped (m.tasks d.name) d r m
  act p (advance n) m = proceed_with p (m.tasks n) m

  unfoldable pub acts : Settings → List Action → Machine P.F → Machine P.F
  acts p [] m = m
  acts p (a ∷ es) m = acts p es (act p a m)

  abbrev pub ended : Config.Device → Round → Steps P.F (Option Client × Option Error) → List Turn
  ended d r (done o) = (d, r) ∷ []
  ended d r (look n k) = []
  ended d r (write n f k) = []

  abbrev pub ended_by : Option (Task P.F) → List Turn
  ended_by none = []
  ended_by (some t) = ended t.subject t.conditions t.rest

  -- The pass that an action ends, if it ends one.
  unfoldable pub ends : Action → Machine P.F → List Turn
  ends (begin d r) m = []
  ends (advance n) m = ended_by (m.tasks n)

  -- The passes that actions end, in the order of their ends.
  unfoldable pub passes : Settings → List Action → Machine P.F → List Turn
  passes p [] m = []
  passes p (a ∷ es) m = ends a m ++ passes p es (act p a m)

-- `Run`, as it has started its goroutines.
unfoldable pub idle : {F : Type 0} → Settings → Store F → Machine F
idle p s = record { fleet = launch p s; tasks = λ n. none }
