-- ===== src/Poller/Schedule/Follows.antt =====
-- poller.go: the goroutines of `Run` whose accesses to the store are interleaved, next to those that make
-- each pass at once, where the first are between two accesses.
use homewizard_exporter.Prelude.{
  String, ◌≡◌, refl, sym, ap, ◌∙◌, ◌≢◌, inl, inr, Bool, false, Option, none, str_eq, eq_iff,
  Bool-cases,
}
use mathlib.Core.Path.{subst}
use homewizard_exporter.Config
use homewizard_exporter.Homewizard.Errors.{Result, Error}
use homewizard_exporter.Homewizard.Timestamps.{Platform}
use homewizard_exporter.Homewizard.Client.{Client, Net, Codec}
use homewizard_exporter.Snapshot.Store.{device, update}
use homewizard_exporter.Poller.{Settings}
use homewizard_exporter.Poller.Rounds.{Round, Loop}
use homewizard_exporter.Poller.Laws.{device-update_other}
use homewizard_exporter.Poller.Frame.{KeepsName}
use homewizard_exporter.Poller.Steps.{Steps, done, look, write, exec}
use homewizard_exporter.Poller.Fleet.{Fleet, loop_of, member, put, pass, turn, turns}
use homewizard_exporter.Poller.Fleet.Alike.{Alike}
use homewizard_exporter.Poller.Fleet.Turns.{
  differ, IsOwned, put_own, put_other, turn-IsApart, turn-IsOwned,
}
use homewizard_exporter.Poller.Schedule.{
  Task, Machine, assign, with_store, left, settle_pass, proceed, ended,
}
use homewizard_exporter.Poller.Schedule.Passes.{
  IsRest, InPass, Tracks, Tracks-write, Tracks-turn, end-Alike, settle_pass-left,
}

module _ (P : Platform) (J : Codec P.F) (connect : Net → Config.Device → Result Client)
    (p : Settings) (Ok : Config.Device → Type 0)
    (keeps : (d : Config.Device) → Ok d → KeepsName P J connect p d) where
  -- A goroutine of the machine, next to the same goroutine of a fleet.
  abbrev pub Holds : String → Option (Task P.F) → Fleet P.F → Fleet P.F → Type 0
  Holds n t m f = (m.members n ≡ f.members n) × Tracks P J connect p Ok keeps n t m.store f

  -- A machine and the fleet that has made the passes that have ended.
  abbrev pub Follows : Machine P.F → Fleet P.F → Type 0
  Follows m f = IsOwned P J connect p f × ((n : String) → Holds n (m.tasks n) m.fleet f)

  pub assign-Holds :
      (n : String) (t : Option (Task P.F)) (m : Machine P.F) (f : Fleet P.F)
      → Holds n t m.fleet f
      → ((k : String) → k ≢ n → Holds k (m.tasks k) m.fleet f)
      → (k : String) → Holds k ((assign n t m).tasks k) m.fleet f
  unfolding assign
  assign-Holds n t m f own others k = elim (Bool-cases (str_eq k n)) [
    | inl same ↦ rw same (subst (λ x. Holds x t m.fleet f) (sym ((eq_iff k n).0 same)) own)
    | inr other ↦ rw other (others k (differ P J connect p k n other))
  ]

  member-Alike :
      (d : Config.Device) (b : Bool) (l l' : Loop P.F)
      → Alike P J connect p d l l'
      → member b l ≡ member b l'
  member-Alike d b l l' (c, w, s, h) = cc

  turn-put :
      (d : Config.Device) (r : Round) (f : Fleet P.F)
      → (f.members d.name).stopped ≡ false
      → turn P J connect p (d, r) f
        ≡ put d.name r.cancelled (pass P J connect p d r (loop_of f d.name)) f
  unfolding turn
  turn-put d r f going = rw going refl

  -- The state in which a pass ends.
  abbrev ending : Config.Device → Round → Option Client × Option Error → Machine P.F → Loop P.F
  ending d r o m = settle_pass P J connect p d r (loop_of m.fleet d.name) (left m.fleet.store o)

  done-own :
      (d : Config.Device) (r : Round) (o : Option Client × Option Error) (m : Machine P.F)
      (f : Fleet P.F)
      → m.fleet.members d.name ≡ f.members d.name
      → (f.members d.name).stopped ≡ false
      → IsRest P J connect p Ok keeps d.name d r (done o) m.fleet.store f
      → Holds d.name none
          (put d.name r.cancelled (ending d r o m) m.fleet)
          (turn P J connect p (d, r) f)
  unfolding put
  done-own d r o m f e going rest =
      let alike =
        end-Alike P J connect p Ok keeps d r (m.fleet.members d.name) o m.fleet.store f e rest in
      let l = pass P J connect p d r (loop_of f d.name) in
      subst (Holds d.name none (put d.name r.cancelled (ending d r o m) m.fleet))
        (sym (turn-put d r f going))
        (
          put_own P J connect p d.name r.cancelled (ending d r o m) m.fleet
              ∙ member-Alike d r.cancelled (ending d r o m) l alike
              ∙ sym (put_own P J connect p d.name r.cancelled l f),
          alike.3,
        )

  -- A pass that ends, and the turn of it.
  done-Follows :
      (d : Config.Device) (r : Round) (o : Option Client × Option Error) (m : Machine P.F)
      (f : Fleet P.F)
      → Follows m f
      → InPass P J connect p Ok keeps d.name d r (done o) m.fleet.store f
      → Follows (proceed P J connect p d r (done o) m) (turn P J connect p (d, r) f)
  unfolding proceed assign put
  done-Follows d r o m f (own, all) (e, k, mine, going, rest) =
      let f' = turn P J connect p (d, r) f in
      let m' = record m { fleet = put d.name r.cancelled (ending d r o m) m.fleet } in
      let kept =
        settle_pass-left P J connect p Ok keeps d r (loop_of m.fleet d.name) m.fleet.store o in
      (
        turn-IsOwned P J connect p d r f (keeps d k) own,
        assign-Holds d.name none m' f' (done-own d r o m f (all d.name).0 going rest) (λ x h.
            let (mem, v) = turn-IsApart P J connect p d r f x (keeps d k) own h in
            (
              put_other P J connect p d.name x r.cancelled (ending d r o m) m.fleet h
                  ∙ (all x).0
                  ∙ sym mem,
              Tracks-write P J connect p Ok keeps x (m.tasks x) m.fleet.store (ending d r o m).store
                  f' (ap (λ s. device s x) kept)
                  (Tracks-turn P J connect p Ok keeps x (m.tasks x) m.fleet.store f f' (own x) mem v
                    (all x).1),
            )),
      )

  pub proceed-Follows :
      (d : Config.Device) (r : Round) (q : Steps P.F (Option Client × Option Error))
      (m : Machine P.F) (f : Fleet P.F)
      → Follows m f
      → InPass P J connect p Ok keeps d.name d r q m.fleet.store f
      → Follows (proceed P J connect p d r q m) (turns P J connect p (ended P J connect d r q) f)
  unfolding proceed turns exec assign
  proceed-Follows d r (done o) m f all own = done-Follows d r o m f all own
  proceed-Follows d r (look n k) m f (own, all) (e, ok', (mine, rest), going, same) = (
    own,
    assign-Holds d.name _ m f ((all d.name).0, (e, ok', rest (device m.fleet.store n), going, same))
        (λ k h. all k),
  )
  proceed-Follows d r (write n g k) m f (own, all) (e, ok', (mine, rest), going, same) = (
    own,
    assign-Holds d.name _ (record m { fleet = with_store (update m.fleet.store n g) m.fleet }) f
        ((all d.name).0, (e, ok', rest, going, same))
        (λ x h. (
          (all x).0,
          Tracks-write P J connect p Ok keeps x (m.tasks x) m.fleet.store (update m.fleet.store n g)
              f (device-update_other P m.fleet.store n x g (λ y. h (y ∙ mine))) (all x).1,
        )),
  )
