-- ===== src/Poller/Schedule/Laws.antt =====
-- poller.go: the goroutines of `Run` whose accesses to the store are interleaved, and each of them alone.
use homewizard_exporter.Prelude.{
  String, ◌≡◌, refl, sym, ap, ◌∙◌, Bool, true, false, Option, none, some, List, [], ◌∷◌, ◌++◌, All,
  All-append,
}
use mathlib.Core.Path.{subst}
use homewizard_exporter.Config
use homewizard_exporter.Homewizard.Errors.{Result, Error}
use homewizard_exporter.Homewizard.Timestamps.{Platform}
use homewizard_exporter.Homewizard.Client.{Client, Net, Codec}
use homewizard_exporter.Snapshot.Store.{Store, device}
use homewizard_exporter.Poller.{Settings}
use homewizard_exporter.Poller.Rounds.{Round, Loop, loop, start, announce}
use homewizard_exporter.Poller.Frame.{KeepsName}
use homewizard_exporter.Poller.Steps.{Steps, done, look, write}
use homewizard_exporter.Poller.Fleet.{
  Member, Fleet, Turn, loop_of, turn, turns, rounds_of, run, launch,
}
use homewizard_exporter.Poller.Fleet.Alike.{Alike}
use homewizard_exporter.Poller.Fleet.Laws.{run_alone}
use homewizard_exporter.Poller.Schedule.{
  Action, begin, advance, Task, Machine, assign, proceed_with, begin_unless, act, acts, ended,
  ended_by, ends, passes, idle,
}
use homewizard_exporter.Poller.Schedule.Passes.{InPass, Tracks, begin-InPass}
use homewizard_exporter.Poller.Schedule.Follows.{Holds, Follows, assign-Holds, proceed-Follows}

turns-append :
    (P : Platform) (J : Codec P.F) (connect : Net → Config.Device → Result Client) (p : Settings)
    (es es' : List Turn) (f : Fleet P.F)
    → turns P J connect p (es ++ es') f ≡ turns P J connect p es' (turns P J connect p es f)
unfolding turns
turns-append P J connect p [] es' f = refl
turns-append P J connect p (e ∷ es) es' f =
    turns-append P J connect p es es' (turn P J connect p e f)

module _ (P : Platform) (J : Codec P.F) (connect : Net → Config.Device → Result Client)
    (p : Settings) (Ok : Config.Device → Type 0)
    (keeps : (d : Config.Device) → Ok d → KeepsName P J connect p d) where
  -- Only such devices are begun.
  abbrev pub IsAllowed : Action → Type 0
  IsAllowed (begin d r) = Ok d
  IsAllowed (advance n) = Unit

  begin-Follows :
      (stopped : Bool) (t : Option (Task P.F)) (d : Config.Device) (r : Round) (m : Machine P.F)
      (f : Fleet P.F)
      → Ok d
      → stopped ≡ (m.fleet.members d.name).stopped
      → t ≡ m.tasks d.name
      → Follows P J connect p Ok keeps m f
      → Follows P J connect p Ok keeps (begin_unless P J connect p stopped t d r m) f
  unfolding assign
  begin-Follows true t d r m f k going free all = all
  begin-Follows false (some t) d r m f k going free all = all
  begin-Follows false none d r m f k going free (own, all) =
      let x = m.fleet.members d.name in
      let e = (all d.name).0 in
      let h =
        subst (λ t. Tracks P J connect p Ok keeps d.name t m.fleet.store f) (sym free)
          (all d.name).1 in
      (
        own,
        assign-Holds P J connect p Ok keeps d.name _ m f
            (
              e,
              begin-InPass P J connect p Ok keeps d r x m.fleet.store f k e (own d.name)
                  (sym (going ∙ ap (λ (y : Member). y.stopped) e)) h,
            )
            (λ k h. all k),
      )

  advance-Follows :
      (n : String) (t : Option (Task P.F)) (m : Machine P.F) (f : Fleet P.F)
      → Follows P J connect p Ok keeps m f
      → Tracks P J connect p Ok keeps n t m.fleet.store f
      → Follows P J connect p Ok keeps
          (proceed_with P J connect p t m)
          (turns P J connect p (ended_by P J connect t) f)
        × All (λ (e : Turn). Ok e.0) (ended_by P J connect t)
  unfolding turns
  advance-Follows n none m f all h = (all, tt)
  advance-Follows n (some t) m f all (e, k, own, going, rest) = (
    proceed-Follows P J connect p Ok keeps t.subject t.conditions t.rest m f all (
        subst (λ x. InPass P J connect p Ok keeps x t.subject t.conditions t.rest m.fleet.store f)
          (sym e) (e, k, own, going, rest)),
    ended-All t.rest,
  )
    where
      ended-All :
          (q : Steps P.F (Option Client × Option Error))
          → All (λ (e : Turn). Ok e.0) (ended P J connect t.subject t.conditions q)
      ended-All (done o) = (k, tt)
      ended-All (look m g) = tt
      ended-All (write m g q) = tt

  act-Follows :
      (a : Action) (m : Machine P.F) (f : Fleet P.F)
      → IsAllowed a
      → Follows P J connect p Ok keeps m f
      → Follows P J connect p Ok keeps
          (act P J connect p a m)
          (turns P J connect p (ends P J connect a m) f)
        × All (λ (e : Turn). Ok e.0) (ends P J connect a m)
  unfolding act ends turns
  act-Follows (begin d r) m f k all = (begin-Follows _ _ d r m f k refl refl all, tt)
  act-Follows (advance n) m f k all = advance-Follows n (m.tasks n) m f all (all.1 n).1

  acts-Follows :
      (es : List Action) (m : Machine P.F) (f : Fleet P.F)
      → All IsAllowed es
      → Follows P J connect p Ok keeps m f
      → Follows P J connect p Ok keeps
          (acts P J connect p es m)
          (turns P J connect p (passes P J connect p es m) f)
        × All (λ (e : Turn). Ok e.0) (passes P J connect p es m)
  unfolding acts passes turns
  acts-Follows [] m f h all = (all, tt)
  acts-Follows (a ∷ es) m f (k, h) all =
      let m' = act P J connect p a m in
      let now = ends P J connect a m in
      let (all', here) = act-Follows a m f k all in
      let (after, there) = acts-Follows es m' (turns P J connect p now f) h all' in
      (
        subst (Follows P J connect p Ok keeps (acts P J connect p es m'))
            (sym (turns-append P J connect p now (passes P J connect p es m') f)) after,
        All-append (λ (e : Turn). Ok e.0) now (passes P J connect p es m') here there,
      )

module _ (P : Platform) (J : Codec P.F) (connect : Net → Config.Device → Result Client)
    (p : Settings) (d : Config.Device) where
  -- A connection carries the name of the device, and no other device has this one's name.
  abbrev pub IsMember : Config.Device → Type 0
  IsMember e = KeepsName P J connect p e × (e.name ≡ d.name → e ≡ d)

  abbrev pub AllMembers : List Action → Type 0
  AllMembers = All (IsAllowed P J connect p IsMember (λ e k. k.0))

  Alike-Holds :
      (m f : Fleet P.F) (l : Loop P.F)
      → m.members d.name ≡ f.members d.name
      → device m.store d.name ≡ device f.store d.name
      → Alike P J connect p d (loop_of f d.name) l
      → Alike P J connect p d (loop_of m d.name) l
  Alike-Holds m f l e v (c, b, s, h) = (
    ap (λ (x : Member). x.client) e ∙ c,
    ap (λ (x : Member). x.backoff) e ∙ b,
    ap (λ (x : Member). x.stats) e ∙ s,
    v ∙ h,
  )

  -- Whatever the order in which the goroutines of `Run` begin their passes and make the single accesses
  -- of these to the store, a device whose goroutine is in no pass at the end has the view, client, wait
  -- and metrics of its loop alone over the rounds that it has ended, begun with the store in which all
  -- devices are announced, if connections carry the names of their devices and no other device has its
  -- name.
  pub interleaved_alone :
      (es : List Action) (s : Store P.F)
      → AllMembers es
      → (acts P J connect p es (idle p s)).tasks d.name ≡ none
      → Alike P J connect p d (loop_of (acts P J connect p es (idle p s)).fleet d.name) (
          loop P J connect p d
            (rounds_of d.name (passes P J connect p es (idle p s)))
            (start p (announce p.devices s)))
  unfolding idle run launch
  interleaved_alone es s h free =
      let begun = idle p s in
      let m = acts P J connect p es begun in
      let ts = passes P J connect p es begun in
      let f = run P J connect p ts s in
      let ((own, all), only) =
        acts-Follows P J connect p IsMember (λ e k. k.0) es begun (launch p s) h
          ((λ n. tt), λ n. (refl, refl)) in
      let (e, v) =
        subst (λ t. Holds P J connect p IsMember (λ e k. k.0) d.name t m.fleet f) free
          (all d.name) in
      Alike-Holds m.fleet f _ e v (run_alone P J connect p d ts s only)
