-- ===== src/Poller/Fleet/Laws.antt =====
-- poller.go: the loops of all devices, and each of them alone.
use homewizard_exporter.Prelude.{
  String, ◌≡◌, refl, sym, ap, ◌∙◌, inl, inr, true, false, List, [], ◌∷◌, str_eq, eq_iff, Bool-cases,
  All,
}
use mathlib.Core.Path.{subst}
use homewizard_exporter.Config
use homewizard_exporter.Homewizard.Errors.{Result}
use homewizard_exporter.Homewizard.Timestamps.{Platform}
use homewizard_exporter.Homewizard.Client.{Client, Net, Codec}
use homewizard_exporter.Snapshot.Store.{Store}
use homewizard_exporter.Poller.{Settings}
use homewizard_exporter.Poller.Rounds.{Round, Loop, round, last_round, loop, start, announce}
use homewizard_exporter.Poller.Frame.{IsNamed, KeepsName}
use homewizard_exporter.Poller.Fleet.{
  Member, Fleet, Turn, loop_of, put, launch, rounds_of, turn, turns, run, pass,
}
use homewizard_exporter.Poller.Fleet.Alike.{Alike, pass-Alike, pass_last, pass-round}
use homewizard_exporter.Poller.Fleet.Turns.{
  differ, put_own, turn-IsApart, turn-IsOwned, IsOwned, IsApart,
}

module _ (P : Platform) (J : Codec P.F) (connect : Net → Config.Device → Result Client)
    (p : Settings) where
  -- Connections carry the names of their devices, and only the device itself takes turns under its name.
  abbrev pub IsRun : Config.Device → List Turn → Type 0
  IsRun d = All (λ e. KeepsName P J connect p e.0 × (e.0.name ≡ d.name → e.0 ≡ d))

  module _ (d : Config.Device) where
    own_turn :
        (r : Round) (f : Fleet P.F) (l : Loop P.F)
        → KeepsName P J connect p d
        → IsNamed d.name (f.members d.name).client
        → (f.members d.name).stopped ≡ false
        → Alike P J connect p d (loop_of f d.name) l
        → Alike P J connect p d
            (loop_of (turn P J connect p (d, r) f) d.name)
            (pass P J connect p d r l)
          × (((turn P J connect p (d, r) f).members d.name).stopped ≡ r.cancelled)
    unfolding turn put
    own_turn r f l k own going same =
        let l' = pass P J connect p d r (loop_of f d.name) in
        let (c, b, s, h) = pass-Alike P J connect p d r (loop_of f d.name) l k own same in
        let e = put_own P J connect p d.name r.cancelled l' f in
        rw going (
          (
            ap (λ (m : Member). m.client) e ∙ c,
            ap (λ (m : Member). m.backoff) e ∙ b,
            ap (λ (m : Member). m.stats) e ∙ s,
            h,
          ),
          ap (λ (m : Member). m.stopped) e,
        )

    -- A turn, whoever takes it, leaves a goroutine that has returned as it is.
    stopped_turn :
        (d' : Config.Device) (r : Round) (f : Fleet P.F)
        → KeepsName P J connect p d'
        → IsOwned P J connect p f
        → (f.members d.name).stopped ≡ true
        → IsApart P J connect p d.name f (turn P J connect p (d', r) f)
    unfolding turn
    stopped_turn d' r f k own stop = elim (Bool-cases (str_eq d'.name d.name)) [
      | inl same ↦
          let e =
            ap (λ (n : String). (f.members n).stopped) ((eq_iff d'.name d.name).0 same) ∙ stop in
          rw e (refl, refl)
      | inr other ↦
          turn-IsApart P J connect p d' r f d.name k own
            (λ e. differ P J connect p d'.name d.name other (sym e))
    ]

    -- A goroutine that has returned does nothing more, and its device's view stays.
    turns_stopped :
        (es : List Turn) (f : Fleet P.F)
        → IsRun d es
        → IsOwned P J connect p f
        → (f.members d.name).stopped ≡ true
        → IsApart P J connect p d.name f (turns P J connect p es f)
    unfolding turns
    turns_stopped [] f h own stop = (refl, refl)
    turns_stopped ((d', r) ∷ es) f ((k, only), h) own stop =
        let f' = turn P J connect p (d', r) f in
        let (m, v) = stopped_turn d' r f k own stop in
        let (m', v') =
          turns_stopped es f' h (turn-IsOwned P J connect p d' r f k own)
            (ap (λ (x : Member). x.stopped) m ∙ stop) in
        (m' ∙ m, v' ∙ v)

    -- Two fleets that show a goroutine alike show its loop alike.
    apart-Alike :
        (f f' : Fleet P.F) (l : Loop P.F)
        → IsApart P J connect p d.name f f'
        → Alike P J connect p d (loop_of f d.name) l
        → Alike P J connect p d (loop_of f' d.name) l
    apart-Alike f f' l (m, v) (c, b, s, h) = (
      ap (λ (x : Member). x.client) m ∙ c,
      ap (λ (x : Member). x.backoff) m ∙ b,
      ap (λ (x : Member). x.stats) m ∙ s,
      v ∙ h,
    )

    -- The state of the goroutine after the turns, next to the loop alone over the device's rounds.
    abbrev IsAlone : List Turn → Fleet P.F → Loop P.F → Type 0
    IsAlone es f l =
        Alike P J connect p d (loop_of (turns P J connect p es f) d.name)
          (loop P J connect p d (rounds_of d.name es) l)

    IsAlone-own :
        (r : Round) (es : List Turn) (f : Fleet P.F) (l : Loop P.F)
        → KeepsName P J connect p d
        → IsRun d es
        → IsOwned P J connect p f
        → (f.members d.name).stopped ≡ false
        → Alike P J connect p d (loop_of f d.name) l
        → ((f' : Fleet P.F) (l' : Loop P.F)
            → IsOwned P J connect p f'
            → (f'.members d.name).stopped ≡ false
            → Alike P J connect p d (loop_of f' d.name) l'
            → IsAlone es f' l')
        → IsAlone ((d, r) ∷ es) f l
    unfolding turns loop rounds_of
    IsAlone-own r es f l k h own going same rest =
        let f' = turn P J connect p (d, r) f in
        let own' = turn-IsOwned P J connect p d r f k own in
        let (same', stop') = own_turn r f l k (own d.name) going same in
        let mine = (eq_iff d.name d.name).1 refl in
        elim (Bool-cases r.cancelled) [
          | inl stop ↦
              let as_last =
                subst (λ x. Alike P J connect p d (loop_of f' d.name) x)
                  (pass_last P J connect p d r l stop) same' in
              simp (stop, mine)
                (apart-Alike f' (turns P J connect p es f') (last_round P J connect p d r l)
                  (turns_stopped es f' h own' (stop' ∙ stop)) as_last)
          | inr going' ↦
              let as_round =
                subst (λ x. Alike P J connect p d (loop_of f' d.name) x)
                  (pass-round P J connect p d r l going') same' in
              simp (going', mine)
                (rest f' (round P J connect p d r l).0 own' (stop' ∙ going') as_round)
        ]

    turns-IsAlone :
        (es : List Turn) (f : Fleet P.F) (l : Loop P.F)
        → IsRun d es
        → IsOwned P J connect p f
        → (f.members d.name).stopped ≡ false
        → Alike P J connect p d (loop_of f d.name) l
        → IsAlone es f l
    unfolding turns loop rounds_of
    turns-IsAlone [] f l h own going same = same
    turns-IsAlone ((d', r) ∷ es) f l ((k, only), h) own going same =
        elim (Bool-cases (str_eq d'.name d.name)) [
          | inl mine ↦
              let e = only ((eq_iff d'.name d.name).0 mine) in
              subst (λ x. IsAlone ((x, r) ∷ es) f l) (sym e)
                (IsAlone-own r es f l (subst (λ x. KeepsName P J connect p x) e k) h own going same
                  (λ f' l'. turns-IsAlone es f' l' h))
          | inr other ↦
              let apart =
                turn-IsApart P J connect p d' r f d.name k own
                  (λ e. differ P J connect p d'.name d.name other (sym e)) in
              simp other (
                turns-IsAlone es (turn P J connect p (d', r) f) l h
                  (turn-IsOwned P J connect p d' r f k own)
                  (ap (λ (x : Member). x.stopped) apart.0 ∙ going)
                  (apart-Alike f (turn P J connect p (d', r) f) l apart same))
        ]

    -- Whatever the order in which the goroutines of `Run` take their turns, each device's view,
    -- client, wait and metrics are at the end those of its loop alone over its own rounds, begun with
    -- the store in which all devices are announced, if connections carry the names of their devices
    -- and only the device itself takes turns under its name.
    pub run_alone :
        (es : List Turn) (s : Store P.F)
        → IsRun d es
        → Alike P J connect p d
            (loop_of (run P J connect p es s) d.name)
            (loop P J connect p d (rounds_of d.name es) (start p (announce p.devices s)))
    unfolding run launch
    run_alone es s h =
        turns-IsAlone es (launch p s) (start p (announce p.devices s)) h (λ n. tt) refl
          (refl, refl, refl, refl)
