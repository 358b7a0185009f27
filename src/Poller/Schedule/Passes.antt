-- ===== src/Poller/Schedule/Passes.antt =====
-- poller.go: a goroutine between two accesses of its pass, next to a goroutine that makes its passes at
-- once.
use homewizard_exporter.Prelude.{
  String, ◌≡◌, refl, sym, ap, ◌∙◌, inl, inr, false, Option, none, some, Bool-cases, Option-cases,
}
use mathlib.Core.Path.{subst}
use homewizard_exporter.Config
use homewizard_exporter.Homewizard.Errors.{Result, Error}
use homewizard_exporter.Homewizard.Timestamps.{Platform}
use homewizard_exporter.Homewizard.Client.{Client, Net, Codec}
use homewizard_exporter.Snapshot.Store.{Store, device}
use homewizard_exporter.Poller.{Settings}
use homewizard_exporter.Poller.Rounds.{Round, Loop, Polled, attempt, round, last_round, observe}
use homewizard_exporter.Poller.Frame.{IsNamed, KeepsName}
use homewizard_exporter.Poller.Steps.{Steps, done, exec, attempt_steps}
use homewizard_exporter.Poller.Steps.Meaning.{exec-attempt_steps}
use homewizard_exporter.Poller.Steps.Own.{IsOwn, MineLeft, exec-IsOwn, attempt_steps-IsOwn}
use homewizard_exporter.Poller.Fleet.{Member, Fleet, loop_of, pass}
use homewizard_exporter.Poller.Fleet.Alike.{Alike, attempt-Agree, conclude-Alike}
use homewizard_exporter.Poller.Schedule.{Task, left, settle_pass}

module _ (P : Platform) (J : Codec P.F) (connect : Net → Config.Device → Result Client)
    (p : Settings) (Ok : Config.Device → Type 0)
    (keeps : (d : Config.Device) → Ok d → KeepsName P J connect p d) where
  -- What the rest of a pass does to this store is what the attempt does to the fleet's.
  abbrev pub IsRest :
      String
      → Config.Device
      → Round
      → Steps P.F (Option Client × Option Error)
      → Store P.F
      → Fleet P.F
      → Type 0
  IsRest n d r q s f =
      let a = attempt P J connect p d r f.store (f.members n).client in
      ((exec q s).1 ≡ (a.client, a.error)) × (device (exec q s).0 n ≡ device a.store n)

  -- A goroutine in a pass, next to one that has not begun it.
  abbrev pub InPass :
      String
      → Config.Device
      → Round
      → Steps P.F (Option Client × Option Error)
      → Store P.F
      → Fleet P.F
      → Type 0
  InPass n d r q s f =
      (d.name ≡ n)
      × Ok d
      × IsOwn n (MineLeft P n) q
      × ((f.members n).stopped ≡ false)
      × IsRest n d r q s f

  abbrev pub Tracks : String → Option (Task P.F) → Store P.F → Fleet P.F → Type 0
  Tracks n none s f = device s n ≡ device f.store n
  Tracks n (some t) s f = InPass n t.subject t.conditions t.rest s f

  -- What others write does not matter to a pass.
  pub Tracks-write :
      (n : String) (t : Option (Task P.F)) (s s' : Store P.F) (f : Fleet P.F)
      → device s' n ≡ device s n
      → Tracks n t s f
      → Tracks n t s' f
  Tracks-write n none s s' f e h = e ∙ h
  Tracks-write n (some t) s s' f e (m, k, own, going, (o, v)) =
      let (x, y, z) = exec-IsOwn P n (MineLeft P n) t.rest s' s own e in
      (m, k, own, going, (x ∙ o, y ∙ v))

  -- Nor does a turn that others take.
  pub Tracks-turn :
      (n : String) (t : Option (Task P.F)) (s : Store P.F) (f f' : Fleet P.F)
      → IsNamed n (f.members n).client
      → f'.members n ≡ f.members n
      → device f'.store n ≡ device f.store n
      → Tracks n t s f
      → Tracks n t s f'
  Tracks-turn n none s f f' own e v h = h ∙ sym v
  Tracks-turn n (some t) s f f' own e v (m, k, mine, going, (o, w)) =
      let d = t.subject in
      let r = t.conditions in
      let agree =
        attempt-Agree P J connect p d r f.store f'.store (f.members n).client (keeps d k)
          (subst (λ x. IsNamed x (f.members n).client) (sym m) own)
          (ap (device f.store) m ∙ sym v ∙ sym (ap (device f'.store) m)) in
      let rest =
        subst
          (λ (x : Member).
            let a = attempt P J connect p d r f'.store x.client in
            ((exec t.rest s).1 ≡ (a.client, a.error))
            × (device (exec t.rest s).0 n ≡ device a.store n))
          (sym e)
          (
            o
                ∙ ap (λ x. (x, (attempt P J connect p d r f.store (f.members n).client).error))
                    agree.1
                ∙ ap (λ x. ((attempt P J connect p d r f'.store (f.members n).client).client, x))
                    agree.2,
            w
                ∙ subst
                    (λ x.
                      device (attempt P J connect p d r f.store (f.members n).client).store x
                      ≡ device (attempt P J connect p d r f'.store (f.members n).client).store x)
                    m agree.0,
          ) in
      (m, k, mine, ap (λ (x : Member). x.stopped) e ∙ going, rest)

  -- A pass begins with all of its accesses before it.
  pub begin-InPass :
      (d : Config.Device) (r : Round) (x : Member) (s : Store P.F) (f : Fleet P.F)
      → Ok d
      → x ≡ f.members d.name
      → IsNamed d.name (f.members d.name).client
      → (f.members d.name).stopped ≡ false
      → device s d.name ≡ device f.store d.name
      → InPass d.name d r (attempt_steps P J connect p d r x.client) s f
  begin-InPass d r x s f k e own going h =
      let c = (f.members d.name).client in
      let all = exec-attempt_steps P J connect p r d c s in
      let agree = attempt-Agree P J connect p d r s f.store c (keeps d k) own h in
      subst (λ (y : Member). InPass d.name d r (attempt_steps P J connect p d r y.client) s f)
        (sym e)
        (
          refl,
          k,
          attempt_steps-IsOwn P J connect p d r c (keeps d k) own,
          going,
          (
            ap (λ y. y.1) all
                ∙ ap (λ y. (y, (attempt P J connect p d r s c).error)) agree.1
                ∙ ap (λ y. ((attempt P J connect p d r f.store c).client, y)) agree.2,
            ap (λ y. device y.0 d.name) all ∙ agree.0,
          ),
        )

  module _ (d : Config.Device) (r : Round) where
    settle_pass-Alike :
        (l l' : Loop P.F) (a : Polled P.F) (s : Store P.F)
        → Alike P J connect p d l l'
        → device s d.name ≡ device a.store d.name
        → Alike P J connect p d
            (settle_pass P J connect p d r l (left s (a.client, a.error)))
            (settle_pass P J connect p d r l' a)
    unfolding settle_pass
    settle_pass-Alike l l' a s (c, b, m, h) v = elim (Bool-cases r.cancelled) [
      | inl stop ↦ simp stop (refl, b, ap (λ x. observe x r.elapsed r.now a.error) m, v)
      | inr going ↦ simp going (
          conclude-Alike P J connect p d r l l' (left s (a.client, a.error)) a a.error (c, b, m, h)
            v refl)
    ]

    settle_pass-pass :
        (l : Loop P.F)
        → settle_pass P J connect p d r l (attempt P J connect p d r l.store l.client)
          ≡ pass P J connect p d r l
    unfolding settle_pass pass round last_round
    settle_pass-pass l = refl

    -- A pass that ends has done what a turn does.
    pub end-Alike :
        (x : Member) (o : Option Client × Option Error) (s : Store P.F) (f : Fleet P.F)
        → x ≡ f.members d.name
        → IsRest d.name d r (done o) s f
        → Alike P J connect p d
            (settle_pass P J connect p d r
              (record { client = x.client; backoff = x.backoff; store = s; stats = x.stats })
              (left s o))
            (pass P J connect p d r (loop_of f d.name))
    unfolding exec settle_pass
    end-Alike x o s f e (m, v) =
        let l = loop_of f d.name in
        let a = attempt P J connect p d r l.store l.client in
        let l0 = record l { client = x.client; backoff = x.backoff; stats = x.stats } in
        subst
          (λ y.
            Alike P J connect p d (settle_pass P J connect p d r l0 (left s y))
              (pass P J connect p d r l))
          (sym m)
          (subst
            (Alike P J connect p d (settle_pass P J connect p d r l0 (left s (a.client, a.error))))
            (settle_pass-pass l)
            (settle_pass-Alike l0 l a s
              (
                ap (λ (y : Member). y.client) e,
                ap (λ (y : Member). y.backoff) e,
                ap (λ (y : Member). y.stats) e,
                refl,
              )
              v))

    -- The second half of a pass leaves the store alone.
    pub settle_pass-left :
        (l : Loop P.F) (s : Store P.F) (o : Option Client × Option Error)
        → (settle_pass P J connect p d r l (left s o)).store ≡ s
    unfolding settle_pass
    settle_pass-left l s (c, e) = elim (Bool-cases r.cancelled) [
      | inl stop ↦ rw stop refl
      | inr going ↦ rw going (elim (Option-cases e) [
        | inl none_left ↦ rw none_left refl
        | inr (x, some_left) ↦ rw some_left refl
      ])
    ]
