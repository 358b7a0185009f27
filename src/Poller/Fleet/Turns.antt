-- ===== src/Poller/Fleet/Turns.antt =====
-- poller.go: what one turn leaves to the goroutines that do not take it.
use homewizard_exporter.Prelude.{
  String, ◌≡◌, refl, sym, ◌≢◌, inl, inr, Bool, true, false, arith, str_eq, eq_iff, Bool-cases,
}
use mathlib.Core.Path.{subst}
use homewizard_exporter.Config
use homewizard_exporter.Homewizard.Errors.{Result}
use homewizard_exporter.Homewizard.Timestamps.{Platform}
use homewizard_exporter.Homewizard.Client.{Client, Net, Codec}
use homewizard_exporter.Snapshot.Store.{device}
use homewizard_exporter.Poller.{Settings}
use homewizard_exporter.Poller.Rounds.{Round, Loop}
use homewizard_exporter.Poller.Frame.{IsNamed, KeepsName}
use homewizard_exporter.Poller.Fleet.{Member, Fleet, loop_of, member, put, turn, pass, pass_unless}
use homewizard_exporter.Poller.Fleet.Alike.{pass-Others}

module _ (P : Platform) (J : Codec P.F) (connect : Net → Config.Device → Result Client)
    (p : Settings) where
  pub differ : (m n : String) → str_eq m n ≡ false → m ≢ n
  differ m n h = ground (arith, eq_iff m n)

  -- Every client of the fleet has the name of its goroutine.
  abbrev pub IsOwned : Fleet P.F → Type 0
  IsOwned f = (n : String) → IsNamed n (f.members n).client

  pub put_own :
      (n : String) (stopped : Bool) (l : Loop P.F) (f : Fleet P.F)
      → (put n stopped l f).members n ≡ member stopped l
  unfolding put
  put_own n stopped l f = rw ((eq_iff n n).1 refl) refl

  pub put_other :
      (n m : String) (stopped : Bool) (l : Loop P.F) (f : Fleet P.F)
      → m ≢ n
      → (put n stopped l f).members m ≡ f.members m
  unfolding put
  put_other n m stopped l f h = ground (arith, eq_iff m n)

  put-IsOwned :
      (n : String) (stopped : Bool) (l : Loop P.F) (f : Fleet P.F)
      → IsNamed n l.client
      → IsOwned f
      → IsOwned (put n stopped l f)
  put-IsOwned n stopped l f own all m = elim (Bool-cases (str_eq m n)) [
    | inl same ↦
        let e = (eq_iff m n).0 same in
        subst (λ k. IsNamed k ((put n stopped l f).members k).client) (sym e)
          (subst (λ (x : Member). IsNamed n x.client) (sym (put_own n stopped l f)) own)
    | inr other ↦
        subst (λ (x : Member). IsNamed m x.client)
          (sym (put_other n m stopped l f (differ m n other))) (all m)
  ]

  -- What a turn of one goroutine leaves to another: its variables, and the view of its device.
  abbrev pub IsApart : String → Fleet P.F → Fleet P.F → Type 0
  IsApart m f f' = (f'.members m ≡ f.members m) × (device f'.store m ≡ device f.store m)

  pub turn-IsApart :
      (d : Config.Device) (r : Round) (f : Fleet P.F) (m : String)
      → KeepsName P J connect p d
      → IsOwned f
      → m ≢ d.name
      → IsApart m f (turn P J connect p (d, r) f)
  unfolding turn put
  turn-IsApart d r f m k own h = go (f.members d.name).stopped
    where
      go : (b : Bool) → IsApart m f (pass_unless P J connect b p d r f)
      go true = (refl, refl)
      go false = (
        put_other d.name m r.cancelled (pass P J connect p d r (loop_of f d.name)) f h,
        (pass-Others P J connect p d r (loop_of f d.name) k (own d.name)).0 m h,
      )

  pub turn-IsOwned :
      (d : Config.Device) (r : Round) (f : Fleet P.F)
      → KeepsName P J connect p d
      → IsOwned f
      → IsOwned (turn P J connect p (d, r) f)
  unfolding turn
  turn-IsOwned d r f k own = go (f.members d.name).stopped
    where
      go : (b : Bool) → IsOwned (pass_unless P J connect b p d r f)
      go true = own
      go false =
          put-IsOwned d.name r.cancelled (pass P J connect p d r (loop_of f d.name)) f
            (pass-Others P J connect p d r (loop_of f d.name) k (own d.name)).1 own
