-- ===== src/Poller/Frame.antt =====
-- poller.go: the loop of one device and the views of the others.
use homewizard_exporter.Prelude.{
  String, ◌≡◌, refl, ◌∙◌, ◌≢◌, inl, inr, Option, none, some, List, [], ◌∷◌, Bool-cases,
}
use homewizard_exporter.Config
use homewizard_exporter.Homewizard.Errors.{Result, ok, err, Error}
use homewizard_exporter.Homewizard.Timestamps.{Platform}
use homewizard_exporter.Homewizard.Models.{Measurement}
use homewizard_exporter.Homewizard.Client
use homewizard_exporter.Homewizard.Client.{Client, Net, Codec}
use homewizard_exporter.Snapshot.Store.{Store, device}
use homewizard_exporter.Poller.{Settings, Clock, publish_identity, publish, poll}
use homewizard_exporter.Poller.Laws.{publish-IsPolled, device-update_other}
use homewizard_exporter.Poller.Rounds.{
  Round, Loop, Polled, is_fatal, kept, poll_with, after_connect, attempt, conclude, round,
  last_round, loop,
}

-- The client, if there is one, has this name.
abbrev pub IsNamed : String → Option Client → Type 0
IsNamed n none = Unit
IsNamed n (some c) = c.name ≡ n

-- The client of a loop, if there is one, is that of its device.
abbrev pub IsOwn : Config.Device → Option Client → Type 0
IsOwn d = IsNamed d.name

module _ (P : Platform) (J : Codec P.F) (connect : Net → Config.Device → Result Client)
    (p : Settings) (d : Config.Device) where
  -- Two stores agree on every other device.
  abbrev pub Others : Store P.F → Store P.F → Type 0
  Others s s' = (m : String) → m ≢ d.name → device s' m ≡ device s m

  publish-Others :
      (net : Net) (t : Clock) (s : Store P.F) (c : Client) (r : Result (Measurement P.F))
      → c.name ≡ d.name
      → Others s (publish P J p net t s c r).0 × ((publish P J p net t s c r).1.name ≡ d.name)
  publish-Others net t s c (err e) n = (λ m h. refl, n)
  publish-Others net t s c (ok x) n =
      let (_, _, _, others, same) = publish-IsPolled P J net t p s c (ok x) in
      (λ m h. others m (λ e. h (e ∙ n)), same ∙ n)

  poll_with-Others :
      (r : Round) (s : Store P.F) (c : Client)
      → c.name ≡ d.name
      → Others s (poll_with P J connect p r s c).store
        × IsOwn d (poll_with P J connect p r s c).client
  unfolding poll_with poll
  poll_with-Others r s c n = publish-Others r.net r.clock s c (Client.measurement P J r.net c) n

  publish_identity-Others :
      (s : Store P.F) (c : Client) → c.name ≡ d.name → Others s (publish_identity P J s c)
  unfolding publish_identity
  publish_identity-Others s c n m h = device-update_other P s c.name m _ (λ e. h (e ∙ n))

  -- A connection carries the name of its device.
  abbrev pub KeepsName : Type 0
  KeepsName = (net : Net) (c : Client) → connect net d ≡ ok c → c.name ≡ d.name

  after_connect-Others :
      (r : Round) (s : Store P.F) (o : Result Client)
      → ((c : Client) → o ≡ ok c → c.name ≡ d.name)
      → Others s (after_connect P J connect p r s o).store
        × IsOwn d (after_connect P J connect p r s o).client
  after_connect-Others r s (err e) k = (λ m h. refl, tt)
  after_connect-Others r s (ok c) k =
      let n = k c refl in
      let (others, own) = poll_with-Others r (publish_identity P J s c) c n in
      (λ m h. others m h ∙ publish_identity-Others s c n m h, own)

  pub attempt-Others :
      (r : Round) (s : Store P.F) (o : Option Client)
      → KeepsName
      → IsOwn d o
      → Others s (attempt P J connect p d r s o).store
        × IsOwn d (attempt P J connect p d r s o).client
  unfolding attempt
  attempt-Others r s none k own = after_connect-Others r s (connect r.net d) (k r.net)
  attempt-Others r s (some c) k own = poll_with-Others r s c own

  kept-IsOwn : (e : Error) (o : Option Client) → IsOwn d o → IsOwn d (kept P J connect e o)
  kept-IsOwn e o own = elim (Bool-cases (is_fatal e)) [
    | inl fatal ↦ rw fatal tt
    | inr passing ↦ rw passing own
  ]

  conclude-Others :
      (r : Round) (l : Loop P.F) (a : Polled P.F) (x : Option Error)
      → Others l.store a.store
      → IsOwn d a.client
      → Others l.store (conclude P J connect p d r l a x).0.store
        × IsOwn d (conclude P J connect p d r l a x).0.client
  conclude-Others r l a none h own = (h, own)
  conclude-Others r l a (some e) h own = (h, kept-IsOwn e a.client own)

  pub round-Others :
      (r : Round) (l : Loop P.F)
      → KeepsName
      → IsOwn d l.client
      → Others l.store (round P J connect p d r l).0.store
        × IsOwn d (round P J connect p d r l).0.client
  unfolding round
  round-Others r l k own =
      let a = attempt P J connect p d r l.store l.client in
      let (others, mine) = attempt-Others r l.store l.client k own in
      conclude-Others r l a a.error others mine

  pub last_round-Others :
      (r : Round) (l : Loop P.F)
      → KeepsName
      → IsOwn d l.client
      → Others l.store (last_round P J connect p d r l).store
        × IsOwn d (last_round P J connect p d r l).client
  unfolding last_round
  last_round-Others r l k own = attempt-Others r l.store l.client k own

  -- Whatever its rounds bring, the loop of a device leaves the view of every other device as it was, if
  -- a connection carries the name of the device that it is made for, as that of `New` does.
  pub loop-Others :
      (rs : List Round) (l : Loop P.F) (m : String)
      → KeepsName
      → IsOwn d l.client
      → m ≢ d.name
      → device (loop P J connect p d rs l).store m ≡ device l.store m
  unfolding loop
  loop-Others [] l m k own h = refl
  loop-Others (r ∷ rs) l m k own h = elim (Bool-cases r.cancelled) [
    | inl stop ↦ simp stop ((last_round-Others r l k own).0 m h)
    | inr going ↦
        let (others, mine) = round-Others r l k own in
        simp going (loop-Others rs (round P J connect p d r l).0 m k mine h ∙ others m h)
  ]
