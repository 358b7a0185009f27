-- ===== src/Poller/Fleet/Alike.antt =====
-- poller.go: a pass of a loop from two states that are alike for its device.
use homewizard_exporter.Prelude.{
  ◌≡◌, refl, ap, inl, inr, true, false, Option, none, some, Bool-cases,
}
use mathlib.Core.Path.{subst}
use homewizard_exporter.Config
use homewizard_exporter.Homewizard.Errors.{Result, ok, err, Error}
use homewizard_exporter.Homewizard.Timestamps.{Platform}
use homewizard_exporter.Homewizard.Client.{Client, Net, Codec}
use homewizard_exporter.Snapshot.Store.{Store, device}
use homewizard_exporter.Poller.{Settings}
use homewizard_exporter.Poller.Rounds.{
  Round, Loop, Polled, grow, observe, poll_with, after_connect, attempt, kept, conclude, round,
  last_round,
}
use homewizard_exporter.Poller.Frame.{IsNamed, KeepsName, Others, round-Others, last_round-Others}
use homewizard_exporter.Poller.Local.{poll-AgreePolled, publish_identity-same}
use homewizard_exporter.Poller.Fleet.{pass}

module _ (P : Platform) (J : Codec P.F) (connect : Net → Config.Device → Result Client)
    (p : Settings) where
  module _ (d : Config.Device) where
    -- The outcomes of an attempt agree for the device.
    abbrev pub AgreeAttempt : Polled P.F → Polled P.F → Type 0
    AgreeAttempt a b =
        (device a.store d.name ≡ device b.store d.name)
        × (a.client ≡ b.client)
        × (a.error ≡ b.error)

    poll_with-Agree :
        (r : Round) (s s' : Store P.F) (c : Client)
        → c.name ≡ d.name
        → device s d.name ≡ device s' d.name
        → AgreeAttempt (poll_with P J connect p r s c) (poll_with P J connect p r s' c)
    unfolding poll_with
    poll_with-Agree r s s' c m h =
        let ((e, _, same), x) = poll-AgreePolled P d.name J r.net r.clock p s s' c m h in
        (same, ap some e, x)

    after_connect-Agree :
        (r : Round) (s s' : Store P.F) (o : Result Client)
        → ((c : Client) → o ≡ ok c → c.name ≡ d.name)
        → device s d.name ≡ device s' d.name
        → AgreeAttempt (after_connect P J connect p r s o) (after_connect P J connect p r s' o)
    after_connect-Agree r s s' (err e) k h = (h, refl, refl)
    after_connect-Agree r s s' (ok c) k h =
        poll_with-Agree r _ _ c (k c refl) (publish_identity-same P d.name J s s' c (k c refl) h)

    pub attempt-Agree :
        (r : Round) (s s' : Store P.F) (o : Option Client)
        → KeepsName P J connect p d
        → IsNamed d.name o
        → device s d.name ≡ device s' d.name
        → AgreeAttempt (attempt P J connect p d r s o) (attempt P J connect p d r s' o)
    unfolding attempt
    attempt-Agree r s s' none k own h = after_connect-Agree r s s' (connect r.net d) (k r.net) h
    attempt-Agree r s s' (some c) k own h = poll_with-Agree r s s' c own h

    -- Two states of the loop are alike: the same variables and metrics, and stores that show the device
    -- alike.
    abbrev pub Alike : Loop P.F → Loop P.F → Type 0
    Alike l l' =
        (l.client ≡ l'.client)
        × (l.backoff ≡ l'.backoff)
        × (l.stats ≡ l'.stats)
        × (device l.store d.name ≡ device l'.store d.name)

    attempt-Alike :
        (r : Round) (l l' : Loop P.F)
        → KeepsName P J connect p d
        → IsNamed d.name l.client
        → Alike l l'
        → AgreeAttempt
            (attempt P J connect p d r l.store l.client)
            (attempt P J connect p d r l'.store l'.client)
    attempt-Alike r l l' k own (c, b, s, h) =
        subst
          (λ o.
            AgreeAttempt (attempt P J connect p d r l.store l.client)
              (attempt P J connect p d r l'.store o))
          c (attempt-Agree r l.store l'.store l.client k own h)

    pub conclude-Alike :
        (r : Round) (l l' : Loop P.F) (a a' : Polled P.F) (x : Option Error)
        → Alike l l'
        → device a.store d.name ≡ device a'.store d.name
        → a.client ≡ a'.client
        → Alike (conclude P J connect p d r l a x).0 (conclude P J connect p d r l' a' x).0
    conclude-Alike r l l' a a' none (c, b, s, h) same e =
        (e, refl, ap (λ m. observe m r.elapsed r.now none) s, same)
    conclude-Alike r l l' a a' (some x) (c, b, s, h) same e = (
      ap (kept P J connect x) e,
      ap (grow p) b,
      ap (λ m. observe m r.elapsed r.now (some x)) s,
      same,
    )

    round-Alike :
        (r : Round) (l l' : Loop P.F)
        → KeepsName P J connect p d
        → IsNamed d.name l.client
        → Alike l l'
        → Alike (round P J connect p d r l).0 (round P J connect p d r l').0
    unfolding round
    round-Alike r l l' k own same =
        let a = attempt P J connect p d r l.store l.client in
        let a' = attempt P J connect p d r l'.store l'.client in
        let (h, c, x) = attempt-Alike r l l' k own same in
        subst
          (λ y.
            Alike (conclude P J connect p d r l a a.error).0 (conclude P J connect p d r l' a' y).0)
          x (conclude-Alike r l l' a a' a.error same h c)

    last_round-Alike :
        (r : Round) (l l' : Loop P.F)
        → KeepsName P J connect p d
        → IsNamed d.name l.client
        → Alike l l'
        → Alike (last_round P J connect p d r l) (last_round P J connect p d r l')
    unfolding last_round
    last_round-Alike r l l' k own (c, b, s, h) =
        let (same, e, x) = attempt-Alike r l l' k own (c, b, s, h) in (e, b, cc, same)

    pub pass_last :
        (r : Round) (l : Loop P.F)
        → r.cancelled ≡ true
        → pass P J connect p d r l ≡ last_round P J connect p d r l
    unfolding pass
    pass_last r l h = rw h refl

    pub pass-round :
        (r : Round) (l : Loop P.F)
        → r.cancelled ≡ false
        → pass P J connect p d r l ≡ (round P J connect p d r l).0
    unfolding pass
    pass-round r l h = rw h refl

    pub pass-Alike :
        (r : Round) (l l' : Loop P.F)
        → KeepsName P J connect p d
        → IsNamed d.name l.client
        → Alike l l'
        → Alike (pass P J connect p d r l) (pass P J connect p d r l')
    unfolding pass
    pass-Alike r l l' k own same = elim (Bool-cases r.cancelled) [
      | inl stop ↦ simp stop (last_round-Alike r l l' k own same)
      | inr going ↦ simp going (round-Alike r l l' k own same)
    ]

    pub pass-Others :
        (r : Round) (l : Loop P.F)
        → KeepsName P J connect p d
        → IsNamed d.name l.client
        → Others P J connect p d l.store (pass P J connect p d r l).store
          × IsNamed d.name (pass P J connect p d r l).client
    unfolding pass
    pass-Others r l k own = elim (Bool-cases r.cancelled) [
      | inl stop ↦ simp stop (last_round-Others P J connect p d r l k own)
      | inr going ↦ simp going (round-Others P J connect p d r l k own)
    ]
