-- ===== src/Poller/Recovery.antt =====
-- poller.go: how a device comes back after rounds that failed, up to the readiness check and the
-- dashboard.
use homewizard_exporter.Prelude.{
  ℕ, ◌≤◌, String, ◌≡◌, refl, sym, ap, ◌∙◌, inl, true, false, Option, none, some, List, [], ◌∷◌,
  ◌++◌, map, arith, All,
}
use mathlib.Core.Path.{subst}
use homewizard_exporter.Web.View.{build_view}
use homewizard_exporter.Web.View.Laws.{view_ready}
use homewizard_exporter.Poller.Fleet.{loop_of, rounds_of}
use homewizard_exporter.Poller.Fleet.Alike.{Alike}
use homewizard_exporter.Prelude.Int.{pos, max_int64}
use homewizard_exporter.Config
use homewizard_exporter.Time.{Time, Duration}
use homewizard_exporter.NameMap.{lookup}
use homewizard_exporter.Homewizard.Errors.{Result, ok, ok_injective}
use homewizard_exporter.Homewizard.Timestamps.{Platform}
use homewizard_exporter.Homewizard.Models.{Measurement}
use homewizard_exporter.Homewizard.Client
use homewizard_exporter.Homewizard.Client.{Client, Net, Codec}
use homewizard_exporter.Snapshot.{Device, Devices, new_device, is_fresh}
use homewizard_exporter.Snapshot.Freshness.{IsRecent, is_fresh_iff}
use homewizard_exporter.Snapshot.Store.{Store, device, devices_of, or_new}
use homewizard_exporter.Poller.{Settings, poll, publish_identity}
use homewizard_exporter.Poller.Laws.{view, IsPolled, poll-IsPolled}
use homewizard_exporter.Poller.Rounds.{
  Round, Loop, Polled, poll_with, after_connect, attempt, conclude, round, loop, start, announce,
}
use homewizard_exporter.Poller.Health.{SomeFresh, healthz, healthz_iff}
use homewizard_exporter.Poller.Frame.{IsOwn, KeepsName, round-Others}
use homewizard_exporter.Poller.Schedule.{Action, acts, passes, idle}
use homewizard_exporter.Poller.Schedule.Laws.{AllMembers, interleaved_alone}

module _ {F : Type 0} where
  lookup-SomeFresh :
      (n : String) (ds : Devices F) (d : Device F) (now : Time) (limit : Duration)
      → lookup n ds ≡ some d
      → is_fresh d now limit ≡ true
      → SomeFresh now limit (map (λ p. p.1) ds)
  unfolding lookup
  lookup-SomeFresh n [] d now limit h f = ground arith
  lookup-SomeFresh n ((m, e) ∷ ds) d now limit h f =
      ground (arith, lookup-SomeFresh n ds d now limit)

  device-SomeFresh :
      (s : Store F) (n : String) (d : Device F) (now : Time) (limit : Duration)
      → device s n ≡ some d
      → is_fresh d now limit ≡ true
      → SomeFresh now limit (map (λ p. p.1) (devices_of s))
  unfolding device
  device-SomeFresh none n d now limit h f = ground arith
  device-SomeFresh (some s) n d now limit h f = lookup-SomeFresh n s.devices d now limit h f

module _ (P : Platform) where
  -- A device whose view has a recent measurement makes the exporter ready.
  view-ready :
      (s : Store P.F) (n : String) (now : Time) (limit : ℕ)
      → limit ≤ max_int64
      → IsRecent limit now (view P s n).measured_at
      → healthz s now (pos limit) ≡ none
  unfolding new_device
  view-ready s n now limit h recent = go (device s n) refl
    where
      go : (o : Option (Device P.F)) → device s n ≡ o → healthz s now (pos limit) ≡ none
      go none e = let at = ap (λ o. (or_new n o).measured_at) e in ground (arith, at)
      go (some d) e =
          let at = ap (λ o. (or_new n o).measured_at) e in
          (healthz_iff s now (pos limit)).1 (
            device-SomeFresh s n d now (pos limit) e
              ((is_fresh_iff d now limit h).1 (inl (subst (IsRecent limit now) at recent))))

module _ (P : Platform) (J : Codec P.F) (connect : Net → Config.Device → Result Client)
    (p : Settings) (d : Config.Device) where
  -- The client that a round polls with.
  abbrev pub client_in : Round → Option Client → Result Client
  client_in r none = connect r.net d
  client_in r (some c) = ok c

  -- The round gets a client, and reads the measurement with it.
  pub record Answers (r : Round) (l : Loop P.F) : Type 0 where
    pub client : Client
    pub measurement : Measurement P.F
    pub connected : client_in r l.client ≡ ok client
    pub measured : Client.measurement P J r.net client ≡ ok measurement
    pub going : r.cancelled ≡ false

  -- The round reported no error, and the view of the device has the time of its measurement.
  abbrev IsRead : Round → Polled P.F → Type 0
  IsRead r a = (a.error ≡ none) × ((view P a.store d.name).measured_at ≡ r.clock.measured)

  poll_with-IsRead :
      (r : Round) (s : Store P.F) (c : Client) (m : Measurement P.F)
      → c.name ≡ d.name
      → Client.measurement P J r.net c ≡ ok m
      → IsRead r (poll_with P J connect p r s c)
  unfolding poll_with
  poll_with-IsRead r s c m n h =
      let (x, _, at, _, _) =
        subst (λ o. IsPolled P J r.net r.clock s c o (poll P J p r.net r.clock s c)) h
          (poll-IsPolled P J r.net r.clock p s c) in
      (x, ap (λ (y : String). (view P (poll P J p r.net r.clock s c).0 y).measured_at) (sym n) ∙ at)

  attempt-IsRead :
      (r : Round) (l : Loop P.F)
      → KeepsName P J connect p d
      → IsOwn d l.client
      → Answers r l
      → IsRead r (attempt P J connect p d r l.store l.client)
  unfolding attempt
  attempt-IsRead r l k own a = go l.client own a.connected
    where
      go :
          (o : Option Client)
          → IsOwn d o
          → client_in r o ≡ ok a.client
          → IsRead r (attempt P J connect p d r l.store o)
      go none own e =
          subst (λ (x : Result Client). IsRead r (after_connect P J connect p r l.store x)) (sym e)
            (poll_with-IsRead r (publish_identity P J l.store a.client) a.client a.measurement
              (k r.net a.client e) a.measured)
      go (some c) own e =
          let same = ok_injective e in
          subst (λ x. IsRead r (poll_with P J connect p r l.store x)) (sym same)
            (poll_with-IsRead r l.store a.client a.measurement
              (ap (λ (x : Client). x.name) (sym same) ∙ own) a.measured)

  -- A loop after a round that read the measurement.
  abbrev IsRecovered : Round → Loop P.F → Type 0
  IsRecovered r l =
      (l.backoff ≡ p.backoff_min) × ((view P l.store d.name).measured_at ≡ r.clock.measured)

  conclude-IsRecovered :
      (r : Round) (l : Loop P.F) (a : Polled P.F)
      → IsRead r a
      → IsRecovered r (conclude P J connect p d r l a a.error).0
  conclude-IsRecovered r l a (e, at) = rw e (refl, at)

  loop-IsRecovered :
      (rs : List Round) (r : Round) (l : Loop P.F)
      → KeepsName P J connect p d
      → IsOwn d l.client
      → All (λ (x : Round). x.cancelled ≡ false) rs
      → Answers r (loop P J connect p d rs l)
      → IsRecovered r (loop P J connect p d (rs ++ r ∷ []) l)
  unfolding loop round
  loop-IsRecovered [] r l k own h a = simp a.going (
      conclude-IsRecovered r l (attempt P J connect p d r l.store l.client)
        (attempt-IsRead r l k own a))
  loop-IsRecovered (x ∷ rs) r l k own (going, h) a =
      let l' = (round P J connect p d x l).0 in
      simp going (
        loop-IsRecovered rs r l' k (round-Others P J connect p d x l k own).1 h
          (simp (going, loop) at a))

  -- Whatever went wrong before, and however the accesses of the goroutines of `Run` are interleaved: if
  -- the last round that a device has ended, before which its context was not cancelled, reads the
  -- measurement with the client that its loop holds or newly connects, and its goroutine is in no pass,
  -- then for as long as that measurement is younger than the limit, the exporter is ready, the dashboard
  -- is up, and the device's next wait after a failure is the smallest one again. Connections carry
  -- the names of their devices, no other device has its name, and the limit is a `Duration`.
  pub run_recovers :
      (es : List Action) (rs : List Round) (r : Round) (s : Store P.F) (now : Time) (limit : ℕ)
      → limit ≤ max_int64
      → KeepsName P J connect p d
      → AllMembers P J connect p d es
      → (acts P J connect p es (idle p s)).tasks d.name ≡ none
      → rounds_of d.name (passes P J connect p es (idle p s)) ≡ rs ++ r ∷ []
      → All (λ (x : Round). x.cancelled ≡ false) rs
      → Answers r (loop P J connect p d rs (start p (announce p.devices s)))
      → IsRecent limit now r.clock.measured
      → (healthz (acts P J connect p es (idle p s)).fleet.store now (pos limit) ≡ none)
        × ((build_view P (acts P J connect p es (idle p s)).fleet.store (pos limit) now).up ≡ true)
        × (((acts P J connect p es (idle p s)).fleet.members d.name).backoff ≡ p.backoff_min)
  run_recovers es rs r s now limit h k members free ended going a recent =
      let l = start p (announce p.devices s) in
      let f = (acts P J connect p es (idle p s)).fleet in
      let (backoff, at) = loop-IsRecovered rs r l k tt going a in
      let (_, b, _, same) =
        subst (λ rs. Alike P J connect p d (loop_of f d.name) (loop P J connect p d rs l)) ended
          (interleaved_alone P J connect p d es s members free) in
      let shown = ap (λ o. (or_new d.name o).measured_at) same ∙ at in
      let ready =
        view-ready P f.store d.name now limit h (subst (IsRecent limit now) (sym shown) recent) in
      (ready, (view_ready P f.store (pos limit) now).1 ready, b ∙ backoff)
