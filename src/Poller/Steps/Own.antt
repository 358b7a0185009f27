-- ===== src/Poller/Steps/Own.antt =====
-- poller.go: a pass accesses the entry of its own device and no other.
use homewizard_exporter.Prelude.{
  String, ◌≡◌, refl, sym, ap, ◌∙◌, inl, inr, Bool, true, false, Option, none, some, Bool-cases,
}
use homewizard_exporter.Config
use homewizard_exporter.Homewizard.Errors.{Result, ok, err, Error, errors_is, not_found}
use homewizard_exporter.Homewizard.Timestamps.{Platform}
use homewizard_exporter.Homewizard.Models.{Measurement}
use homewizard_exporter.Homewizard.Client
use homewizard_exporter.Homewizard.Client.{Client, Net, Codec, disable}
use homewizard_exporter.Snapshot.{Device}
use homewizard_exporter.Snapshot.Store.{Store, device, update}
use homewizard_exporter.Poller.{Settings, Clock, is_due}
use homewizard_exporter.Poller.Rounds.{Round}
use homewizard_exporter.Poller.Laws.{disable-name}
use homewizard_exporter.Poller.Local.{update-same}
use homewizard_exporter.Poller.Frame.{IsNamed, KeepsName}
use homewizard_exporter.Poller.Steps.{
  Steps, done, look, write, followed_by, exec, note_steps, settle_steps, state_steps, system_steps,
  batteries_steps, slow_steps, slow_steps_if, rest_steps, publish_steps, poll_steps, polled_steps,
  connected_steps, attempt_steps,
}

-- Every access is to this name, and every result has a property.
abbrev pub IsOwn : {F R : Type 0} → String → (R → Type 0) → Steps F R → Type 0
IsOwn n Q (done r) = Q r
IsOwn n Q (look m k) = (m ≡ n) × ((o : _) → IsOwn n Q (k o))
IsOwn n Q (write m f k) = (m ≡ n) × IsOwn n Q k

followed_by-IsOwn :
    {F A B : Type 0} (n : String) (Q : A → Type 0) (R : B → Type 0) (a : Steps F A)
    (next : A → Steps F B)
    → IsOwn n Q a
    → ((x : A) → Q x → IsOwn n R (next x))
    → IsOwn n R (followed_by a next)
unfolding followed_by
followed_by-IsOwn n Q R (done x) next own h = h x own
followed_by-IsOwn n Q R (look m k) next (e, own) h =
    (e, λ o. followed_by-IsOwn n Q R (k o) next (own o) h)
followed_by-IsOwn n Q R (write m f k) next (e, own) h = (e, followed_by-IsOwn n Q R k next own h)

module _ (P : Platform) (n : String) where
  -- From two stores that show the device alike, steps of that device have the same result and leave two
  -- that show it alike.
  pub exec-IsOwn :
      {R : Type 0} (Q : R → Type 0) (q : Steps P.F R) (s s' : Store P.F)
      → IsOwn n Q q
      → device s n ≡ device s' n
      → ((exec q s).1 ≡ (exec q s').1)
        × (device (exec q s).0 n ≡ device (exec q s').0 n)
        × Q (exec q s).1
  unfolding exec
  exec-IsOwn Q (done r) s s' own h = (refl, h, own)
  exec-IsOwn Q (look m k) s s' (e, own) h =
      let same = ap (device s) e ∙ h ∙ sym (ap (device s') e) in
      let (x, y, z) = exec-IsOwn Q (k (device s m)) s s' (own (device s m)) h in
      (x ∙ ap (λ o. (exec (k o) s').1) same, y ∙ ap (λ o. device (exec (k o) s').0 n) same, z)
  exec-IsOwn Q (write m f k) s s' (e, own) h =
      exec-IsOwn Q k (update s m f) (update s' m f) own (update-same P n s s' m f e h)

  abbrev Mine : Client → Type 0
  Mine c = c.name ≡ n

  abbrev MineWith : Client × Option Error → Type 0
  MineWith (c, e) = c.name ≡ n

  abbrev pub MineLeft : Option Client × Option Error → Type 0
  MineLeft (o, e) = IsNamed n o

  module _ (J : Codec P.F) where
    note_steps-IsOwn :
        (endpoint : String) (e : Error) (c : Client)
        → c.name ≡ n
        → IsOwn n Mine (note_steps P J endpoint e c)
    unfolding note_steps
    note_steps-IsOwn endpoint e c h = elim (Bool-cases (errors_is e not_found)) [
      | inl gone ↦ rw gone (h, disable-name P endpoint c ∙ h)
      | inr other ↦ rw other h
    ]

    settle_steps-IsOwn {ℓ} :
        {A : Type ℓ} (endpoint : String) (change : A → Device P.F → Device P.F) (r : Result A)
        (c : Client)
        → c.name ≡ n
        → IsOwn n Mine (settle_steps P J endpoint change r c)
    settle_steps-IsOwn endpoint change (ok a) c h = (h, h)
    settle_steps-IsOwn endpoint change (err e) c h = note_steps-IsOwn endpoint e c h

    module _ (net : Net) (t : Clock) where
      state_steps-IsOwn : (c : Client) → c.name ≡ n → IsOwn n Mine (state_steps P J net t c)
      unfolding state_steps
      state_steps-IsOwn c h = elim (Bool-cases c.caps.state) [
        | inl on ↦ simp on (settle_steps-IsOwn "state" _ (Client.state P J net c) c h)
        | inr off ↦ simp off h
      ]

      system_steps-IsOwn : (c : Client) → c.name ≡ n → IsOwn n Mine (system_steps P J net t c)
      unfolding system_steps
      system_steps-IsOwn c h = elim (Bool-cases c.caps.system) [
        | inl on ↦ simp on (settle_steps-IsOwn "system" _ (Client.system P J net c) c h)
        | inr off ↦ simp off h
      ]

      batteries_steps-IsOwn :
          (wanted : Bool) (c : Client)
          → c.name ≡ n
          → IsOwn n Mine (batteries_steps P J wanted net t c)
      unfolding batteries_steps
      batteries_steps-IsOwn true c h =
          settle_steps-IsOwn "batteries" _ (Client.batteries P J net c) c h
      batteries_steps-IsOwn false c h = h

      slow_steps_if-IsOwn :
          (ready : Bool) (c : Client) → c.name ≡ n → IsOwn n Mine (slow_steps_if P J ready net t c)
      unfolding slow_steps
      slow_steps_if-IsOwn true c h =
          followed_by-IsOwn n Mine Mine (system_steps P J net t c)
            (batteries_steps P J c.caps.batteries net t) (system_steps-IsOwn c h)
            (batteries_steps-IsOwn c.caps.batteries)
      slow_steps_if-IsOwn false c h = h

      rest_steps-IsOwn :
          (p : Settings) (c : Client) → c.name ≡ n → IsOwn n Mine (rest_steps P J p net t c)
      unfolding rest_steps
      rest_steps-IsOwn p c h =
          followed_by-IsOwn n Mine Mine (state_steps P J net t c) _ (state_steps-IsOwn c h)
            (λ c' h'.
              (h, λ o. slow_steps_if-IsOwn (is_due P J o t.due p.cfg.system_interval) c' h'))

      publish_steps-IsOwn :
          (p : Settings) (c : Client) (r : Result (Measurement P.F))
          → c.name ≡ n
          → IsOwn n MineWith (publish_steps P J p net t c r)
      publish_steps-IsOwn p c (err e) h = h
      publish_steps-IsOwn p c (ok m) h = (
        h,
        followed_by-IsOwn n Mine MineWith (rest_steps P J p net t c) (λ c'. done (c', none))
            (rest_steps-IsOwn p c h) (λ c' h'. h'),
      )

    polled_steps-IsOwn :
        (p : Settings) (r : Round) (c : Client)
        → c.name ≡ n
        → IsOwn n MineLeft (polled_steps P J p r c)
    unfolding poll_steps
    polled_steps-IsOwn p r c h =
        followed_by-IsOwn n MineWith MineLeft
          (publish_steps P J p r.net r.clock c (Client.measurement P J r.net c)) _
          (publish_steps-IsOwn r.net r.clock p c (Client.measurement P J r.net c) h) (λ x h'. h')

    connected_steps-IsOwn :
        (p : Settings) (r : Round) (o : Result Client)
        → ((c : Client) → o ≡ ok c → c.name ≡ n)
        → IsOwn n MineLeft (connected_steps P J p r o)
    connected_steps-IsOwn p r (err e) k = tt
    connected_steps-IsOwn p r (ok c) k = (k c refl, polled_steps-IsOwn p r c (k c refl))

-- A goroutine accesses the entry of its own device only, if its connections carry the device's name.
pub attempt_steps-IsOwn :
    (P : Platform) (J : Codec P.F) (connect : Net → Config.Device → Result Client) (p : Settings)
    (d : Config.Device) (r : Round) (o : Option Client)
    → KeepsName P J connect p d
    → IsNamed d.name o
    → IsOwn d.name (MineLeft P d.name) (attempt_steps P J connect p d r o)
unfolding attempt_steps
attempt_steps-IsOwn P J connect p d r none k own =
    connected_steps-IsOwn P d.name J p r (connect r.net d) (k r.net)
attempt_steps-IsOwn P J connect p d r (some c) k own = polled_steps-IsOwn P d.name J p r c own
