-- ===== src/Poller/Laws.antt =====
-- poller.go: what a poll does to the snapshot.
use homewizard_exporter.Prelude.{
  String, ◌≡◌, refl, sym, ap, ◌∙◌, ◌≢◌, inl, inr, Bool, true, false, Option, none, some, arith,
  eq_iff, Bool-cases,
}
use homewizard_exporter.Homewizard.Errors.{Result, ok, err, Error, errors_is, not_found, wrap}
use homewizard_exporter.Homewizard.Timestamps.{Platform}
use homewizard_exporter.Homewizard.Models.{Measurement}
use homewizard_exporter.Homewizard.Client
use homewizard_exporter.Homewizard.Client.{Client, Net, Codec, disable}
use homewizard_exporter.Snapshot.{Device}
use homewizard_exporter.Snapshot.Store.{Store, device, or_new, update}
use homewizard_exporter.Snapshot.Store.Laws.{device-update}
use homewizard_exporter.Poller.{
  Settings, Clock, note_secondary, settle, poll_state, poll_system, poll_batteries, poll_slow,
  slow_if, publish, poll_rest, due, poll,
}

module _ (P : Platform) where
  -- The view of a device, a new one where there is none.
  abbrev pub view : Store P.F → String → Device P.F
  view s n = or_new n (device s n)

  -- What the steps behind a measurement respect: the client is that of the same device, devices of
  -- other names stay as they are, and the measurement and its time stay.
  abbrev pub Kept : Store P.F × Client → Store P.F × Client → Type 0
  Kept (s, c) (s', c') =
      (c'.name ≡ c.name)
      × ((m : String) → m ≢ c.name → device s' m ≡ device s m)
      × ((view s' c.name).measurement ≡ (view s c.name).measurement)
      × ((view s' c.name).measured_at ≡ (view s c.name).measured_at)

  Kept-refl : (a : Store P.F × Client) → Kept a a
  Kept-refl (s, c) = (refl, λ m h. refl, refl, refl)

  Kept-trans : (a b c : Store P.F × Client) → Kept a b → Kept b c → Kept a c
  Kept-trans (s, c) (s', c') (s'', c'') (n, o, m, t) (n', o', m', t') = (
    n' ∙ n,
    λ x h. o' x (λ e. h (e ∙ n)) ∙ o x h,
    ap (λ (y : String). (view s'' y).measurement) (sym n)
        ∙ m'
        ∙ ap (λ (y : String). (view s' y).measurement) n
        ∙ m,
    ap (λ (y : String). (view s'' y).measured_at) (sym n)
        ∙ t'
        ∙ ap (λ (y : String). (view s' y).measured_at) n
        ∙ t,
  )

  view-update :
      (s : Store P.F) (n : String) (f : Device P.F → Device P.F)
      → view (update s n f) n ≡ f (view s n)
  view-update s n f = rw (device-update s n n f, (eq_iff n n).1 refl) refl

  pub device-update_other :
      (s : Store P.F) (n m : String) (f : Device P.F → Device P.F)
      → m ≢ n
      → device (update s n f) m ≡ device s m
  device-update_other s n m f h = rw (device-update s n m f) (ground (arith, eq_iff n m))

  -- An update that changes neither the measurement nor its time.
  update-Kept :
      (s : Store P.F) (c c' : Client) (f : Device P.F → Device P.F)
      → c'.name ≡ c.name
      → ((d : Device P.F) → (f d).measurement ≡ d.measurement)
      → ((d : Device P.F) → (f d).measured_at ≡ d.measured_at)
      → Kept (s, c) (update s c.name f, c')
  update-Kept s c c' f n h k = (
    n,
    λ m o. device-update_other s c.name m f o,
    ap (λ (d : Device P.F). d.measurement) (view-update s c.name f) ∙ h (view s c.name),
    ap (λ (d : Device P.F). d.measured_at) (view-update s c.name f) ∙ k (view s c.name),
  )

  pub disable-name : (endpoint : String) (c : Client) → (disable endpoint c).name ≡ c.name
  unfolding disable
  disable-name endpoint c = ground arith

  module _ (J : Codec P.F) where
    note_secondary-Kept :
        (endpoint : String) (e : Error) (s : Store P.F) (c : Client)
        → Kept (s, c) (note_secondary P J endpoint e s c)
    unfolding note_secondary
    note_secondary-Kept endpoint e s c = elim (Bool-cases (errors_is e not_found)) [
      | inl gone ↦
          rw gone (
            update-Kept s c (disable endpoint c) _ (disable-name endpoint c) (λ d. refl)
              (λ d. refl))
      | inr other ↦ rw other (Kept-refl (s, c))
    ]

    settle-Kept {ℓ} :
        {A : Type ℓ} (endpoint : String) (write : A → Device P.F → Device P.F) (r : Result A)
        (s : Store P.F) (c : Client)
        → ((a : A) (d : Device P.F) → (write a d).measurement ≡ d.measurement)
        → ((a : A) (d : Device P.F) → (write a d).measured_at ≡ d.measured_at)
        → Kept (s, c) (settle P J endpoint write r s c)
    settle-Kept endpoint write (ok a) s c h k = update-Kept s c c (write a) refl (h a) (k a)
    settle-Kept endpoint write (err e) s c h k = note_secondary-Kept endpoint e s c

    module _ (net : Net) (t : Clock) where
      poll_state-Kept : (s : Store P.F) (c : Client) → Kept (s, c) (poll_state P J net t s c)
      unfolding poll_state
      poll_state-Kept s c = elim (Bool-cases c.caps.state) [
        | inl on ↦
            simp on (settle-Kept "state" _ (Client.state P J net c) s c (λ a d. refl) (λ a d. refl))
        | inr off ↦ simp off (Kept-refl (s, c))
      ]

      poll_system-Kept : (s : Store P.F) (c : Client) → Kept (s, c) (poll_system P J net t s c)
      unfolding poll_system
      poll_system-Kept s c = elim (Bool-cases c.caps.system) [
        | inl on ↦
            simp on
              (settle-Kept "system" _ (Client.system P J net c) s c (λ a d. refl) (λ a d. refl))
        | inr off ↦ simp off (Kept-refl (s, c))
      ]

      poll_batteries-Kept :
          (wanted : Bool) (s : Store P.F) (c : Client)
          → Kept (s, c) (poll_batteries P J wanted net t s c)
      unfolding poll_batteries
      poll_batteries-Kept true s c =
          settle-Kept "batteries" _ (Client.batteries P J net c) s c (λ a d. refl) (λ a d. refl)
      poll_batteries-Kept false s c = Kept-refl (s, c)

      poll_slow-Kept : (s : Store P.F) (c : Client) → Kept (s, c) (poll_slow P J net t s c)
      unfolding poll_slow
      poll_slow-Kept s c =
          let a = poll_system P J net t s c in
          Kept-trans (s, c) a (poll_batteries P J c.caps.batteries net t a.0 a.1)
            (poll_system-Kept s c) (poll_batteries-Kept c.caps.batteries a.0 a.1)

      slow_if-Kept :
          (ready : Bool) (s : Store P.F) (c : Client) → Kept (s, c) (slow_if P J ready net t s c)
      slow_if-Kept true s c = poll_slow-Kept s c
      slow_if-Kept false s c = Kept-refl (s, c)

      poll_rest-Kept :
          (p : Settings) (s : Store P.F) (c : Client) → Kept (s, c) (poll_rest P J p net t s c)
      unfolding poll_rest
      poll_rest-Kept p s c =
          let a = poll_state P J net t s c in
          let ready = due P J a.0 c.name t.due p.cfg.system_interval in
          Kept-trans (s, c) a (slow_if P J ready net t a.0 a.1) (poll_state-Kept s c)
            (slow_if-Kept ready a.0 a.1)

      -- The outcome of a poll that begins with a store and a client, by what the measurement answered.
      abbrev pub IsPolled :
          Store P.F → Client → Result (Measurement P.F) → Store P.F × Client × Option Error → Type 0
      IsPolled s c (err e) (s', c', x) = (s' ≡ s) × (c' ≡ c) × (x ≡ some (wrap "measurement" e))
      IsPolled s c (ok m) (s', c', x) =
          (x ≡ none)
          × ((view s' c.name).measurement ≡ m)
          × ((view s' c.name).measured_at ≡ t.measured)
          × ((n : String) → n ≢ c.name → device s' n ≡ device s n)
          × (c'.name ≡ c.name)

      pub publish-IsPolled :
          (p : Settings) (s : Store P.F) (c : Client) (r : Result (Measurement P.F))
          → IsPolled s c r (publish P J p net t s c r)
      publish-IsPolled p s c (err e) = (refl, refl, refl)
      publish-IsPolled p s c (ok m) =
          let f = λ (d : Device P.F). record d { measurement = m; measured_at = t.measured } in
          let s' = update s c.name f in
          let (n, o, k, l) = poll_rest-Kept p s' c in
          (
            refl,
            k ∙ ap (λ (d : Device P.F). d.measurement) (view-update s c.name f),
            l ∙ ap (λ (d : Device P.F). d.measured_at) (view-update s c.name f),
            (λ x other. o x other ∙ device-update_other s c.name x f other),
            n,
          )

      -- A poll whose measurement fails changes neither the store nor the client and returns that error.
      -- One whose measurement is read succeeds, and whatever the secondary endpoints answer, the store
      -- then holds that measurement and the time of its reading under the client's name, every other
      -- device's view is what it was, and the client is still that of the same device.
      pub poll-IsPolled :
          (p : Settings) (s : Store P.F) (c : Client)
          → IsPolled s c (Client.measurement P J net c) (poll P J p net t s c)
      unfolding poll
      poll-IsPolled p s c = publish-IsPolled p s c (Client.measurement P J net c)
