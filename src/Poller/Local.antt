-- ===== src/Poller/Local.antt =====
-- poller.go: what a round reads of the snapshot. Two stores that show one device alike, whatever they
-- show of the others, and the steps of a round from both.
use homewizard_exporter.Prelude.{
  String, ◌≡◌, refl, sym, ap, ◌∙◌, inl, inr, Bool, true, false, Option, some, eq_iff, Bool-cases,
}
use mathlib.Core.Path.{subst}
use homewizard_exporter.Time.{Duration}
use homewizard_exporter.Homewizard.Errors.{Result, ok, err, Error, errors_is, not_found}
use homewizard_exporter.Homewizard.Timestamps.{Platform}
use homewizard_exporter.Homewizard.Models.{Measurement}
use homewizard_exporter.Homewizard.Client
use homewizard_exporter.Homewizard.Client.{Client, Net, Codec, disable}
use homewizard_exporter.Snapshot.{Device}
use homewizard_exporter.Snapshot.Store.{Store, device, or_new, update}
use homewizard_exporter.Snapshot.Store.Laws.{device-update}
use homewizard_exporter.Poller.{
  Settings, Clock, publish_identity, note_secondary, settle, poll_state, poll_system,
  poll_batteries, poll_slow, slow_if, publish, poll_rest, is_due, due, poll,
}
use homewizard_exporter.Poller.Laws.{disable-name}

module _ (P : Platform) (n : String) where
  -- The stores show the device alike, and the client is one and the same, of that device.
  abbrev pub Agree : Store P.F × Client → Store P.F × Client → Type 0
  Agree (s, c) (s', c') = (c ≡ c') × (c.name ≡ n) × (device s n ≡ device s' n)

  -- A step that keeps the agreement of two stores under one client.
  abbrev IsLocal : (Store P.F → Client → Store P.F × Client) → Type 0
  IsLocal f =
      (s s' : Store P.F) (c : Client)
      → c.name ≡ n
      → device s n ≡ device s' n
      → Agree (f s c) (f s' c)

  lift :
      (f : Store P.F → Client → Store P.F × Client)
      → IsLocal f
      → (a b : Store P.F × Client) → Agree a b
      → Agree (f a.0 a.1) (f b.0 b.1)
  lift f local (s, c) (s', c') (e, m, h) = subst (λ x. Agree (f s c) (f s' x)) e (local s s' c m h)

  IsLocal-id : IsLocal (λ s c. (s, c))
  IsLocal-id s s' c m h = (refl, m, h)

  device-update_own :
      (s : Store P.F) (m : String) (f : Device P.F → Device P.F)
      → m ≡ n
      → device (update s m f) n ≡ some (f (or_new m (device s m)))
  device-update_own s m f e = device-update s m n f ∙ rw ((eq_iff m n).1 e) refl

  pub update-same :
      (s s' : Store P.F) (m : String) (f : Device P.F → Device P.F)
      → m ≡ n
      → device s n ≡ device s' n
      → device (update s m f) n ≡ device (update s' m f) n
  update-same s s' m f e h =
      device-update_own s m f e
      ∙ ap (λ d. some (f (or_new m d))) (ap (device s) e ∙ h ∙ sym (ap (device s') e))
      ∙ sym (device-update_own s' m f e)

  module _ (J : Codec P.F) where
    note_secondary-IsLocal :
        (endpoint : String) (e : Error) → IsLocal (note_secondary P J endpoint e)
    unfolding note_secondary
    note_secondary-IsLocal endpoint e s s' c m h = elim (Bool-cases (errors_is e not_found)) [
      | inl gone ↦ rw gone (refl, disable-name P endpoint c ∙ m, update-same s s' c.name _ m h)
      | inr other ↦ rw other (refl, m, h)
    ]

    settle-IsLocal {ℓ} :
        {A : Type ℓ} (endpoint : String) (write : A → Device P.F → Device P.F)
        (ask : Client → Result A)
        → IsLocal (λ s c. settle P J endpoint write (ask c) s c)
    settle-IsLocal endpoint write ask s s' c m h = go (ask c)
      where
        go :
            (r : Result _)
            → Agree (settle P J endpoint write r s c) (settle P J endpoint write r s' c)
        go (ok a) = (refl, m, update-same s s' c.name (write a) m h)
        go (err e) = note_secondary-IsLocal endpoint e s s' c m h

    module _ (net : Net) (t : Clock) where
      poll_state-IsLocal : IsLocal (poll_state P J net t)
      unfolding poll_state
      poll_state-IsLocal s s' c m h = elim (Bool-cases c.caps.state) [
        | inl on ↦ simp on (settle-IsLocal "state" _ (Client.state P J net) s s' c m h)
        | inr off ↦ simp off (refl, m, h)
      ]

      poll_system-IsLocal : IsLocal (poll_system P J net t)
      unfolding poll_system
      poll_system-IsLocal s s' c m h = elim (Bool-cases c.caps.system) [
        | inl on ↦ simp on (settle-IsLocal "system" _ (Client.system P J net) s s' c m h)
        | inr off ↦ simp off (refl, m, h)
      ]

      poll_batteries-IsLocal : (wanted : Bool) → IsLocal (poll_batteries P J wanted net t)
      unfolding poll_batteries
      poll_batteries-IsLocal true s s' c m h =
          settle-IsLocal "batteries" _ (Client.batteries P J net) s s' c m h
      poll_batteries-IsLocal false s s' c m h = (refl, m, h)

      poll_slow-IsLocal : IsLocal (poll_slow P J net t)
      unfolding poll_slow
      poll_slow-IsLocal s s' c m h =
          lift (poll_batteries P J c.caps.batteries net t) (poll_batteries-IsLocal c.caps.batteries)
            (poll_system P J net t s c) (poll_system P J net t s' c)
            (poll_system-IsLocal s s' c m h)

      slow_if-IsLocal : (ready : Bool) → IsLocal (slow_if P J ready net t)
      slow_if-IsLocal true s s' c m h = poll_slow-IsLocal s s' c m h
      slow_if-IsLocal false s s' c m h = (refl, m, h)

      -- The slow endpoints are due alike.
      due-same :
          (s s' : Store P.F) (m : String) (every : Duration)
          → m ≡ n
          → device s n ≡ device s' n
          → due P J s m t.due every ≡ due P J s' m t.due every
      unfolding due
      due-same s s' m every e h =
          ap (λ d. is_due P J d t.due every) (ap (device s) e ∙ h ∙ sym (ap (device s') e))

      poll_rest-IsLocal : (p : Settings) → IsLocal (poll_rest P J p net t)
      unfolding poll_rest
      poll_rest-IsLocal p s s' c m h =
          let a = poll_state P J net t s c in
          let b = poll_state P J net t s' c in
          let (e, k, same) = poll_state-IsLocal s s' c m h in
          let ready = due P J a.0 c.name t.due p.cfg.system_interval in
          let agree = lift (slow_if P J ready net t) (slow_if-IsLocal ready) a b (e, k, same) in
          subst (λ x. Agree (slow_if P J ready net t a.0 a.1) (slow_if P J x net t b.0 b.1))
            (due-same a.0 b.0 c.name p.cfg.system_interval m same) agree

      -- The outcomes of a poll agree, the errors included.
      abbrev pub AgreePolled :
          Store P.F × Client × Option Error → Store P.F × Client × Option Error → Type 0
      AgreePolled (s, c, x) (s', c', x') = Agree (s, c) (s', c') × (x ≡ x')

      publish-AgreePolled :
          (p : Settings) (s s' : Store P.F) (c : Client) (r : Result (Measurement P.F))
          → c.name ≡ n
          → device s n ≡ device s' n
          → AgreePolled (publish P J p net t s c r) (publish P J p net t s' c r)
      publish-AgreePolled p s s' c (err e) m h = ((refl, m, h), refl)
      publish-AgreePolled p s s' c (ok x) m h =
          (poll_rest-IsLocal p _ _ c m (update-same s s' c.name _ m h), refl)

      -- A poll reads of the store no more than the device that it polls.
      pub poll-AgreePolled :
          (p : Settings) (s s' : Store P.F) (c : Client)
          → c.name ≡ n
          → device s n ≡ device s' n
          → AgreePolled (poll P J p net t s c) (poll P J p net t s' c)
      unfolding poll
      poll-AgreePolled p s s' c m h =
          publish-AgreePolled p s s' c (Client.measurement P J net c) m h

    pub publish_identity-same :
        (s s' : Store P.F) (c : Client)
        → c.name ≡ n
        → device s n ≡ device s' n
        → device (publish_identity P J s c) n ≡ device (publish_identity P J s' c) n
    unfolding publish_identity
    publish_identity-same s s' c m h = update-same s s' c.name _ m h
