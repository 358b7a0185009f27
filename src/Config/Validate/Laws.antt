-- ===== src/Config/Validate/Laws.antt =====
-- config.go: `Validate` against a description of a valid configuration.
use homewizard_exporter.Prelude.{
  ℕ, suc, String, ◌≡◌, refl, ◌≢◌, ◌↔◌, ◌⊎◌, Bool, true, false, none, List, [], ◌∷◌, arith,
  starts_with, eq_iff, is_empty, append-eq-nil, append-nil_of, All,
}
use homewizard_exporter.Prelude.Int.{pos, ◌≤ℤ◌, ◌<ℤ◌}
use homewizard_exporter.Text.{contains}
use homewizard_exporter.Config.{
  Config, Device, Poll, Server, Dashboard, Log, min_interval, api_auto, api_v1, api_v2, tls_verify,
  tls_insecure, has_token,
}
use homewizard_exporter.Config.Problems.{no_devices, report}
use homewizard_exporter.Config.Validate.{
  lookup_seen, check_host, check_device, check_devices, check_poll, check_server, check_dashboard,
  check_log, validate, enter,
}

-- What a device must be on its own.
pub record IsValidDevice (exists : String → Bool) (d : Device) : Type 0 where
  pub host : d.host ≢ ""
  pub no_url : contains d.host "://" ≡ false
  pub version : (d.api_version ≡ api_auto) ⊎ ((d.api_version ≡ api_v1) ⊎ (d.api_version ≡ api_v2))
  pub token : d.api_version ≡ api_v2 → has_token exists d ≡ true
  pub mode : (d.tls.mode ≡ tls_verify) ⊎ (d.tls.mode ≡ tls_insecure)
  pub interval : pos 0 <ℤ d.interval → min_interval ≤ℤ d.interval

-- No two devices share a name, unless it is empty.
abbrev pub HasDistinctNames : List Device → Type 0
HasDistinctNames [] = Unit
HasDistinctNames (d ∷ ds) = All (λ e. e.name ≡ d.name → d.name ≡ "") ds × HasDistinctNames ds

pub record IsValidPoll (p : Poll) : Type 0 where
  pub interval : min_interval ≤ℤ p.interval
  pub system : pos 0 <ℤ p.system_interval
  pub timeout : pos 0 <ℤ p.timeout
  pub stale : p.interval <ℤ p.stale_after

pub record IsValidDashboard (s : Server) (d : Dashboard) : Type 0 where
  pub path : starts_with d.path "/" ≡ true
  pub apart : d.path ≢ s.metrics_path
  pub refresh : pos 0 <ℤ d.refresh

pub record IsValidLog (l : Log) : Type 0 where
  pub level :
      (l.level ≡ "debug") ⊎ ((l.level ≡ "info") ⊎ ((l.level ≡ "warn") ⊎ (l.level ≡ "error")))
  pub format : (l.format ≡ "text") ⊎ (l.format ≡ "json")

pub record IsValid (exists : String → Bool) (c : Config) : Type 0 where
  pub nonempty : c.devices ≢ []
  pub devices : All (IsValidDevice exists) c.devices
  pub names : HasDistinctNames c.devices
  pub poll : IsValidPoll c.poll
  pub listen : c.server.listen ≢ ""
  pub metrics_path : starts_with c.server.metrics_path "/" ≡ true
  pub dashboard : c.dashboard.enabled ≡ true → IsValidDashboard c.server c.dashboard
  pub log : IsValidLog c.log

check_one_iff :
    (exists : String → Bool) (i : ℕ) (d : Device)
    → ((check_host i d ≡ []) × (check_device exists i d ≡ [])) ↔ IsValidDevice exists d
unfolding check_host check_device
check_one_iff exists i d = ground (
  arith,
  eq_iff d.host "",
  eq_iff d.api_version "auto",
  eq_iff d.api_version "v1",
  eq_iff d.api_version "v2",
  eq_iff d.tls.mode "verify",
  eq_iff d.tls.mode "insecure",
)

check_log_iff : (l : Log) → (check_log l ≡ []) ↔ IsValidLog l
unfolding check_log
check_log_iff l = ground (
  arith,
  eq_iff l.level "debug",
  eq_iff l.level "info",
  eq_iff l.level "warn",
  eq_iff l.level "error",
  eq_iff l.format "text",
  eq_iff l.format "json",
)

check_poll_iff : (p : Poll) → (check_poll p ≡ []) ↔ IsValidPoll p
unfolding check_poll
check_poll_iff p = ground arith

check_dashboard_iff :
    (s : Server) (d : Dashboard)
    → (check_dashboard s d ≡ []) ↔ (d.enabled ≡ true → IsValidDashboard s d)
unfolding check_dashboard
check_dashboard_iff s d = ground (arith, eq_iff d.path s.metrics_path)

check_server_iff :
    (s : Server)
    → (check_server s ≡ []) ↔ ((s.listen ≢ "") × (starts_with s.metrics_path "/" ≡ true))
unfolding check_server
check_server_iff s = ground (arith, eq_iff s.listen "")

-- A name is unseen after a device that was itself unseen, if it was so before and is another name.
lookup_seen-enter :
    (i : ℕ) (n m : String) (seen : List (String × ℕ))
    → (lookup_seen m (enter i n none seen) ≡ none)
      ↔ ((lookup_seen m seen ≡ none) × (m ≡ n → n ≡ ""))
unfolding lookup_seen
lookup_seen-enter i n m seen = ground (arith, eq_iff n "", eq_iff n m)

module _ (seen : List (String × ℕ)) where
  abbrev IsUnseen : Device → Type 0
  IsUnseen d = lookup_seen d.name seen ≡ none

All-enter :
    (i : ℕ) (d : Device) (seen : List (String × ℕ)) (ds : List Device)
    → All (IsUnseen (enter i d.name none seen)) ds
      ↔ (All (IsUnseen seen) ds × All (λ e. e.name ≡ d.name → d.name ≡ "") ds)
All-enter i d seen [] = (λ _. (tt, tt), λ _. tt)
All-enter i d seen (e ∷ ds) =
    let one = lookup_seen-enter i d.name e.name seen in
    let more = All-enter i d seen ds in
    (
      λ h. (((one.0 h.0).0, (more.0 h.1).0), ((one.0 h.0).1, (more.0 h.1).1)),
      λ h. (one.1 (h.0.0, h.1.0), more.1 (h.0.1, h.1.1)),
    )

-- The parts of the report on one device and those after it.
check_devices-cons :
    (exists : String → Bool) (i : ℕ) (seen : List (String × ℕ)) (d : Device) (ds : List Device)
    → (check_devices exists i seen (d ∷ ds) ≡ []) ↔ (
        IsValidDevice exists d
        × (lookup_seen d.name seen ≡ none)
        × (check_devices exists (suc i) (enter i d.name none seen) ds ≡ []))
unfolding check_devices
check_devices-cons exists i seen d ds = ground (arith, check_one_iff exists i d)

check_devices_iff :
    (exists : String → Bool) (i : ℕ) (seen : List (String × ℕ)) (ds : List Device)
    → (check_devices exists i seen ds ≡ [])
      ↔ (All (IsValidDevice exists) ds × All (IsUnseen seen) ds × HasDistinctNames ds)
check_devices_iff exists i seen [] = unfold check_devices in (λ _. (tt, tt, tt), λ _. refl)
check_devices_iff exists i seen (d ∷ ds) =
    let one = check_devices-cons exists i seen d ds in
    let more = check_devices_iff exists (suc i) (enter i d.name none seen) ds in
    let names = All-enter i d seen ds in
    (
      λ h.
          let (valid, unseen, rest) = one.0 h in
          let (valids, unseens, distinct) = more.0 rest in
          let (before, apart) = names.0 unseens in
          ((valid, valids), (unseen, before), (apart, distinct)),
      λ h. one.1 (h.0.0, h.1.0, more.1 (h.0.1, names.1 (h.1.1, h.2.0), h.2.1)),
    )

All-IsUnseen-nil : (ds : List Device) → All (IsUnseen []) ds
unfolding lookup_seen
All-IsUnseen-nil [] = tt
All-IsUnseen-nil (d ∷ ds) = (refl, All-IsUnseen-nil ds)

is_empty-report : (ds : List Device) → ds ≢ [] → report (is_empty ds) no_devices ≡ []
is_empty-report [] h = absurd (h refl)
is_empty-report (d ∷ ds) h = refl

nonempty_of_report : (ds : List Device) → report (is_empty ds) no_devices ≡ [] → ds ≢ []
nonempty_of_report [] h = cc
nonempty_of_report (d ∷ ds) h = cc

-- A configuration is accepted, with no problem reported, exactly when it has a device, each device
-- is valid on its own, no two share a name, and the poll, server, dashboard and log sections are
-- valid; `exists` is what `os.Stat` says of the token files.
pub validate_iff :
    (exists : String → Bool) (c : Config) → (validate exists c ≡ []) ↔ IsValid exists c
unfolding validate
validate_iff exists c =
    let ds = check_devices_iff exists 0 [] c.devices in
    let server = check_server_iff c.server in
    (
      λ h.
          let (h1, log) = append-eq-nil _ _ h in
          let (h2, dashboard) = append-eq-nil _ _ h1 in
          let (h3, served) = append-eq-nil _ _ h2 in
          let (h4, poll) = append-eq-nil _ _ h3 in
          let (some_device, devices) = append-eq-nil _ _ h4 in
          record {
            nonempty = nonempty_of_report c.devices some_device;
            devices = (ds.0 devices).0;
            names = (ds.0 devices).2;
            poll = (check_poll_iff c.poll).0 poll;
            listen = (server.0 served).0;
            metrics_path = (server.0 served).1;
            dashboard = (check_dashboard_iff c.server c.dashboard).0 dashboard;
            log = (check_log_iff c.log).0 log;
          },
      λ v.
          append-nil_of
            (append-nil_of
              (append-nil_of
                (append-nil_of
                  (append-nil_of (is_empty-report c.devices v.nonempty)
                    (ds.1 (v.devices, All-IsUnseen-nil c.devices, v.names)))
                  ((check_poll_iff c.poll).1 v.poll))
                (server.1 (v.listen, v.metrics_path)))
              ((check_dashboard_iff c.server c.dashboard).1 v.dashboard))
            ((check_log_iff c.log).1 v.log),
    )
