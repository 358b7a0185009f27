-- ===== src/Config/Problems.antt =====
-- config.go: the messages of `Validate`, as data. A number is the device's place in the list.
use homewizard_exporter.Prelude.{ℕ, ◌≡◌, ◌↔◌, Bool, true, false, List, [], ◌∷◌, arith}

pub data Problem : Type 0 where
  no_devices : Problem
  host_required : ℕ → Problem
  host_is_url : ℕ → Problem
  -- the second number is the first device that has the name
  duplicate_name : ℕ → ℕ → Problem
  bad_api_version : ℕ → Problem
  token_missing : ℕ → Problem
  bad_tls_mode : ℕ → Problem
  interval_too_short : ℕ → Problem
  poll_interval_too_short : Problem
  system_interval_not_positive : Problem
  timeout_not_positive : Problem
  stale_after_not_positive : Problem
  stale_after_too_short : Problem
  listen_required : Problem
  bad_metrics_path : Problem
  bad_dashboard_path : Problem
  path_clash : Problem
  refresh_not_positive : Problem
  bad_log_level : Problem
  bad_log_format : Problem

-- `if b { bad(p) }`
abbrev pub report : Bool → Problem → List Problem
report true p = p ∷ []
report false p = []

-- A check reports nothing exactly when its test fails.
pub report-nil : (b : Bool) (p : Problem) → (report b p ≡ []) ↔ (b ≡ false)
report-nil b p = ground arith
