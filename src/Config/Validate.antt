-- ===== src/Config/Validate.antt =====
-- config.go: `Validate`. The result is the list of problems, in the order of the source; the
-- configuration is accepted when it is empty.
pub mod Laws
use homewizard_exporter.Prelude.{
  ℕ, suc, ◌+◌, ◌/◌, String, Bool, not, ◌&&◌, ◌||◌, Option, none, some, List, [], ◌∷◌, ◌++◌, str_eq,
  starts_with, if◌then◌else◌, is_empty,
}
use homewizard_exporter.Prelude.Int.{ℤ, pos, leb_ℤ, ltb_ℤ}
use homewizard_exporter.Text.{contains}
use homewizard_exporter.Config.{
  Config, Device, Poll, Server, Dashboard, Log, min_interval, api_auto, api_v1, api_v2, tls_verify,
  tls_insecure, has_token,
}
use homewizard_exporter.Config.Problems.{
  Problem, no_devices, host_required, host_is_url, duplicate_name, bad_api_version, token_missing,
  bad_tls_mode, interval_too_short, poll_interval_too_short, system_interval_not_positive,
  timeout_not_positive, stale_after_not_positive, stale_after_too_short, listen_required,
  bad_metrics_path, bad_dashboard_path, path_clash, refresh_not_positive, bad_log_level,
  bad_log_format, report,
}

-- `seen[name]`
unfoldable pub lookup_seen : String → List (String × ℕ) → Option ℕ
lookup_seen name [] = none
lookup_seen name ((n, i) ∷ seen) = if str_eq n name then some i else lookup_seen name seen

unfoldable pub check_host : ℕ → Device → List Problem
check_host i d =
    if str_eq d.host ""
    then host_required i ∷ []
    else if contains d.host "://"
    then host_is_url i ∷ []
    else []

abbrev check_name : ℕ → Option ℕ → List Problem
check_name i none = []
check_name i (some first) = duplicate_name i first ∷ []

abbrev is_api_version : String → Bool
is_api_version v = str_eq v api_auto || str_eq v api_v1 || str_eq v api_v2

abbrev is_tls_mode : String → Bool
is_tls_mode m = str_eq m tls_verify || str_eq m tls_insecure

-- The checks of one device but the one of its name.
unfoldable pub check_device : (String → Bool) → ℕ → Device → List Problem
check_device exists i d =
    report (not (is_api_version d.api_version)) (bad_api_version i)
    ++ report (str_eq d.api_version api_v2 && not (has_token exists d)) (token_missing i)
    ++ report (not (is_tls_mode d.tls.mode)) (bad_tls_mode i)
    ++ report (ltb_ℤ (pos 0) d.interval && ltb_ℤ d.interval min_interval) (interval_too_short i)

-- `seen` after a device: a duplicate and an empty name are not entered.
abbrev enter : ℕ → String → Option ℕ → List (String × ℕ) → List (String × ℕ)
enter i name (some first) seen = seen
enter i name none seen = if str_eq name "" then seen else (name, i) ∷ seen

unfoldable pub check_devices : (String → Bool) → ℕ → List (String × ℕ) → List Device → List Problem
check_devices exists i seen [] = []
check_devices exists i seen (d ∷ ds) =
    let known = lookup_seen d.name seen in
    check_host i d
    ++ check_name i known
    ++ check_device exists i d
    ++ check_devices exists (suc i) (enter i d.name known seen) ds

unfoldable pub check_poll : Poll → List Problem
check_poll p =
    report (ltb_ℤ p.interval min_interval) poll_interval_too_short
    ++ report (leb_ℤ p.system_interval (pos 0)) system_interval_not_positive
    ++ report (leb_ℤ p.timeout (pos 0)) timeout_not_positive
    ++ (if leb_ℤ p.stale_after (pos 0)
        then stale_after_not_positive ∷ []
        else report (leb_ℤ p.stale_after p.interval) stale_after_too_short)

unfoldable pub check_server : Server → List Problem
check_server s =
    report (str_eq s.listen "") listen_required
    ++ report (not (starts_with s.metrics_path "/")) bad_metrics_path

unfoldable pub check_dashboard : Server → Dashboard → List Problem
check_dashboard s d =
    if d.enabled
    then report (not (starts_with d.path "/")) bad_dashboard_path
      ++ report (str_eq d.path s.metrics_path) path_clash
      ++ report (leb_ℤ d.refresh (pos 0)) refresh_not_positive
    else []

abbrev is_level : String → Bool
is_level l = str_eq l "debug" || str_eq l "info" || str_eq l "warn" || str_eq l "error"

abbrev is_format : String → Bool
is_format f = str_eq f "text" || str_eq f "json"

unfoldable pub check_log : Log → List Problem
check_log l =
    report (not (is_level l.level)) bad_log_level
    ++ report (not (is_format l.format)) bad_log_format

-- `Validate`
unfoldable pub validate : (String → Bool) → Config → List Problem
validate exists c =
    report (is_empty c.devices) no_devices
    ++ check_devices exists 0 [] c.devices
    ++ check_poll c.poll
    ++ check_server c.server
    ++ check_dashboard c.server c.dashboard
    ++ check_log c.log
