-- ===== src/Config/Normalise.antt =====
-- config.go: `normalise`.
pub mod Laws
use homewizard_exporter.Prelude.{String, List, [], ◌∷◌, str_eq, if◌then◌else◌}
use homewizard_exporter.Prelude.Int.{pos, leb_ℤ}
use homewizard_exporter.Text.{trim_space}
use homewizard_exporter.Time.{Duration}
use homewizard_exporter.Config.{Config, Device, api_auto, tls_verify}
use homewizard_exporter.Config.Env.{Env, getenv, token_env_var}

-- The first text, or the second where that is empty.
unfoldable pub or_default : String → String → String
or_default s t = if str_eq s "" then t else s

-- The loop body; the token's variable is named by the device name that the body has just set.
-- The device's own interval, where it is positive.
unfoldable pub or_interval : Duration → Duration → Duration
or_interval interval poll_interval = if leb_ℤ interval (pos 0) then poll_interval else interval

unfoldable pub normalise_device : Env → Duration → Device → Device
normalise_device env poll_interval d =
    let host = trim_space d.host in
    let d' = record d {
      host = host;
      name = or_default (trim_space d.name) host;
      api_version = or_default d.api_version api_auto;
      tls = record (d.tls) { mode = or_default d.tls.mode tls_verify };
      interval = or_interval d.interval poll_interval;
    } in
    record d' { token = or_default (getenv env (token_env_var d')) d'.token }

unfoldable pub normalise_devices : Env → Duration → List Device → List Device
normalise_devices env poll_interval [] = []
normalise_devices env poll_interval (d ∷ ds) =
    normalise_device env poll_interval d ∷ normalise_devices env poll_interval ds

-- `normalise`
unfoldable pub normalise : Env → Config → Config
normalise env c = record c { devices = normalise_devices env c.poll.interval c.devices }
