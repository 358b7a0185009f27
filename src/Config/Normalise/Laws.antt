-- ===== src/Config/Normalise/Laws.antt =====
-- config.go: the results of `normalise`.
use homewizard_exporter.Prelude.{String, ◌≡◌, refl, ◌≢◌, List, [], ◌∷◌, arith, eq_iff}
use homewizard_exporter.Text.{trim_space}
use homewizard_exporter.Text.Trim.{trim_space_idem}
use homewizard_exporter.Time.{Duration}
use homewizard_exporter.Config.{Config, Device}
use homewizard_exporter.Config.Env.{Env, token_env_var}
use homewizard_exporter.Config.Normalise.{
  or_default, or_interval, normalise_device, normalise_devices, normalise,
}

or_default_idem : (s t : String) → or_default s (or_default s t) ≡ or_default s t
unfolding or_default
or_default_idem s t = ground arith

or_default_twice : (s t : String) → or_default (or_default s t) t ≡ or_default s t
unfolding or_default
or_default_twice s t = ground (arith, eq_iff s "", eq_iff t "")

or_interval_twice : (d p : Duration) → or_interval (or_interval d p) p ≡ or_interval d p
unfolding or_interval
or_interval_twice d p = ground arith

trim_space-or_default :
    (s t : String)
    → trim_space (or_default (trim_space s) (trim_space t))
      ≡ or_default (trim_space s) (trim_space t)
unfolding or_default
trim_space-or_default s t = ground (arith, trim_space_idem s, trim_space_idem t)

normalise_device_idem :
    (env : Env) (p : Duration) (d : Device)
    → normalise_device env p (normalise_device env p d) ≡ normalise_device env p d
unfolding normalise_device token_env_var
normalise_device_idem env p d =
    simp
      (trim_space_idem, trim_space-or_default, or_default_twice, or_default_idem, or_interval_twice)

normalise_devices_idem :
    (env : Env) (p : Duration) (ds : List Device)
    → normalise_devices env p (normalise_devices env p ds) ≡ normalise_devices env p ds
unfolding normalise_devices
normalise_devices_idem env p [] = refl
normalise_devices_idem env p (d ∷ ds) =
    cc (normalise_device_idem env p d, normalise_devices_idem env p ds)

-- Normalising a normalised configuration changes nothing, in any environment.
pub normalise_idem : (env : Env) (c : Config) → normalise env (normalise env c) ≡ normalise env c
unfolding normalise
normalise_idem env c = cc (normalise_devices_idem env c.poll.interval c.devices)

-- A device as the code behind `Load` reads it.
pub record IsNormal (d : Device) : Type 0 where
  pub name : d.name ≡ "" → d.host ≡ ""
  pub trimmed : trim_space d.name ≡ d.name
  pub host_trimmed : trim_space d.host ≡ d.host
  pub api_version : d.api_version ≢ ""
  pub mode : d.tls.mode ≢ ""
