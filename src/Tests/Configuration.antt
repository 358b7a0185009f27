-- ===== src/Tests/Configuration.antt =====
-- The configuration's properties at a file with one device.
use homewizard_exporter.Text.{contains, trim_space, split, is_space, trim_left, trim_right}
use homewizard_exporter.Prelude.{◌*◌, String, ◌≡◌, refl, ◌↔◌, Bool, false, none, some, [], ◌∷◌}
use homewizard_exporter.Prelude.Int.{pos}
use homewizard_exporter.Time.{second}
use homewizard_exporter.Config.{Config, has_token}
use homewizard_exporter.Config.Env.{Env, to_upper, token_env_var, apply_vars, apply_env, env_char}
use homewizard_exporter.Config.Normalise.{
  normalise, or_default, normalise_devices, normalise_device, or_interval,
}
use homewizard_exporter.Config.Normalise.Laws.{normalise_idem}
use homewizard_exporter.Config.Validate.{
  validate, check_host, lookup_seen, check_log, check_server, check_dashboard, check_device,
  check_devices, check_poll,
}
use homewizard_exporter.Config.Validate.Laws.{IsValid, validate_iff}
use homewizard_exporter.Config.Load.{
  World, ok, contents, load, has_settings, is_bare, has_settings_in, load_unvalidated,
}
use homewizard_exporter.Config.Load.Laws.{load_sound}
use homewizard_exporter.Tests.Samples.{p1, one_device}

abbrev nowhere : String → Bool
nowhere path = false

abbrev no_env : Env
no_env name = none

abbrev world : World
world = record {
  env = no_env;
  read_file = λ path. contents "devices: [p1]";
  exists = nowhere;
  unmarshal = λ b c. some one_device;
}

-- The configuration as it is loaded.
abbrev loaded : Config
loaded = record one_device { devices = record p1 { interval = pos (10 * second) } ∷ [] }

validate_iff_example : (validate nowhere one_device ≡ []) ↔ IsValid nowhere one_device
validate_iff_example = validate_iff nowhere one_device

one_device_accepted : validate nowhere one_device ≡ []
unfolding validate check_devices check_host contains lookup_seen check_device check_poll
    check_server check_dashboard check_log
one_device_accepted = refl

normalise_idem_example :
    normalise no_env (normalise no_env one_device) ≡ normalise no_env one_device
normalise_idem_example = normalise_idem no_env one_device

loads : load world "config.yml" ≡ ok loaded
unfolding load load_unvalidated has_settings has_settings_in split is_bare trim_space validate
    normalise normalise_devices apply_env check_devices check_host normalise_device contains
    lookup_seen check_device or_default apply_vars env_char to_upper token_env_var or_interval
    check_dashboard check_log check_poll check_server has_token is_space trim_left trim_right
loads = refl

load_sound_example : IsValid nowhere loaded × (normalise no_env loaded ≡ loaded)
load_sound_example = load_sound world "config.yml" loads
