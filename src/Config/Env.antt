-- ===== src/Config/Env.antt =====
-- config.go: `TokenEnvVar`, the table `envVars`, `applyEnv`. The environment is a function of the
-- code points of a variable's name.
use homewizard_exporter.Prelude.{
  ℕ, ◌-◌, String, Bool, true, false, ◌&&◌, ◌||◌, Option, none, some, List, [], ◌∷◌, ◌++◌, map,
  str_eq, leb, ◌==◌, if◌then◌else◌,
}
use homewizard_exporter.Text.{codes, trim_space, split}
use homewizard_exporter.Config.{Config, Device, bare_device}

abbrev pub Env : Type 0
Env = List ℕ → Option String

-- `os.Getenv`
abbrev pub getenv : Env → List ℕ → String
getenv env name = elim (env name) [ none ↦ "" | some v ↦ v ]

-- `strings.ToUpper` at one character, as far as the result is a capital letter or a digit: the
-- letters a to z, and the only other characters with an ASCII capital, U+0131 and U+017F.
unfoldable pub to_upper : ℕ → ℕ
to_upper c =
    if leb b'a' c && leb c b'z'
    then c - 32
    else if c == 0x131
    then b'I'
    else if c == 0x17f
    then b'S'
    else c

unfoldable pub env_char : ℕ → ℕ
unfolding to_upper
env_char c =
    let r = to_upper c in
    if (leb b'A' r && leb r b'Z') || (leb b'0' r && leb r b'9') then r else b'_'

-- `TokenEnvVar`
unfoldable pub token_env_var : Device → List ℕ
unfolding env_char
token_env_var d = codes "HOMEWIZARD_TOKEN_" ++ map env_char (codes d.name)

-- The hosts of `HOMEWIZARD_DEVICES`.
unfoldable pub listed_devices : List String → List Device
unfolding trim_space
listed_devices [] = []
listed_devices (part ∷ parts) =
    let rest = listed_devices parts in
    let host = trim_space part in if str_eq host "" then rest else bare_device host ∷ rest

-- `strconv.ParseBool`
unfoldable pub parse_bool : String → Option Bool
parse_bool s =
    if str_eq s "1"
      || str_eq s "t"
      || str_eq s "T"
      || str_eq s "true"
      || str_eq s "TRUE"
      || str_eq s "True"
    then some true
    else if str_eq s "0"
        || str_eq s "f"
        || str_eq s "F"
        || str_eq s "false"
        || str_eq s "FALSE"
        || str_eq s "False"
    then some false
    else none

unfoldable pub apply_devices : String → Config → Config
unfolding listed_devices split
apply_devices v c = record c { devices = c.devices ++ listed_devices (split v b',') }

unfoldable pub apply_listen : String → Config → Config
apply_listen v c = record c { server = record (c.server) { listen = v } }

unfoldable pub apply_log_level : String → Config → Config
apply_log_level v c = record c { log = record (c.log) { level = v } }

unfoldable pub apply_log_format : String → Config → Config
apply_log_format v c = record c { log = record (c.log) { format = v } }

abbrev set_enabled : Option Bool → Config → Config
set_enabled none c = c
set_enabled (some b) c = record c { dashboard = record (c.dashboard) { enabled = b } }

unfoldable pub apply_dashboard : String → Config → Config
unfolding parse_bool
apply_dashboard v c = set_enabled (parse_bool v) c

-- `envVars`
abbrev pub env_vars : List (String × (String → Config → Config))
unfolding apply_devices apply_listen apply_log_level apply_log_format apply_dashboard
env_vars =
    ("HOMEWIZARD_DEVICES", apply_devices)
    ∷ ("HOMEWIZARD_LISTEN", apply_listen)
    ∷ ("HOMEWIZARD_LOG_LEVEL", apply_log_level)
    ∷ ("HOMEWIZARD_LOG_FORMAT", apply_log_format)
    ∷ ("HOMEWIZARD_DASHBOARD", apply_dashboard)
    ∷ []

-- `EnvVarNames`
unfoldable pub env_var_names : List String
unfolding env_vars
env_var_names = map (λ e. e.0) env_vars ++ "HOMEWIZARD_TOKEN_<DEVICE>" ∷ []

unfoldable pub apply_vars : List (String × (String → Config → Config)) → Env → Config → Config
apply_vars [] env c = c
apply_vars ((name, apply) ∷ vars) env c =
    let v = getenv env (codes name) in apply_vars vars env (if str_eq v "" then c else apply v c)

-- `applyEnv`
unfoldable pub apply_env : Env → Config → Config
unfolding apply_vars env_vars
apply_env env c = apply_vars env_vars env c
