-- ===== src/Config.antt =====
-- internal/config/config.go: the configuration, its defaults, and how the environment and the
-- fallbacks complete it.
pub mod Env
pub mod Normalise
pub mod Problems
pub mod Validate
pub mod Load
use homewizard_exporter.Prelude.{
  ℕ, ◌*◌, ◌/◌, String, Bool, true, false, not, List, [], str_eq, if◌then◌else◌,
}
use homewizard_exporter.Prelude.Int.{ℤ, pos}
use homewizard_exporter.Time.{Duration, second, millisecond}

abbrev pub min_interval : Duration
min_interval = pos (500 * millisecond)

-- `type APIVersion string`: the file may hold any text, which `Validate` rejects later.
abbrev pub ApiVersion : Type 0
ApiVersion = String

abbrev pub api_auto : ApiVersion
api_auto = "auto"

abbrev pub api_v1 : ApiVersion
api_v1 = "v1"

abbrev pub api_v2 : ApiVersion
api_v2 = "v2"

abbrev pub TlsMode : Type 0
TlsMode = String

abbrev pub tls_verify : TlsMode
tls_verify = "verify"

abbrev pub tls_insecure : TlsMode
tls_insecure = "insecure"

pub record Tls : Type 0 where
  pub mode : TlsMode
  pub ca_file : String

pub record Device : Type 0 where
  pub name : String
  pub host : String
  pub api_version : ApiVersion
  pub type : String
  pub token : String
  pub token_file : String
  pub interval : Duration
  pub tls : Tls

pub record Poll : Type 0 where
  pub interval : Duration
  pub system_interval : Duration
  pub timeout : Duration
  pub stale_after : Duration

pub record Server : Type 0 where
  pub listen : String
  pub metrics_path : String
  pub read_timeout : Duration

pub record Dashboard : Type 0 where
  pub enabled : Bool
  pub path : String
  pub refresh : Duration

pub record Log : Type 0 where
  pub level : String
  pub format : String

pub record Config : Type 0 where
  pub devices : List Device
  pub poll : Poll
  pub server : Server
  pub dashboard : Dashboard
  pub log : Log

abbrev seconds : ℕ → Duration
seconds n = pos (n * second)

-- `Default`
abbrev pub default : Config
default = record {
  devices = [];
  poll = record {
    interval = seconds 10;
    system_interval = seconds 60;
    timeout = seconds 5;
    stale_after = seconds 60;
  };
  server = record { listen = ":9833"; metrics_path = "/metrics"; read_timeout = seconds 5 };
  dashboard = record { enabled = false; path = "/"; refresh = seconds 10 };
  log = record { level = "info"; format = "text" };
}

-- `Device{Host: host}`
abbrev pub bare_device : String → Device
bare_device host = record {
  name = "";
  host = host;
  api_version = "";
  type = "";
  token = "";
  token_file = "";
  interval = pos 0;
  tls = record { mode = ""; ca_file = "" };
}

-- `HasToken`, over what `os.Stat` answers
unfoldable pub has_token : (String → Bool) → Device → Bool
has_token exists d =
    if not (str_eq d.token "")
    then true
    else if str_eq d.token_file ""
    then false
    else exists d.token_file
