-- ===== src/Command/Main.antt =====
-- cmd/homewizard_exporter/main.go: what is run for the arguments, and with which level the log begins.
-- The flags are parsed by the flag package; what they hold is a parameter.
use homewizard_exporter.Prelude.{
  String, Bool, not, List, [], ◌∷◌, str_eq, starts_with, if◌then◌else◌,
}
use homewizard_exporter.Config.{Config, Log}
use homewizard_exporter.Config.Load.{World, Loaded, ok, err, LoadError, load}
use homewizard_exporter.Command.Check.{Warning, Row, config_warnings, rows}

-- What `run` does with the arguments behind the program's name.
pub data Action : Type 0 where
  run_pairing : List String → Action
  run_discovery : List String → Action
  run_capturing : List String → Action
  show_help : Action
  unknown_command : String → Action
  daemon : Action

abbrev command : String → List String → Action
command cmd args =
    if str_eq cmd "pair"
    then run_pairing args
    else if str_eq cmd "discover"
    then run_discovery args
    else if str_eq cmd "capture"
    then run_capturing args
    else if str_eq cmd "help"
    then show_help
    else unknown_command cmd

-- `run`
unfoldable pub run : List String → Action
run [] = daemon
run (arg ∷ args) = if not (starts_with arg "-") then command arg args else daemon

pub record Flags : Type 0 where
  pub config : String
  pub check : Bool
  pub version : Bool

-- How `runDaemon` goes on.
pub data Daemon : Type 0 where
  show_version : Daemon
  refuse : LoadError → Daemon
  -- `printCheck`
  report : List Row → List Warning → Daemon
  serve : Config → Daemon

abbrev loaded : World → Bool → Loaded → Daemon
loaded w check (err e) = refuse e
loaded w check (ok c) =
    if check then report (rows w.exists c) (config_warnings w.exists c) else serve c

-- `runDaemon`, up to the start of its goroutines
unfoldable pub run_daemon : World → Flags → Daemon
run_daemon w f = if f.version then show_version else loaded w f.check (load w f.config)

pub data Level : Type 0 where
  debug : Level
  info : Level
  warn : Level
  error : Level

pub data Format : Type 0 where
  json : Format
  text : Format

-- `newLogger`
unfoldable pub new_logger : Log → Level × Format
new_logger log = (
  if str_eq log.level "debug"
      then debug
      else if str_eq log.level "warn"
      then warn
      else if str_eq log.level "error"
      then error
      else info,
  if str_eq log.format "json" then json else text,
)
