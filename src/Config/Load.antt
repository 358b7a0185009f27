-- ===== src/Config/Load.antt =====
-- config.go: `hasSettings`, `LoadUnvalidated`, `Load`. What the file system answers and what the
-- YAML library makes of a document are parameters.
pub mod Laws
use homewizard_exporter.Prelude.{
  starts_with, String, Bool, false, not, ◌||◌, Option, none, some, List, [], ◌∷◌, str_eq,
  if◌then◌else◌,
}
use homewizard_exporter.Text.{trim_space, split}
use homewizard_exporter.Config.{Config, default}
use homewizard_exporter.Config.Env.{Env, apply_env}
use homewizard_exporter.Config.Normalise.{normalise}
use homewizard_exporter.Config.Problems.{Problem}
use homewizard_exporter.Config.Validate.{validate}

-- What `os.ReadFile` returns.
pub data FileRead : Type 0 where
  contents : String → FileRead
  not_exist : FileRead
  failed : FileRead

pub data LoadError : Type 0 where
  no_config_file : LoadError
  read_config : LoadError
  parse_config : LoadError
  invalid : List Problem → LoadError

pub data Loaded : Type 0 where
  ok : Config → Loaded
  err : LoadError → Loaded

-- One line of the document that is blank, a comment or a document marker.
unfoldable pub is_bare : String → Bool
is_bare trimmed =
    str_eq trimmed "" || str_eq trimmed "---" || str_eq trimmed "..." || starts_with trimmed "#"

unfoldable pub has_settings_in : List String → Bool
has_settings_in [] = false
has_settings_in (line ∷ lines) = not (is_bare (trim_space line)) || has_settings_in lines

-- `hasSettings`. A line's own line break is white space, and so is the text after the last one.
unfoldable pub has_settings : String → Bool
has_settings b = has_settings_in (split b 10)

pub record World : Type 0 where
  pub env : Env
  pub read_file : String → FileRead
  pub exists : String → Bool
  -- `yaml.UnmarshalWithOptions` over a configuration that is already filled in
  pub unmarshal : String → Config → Option Config

abbrev finish : World → Option Config → Loaded
finish w none = err parse_config
finish w (some c) = ok (normalise w.env (apply_env w.env c))

abbrev parse_file : World → FileRead → Loaded
parse_file w not_exist = err no_config_file
parse_file w failed = err read_config
parse_file w (contents b) =
    finish w (if has_settings b then w.unmarshal b default else some default)

-- `LoadUnvalidated`
unfoldable pub load_unvalidated : World → String → Loaded
load_unvalidated w path =
    if str_eq path "" then finish w (some default) else parse_file w (w.read_file path)

abbrev check : Config → List Problem → Loaded
check c [] = ok c
check c (p ∷ ps) = err (invalid (p ∷ ps))

abbrev validated : World → Loaded → Loaded
validated w (err e) = err e
validated w (ok c) = check c (validate w.exists c)

-- `Load`
unfoldable pub load : World → String → Loaded
load w path = validated w (load_unvalidated w path)
