-- ===== src/Command/Args.antt =====
-- cmd/homewizard_exporter/args.go: `extractHost` finds the one host among the arguments. What the
-- flag package knows of a flag is a parameter: `none` for a flag that is not defined, and else
-- whether it is boolean.
pub mod Laws
use Prim.Native.Char.{code}
use Prim.Native.String
use homewizard_exporter.Prelude.{
  ◌-◌, String, Bool, true, false, not, ◌&&◌, ◌||◌, Option, none, some, List, [], ◌∷◌, str_eq,
  starts_with, ◌==◌, if◌then◌else◌,
}
use homewizard_exporter.Text.{contains}

-- The host and the arguments that are left, or the argument that was not expected.
pub data Extracted : Type 0 where
  extracted : String → List String → Extracted
  unexpected : String → Extracted

-- `strings.TrimLeft(arg, "-")`
unfoldable pub trim_dashes : String → String
trim_dashes String.[] = ""
trim_dashes (String.◌∷◌ c s) = if code c == 45 then trim_dashes s else String.◌∷◌ c s

abbrev pub is_positional : String → Bool
is_positional arg = not (starts_with arg "-") || str_eq arg "-"

abbrev wants_value : Option Bool → Bool
wants_value none = false
wants_value (some is_bool) = not is_bool

-- The next argument is the value of this flag.
unfoldable pub takes_value : (String → Option Bool) → String → Bool
takes_value lookup arg = not (contains arg "=") && wants_value (lookup (trim_dashes arg))

abbrev pub keep : String → Extracted → Extracted
keep arg (extracted host rest) = extracted host (arg ∷ rest)
keep arg (unexpected other) = unexpected other

-- The loop, with the host so far and whether the next argument is a flag's value.
unfoldable pub extract : (String → Option Bool) → String → Bool → List String → Extracted
extract lookup host pending [] = extracted host []
extract lookup host true (value ∷ args) = keep value (extract lookup host false args)
extract lookup host false (arg ∷ args) =
    let first = extract lookup arg false args in
    let rest = extract lookup host (takes_value lookup arg) args in
    if str_eq arg "--"
    then extracted host (arg ∷ args)
    else if is_positional arg
    then (if not (str_eq host "") then unexpected arg else first)
    else keep arg rest

-- `extractHost`
unfoldable pub extract_host : (String → Option Bool) → List String → Extracted
extract_host lookup args = extract lookup "" false args

-- How `parseWithHost` ends.
pub data ParsedHost : Type 0 where
  host_given : String → ParsedHost
  unexpected_argument : String → ParsedHost
  bad_flags : ParsedHost
  no_host : ParsedHost

abbrev pub with_host : (List String → Bool) → Extracted → ParsedHost
with_host parses (unexpected arg) = unexpected_argument arg
with_host parses (extracted host rest) =
    if not (parses rest) then bad_flags else if str_eq host "" then no_host else host_given host

-- `parseWithHost`, with whether the flag package accepts the arguments that are left
unfoldable pub parse_with_host :
    (String → Option Bool) → (List String → Bool) → List String → ParsedHost
parse_with_host lookup parses args = with_host parses (extract_host lookup args)
