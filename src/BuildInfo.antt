-- ===== src/BuildInfo.antt =====
-- internal/buildinfo/buildinfo.go: the build details. The three values stamped by the linker and what
-- debug.ReadBuildInfo finds are parameters.
use Prim.Native.String
use homewizard_exporter.Prelude.{
  String, not, ◌&&◌, Option, none, some, List, [], ◌∷◌, str_eq, if◌then◌else◌,
}

-- `Info`
pub record Info : Type 0 where
  pub version : String
  pub commit : String
  pub date : String
  pub go_version : String

-- `debug.BuildInfo`: the version of the main module, and the settings in their order.
pub record Embedded : Type 0 where
  pub main_version : String
  pub settings : List (String × String)

abbrev pub unless_set : String → String → String
unless_set old new = if str_eq old "" then new else old

-- One setting.
unfoldable pub apply_setting : String × String → Info → Info
apply_setting (key, value) i =
    if str_eq key "vcs.revision"
    then record i { commit = unless_set i.commit value }
    else if str_eq key "vcs.time"
    then record i { date = unless_set i.date value }
    else if str_eq key "vcs.modified"
    then (if str_eq value "true" && not (str_eq i.commit "")
        then record i { commit = String.◌++◌ i.commit "-dirty" }
        else i)
    else i

-- The loop over the settings.
unfoldable pub apply_settings : List (String × String) → Info → Info
apply_settings [] i = i
apply_settings (s ∷ rest) i = apply_settings rest (apply_setting s i)

abbrev pub main_version : String → Info → Info
main_version v i =
    if str_eq i.version "" && not (str_eq v "") && not (str_eq v "(devel)")
    then record i { version = v }
    else i

abbrev pub or_dev : Info → Info
or_dev i = if str_eq i.version "" then record i { version = "dev" } else i

-- `Get`. Without build details it returns what the linker stamped, an empty version included.
unfoldable pub get_info : Info → Option Embedded → Info
get_info stamped none = stamped
get_info stamped (some e) = or_dev (apply_settings e.settings (main_version e.main_version stamped))

abbrev pub between : String → String → String → String
between left s right = if str_eq s "" then "" else String.◌++◌ left (String.◌++◌ s right)

-- `String`
unfoldable pub to_string : Info → String
to_string i = String.◌++◌ "homewizard_exporter " (
    String.◌++◌ i.version (
      String.◌++◌ (between " (" i.commit ")")
        (String.◌++◌ (between " built " i.date "") (String.◌++◌ " " i.go_version))))
