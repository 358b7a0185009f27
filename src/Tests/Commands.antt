-- ===== src/Tests/Commands.antt =====
-- The properties of the commands.
use homewizard_exporter.Text.{contains}
use homewizard_exporter.Prelude.{
  String, ◌≡◌, refl, ◌≢◌, Bool, true, false, Option, none, some, List, [], ◌∷◌, arith, str_eq,
  eq_iff, if◌then◌else◌,
}
use homewizard_exporter.Command.Args.{extracted, unexpected, extract_host, trim_dashes, takes_value}
use homewizard_exporter.Command.Args.Laws.{is_complete, extract_host_anywhere}
use homewizard_exporter.Text.{trim_space}
use homewizard_exporter.Config
use homewizard_exporter.Homewizard.Errors.{ok}
use homewizard_exporter.Homewizard.Client.{TokenFile, holds, read_token}
use homewizard_exporter.Homewizard.Pair.{PairResult}
use homewizard_exporter.Discovery
use homewizard_exporter.Command.Discover.{blocks}
use homewizard_exporter.Command.Discover.Laws.{IsDistinct, names_of, blocks-IsDistinct}
use homewizard_exporter.Command.Check.{config_warnings}
use homewizard_exporter.Command.Check.Laws.{
  Names, IsTokenless, IsInsecure, warnings_about, config_warnings-named,
}
use homewizard_exporter.Command.Pairing.{deliver}
use homewizard_exporter.Command.Pairing.Laws.{text_of, deliver-read_token}
use homewizard_exporter.Tests.Samples.{p1, p1_info, one_device}

-- The flags of `pair`: `-o` takes a value, `-insecure` does not.
abbrev flags : String → Option Bool
flags name =
    if str_eq name "o" then some false else if str_eq name "insecure" then some true else none

before_complete : is_complete flags false ("-o" ∷ "token" ∷ []) ≡ true
unfolding is_complete takes_value contains trim_dashes
before_complete = refl

after_complete : is_complete flags false ("-insecure" ∷ []) ≡ true
unfolding is_complete takes_value contains trim_dashes
after_complete = refl

host_given : ◌≢◌ {A = String} "192.0.2.7" ""
host_given = ground (arith, eq_iff "192.0.2.7" "")

extract_host_anywhere_example :
    (extract_host flags ("-o" ∷ "token" ∷ "192.0.2.7" ∷ "-insecure" ∷ [])
      ≡ extracted "192.0.2.7" ("-o" ∷ "token" ∷ "-insecure" ∷ []))
    × (extract_host flags ("-o" ∷ "token" ∷ "192.0.2.7" ∷ "-insecure" ∷ "again" ∷ [])
        ≡ unexpected "again")
extract_host_anywhere_example =
    extract_host_anywhere flags ("-o" ∷ "token" ∷ []) ("-insecure" ∷ []) [] "192.0.2.7" "again"
      before_complete after_complete refl host_given refl

abbrev seen : String → Discovery.Device
seen host = record {
  instance_name = host;
  host = host;
  port = 80;
  product_type = "HWE-P1";
  product_name = "P1 Meter";
  serial = host;
  api_version = "";
  v1 = true;
  v2 = false;
  v1_enabled = true;
}

blocks-IsDistinct_example :
    IsDistinct (names_of (blocks [] (seen "192.0.2.7" ∷ seen "192.0.2.8" ∷ [])))
blocks-IsDistinct_example =
    blocks-IsDistinct (seen "192.0.2.7" ∷ seen "192.0.2.8" ∷ []) (omega arith)

abbrev no_files : String → Bool
no_files path = false

abbrev careless : Config.Device
careless = record p1 {
  name = "battery";
  api_version = "v2";
  tls = record { mode = "insecure"; ca_file = "" };
}

config_warnings-named_example :
    (ms : List String) × (ns : List String) × Names (IsTokenless no_files) (p1 ∷ careless ∷ []) ms
    × Names IsInsecure (p1 ∷ careless ∷ []) ns
    × (config_warnings no_files (record one_device { devices = p1 ∷ careless ∷ [] })
        ≡ warnings_about ms ns)
config_warnings-named_example =
    config_warnings-named no_files (record one_device { devices = p1 ∷ careless ∷ [] })

abbrev fresh_token : PairResult
fresh_token = record { name = "local/homewizard_exporter"; token = "T1"; info = p1_info }

abbrev token_files : String → TokenFile
token_files path = holds (text_of (deliver (λ path. true) "p1.token" "192.0.2.7" fresh_token))

abbrev reading : Config.Device
reading = record p1 { token = ""; token_file = "p1.token" }

trimmed : trim_space "T1" ≡ "T1"
unfolding trim_space
trimmed = refl

file_named : ◌≢◌ {A = String} "p1.token" ""
file_named = ground (arith, eq_iff "p1.token" "")

deliver-read_token_example : read_token token_files reading ≡ ok "T1"
deliver-read_token_example =
    deliver-read_token (λ path. true) "p1.token" "192.0.2.7" fresh_token token_files reading
      file_named refl trimmed refl refl refl
