-- ===== src/Command/Pairing.antt =====
-- cmd/homewizard_exporter/pair.go: what is suggested for a device that was paired. The waiting itself is
-- internal/homewizard/pair.go.
pub mod Laws
use Prim.Native.String
use homewizard_exporter.Prelude.{ℕ, ◌+◌, String, Bool, List, ◌++◌, str_eq, if◌then◌else◌}
use homewizard_exporter.Config.Env.{token_env_var}
use homewizard_exporter.Homewizard.Pair.{PairResult}
use homewizard_exporter.Config.{bare_device}
use homewizard_exporter.Config.{Tls, tls_verify, tls_insecure}
use homewizard_exporter.Homewizard.Models.{
  Info, product_p1, product_socket, product_water, product_battery,
}
use homewizard_exporter.Command.Discover.{is_kwh}

-- `suggestName`
unfoldable pub suggest_name : Info → String
suggest_name info =
    if str_eq info.product_type product_p1
    then "p1"
    else if is_kwh info.product_type
    then "kwh"
    else if str_eq info.product_type product_socket
    then "socket"
    else if str_eq info.product_type product_water
    then "water"
    else if str_eq info.product_type product_battery
    then "battery"
    else "device"

-- The TLS settings that the flag asks for.
unfoldable pub pair_tls : Bool → Tls
pair_tls skip = record { mode = if skip then tls_insecure else tls_verify; ca_file = "" }

-- What `writeToken` writes.
unfoldable pub token_text : String → String
token_text token = String.◌++◌ token "\n"

-- What the command leaves behind: the token on standard output, with the name, the host and the
-- environment variable of the settings that it suggests, or a file and its text, or the error of a file
-- that could not be written.
pub data Output : Type 0 where
  printed : String → String → String → List ℕ → Output
  written : String → String → Output
  not_written : String → Output

-- The end of `runPair`, with the files that can be written.
unfoldable pub deliver : (String → Bool) → String → String → PairResult → Output
deliver writable out host r =
    let name = suggest_name r.info in
    if str_eq out ""
    then printed r.token name host (token_env_var (record (bare_device host) { name = name }))
    else if writable out
    then written out (token_text r.token)
    else not_written out
