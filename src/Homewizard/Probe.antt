-- ===== src/Homewizard/Probe.antt =====
-- internal/homewizard/probe.go: `New` connects to a device and finds out what it is.
pub mod Laws
pub mod Failure
pub mod Safety
use homewizard_exporter.Prelude.{
  ◌+◌, ◌/◌, String, Bool, false, not, ◌&&◌, ◌||◌, Option, none, some, List, [], ◌∷◌, ◌++◌, str_eq,
  if◌then◌else◌,
}
use homewizard_exporter.Config.{Device, ApiVersion, api_v1, api_v2}
use homewizard_exporter.Homewizard.Errors.{
  Result, ok, err, Error, Sentinel, message, wrap, join_error, errors_is, unauthorized,
  api_disabled, context, ◌>>=◌,
}
use homewizard_exporter.Homewizard.Models.{Info, no_info}
use homewizard_exporter.Homewizard.Timestamps.{Platform}
use homewizard_exporter.Homewizard.Capabilities.{Capabilities, capabilities_for}
use homewizard_exporter.Homewizard.Tls.{Identity, no_identity, is_valid}
use homewizard_exporter.Homewizard.Client.{
  Base, Net, Codec, Client, TokenFile, new_request, shaken, get_json, read_token,
}

-- `probeOrder`
unfoldable pub probe_order : Device → String → List ApiVersion
probe_order cfg token =
    if str_eq cfg.api_version api_v1
    then api_v1 ∷ []
    else if str_eq cfg.api_version api_v2
    then api_v2 ∷ []
    else if not (str_eq token "")
    then api_v2 ∷ api_v1 ∷ []
    else api_v1 ∷ api_v2 ∷ []

-- `baseURL`
unfoldable pub base_url : ApiVersion → String → Base
base_url version host = record { https = str_eq version api_v2; host = host }

-- `errors.Join`
abbrev pub join_all : List Error → Error
join_all [] = message ""
join_all (e ∷ es) = join_error e (join_all es)

abbrev pub any_is : Sentinel → List Error → Bool
any_is s [] = false
any_is s (e ∷ es) = errors_is e s || any_is s es

-- `connectError`
unfoldable pub connect_error : String → Identity → List Error → Error
connect_error token cert attempts =
    let joined = join_all attempts in
    let rejected = any_is unauthorized attempts in
    let disabled = any_is api_disabled attempts in
    if str_eq token "" && is_valid cert
    then wrap "speaks the v2 API but no token is configured" joined
    else if str_eq token "" && rejected
    then wrap "rejected an unauthenticated request" joined
    else if not (str_eq token "") && rejected
    then wrap "rejected the token" joined
    else if disabled
    then wrap "has the v1 API switched off" joined
    else wrap "cannot reach" joined

module _ (P : Platform) (J : Codec P.F) where
  abbrev identified : Info → Result Info
  identified info =
      if str_eq info.product_type "" && str_eq info.serial ""
      then err (message "GET /api returned nothing that identifies a device")
      else ok info

  -- `fetchInfo`
  unfoldable pub fetch_info : Net → Client → Result Info
  fetch_info net c = get_json P J net c "/api" J.info >>= identified

  -- The client before it knows what the device is.
  abbrev pub blank_client : Device → String → ApiVersion → Client
  blank_client cfg token version = record {
    name = cfg.name;
    host = cfg.host;
    version = version;
    base = base_url version cfg.host;
    token = token;
    info = no_info;
    cert = no_identity;
    caps = record {
      measurement = false;
      system = false;
      state = false;
      telegram = false;
      batteries = false;
    };
  }

  abbrev or_text : String → String → String
  or_text s t = if str_eq s "" then t else s

  -- The body of the loop behind a successful `fetchInfo`.
  unfoldable pub connected : Device → Client → Info → Identity → Client
  connected cfg c info cert =
      let info' = record info {
        product_type = or_text cfg.type info.product_type;
        serial = if str_eq info.serial "" && is_valid cert then cert.serial else info.serial;
      } in
      record c { info = info'; cert = cert; caps = capabilities_for info' c.version }

  -- `identityRecorder`: a handshake that verified replaces what was seen.
  abbrev pub recorded : Option Identity → Identity → Identity
  recorded none seen = seen
  recorded (some id) seen = id

  abbrev saw : Net → Client → Identity → Identity
  saw net c seen =
      if c.base.https
      then recorded (shaken net (new_request net c "GET" "/api" none)) seen
      else seen

  unfoldable pub probe :
      Net → Device → String → List ApiVersion → Identity → List Error → Result Client
  probe net cfg token [] seen attempts = err (connect_error token seen attempts)
  probe net cfg token (version ∷ versions) seen attempts =
      let c = blank_client cfg token version in
      let seen' = saw net c seen in
      elim (fetch_info net c) [
        | err e ↦ probe net cfg token versions seen' (attempts ++ wrap version e ∷ [])
        | ok info ↦ ok (connected cfg c info seen')
      ]

  -- `New`, with what `tlsConfig` makes of the device's TLS settings
  unfoldable pub new :
      Net → (String → TokenFile) → (Device → Result (Unit {0})) → Device → Result Client
  new net files tls cfg = do
    token ← context "device" (read_token files cfg)
    _ ← context "device" (tls cfg)
    probe net cfg token (probe_order cfg token) no_identity []
