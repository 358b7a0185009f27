-- ===== src/Tests/Devices.antt =====
-- The properties of the client and of connecting.
use homewizard_exporter.Prelude.{
  ℕ, ◌≤◌, ◌<◌, String, ◌≡◌, refl, sym, ap, ◌↔◌, ◌⊎◌, inr, Bool, true, false, Option, none, some, [],
  ◌∷◌, arith, str_eq, eq_iff, if◌then◌else◌, All,
}
use homewizard_exporter.Config
use homewizard_exporter.Homewizard.Errors.{
  Result, ok, err, Error, Sentinel, message, wrap, join_error, errors_is,
}
use homewizard_exporter.Homewizard.Capabilities.{at_least_api, capabilities_for}
use homewizard_exporter.Homewizard.Capabilities.Versions.{version_text, at_least_api_iff}
use homewizard_exporter.Homewizard.Client.{
  Base, Url, Request, Client, Response, request_to, TokenFile, absent, new_request, read_token,
  status_error, get_json, perform, decode_api_error,
}
use homewizard_exporter.Homewizard.Client.Status.{IsClassified, status_error-IsClassified}
use homewizard_exporter.Homewizard.Probe.{
  base_url, new, probe_order, connect_error, base_url, probe, fetch_info, connected,
}
use homewizard_exporter.Homewizard.Probe.Laws.{IsConnected, IsAllowed, new-IsConnected}
use homewizard_exporter.Homewizard.Probe.Failure.{Fails, IsCause, new_failed}
use homewizard_exporter.Homewizard.Probe.Safety.{KeepsBase, IsGuarded, authorization_safe}
use homewizard_exporter.Text.{cut_prefix}
use homewizard_exporter.Homewizard.Pair.{
  PairResult, Attempt, finished, is_user_name, pair, pair_client, all_name_chars, create_user, wait,
}
use homewizard_exporter.Homewizard.Pair.{waiting, pair_device, default_user_name}
use homewizard_exporter.Homewizard.Pair.Waiting.{IsPatient, pair_waits_iff}
use homewizard_exporter.Homewizard.Pair.Laws.{IsConfirmed, pair-IsConfirmed}
use homewizard_exporter.Tests.Samples.{
  join, platform, codec, p1_net, silence, p1, p1_info, p1_client,
}

abbrev refusal : Response
refusal = record { status = 403; body = "disabled" }

status_error-IsClassified_example :
    IsClassified platform codec refusal (status_error platform codec refusal)
status_error-IsClassified_example = status_error-IsClassified platform codec refusal

abbrev no_files : String → TokenFile
no_files path = absent

abbrev any_tls : Config.Device → Result (Unit {0})
any_tls d = ok tt

connects : new platform codec p1_net no_files any_tls p1 ≡ ok p1_client
unfolding new read_token probe probe_order fetch_info get_json perform status_error new_request
    connected base_url capabilities_for request_to
connects = refl

new-IsConnected_example :
    (token : String) × (read_token no_files p1 ≡ ok token) × IsConnected p1 token p1_client
new-IsConnected_example = new-IsConnected platform codec p1_net no_files any_tls p1 connects

-- A device whose version is to be found out.
abbrev unknown : Config.Device
unknown = record p1 { api_version = "auto" }

abbrev lost : String → Error
lost version = wrap version (wrap "request" (message "transport"))

abbrev unreachable : Error
unreachable = wrap "cannot reach" (join_error (lost "v1") (join_error (lost "v2") (message "")))

fails : new platform codec silence no_files any_tls unknown ≡ err unreachable
unfolding new read_token probe probe_order fetch_info get_json perform connect_error base_url
    new_request
fails = refl

no_token : read_token no_files unknown ≡ ok ""
unfolding read_token
no_token = refl

new_failed_example :
    ((v : Config.ApiVersion) → IsAllowed unknown v → Fails platform codec silence unknown "" v)
    × ((s : Sentinel)
        → (errors_is unreachable s ≡ true) ↔ IsCause platform codec silence unknown "" s)
new_failed_example =
    new_failed platform codec silence no_files any_tls unknown "" no_token refl fails

abbrev battery : Config.Device
battery = record p1 { name = "battery"; api_version = "v2" }

abbrev battery_client : Client
battery_client = record p1_client {
  name = "battery";
  version = "v2";
  base = record { https = true; host = "192.0.2.7" };
  token = "T";
  caps = capabilities_for p1_info "v2";
}

battery_base :
    ◌≡◌ {A = Base} (record { https = true; host = "192.0.2.7" }) (base_url "v2" "192.0.2.7")
unfolding base_url
battery_base = refl

battery-IsConnected : IsConnected battery "T" battery_client
battery-IsConnected = record {
  name = refl;
  host = refl;
  token_kept = refl;
  version = inr refl;
  base = battery_base;
  pinned = λ e. ground (arith, eq_iff "v2" "v1");
  pinned_v2 = λ e. refl;
  type = λ h. absurd (h refl);
  caps = refl;
}

abbrev measurement_url : Url
measurement_url = record { base = battery_client.base; path = "/api/measurement" }

abbrev reading : Request
reading = request_to battery_client "GET" none measurement_url

join-KeepsBase : KeepsBase silence
join-KeepsBase base path url rooted h = ap base_of (sym h)
  where
    base_of : Option Url → Base
    base_of none = base
    base_of (some u) = u.base

requests_reading : new_request silence battery_client "GET" "/api/measurement" none ≡ some reading
unfolding new_request
requests_reading = refl

authorization_safe_example : IsGuarded battery reading
authorization_safe_example =
    authorization_safe silence battery "T" battery_client "GET" "/api/measurement" none reading
      join-KeepsBase battery-IsConnected (refl, refl) requests_reading

at_least_api_iff_example :
    ((at_least_api (version_text 6 1) 5 3 ≡ true) ↔ ((5 < 6) ⊎ ((◌≡◌ {A = ℕ} 5 6) × (3 ≤ 1))))
    × (at_least_api (b'v' ∷ version_text 6 1) 5 3 ≡ at_least_api (version_text 6 1) 5 3)
at_least_api_iff_example = at_least_api_iff 6 1 5 3 (omega arith) (omega arith)

abbrev user_answers : Bool → String → Response
user_answers pressed path =
    if str_eq path "/api"
    then record { status = 200; body = "info" }
    else if pressed
    then record { status = 200; body = "token" }
    else record { status = 403; body = "" }

-- A turn of pairing, with the button pressed or not.
abbrev turn : Bool → Attempt
turn pressed = record {
  net = record {
    resolve = join;
    send = λ r. some (user_answers pressed r.path);
    handshake = λ r. none;
  };
  cancelled = false;
}

abbrev paired : PairResult
paired = record { name = "local/homewizard_exporter"; token = "T1"; info = p1_info }

pairs :
    (pair platform codec any_tls "192.0.2.7" "" p1.tls (turn false ∷ turn true ∷ [])).1
    ≡ finished (ok paired)
unfolding pair is_user_name cut_prefix all_name_chars wait create_user perform status_error
    new_request decode_api_error fetch_info get_json request_to
pairs = refl

pair-IsConfirmed_example :
    (is_user_name "local/homewizard_exporter" ≡ true)
    × IsConfirmed platform codec
        (pair_client platform codec "192.0.2.7" p1.tls)
        "local/homewizard_exporter"
        paired
        (turn false ∷ turn true ∷ [])
pair-IsConfirmed_example =
    pair-IsConfirmed platform codec any_tls "192.0.2.7" "" p1.tls (turn false ∷ turn true ∷ [])
      pairs

pair_waits_iff_example :
    ((pair platform codec any_tls "192.0.2.7" "" p1.tls (turn false ∷ turn false ∷ [])).1 ≡ waiting)
    ↔ ((is_user_name (if str_eq "" "" then default_user_name else "") ≡ true)
        × (any_tls (pair_device platform codec "192.0.2.7" p1.tls) ≡ ok tt)
        × All
            (IsPatient platform codec
              (pair_client platform codec "192.0.2.7" p1.tls)
              (codec.user (if str_eq "" "" then default_user_name else "")))
            (turn false ∷ turn false ∷ []))
pair_waits_iff_example =
    pair_waits_iff platform codec any_tls "192.0.2.7" "" p1.tls (turn false ∷ turn false ∷ [])
