-- ===== src/FakeDevice.antt =====
-- cmd/fakedevice/main.go: the devices that the development server stands in for. The fixtures on disk
-- are a parameter; of a certificate only its name is modelled.
pub mod Vary
pub mod Certificates
pub mod Laws
use Prim.Native.String
use homewizard_exporter.Prelude.{
  ℕ, ◌+◌, ◌-◌, ◌/◌, String, Bool, true, false, not, ◌&&◌, ◌||◌, Option, none, some, List, [], ◌∷◌,
  ◌++◌, str_eq, if◌then◌else◌,
}
use homewizard_exporter.Text.{contains, ends_with}
use homewizard_exporter.NameMap.{NameMap, lookup}
use homewizard_exporter.Homewizard.Client.{Base, Url, Request, Response, Net}
use homewizard_exporter.Homewizard.Tls.{Identity}

-- `device`
pub record Device : Type 0 where
  pub name : String
  pub product : String
  pub cert_type : String
  pub serial : String
  pub v2 : Bool
  pub port : ℕ
  pub fixtures : NameMap String

-- `devices`
abbrev pub devices : List Device
devices =
    record {
      name = "p1";
      product = "HWE-P1";
      cert_type = "p1dongle";
      serial = "aabbccddeeff";
      v2 = true;
      port = 8443;
      fixtures =
          ("/api", "v2_hwe-p1_info.json")
          ∷ ("/api/measurement", "v2_hwe-p1_measurement.json")
          ∷ ("/api/system", "v2_hwe-p1_system.json")
          ∷ ("/api/batteries", "v2_hwe-p1_batteries.json")
          ∷ ("/api/telegram", "v1_hwe-p1_telegram.txt")
          ∷ [];
    }
    ∷ record {
      name = "kwh";
      product = "HWE-KWH3";
      cert_type = "energymeter";
      serial = "aabbccddee01";
      v2 = false;
      port = 8081;
      fixtures =
          ("/api", "v1_hwe-kwh3_info.json")
          ∷ ("/api/v1/data", "v1_hwe-kwh3_measurement.json")
          ∷ ("/api/v1/system", "v1_hwe-p1_system.json")
          ∷ [];
    }
    ∷ record {
      name = "socket";
      product = "HWE-SKT";
      cert_type = "energysocket";
      serial = "aabbccddee02";
      v2 = false;
      port = 8082;
      fixtures =
          ("/api", "v1_hwe-skt_info.json")
          ∷ ("/api/v1/data", "v1_hwe-skt_measurement.json")
          ∷ ("/api/v1/state", "v1_hwe-skt_state.json")
          ∷ ("/api/v1/system", "v1_hwe-p1_system.json")
          ∷ [];
    }
    ∷ record {
      name = "water";
      product = "HWE-WTR";
      cert_type = "watermeter";
      serial = "aabbccddee03";
      v2 = false;
      port = 8083;
      fixtures =
          ("/api", "v1_hwe-wtr_info.json")
          ∷ ("/api/v1/data", "v1_hwe-wtr_measurement.json")
          ∷ ("/api/v1/system", "v1_hwe-p1_system.json")
          ∷ [];
    }
    ∷ record {
      name = "battery";
      product = "HWE-BAT";
      cert_type = "battery";
      serial = "aabbccddee04";
      v2 = true;
      port = 8444;
      fixtures =
          ("/api", "v2_hwe-bat_info.json")
          ∷ ("/api/measurement", "v2_hwe-bat_measurement.json")
          ∷ ("/api/system", "v2_hwe-p1_system.json")
          ∷ [];
    }
    ∷ []

-- What `os.ReadFile` makes of a fixture: its text, or the text of the error.
pub data Fixture : Type 0 where
  found : String → Fixture
  failed : String → Fixture

-- The Common Name of the certificate that `issue` mints for a device.
unfoldable pub common_name : Device → String
common_name d =
    String.◌++◌ "appliance" (String.◌++◌ "/" (String.◌++◌ d.cert_type (String.◌++◌ "/" d.serial)))

-- `r.Header.Get("Authorization")`
abbrev pub header_or : Option String → String
header_or none = ""
header_or (some s) = s

abbrev pub refusal : String
refusal = "{\"error\":\"user:unauthorized\"}"

-- Whether a fixture is served as it is, and whether its readings vary.
abbrev pub varied : (String → String) → Bool → String → String → String
varied vary jitter fixture body =
    if ends_with fixture ".txt"
    then body
    else if jitter && contains fixture "measurement"
    then vary body
    else body

-- The libraries between a client and a device: the resolution of references, whether the client
-- takes the device's certificate, and the identity it then records, the cleaning of paths by http.ServeMux,
-- and what net/http makes of plain HTTP at a port for TLS and of TLS at a port for plain HTTP.
pub record Surroundings : Type 0 where
  pub resolve : Base → String → Option Url
  pub trusted : Bool
  pub recorded : Option Identity
  pub clean : String → String
  pub mismatch : Request → Option Response

-- Whether the request has the scheme at which the device listens.
abbrev pub same_scheme : Request → Device → Bool
same_scheme r d = if d.v2 then r.base.https else not r.base.https

module _ (read : String → Fixture) (vary : String → String) where
  abbrev pub file_reply : Bool → String → Fixture → Response
  file_reply jitter fixture (failed e) = record { status = 500; body = String.◌++◌ e "\n" }
  file_reply jitter fixture (found body) = record {
    status = 200;
    body = varied vary jitter fixture body;
  }

  abbrev pub path_reply : Bool → Option String → Response
  path_reply jitter none = record { status = 404; body = "" }
  path_reply jitter (some fixture) = file_reply jitter fixture (read fixture)

  abbrev pub is_refused : Device → String → Request → Bool
  is_refused d token r =
      d.v2 && not (str_eq (header_or r.authorization) (String.◌++◌ "Bearer " token))

  abbrev pub refuse_or : Bool → Response → Response
  refuse_or true r = record { status = 401; body = refusal }
  refuse_or false r = r

  -- The handler of `serve`.
  unfoldable pub handle : Device → String → Bool → Request → Response
  handle d token jitter r =
      refuse_or (is_refused d token r) (path_reply jitter (lookup r.path d.fixtures))

  abbrev pub arrive :
      Surroundings → Device → String → Bool → Bool → Bool → Request → Option Response
  arrive w d token jitter false trusted r = w.mismatch r
  arrive w d token jitter true false r = none
  arrive w d token jitter true true r =
      some (handle d token jitter (record r { path = w.clean r.path }))

  -- The network whose only device is this one. A v2 device listens with TLS alone, and any other with
  -- plain HTTP alone; the multiplexer redirects a request to its cleaned path.
  abbrev pub fake_net : Surroundings → Device → String → Bool → Net
  fake_net w d token jitter = record {
    resolve = w.resolve;
    send = λ r. arrive w d token jitter (same_scheme r d) (w.trusted || not d.v2) r;
    handshake = λ r. if d.v2 && r.base.https && w.trusted then w.recorded else none;
  }
