-- ===== src/Command/Capture.antt =====
-- cmd/homewizard_exporter/capture.go: the endpoints that are captured. What hides the identifiers in
-- the bodies is in the child modules.
pub mod Scrub
pub mod Files
pub mod Hides
pub mod Telegram
pub mod Laws
use homewizard_exporter.Prelude.{
  ◌/◌, String, Bool, true, false, List, [], ◌∷◌, str_eq, if◌then◌else◌,
}
use homewizard_exporter.Config
use homewizard_exporter.Config.{api_v2, api_auto, tls_verify, tls_insecure}
use homewizard_exporter.Homewizard.Client.{Client}

-- `endpoint`
pub record Endpoint : Type 0 where
  pub name : String
  pub path : String
  pub ext : String
  pub pretty : Bool

abbrev pub json_endpoint : String → String → Endpoint
json_endpoint name path = record { name = name; path = path; ext = ".json"; pretty = true }

abbrev pub pick : Bool → String → String → String
pick v2 v1_path v2_path = if v2 then v2_path else v1_path

abbrev pub keep_if : Bool → Endpoint → List Endpoint → List Endpoint
keep_if wanted e rest = if wanted then e ∷ rest else rest

-- `captureEndpoints`
unfoldable pub capture_endpoints : Client → List Endpoint
capture_endpoints c =
    let v2 = str_eq c.version api_v2 in
    json_endpoint "info" "/api"
    ∷ json_endpoint "measurement" (pick v2 "/api/v1/data" "/api/measurement")
    ∷ keep_if c.caps.system (json_endpoint "system" (pick v2 "/api/v1/system" "/api/system")) (
        keep_if c.caps.state (json_endpoint "state" "/api/v1/state") (
          keep_if c.caps.batteries (json_endpoint "batteries" "/api/batteries") (
            keep_if c.caps.telegram
              (record {
                name = "telegram";
                path = pick v2 "/api/v1/telegram" "/api/telegram";
                ext = ".txt";
                pretty = false;
              })
              [])))
