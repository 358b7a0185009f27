-- ===== src/Command/Check.antt =====
-- cmd/homewizard_exporter/check.go: the summary and the warnings of -check. Which files exist is a
-- parameter; the wording of a warning is data.
pub mod Laws
use Prim.Native.String
use homewizard_exporter.Prelude.{
  ◌+◌, String, Bool, not, ◌&&◌, Option, none, some, List, [], ◌∷◌, ◌++◌, map, str_eq, if◌then◌else◌,
}
use homewizard_exporter.Prelude.Int.{pos, ltb_ℤ}
use homewizard_exporter.Time.{Duration}
use homewizard_exporter.Config
use homewizard_exporter.Config.{
  Config, Dashboard, Poll, ApiVersion, api_v1, tls_insecure, has_token,
}

-- A warning, about these devices.
pub data Warning : Type 0 where
  no_token : List String → Warning
  insecure : List String → Warning

-- `credentialSummary`
pub data Credentials : Type 0 where
  supplied : Credentials
  in_file : String → Credentials
  no_credentials : Credentials

-- One line of the table.
pub record Row : Type 0 where
  pub name : String
  pub host : String
  pub api : ApiVersion
  pub type : String
  pub credentials : Credentials
  pub interval : Duration

-- `dashboardSummary`, `none` where it is disabled
unfoldable pub dashboard_summary : Dashboard → Option String
dashboard_summary d = if d.enabled then some d.path else none

-- `orDetected`
unfoldable pub or_detected : String → String
or_detected s = if str_eq s "" then "(detected)" else s

-- `interval`
unfoldable pub row_interval : Config.Device → Poll → Duration
row_interval d poll = if ltb_ℤ (pos 0) d.interval then d.interval else poll.interval

abbrev pub append_if : Bool → String → List String → List String
append_if wanted name names = if wanted then names ++ name ∷ [] else names

abbrev pub unless_none : (List String → Warning) → List String → List Warning → List Warning
unless_none warn [] rest = rest
unless_none warn (n ∷ names) rest = warn (n ∷ names) ∷ rest

module _ (exists : String → Bool) where
  unfoldable pub credential_summary : Config.Device → Credentials
  credential_summary d =
      if not (str_eq d.token "")
      then supplied
      else if has_token exists d
      then in_file d.token_file
      else no_credentials

  abbrev pub is_tokenless : Config.Device → Bool
  is_tokenless d = not (str_eq d.api_version api_v1) && not (has_token exists d)

  abbrev pub is_insecure : Config.Device → Bool
  is_insecure d = str_eq d.tls.mode tls_insecure

  -- The loop of `configWarnings`, with the two lists so far.
  unfoldable pub sort_out :
      List Config.Device → List String → List String → List String × List String
  sort_out [] tokenless insecure_ones = (tokenless, insecure_ones)
  sort_out (d ∷ ds) tokenless insecure_ones =
      sort_out ds (append_if (is_tokenless d) d.name tokenless)
        (append_if (is_insecure d) d.name insecure_ones)

  -- `configWarnings`
  unfoldable pub config_warnings : Config → List Warning
  config_warnings cfg =
      let (tokenless, insecure_ones) = sort_out cfg.devices [] [] in
      unless_none no_token tokenless (unless_none insecure insecure_ones [])

  -- The table of `printCheck`.
  unfoldable pub rows : Config → List Row
  rows cfg =
      map
        (λ d. record {
          name = d.name;
          host = d.host;
          api = d.api_version;
          type = or_detected d.type;
          credentials = credential_summary d;
          interval = row_interval d cfg.poll;
        })
        cfg.devices
