-- ===== src/Homewizard/Tls.antt =====
-- internal/homewizard/tls.go: what a device's certificate claims, and when a chain is accepted.
-- Parsing certificates and checking signatures is Go's crypto/x509, which is a parameter; the pool
-- that `tlsConfig` builds is part of it.
pub mod Laws
use homewizard_exporter.Prelude.{
  ◌/◌, ◌<◌, String, Bool, not, Option, none, some, List, [], ◌∷◌, str_eq, if◌then◌else◌,
}
use homewizard_exporter.Config.{Tls, tls_insecure}
use homewizard_exporter.Text.{split}
use homewizard_exporter.Homewizard.Errors.{Result, ok, err, message, ◌>>=◌}
use homewizard_exporter.Homewizard.Models.{
  product_p1, product_socket, product_water, product_battery, product_display, unknown_product_id,
}

pub record Identity : Type 0 where
  pub cert_type : String
  pub product_type : String
  pub serial : String

abbrev pub no_identity : Identity
no_identity = record { cert_type = ""; product_type = ""; serial = "" }

-- `valid`
abbrev pub is_valid : Identity → Bool
is_valid i = not (str_eq i.serial "")

abbrev pub cert_types : List (String × String)
cert_types =
    ("p1dongle", product_p1)
    ∷ ("energysocket", product_socket)
    ∷ ("energymeter", unknown_product_id)
    ∷ ("watermeter", product_water)
    ∷ ("battery", product_battery)
    ∷ ("display", product_display)
    ∷ []

-- A read of a map of strings: a missing key gives "".
unfoldable pub read_map : String → List (String × String) → String
read_map key [] = ""
read_map key ((k, v) ∷ m) = if str_eq k key then v else read_map key m

abbrev bad_name : Result Identity
bad_name = err (message "certificate common name is not appliance/<type>/<serial>")

abbrev pub identify : List String → Result Identity
identify (a ∷ t ∷ s ∷ []) =
    if str_eq a "appliance"
    then ok (record { cert_type = t; product_type = read_map t cert_types; serial = s })
    else bad_name
identify parts = bad_name

-- `parseCommonName`
unfoldable pub parse_common_name : String → Result Identity
unfolding split read_map
parse_common_name cn = identify (split cn b'/')

-- What crypto/x509 offers: a raw certificate parsed, the Common Name of its subject, and the check of
-- a leaf under the pool with the rest of the chain as intermediates.
pub record X509 : Type 1 where
  pub Raw : Type 0
  pub Certificate : Type 0
  pub parse : Raw → Option Certificate
  pub common_name : Certificate → String
  pub verify : Certificate → List Certificate → Bool

module _ (X : X509) where
  unfoldable pub parse_all : List X.Raw → Result (List X.Certificate)
  parse_all [] = ok []
  parse_all (raw ∷ raws) = elim (X.parse raw) [
    | none ↦ err (message "parse certificate")
    | some cert ↦ parse_all raws >>= λ certs. ok (cert ∷ certs)
  ]

  abbrev pub check_leaf : List X.Certificate → Result Identity
  check_leaf [] = err (message "device presented no certificate")
  check_leaf (leaf ∷ intermediates) =
      if X.verify leaf intermediates
      then parse_common_name (X.common_name leaf)
      else err (message "certificate is not signed by the HomeWizard CA")

  -- `verifyChain`
  unfoldable pub verify_chain : List X.Raw → Result Identity
  verify_chain [] = err (message "device presented no certificate")
  verify_chain (raw ∷ raws) = parse_all (raw ∷ raws) >>= check_leaf

-- What a connection checks of the device's certificate: nothing, or the chain under this pool.
pub data Checks (Pool : Type 0) : Type 0 where
  unchecked : Checks Pool
  under : Pool → Checks Pool

module _ {Pool : Type 0} (read_file : String → Option String) (pool_of : String → Option Pool)
    (embedded : String) where
  abbrev pooled : Option Pool → Result (Checks Pool)
  pooled none = err (message "tls.ca_file contains no certificates")
  pooled (some pool) = ok (under pool)

  abbrev from_file : Option String → Result (Checks Pool)
  from_file none = err (message "read tls.ca_file")
  from_file (some pem) = pooled (pool_of pem)

  -- `tlsConfig`, over `os.ReadFile`, the certificates in a PEM text (`none` for none), and the embedded
  -- certificate of the HomeWizard CA
  unfoldable pub tls_config : Tls → Result (Checks Pool)
  tls_config t =
      if str_eq t.mode tls_insecure
      then ok unchecked
      else if not (str_eq t.ca_file "")
      then from_file (read_file t.ca_file)
      else pooled (pool_of embedded)
