-- ===== src/Command/Capture/Files.antt =====
-- capture.go: the files that a capture writes. encoding/json, strings.ToLower and the file system are
-- parameters; a body is its bytes.
use Prim.Native.String
use homewizard_exporter.Prelude.{
  ℕ, String, Bool, Option, none, some, List, [], ◌∷◌, str_eq, if◌then◌else◌, when,
}
use homewizard_exporter.Text.{codes}
use homewizard_exporter.Config
use homewizard_exporter.Config.{api_auto, tls_verify, tls_insecure, bare_device}
use homewizard_exporter.Homewizard.Errors.{Result, ok, err}
use homewizard_exporter.Homewizard.Timestamps.{Platform}
use homewizard_exporter.Homewizard.Client
use homewizard_exporter.Homewizard.Client.{Client, Net, Codec}
use homewizard_exporter.Command.Capture.{Endpoint, capture_endpoints}
use homewizard_exporter.Command.Capture.Scrub.{Value, walk}
use homewizard_exporter.Command.Capture.Telegram.{scrub_telegram}

-- The device that `runCapture` makes of its flags.
unfoldable pub capture_device : String → String → String → Bool → Config.Device
capture_device host token token_file skip = record (bare_device host) {
  name = "capture";
  api_version = api_auto;
  token = token;
  token_file = token_file;
  tls = record { mode = if skip then tls_insecure else tls_verify; ca_file = "" };
}

-- `json.Unmarshal` into an `any`, `json.Marshal`, and `json.Indent` with a line break behind it.
pub record Json (F : Type 0) : Type 0 where
  pub decode : List ℕ → Option (Value F)
  pub encode : Value F → Option (List ℕ)
  pub indent : List ℕ → Option (List ℕ)

abbrev pub or_body : List ℕ → Option (List ℕ) → List ℕ
or_body body none = body
or_body body (some out) = out

module _ {F : Type 0} (K : Json F) where
  abbrev pub scrub_document : List ℕ → Option (Value F) → Option (List ℕ)
  scrub_document body none = some (scrub_telegram body)
  scrub_document body (some doc) = when (λ u. or_body body (K.encode u)) (walk doc)

  -- `scrub`, `none` where it panics
  unfoldable pub scrub : List ℕ → Option (List ℕ)
  scrub body = scrub_document body (K.decode body)

  -- `indentJSON`
  unfoldable pub indent_json : List ℕ → List ℕ
  indent_json body = or_body body (K.indent body)

  -- What is made of the body of an endpoint.
  unfoldable pub fixture : Bool → Endpoint → List ℕ → Option (List ℕ)
  fixture keep e body =
      when (λ out. if e.pretty then indent_json out else out)
        (if keep then some body else scrub body)

-- How a capture ended: with these files, or at a file that could not be written, or in a panic.
pub data Captured : Type 0 where
  wrote : List (String × List ℕ) → Captured
  write_failed : String → Captured
  panicked : Captured

abbrev pub wrote_also : String × List ℕ → Captured → Captured
wrote_also file (wrote files) = wrote (file ∷ files)
wrote_also file other = other

module _ (P : Platform) (J : Codec P.F) (K : Json P.F) (lower : String → String)
    (writable : String → Bool) where
  abbrev pub product_or : String → String
  product_or product = if str_eq product "" then "unknown" else product

  abbrev pub under : String → String → String
  under a b = String.◌++◌ a (String.◌++◌ "_" b)

  -- The name of a file.
  unfoldable pub file_name : Client → Endpoint → String
  file_name c e =
      under c.version (under (lower (product_or c.info.product_type)) (String.◌++◌ e.name e.ext))

  abbrev pub store_file : String → Option (List ℕ) → Captured → Captured
  store_file name none rest = panicked
  store_file name (some out) rest =
      if writable name then wrote_also (name, out) rest else write_failed name

  abbrev pub captured : Bool → Client → Endpoint → Result String → Captured → Captured
  captured keep c e (err x) rest = rest
  captured keep c e (ok body) rest = store_file (file_name c e) (fixture K keep e (codes body)) rest

  -- The loop of `runCapture`.
  unfoldable pub capture_all : Bool → Net → Client → List Endpoint → Captured
  capture_all keep net c [] = wrote []
  capture_all keep net c (e ∷ es) =
      captured keep c e (Client.get_raw P J net c e.path) (capture_all keep net c es)

  unfoldable pub run_capture : Bool → Net → Client → Captured
  run_capture keep net c = capture_all keep net c (capture_endpoints c)
