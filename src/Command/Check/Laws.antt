-- ===== src/Command/Check/Laws.antt =====
-- check.go: when -check warns.
use homewizard_exporter.Prelude.{
  String, ◌≡◌, refl, ◌∙◌, ◌≢◌, ◌⊎◌, inl, inr, Bool, true, false, List, [], ◌∷◌, ◌++◌, append-nil,
  append_assoc, arith, eq_iff, if◌then◌else◌, Bool-cases,
}
use homewizard_exporter.Config
use homewizard_exporter.Config.{Config, api_v1, tls_insecure, has_token}
use homewizard_exporter.Command.Check.{
  Warning, no_token, insecure, append_if, unless_none, is_tokenless, is_insecure, sort_out,
  config_warnings,
}

-- The names of the devices of which this holds, in their order.
pub data Names (Q : Config.Device → Type 0) : List Config.Device → List String → Type 0 where
  nobody : Names Q [] []
  this_one :
      {d : Config.Device} {ds : List Config.Device} {names : List String}
      → Q d
      → Names Q ds names
      → Names Q (d ∷ ds) (d.name ∷ names)
  not_this :
      {d : Config.Device} {ds : List Config.Device} {names : List String}
      → ¬ Q d
      → Names Q ds names
      → Names Q (d ∷ ds) names

-- The names of the devices that a test picks, in their order.
abbrev named : (Config.Device → Bool) → List Config.Device → List String
named test [] = []
named test (d ∷ ds) = if test d then d.name ∷ named test ds else named test ds

named-Names :
    (Q : Config.Device → Type 0) (test : Config.Device → Bool)
    → ((d : Config.Device) → (test d ≡ true → Q d) × (test d ≡ false → ¬ Q d))
    → (ds : List Config.Device) → Names Q ds (named test ds)
named-Names Q test decides [] = nobody
named-Names Q test decides (d ∷ ds) = elim (Bool-cases (test d)) [
  | inl holds ↦ rw holds (this_one ((decides d).0 holds) (named-Names Q test decides ds))
  | inr fails ↦ rw fails (not_this ((decides d).1 fails) (named-Names Q test decides ds))
]

append_if-append :
    (wanted : Bool) (name : String) (names rest : List String)
    → append_if wanted name names ++ rest ≡ names ++ (if wanted then name ∷ rest else rest)
append_if-append true name names rest = append_assoc names (name ∷ []) rest
append_if-append false name names rest = refl

-- A device is insecure where its certificate is not checked.
abbrev pub IsInsecure : Config.Device → Type 0
IsInsecure d = d.tls.mode ≡ "insecure"

-- The warnings about these devices, the ones without a token first.
abbrev pub warnings_about : List String → List String → List Warning
warnings_about [] [] = []
warnings_about [] (n ∷ ns) = insecure (n ∷ ns) ∷ []
warnings_about (m ∷ ms) [] = no_token (m ∷ ms) ∷ []
warnings_about (m ∷ ms) (n ∷ ns) = no_token (m ∷ ms) ∷ insecure (n ∷ ns) ∷ []

unless_none-warnings_about :
    (ms ns : List String)
    → unless_none no_token ms (unless_none insecure ns []) ≡ warnings_about ms ns
unless_none-warnings_about [] [] = refl
unless_none-warnings_about [] (n ∷ ns) = refl
unless_none-warnings_about (m ∷ ms) [] = refl
unless_none-warnings_about (m ∷ ms) (n ∷ ns) = refl

module _ (exists : String → Bool) where
  -- A device has no token where it may speak another version than v1, no token is given, and there is no
  -- file of one.
  abbrev pub IsTokenless : Config.Device → Type 0
  IsTokenless d =
      (d.api_version ≢ "v1")
      × (d.token ≡ "")
      × ((d.token_file ≡ "") ⊎ (exists d.token_file ≡ false))

  decides-IsTokenless :
      (d : Config.Device)
      → (is_tokenless exists d ≡ true → IsTokenless d)
        × (is_tokenless exists d ≡ false → ¬ IsTokenless d)
  unfolding has_token
  decides-IsTokenless d = (
    λ h. ground (arith, h, eq_iff d.api_version "v1", eq_iff d.token "", eq_iff d.token_file ""),
    λ h k.
        ground (arith, h, k, eq_iff d.api_version "v1", eq_iff d.token "", eq_iff d.token_file ""),
  )

  decides-IsInsecure :
      (d : Config.Device)
      → (is_insecure exists d ≡ true → IsInsecure d)
        × (is_insecure exists d ≡ false → ¬ IsInsecure d)
  decides-IsInsecure d =
      ((eq_iff d.tls.mode "insecure").0, λ h e. ground (arith, eq_iff d.tls.mode "insecure"))

  sort_out-append :
      (ds : List Config.Device) (a b : List String)
      → sort_out exists ds a b
        ≡ (a ++ named (is_tokenless exists) ds, b ++ named (is_insecure exists) ds)
  unfolding sort_out
  sort_out-append [] a b = rw (append-nil a, append-nil b) refl
  sort_out-append (d ∷ ds) a b =
      sort_out-append ds (append_if (is_tokenless exists d) d.name a)
        (append_if (is_insecure exists d) d.name b)
      ∙ rw
          (
            append_if-append (is_tokenless exists d) d.name a (named (is_tokenless exists) ds),
            append_if-append (is_insecure exists d) d.name b (named (is_insecure exists) ds),
          )
          refl

  -- There is a warning about the devices that may speak another version than v1 and have neither a token nor
  -- a file of one, and one about those whose certificates are not checked, each where there are such
  -- devices, with exactly their names in the order of the configuration.
  pub config_warnings-named :
      (cfg : Config)
      → (ms : List String) × (ns : List String) × Names IsTokenless cfg.devices ms
        × Names IsInsecure cfg.devices ns
        × (config_warnings exists cfg ≡ warnings_about ms ns)
  unfolding config_warnings
  config_warnings-named cfg =
      let ms = named (is_tokenless exists) cfg.devices in
      let ns = named (is_insecure exists) cfg.devices in
      (
        ms,
        ns,
        named-Names IsTokenless (is_tokenless exists) decides-IsTokenless cfg.devices,
        named-Names IsInsecure (is_insecure exists) decides-IsInsecure cfg.devices,
        rw (sort_out-append cfg.devices [] []) (unless_none-warnings_about ms ns),
      )
