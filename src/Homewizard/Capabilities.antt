-- ===== src/Homewizard/Capabilities.antt =====
-- internal/homewizard/capabilities.go: which endpoints a device is expected to serve.
pub mod Versions
use homewizard_exporter.Prelude.{
  ℕ, zero, suc, ◌+◌, ◌-◌, ◌*◌, String, Bool, true, false, not, ◌&&◌, ◌||◌, Option, none, some, List,
  [], ◌∷◌, str_eq, leb, ◌==◌, if◌then◌else◌,
}
use homewizard_exporter.Prelude.Int.{ℤ, pos, negsuc, ltb_ℤ, leb_ℤ, max_int64}
use homewizard_exporter.Text
use homewizard_exporter.Text.{codes}
use homewizard_exporter.Config.{ApiVersion, api_v2}
use homewizard_exporter.Homewizard.Models.{
  Info, product_p1, product_kwh1, product_kwh3, product_sdm230, product_sdm630, product_socket,
}

pub record Capabilities : Type 0 where
  pub measurement : Bool
  pub system : Bool
  pub state : Bool
  pub telegram : Bool
  pub batteries : Bool

abbrev named : Bool → String → List String → List String
named b name rest = if b then name ∷ rest else rest

abbrev or_none : List String → String
or_none [] = "none"
or_none (s ∷ on) = Text.join (s ∷ on) ","

-- `String`
unfoldable pub to_string : Capabilities → String
to_string c = or_none (
    named c.measurement "measurement" (
      named c.system "system"
        (named c.state "state" (named c.telegram "telegram" (named c.batteries "batteries" [])))))

-- The value of decimal digits behind `n`, `none` at any other character.
unfoldable pub atoi_digits : ℕ → List ℕ → Option ℕ
atoi_digits n [] = some n
atoi_digits n (c ∷ s) =
    let rest = atoi_digits (n * 10 + (c - b'0')) s in
    if leb b'0' c && leb c b'9' then rest else none

abbrev in_range_pos : Option ℕ → Option ℤ
in_range_pos none = none
in_range_pos (some n) = if leb n max_int64 then some (pos n) else none

abbrev in_range_neg : Option ℕ → Option ℤ
in_range_neg none = none
in_range_neg (some zero) = some (pos 0)
in_range_neg (some (suc n)) = if leb n max_int64 then some (negsuc n) else none

unfoldable pub unsigned : List ℕ → Option ℕ
unfolding atoi_digits
unsigned [] = none
unsigned (c ∷ s) = atoi_digits 0 (c ∷ s)

-- `strconv.Atoi`
unfoldable pub atoi : List ℕ → Option ℤ
unfolding unsigned
atoi [] = none
atoi (c ∷ s) =
    if c == b'-'
    then in_range_neg (unsigned s)
    else if c == b'+'
    then in_range_pos (unsigned s)
    else in_range_pos (unsigned (c ∷ s))

-- `strings.Split` at a character
unfoldable pub split_codes : ℕ → List ℕ → List (List ℕ)
split_codes sep [] = [] ∷ []
split_codes sep (c ∷ s) =
    let parts = split_codes sep s in
    if c == sep then [] ∷ parts else elim parts [ [] ↦ (c ∷ []) ∷ [] | p ∷ ps ↦ (c ∷ p) ∷ ps ]

-- `strings.TrimPrefix(version, "v")`
unfoldable pub trim_v : List ℕ → List ℕ
trim_v [] = []
trim_v (c ∷ s) = if c == b'v' then s else c ∷ s

abbrev minor_at_least : Option ℤ → ℕ → Bool
minor_at_least none minor = false
minor_at_least (some got) minor = leb_ℤ (pos minor) got

abbrev compare_minor : List (List ℕ) → ℕ → Bool
compare_minor [] minor = minor == 0
compare_minor (p ∷ ps) minor = minor_at_least (atoi p) minor

abbrev compare_major : Option ℤ → List (List ℕ) → ℕ → ℕ → Bool
compare_major none rest major minor = false
compare_major (some got) rest major minor =
    if ltb_ℤ got (pos major)
    then false
    else if ltb_ℤ (pos major) got
    then true
    else compare_minor rest minor

abbrev compare_parts : List (List ℕ) → ℕ → ℕ → Bool
compare_parts [] major minor = false
compare_parts (p ∷ rest) major minor = compare_major (atoi p) rest major minor

-- `atLeastAPI`, over the code points of the version
unfoldable pub at_least_api : List ℕ → ℕ → ℕ → Bool
at_least_api version major minor = compare_parts (split_codes b'.' (trim_v version)) major minor

abbrev is_kwh_meter : String → Bool
is_kwh_meter t =
    str_eq t product_kwh1
    || str_eq t product_kwh3
    || str_eq t product_sdm230
    || str_eq t product_sdm630

-- `capabilitiesFor`
unfoldable pub capabilities_for : Info → ApiVersion → Capabilities
capabilities_for info version =
    let v2 = str_eq version api_v2 in
    let caps : Capabilities = record {
      measurement = true;
      system = true;
      state = false;
      telegram = false;
      batteries = false;
    } in
    let batteries = v2 && at_least_api (codes info.api_version) 2 1 in
    if str_eq info.product_type product_p1
    then record caps { telegram = true; batteries = batteries }
    else if is_kwh_meter info.product_type
    then record caps { batteries = batteries }
    else if str_eq info.product_type product_socket
    then record caps { state = not v2 }
    else caps
