-- ===== src/Command/Discover.antt =====
-- cmd/homewizard_exporter/discover.go: the block of configuration that is printed for the devices that
-- were found. A name is its bytes.
pub mod Laws
use Prim.Native.String
use homewizard_exporter.Prelude.{
  ℕ, ◌+◌, String, Bool, not, ◌&&◌, ◌||◌, Option, none, some, List, [], ◌∷◌, ◌++◌, str_eq, ◌==◌,
  if◌then◌else◌,
}
use homewizard_exporter.Text.{codes, join}
use homewizard_exporter.NameMap.{NameMap, lookup, insert}
use homewizard_exporter.Homewizard.Models.{
  product_p1, product_kwh1, product_kwh3, product_sdm230, product_sdm630, product_socket,
  product_water, product_battery,
}
use homewizard_exporter.Homewizard.Timestamps.{digits}
use homewizard_exporter.Discovery
use homewizard_exporter.Discovery.{Device}

abbrev pub is_kwh : String → Bool
is_kwh product =
    str_eq product product_kwh1
    || str_eq product product_kwh3
    || str_eq product product_sdm230
    || str_eq product product_sdm630

-- `deviceName`
unfoldable pub device_name : Discovery.Device → String
device_name d =
    if str_eq d.product_type product_p1
    then "p1"
    else if is_kwh d.product_type
    then "kwh"
    else if str_eq d.product_type product_socket
    then "socket"
    else if str_eq d.product_type product_water
    then "water"
    else if str_eq d.product_type product_battery
    then "battery"
    else "device"

abbrev pub count_or : Option ℕ → ℕ
count_or none = 0
count_or (some n) = n

-- `used[name]`
unfoldable pub count_of : String → NameMap ℕ → ℕ
count_of name used = count_or (lookup name used)

-- The name of the n-th device of a kind.
unfoldable pub numbered : String → ℕ → List ℕ
numbered name n = if n == 1 then codes name else codes name ++ digits 20 n

-- `uniqueName`: the name, and the counts behind it
unfoldable pub unique_name : String → NameMap ℕ → List ℕ × NameMap ℕ
unique_name name used = let n = count_of name used + 1 in (numbered name n, insert name n used)

-- `orUnknown`
unfoldable pub or_unknown : String → String
or_unknown s = if str_eq s "" then "(unknown)" else s

abbrev part : Bool → String → List String → List String
part wanted s rest = if wanted then s ∷ rest else rest

abbrev v2_text : String → String
v2_text version = if str_eq version "" then "v2" else String.◌++◌ "v2 " version

-- `summarise`
unfoldable pub summarise : Discovery.Device → String
summarise d =
    join
      (part d.v1 (if d.v1_enabled then "v1" else "v1 (disabled)")
        (part d.v2 (v2_text d.api_version) (part (not (str_eq d.serial "")) d.serial [])))
      "  "

-- What is printed of one device.
pub record Block : Type 0 where
  pub name : List ℕ
  pub host : String
  -- the product and the serial, in a comment
  pub about : Option (String × String)
  -- how to pair it
  pub pair_hint : Bool
  -- that the v1 API is switched off
  pub disabled_hint : Bool

abbrev pub block : List ℕ → Discovery.Device → Block
block name d = record {
  name = name;
  host = d.host;
  about = if str_eq d.product_type "" then none else some (d.product_type, d.serial);
  pair_hint = d.v2;
  disabled_hint = d.v1 && not d.v1_enabled;
}

-- The loop that prints the devices.
unfoldable pub blocks : NameMap ℕ → List Discovery.Device → List Block
blocks used [] = []
blocks used (d ∷ ds) =
    let (name, used') = unique_name (device_name d) used in block name d ∷ blocks used' ds
