-- ===== src/Discovery.antt =====
-- internal/discovery/discovery.go: what mDNS browsing has found. The entries that zeroconf delivers
-- for the two services are a parameter, in the order of their delivery.
pub mod Laws
use Prim.Native.Char.{Char, code}
use Prim.Native.String
use homewizard_exporter.Prelude.{
  ℕ, String, Bool, true, false, not, Option, none, some, List, [], ◌∷◌, map, str_eq, ◌==◌,
  if◌then◌else◌,
}
use homewizard_exporter.Text.{text_ltb}
use homewizard_exporter.NameMap.{NameMap, lookup, insert}

abbrev pub service_v1 : String
service_v1 = "_hwenergy._tcp"

abbrev pub service_v2 : String
service_v2 = "_homewizard._tcp"

pub record Device : Type 0 where
  pub instance_name : String
  pub host : String
  pub port : ℕ
  pub product_type : String
  pub product_name : String
  pub serial : String
  pub api_version : String
  pub v1 : Bool
  pub v2 : Bool
  pub v1_enabled : Bool

-- `zeroconf.ServiceEntry`, with the text of each address, `none` for one that `netip.AddrFromSlice`
-- refuses.
pub record Entry : Type 0 where
  pub instance_name : String
  pub port : ℕ
  pub text : List String
  pub ipv4 : List (Option String)
  pub ipv6 : List (Option String)

abbrev before : Char → Option (String × String) → Option (String × String)
before c none = none
before c (some (key, value)) = some (String.◌∷◌ c key, value)

-- `strings.Cut(s, "=")`, `none` where there is no sign
unfoldable pub cut : String → Option (String × String)
cut String.[] = none
cut (String.◌∷◌ c s) = if code c == 61 then some ("", s) else before c (cut s)

abbrev note : Option (String × String) → NameMap String → NameMap String
note none txt = txt
note (some (key, value)) txt = insert key value txt

unfoldable pub parse_into : NameMap String → List String → NameMap String
parse_into txt [] = txt
parse_into txt (record_text ∷ records) = parse_into (note (cut record_text) txt) records

-- `parseTXT`
unfoldable pub parse_txt : List String → NameMap String
unfolding parse_into
parse_txt records = parse_into [] records

abbrev text_or : Option String → String
text_or none = ""
text_or (some s) = s

-- `txt[key]`, the empty text where it is missing
unfoldable pub txt_at : String → Entry → String
txt_at key e = text_or (lookup key (parse_txt e.text))

unfoldable pub first_address : List (Option String) → Option String
first_address [] = none
first_address (none ∷ rest) = first_address rest
first_address (some s ∷ rest) = some s

abbrev else_address : Option String → Option String → String
else_address (some s) other = s
else_address none other = text_or other

-- `address`
unfoldable pub address : Entry → String
address e = else_address (first_address e.ipv4) (first_address e.ipv6)

-- The key under which an entry is filed.
unfoldable pub key_of : Entry → String
key_of e = let serial = txt_at "serial" e in if str_eq serial "" then e.instance_name else serial

abbrev or_found : Entry → Option Device → Device
or_found e none = record {
  instance_name = e.instance_name;
  host = "";
  port = 0;
  product_type = "";
  product_name = "";
  serial = txt_at "serial" e;
  api_version = "";
  v1 = false;
  v2 = false;
  v1_enabled = false;
}
or_found e (some d) = d

abbrev unless_empty : String → String → String
unless_empty new old = if str_eq new "" then old else new

-- The switch on the service.
unfoldable pub mark : String → Entry → Device → Device
mark service e d =
    if str_eq service service_v2
    then record d { v2 = true; api_version = txt_at "api_version" e }
    else if str_eq service service_v1
    then record d { v1 = true; v1_enabled = str_eq (txt_at "api_enabled" e) "1" }
    else d

-- The fields that an entry fills in.
unfoldable pub fill : Entry → Device → Device
fill e d = record d {
  host = unless_empty (address e) d.host;
  port = if e.port == 0 then d.port else e.port;
  product_type = unless_empty (txt_at "product_type" e) d.product_type;
  product_name = unless_empty (txt_at "product_name" e) d.product_name;
}

-- `merge`
unfoldable pub merge : NameMap Device → String → Entry → NameMap Device
merge found service e =
    let key = key_of e in insert key (mark service e (fill e (or_found e (lookup key found)))) found

unfoldable pub merge_all : NameMap Device → String → List Entry → NameMap Device
merge_all found service [] = found
merge_all found service (e ∷ es) = merge_all (merge found service e) service es

-- The comparison of `sort.Slice`.
abbrev pub less : Device → Device → Bool
less a b =
    if not (str_eq a.product_type b.product_type)
    then text_ltb a.product_type b.product_type
    else text_ltb a.serial b.serial

unfoldable pub place_device : Device → List Device → List Device
place_device d [] = d ∷ []
place_device d (e ∷ es) = if less e d then e ∷ place_device d es else d ∷ e ∷ es

unfoldable pub sort_devices : List Device → List Device
sort_devices [] = []
sort_devices (d ∷ ds) = place_device d (sort_devices ds)

-- `Browse`, over the entries of the two services. Devices that compare equal stand in some order.
unfoldable pub browse : List Entry → List Entry → List Device
browse second first =
    sort_devices (map (λ p. p.1) (merge_all (merge_all [] service_v2 second) service_v1 first))
