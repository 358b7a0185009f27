-- ===== src/Tests/Network.antt =====
-- The properties of discovery and of certificates.
use homewizard_exporter.Text.{text_ltb}
use homewizard_exporter.NameMap.{insert, lookup}
use homewizard_exporter.Prelude.{String, ◌≡◌, refl, some, List, [], ◌∷◌, ◌==◌, length}
use homewizard_exporter.Homewizard.Errors.{ok}
use homewizard_exporter.Homewizard.Tls.{Identity, X509, verify_chain, parse_all, parse_common_name}
use homewizard_exporter.Homewizard.Tls.Laws.{IsChecked, verify_chain-IsChecked}
use homewizard_exporter.Discovery.{
  Entry, browse, txt_at, parse_txt, merge, fill, mark, key_of, place_device, cut, sort_devices,
  merge_all,
}

abbrev entry : String → List String → Entry
entry name text = record {
  instance_name = name;
  port = 80;
  text = text;
  ipv4 = some "192.0.2.7" ∷ [];
  ipv6 = [];
}

-- A device with both services, and one without a serial.
abbrev second : List Entry
second = entry "p1" ("serial=5c2f" ∷ "product_type=HWE-P1" ∷ "api_version=2.0.0" ∷ []) ∷ []

abbrev first : List Entry
first = entry "p1meter" ("serial=5c2f" ∷ "api_enabled=1" ∷ []) ∷ entry "plug" [] ∷ []

found_two : length (browse second first) ≡ 2
unfolding browse sort_devices merge_all merge insert key_of txt_at lookup parse_txt cut place_device
    mark fill text_ltb
found_two = refl

-- A certificate is its Common Name, and a chain of two verifies.
abbrev names : X509
names = record {
  Raw = String;
  Certificate = String;
  parse = some;
  common_name = λ c. c;
  verify = λ leaf others. length others == 1;
}

abbrev battery_identity : Identity
battery_identity = record { cert_type = "battery"; product_type = "HWE-BAT"; serial = "5c2f" }

chain_accepted : verify_chain names ("appliance/battery/5c2f" ∷ "CA" ∷ []) ≡ ok battery_identity
unfolding verify_chain parse_all parse_common_name
chain_accepted = refl

verify_chain-IsChecked_example :
    IsChecked names ("appliance/battery/5c2f" ∷ "CA" ∷ []) battery_identity
verify_chain-IsChecked_example =
    verify_chain-IsChecked names ("appliance/battery/5c2f" ∷ "CA" ∷ []) chain_accepted
