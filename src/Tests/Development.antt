-- ===== src/Tests/Development.antt =====
-- The properties of the fake device.
use homewizard_exporter.Prelude.{
  ℕ, String, ◌≡◌, refl, true, none, some, [], ◌∷◌, arith, str_eq, if◌then◌else◌,
}
use homewizard_exporter.Homewizard.Tls.{X509, verify_chain}
use homewizard_exporter.FakeDevice.{common_name}
use homewizard_exporter.FakeDevice.Certificates.{IsPart, identity_of, verify_chain-common_name}
use homewizard_exporter.NameMap.{lookup}
use homewizard_exporter.Homewizard.Errors.{ok}
use homewizard_exporter.Homewizard.Client.{Url, Codec, Client, request_to, perform}
use homewizard_exporter.FakeDevice
use homewizard_exporter.FakeDevice.{Fixture, Surroundings, found, refusal, header_or, fake_net}
use homewizard_exporter.FakeDevice.Laws.{IsServed, fake_net-IsServed}
use homewizard_exporter.Tests.Samples.{join, platform, codec, p1_client}

-- A codec that reads the body of a refusal.
abbrev error_codec : Codec ℕ
error_codec = record codec {
  flat_error = λ body. if str_eq body refusal then some "user:unauthorized" else none;
}

abbrev fixtures : String → Fixture
fixtures name = found name

abbrev steady : String → String
steady body = body

abbrev meter : FakeDevice.Device
meter = record {
  name = "p1";
  product = "HWE-P1";
  cert_type = "p1dongle";
  serial = "aabbccddeeff";
  v2 = true;
  port = 8443;
  fixtures = ("/api", "v2_hwe-p1_info.json") ∷ [];
}

abbrev trusting : Surroundings
trusting = record {
  resolve = join;
  trusted = true;
  recorded = none;
  clean = λ path. path;
  mismatch = λ r. none;
}

abbrev paired : Client
paired = record p1_client {
  version = "v2";
  base = record { https = true; host = "127.0.0.1:8443" };
  token = "T";
}

abbrev info_url : Url
info_url = record { base = paired.base; path = "/api" }

fake_net-IsServed_example :
    IsServed platform error_codec fixtures steady true
      (λ body. ok body)
      meter
      "T"
      (header_or (request_to paired "GET" none info_url).authorization)
      (lookup "/api" meter.fixtures)
      (perform platform error_codec
        (fake_net fixtures steady trusting meter "T" true)
        paired
        "GET"
        "/api"
        none
        (λ body. ok body))
fake_net-IsServed_example =
    fake_net-IsServed platform error_codec fixtures steady true (λ body. ok body) meter "T" trusting
      paired "/api" info_url refl refl refl (λ v2. refl)

-- Certificates that are their names.
abbrev named_certificates : X509
named_certificates = record {
  Raw = String;
  Certificate = String;
  parse = λ raw. some raw;
  common_name = λ cert. cert;
  verify = λ cert others. true;
}

family-IsPart : IsPart "p1dongle"
family-IsPart = ground arith

serial-IsPart : IsPart "aabbccddeeff"
serial-IsPart = ground arith

verify_chain-common_name_example :
    verify_chain named_certificates (common_name meter ∷ []) ≡ ok (identity_of meter)
verify_chain-common_name_example =
    verify_chain-common_name named_certificates (common_name meter) (common_name meter) meter refl
      refl refl family-IsPart serial-IsPart
