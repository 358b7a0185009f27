-- ===== src/FakeDevice/Certificates.antt =====
-- cmd/fakedevice/main.go and internal/homewizard/tls.go: the name in a fake certificate, and what the
-- exporter reads from it.
use Prim.Native.Char.{Char, code}
use Prim.Native.String
use text.Mathlib.TextLemmas.{nil-append, cons-append}
use homewizard_exporter.Prelude.{
  String, ◌≡◌, refl, ap, ◌∙◌, true, false, some, [], ◌∷◌, arith, ◌==◌,
}
use homewizard_exporter.Homewizard.Errors.{◌>>=◌}
use homewizard_exporter.Homewizard.Tls.{check_leaf}
use homewizard_exporter.Text.{split}
use homewizard_exporter.Homewizard.Errors.{ok}
use homewizard_exporter.Homewizard.Tls.{
  Identity, cert_types, read_map, identify, parse_common_name, X509, parse_all, check_leaf,
  verify_chain,
}
use homewizard_exporter.FakeDevice.{Device, common_name}

-- No slash stands in a text.
abbrev pub IsPart : String → Type 0
IsPart String.[] = Unit
IsPart (String.◌∷◌ c s) = ((code c == 47) ≡ false) × IsPart s

one_append : (c : Char) (s : String) → String.◌++◌ (String.◌∷◌ c "") s ≡ String.◌∷◌ c s
one_append c s = cons-append c "" s ∙ ap (String.◌∷◌ c) (nil-append s)

split-part : (s : String) → IsPart s → split s b'/' ≡ s ∷ []
unfolding split
split-part String.[] h = refl
split-part (String.◌∷◌ c s) (h, hs) = rw (h, split-part s hs) (ap (λ x. x ∷ []) (one_append c s))

split-slash : (t : String) → split (String.◌++◌ "/" t) b'/' ≡ "" ∷ split t b'/'
unfolding split
split-slash t = ap (λ s. split s b'/') (one_append "/" t)

split-append :
    (s t : String) → IsPart s → split (String.◌++◌ s (String.◌++◌ "/" t)) b'/' ≡ s ∷ split t b'/'
unfolding split
split-append String.[] t h = ap (λ s. split s b'/') (nil-append (String.◌++◌ "/" t)) ∙ split-slash t
split-append (String.◌∷◌ c s) t (h, hs) =
    rw (cons-append c s (String.◌++◌ "/" t), h, split-append s t hs)
      (ap (λ x. x ∷ split t b'/') (one_append c s))

-- What the exporter takes a fake device for.
abbrev pub identity_of : Device → Identity
identity_of d = record {
  cert_type = d.cert_type;
  product_type = read_map d.cert_type cert_types;
  serial = d.serial;
}

parse-common_name :
    (d : Device)
    → IsPart d.cert_type
    → IsPart d.serial
    → parse_common_name (common_name d) ≡ ok (identity_of d)
unfolding parse_common_name common_name
parse-common_name d h k = ap identify (
    split-append "appliance" (String.◌++◌ d.cert_type (String.◌++◌ "/" d.serial)) (ground arith)
    ∙ ap (λ s. "appliance" ∷ s)
        (split-append d.cert_type d.serial h ∙ ap (λ s. d.cert_type ∷ s) (split-part d.serial k)))

parse_all_single :
    (X : X509) (raw : X.Raw) (cert : X.Certificate)
    → X.parse raw ≡ some cert
    → parse_all X (raw ∷ []) ≡ ok (cert ∷ [])
unfolding parse_all
parse_all_single X raw cert p = rw (p, parse_all) refl

check_leaf_single :
    (X : X509) (cert : X.Certificate)
    → X.verify cert [] ≡ true
    → check_leaf X (cert ∷ []) ≡ parse_common_name (X.common_name cert)
check_leaf_single X cert v = rw v refl

-- The exporter accepts the certificate of a fake device, if it verifies under the pool, and takes the
-- device for one of its family and serial number, if neither text has a slash.
pub verify_chain-common_name :
    (X : X509) (raw : X.Raw) (cert : X.Certificate) (d : Device)
    → X.parse raw ≡ some cert
    → X.common_name cert ≡ common_name d
    → X.verify cert [] ≡ true
    → IsPart d.cert_type
    → IsPart d.serial
    → verify_chain X (raw ∷ []) ≡ ok (identity_of d)
unfolding verify_chain
verify_chain-common_name X raw cert d p n v h k =
    ap (λ r. r >>= check_leaf X) (parse_all_single X raw cert p)
    ∙ check_leaf_single X cert v
    ∙ ap parse_common_name n
    ∙ parse-common_name d h k
