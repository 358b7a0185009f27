-- ===== src/Command/Pairing/Laws.antt =====
-- cmd/homewizard_exporter/pair.go and client.go: the token file from the command that writes it to the
-- exporter that reads it.
use Prim.Native.String
use homewizard_exporter.Prelude.{
  String, ◌≡◌, refl, sym, ap, ◌∙◌, ◌≢◌, inl, inr, Bool, true, false, arith, str_eq, eq_iff,
  Bool-cases,
}
use homewizard_exporter.Text.{trim_space}
use homewizard_exporter.Config
use homewizard_exporter.Homewizard.Errors.{ok}
use homewizard_exporter.Homewizard.Client.{TokenFile, holds, read_token}
use homewizard_exporter.Homewizard.Pair.{PairResult}
use homewizard_exporter.Command.Pairing.{token_text, Output, written, deliver}
use text.Mathlib.TextLemmas.{cons-append}
use Prim.Native.Char.{Char, code}
use homewizard_exporter.Text.{is_space}
use homewizard_exporter.Text.{is_space, trim_left, trim_right}

abbrev line : String → String
line s = String.◌++◌ s "\n"

line-cons : (c : Char) (s : String) → line (String.◌∷◌ c s) ≡ String.◌∷◌ c (line s)
line-cons c s = cons-append c s "\n"

trim_right-line : (s : String) → trim_right (line s) ≡ trim_right s
unfolding trim_right is_space
trim_right-line String.[] = refl
trim_right-line (String.◌∷◌ c s) = rw (line-cons c s, trim_right-line s) refl

trim_left-line : (s : String) → trim_right (trim_left (line s)) ≡ trim_right (trim_left s)
unfolding trim_left is_space
trim_left-line String.[] = refl
trim_left-line (String.◌∷◌ c s) = elim (Bool-cases (is_space (code c))) [
  | inl e ↦ rw (line-cons c s, e) (trim_left-line s)
  | inr e ↦
      rw (line-cons c s, e) (ap trim_right (sym (line-cons c s)) ∙ trim_right-line (String.◌∷◌ c s))
]

trim_space-line : (s : String) → trim_space (line s) ≡ trim_space s
unfolding trim_space
trim_space-line s = trim_left-line s

abbrev pub text_of : Output → String
text_of (written path text) = text
text_of output = ""

-- A token that pairing has written to a file that can be written is the token that the exporter reads from it, if the token
-- neither begins nor ends with white space and the device has no other token.
pub deliver-read_token :
    (writable : String → Bool) (out host : String) (r : PairResult) (files : String → TokenFile)
    (d : Config.Device)
    → out ≢ ""
    → writable out ≡ true
    → trim_space r.token ≡ r.token
    → files out ≡ holds (text_of (deliver writable out host r))
    → d.token ≡ ""
    → d.token_file ≡ out
    → read_token files d ≡ ok r.token
unfolding deliver token_text read_token
deliver-read_token writable out host r files d named writes trimmed h e f =
    let other : str_eq out "" ≡ false = ground (arith, named, eq_iff out "") in
    let no_token = (eq_iff d.token "").1 e in
    let some_file = ap (λ p. str_eq p "") f ∙ other in
    let text : text_of (deliver writable out host r) ≡ line r.token = rw (other, writes) refl in
    let file = ap files f ∙ h ∙ ap holds text in
    rw (no_token, some_file, file) (ap ok (trim_space-line r.token ∙ trimmed))
