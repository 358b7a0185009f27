-- ===== src/Command/Capture/Telegram.antt =====
-- capture.go: `scrubTelegram` blanks the identifiers of a DSMR telegram. A telegram is its bytes.
pub mod Identifiers
pub mod Found
pub mod Laws
use homewizard_exporter.Prelude.{
  ℕ, zero, suc, ◌+◌, ◌-◌, Bool, true, false, ◌&&◌, Option, none, some, List, [], ◌∷◌, ◌++◌, leb,
  ◌==◌, if◌then◌else◌, length, replicate, when, and_then,
}
use homewizard_exporter.Text.{cut_prefix}

abbrev pub is_digit : ℕ → Bool
is_digit c = leb b'0' c && leb c b'9'

-- `\d*`: the digits at the start, and what follows them
unfoldable pub span_digits : List ℕ → List ℕ × List ℕ
span_digits [] = ([], [])
span_digits (c ∷ s) =
    let (ds, rest) = span_digits s in if is_digit c then (c ∷ ds, rest) else ([], c ∷ s)

abbrev pub if_any : List ℕ × List ℕ → Option (List ℕ × List ℕ)
if_any ([], rest) = none
if_any (d ∷ ds, rest) = some (d ∷ ds, rest)

-- `([^)]*)\)`: the value, and what follows its parenthesis
unfoldable pub until_close : List ℕ → Option (List ℕ × List ℕ)
until_close [] = none
until_close (c ∷ s) =
    let rest = when (λ p. (c ∷ p.0, p.1)) (until_close s) in if c == 41 then some ([], s) else rest

abbrev pub or_else {ℓ} : {A : Type ℓ} → Option A → Option A → Option A
or_else none b = b
or_else (some a) b = some a

abbrev pub code_is : List ℕ → List ℕ → Option (List ℕ × List ℕ)
code_is code s = when (λ rest. (code, rest)) (cut_prefix code s)

abbrev pub code_10 : List ℕ
code_10 = b'1' ∷ b'.' ∷ b'0' ∷ []

abbrev pub code_11 : List ℕ
code_11 = b'1' ∷ b'.' ∷ b'1' ∷ []

abbrev pub code_130 : List ℕ
code_130 = b'1' ∷ b'3' ∷ b'.' ∷ b'0' ∷ []

-- `(?:1\.[01]|13\.0)`
unfoldable pub object_code : List ℕ → Option (List ℕ × List ℕ)
object_code s = or_else (code_is code_10 s) (or_else (code_is code_11 s) (code_is code_130 s))

-- A match of the pattern: its two groups, and the text behind it.
pub record Match : Type 0 where
  pub obis : List ℕ
  pub value : List ℕ
  pub rest : List ℕ

abbrev pub obis_of : List ℕ → List ℕ → List ℕ → List ℕ
obis_of a b code = a ++ (45 ∷ (b ++ (58 ∷ b'9' ∷ b'6' ∷ b'.' ∷ code)))

-- `telegramIdentifiers`, at the start of a line
unfoldable pub identifier : List ℕ → Option Match
identifier s = and_then (if_any (span_digits s)) λ (a, s1). and_then (cut_prefix (45 ∷ []) s1) λ s2.
    and_then (if_any (span_digits s2)) λ (b, s3).
      and_then (cut_prefix (58 ∷ b'9' ∷ b'6' ∷ b'.' ∷ []) s3) λ s4.
        and_then (object_code s4) λ (code, s5). and_then (cut_prefix (40 ∷ []) s5) λ s6.
          and_then (until_close s6)
            λ (value, rest). some (record { obis = obis_of a b code; value = value; rest = rest })

-- A match and its replacement, as texts.
abbrev pub spelt : List ℕ → List ℕ → List ℕ → List ℕ
spelt obis value rest = obis ++ (40 ∷ (value ++ (41 ∷ rest)))

abbrev pub blanked : Match → List ℕ → List ℕ
blanked m rest = spelt m.obis (replicate (length m.value) b'0') rest

abbrev pub match_length : Match → ℕ
match_length m = length m.obis + length m.value + 2

abbrev pub match_if : Bool → List ℕ → Option Match
match_if true s = identifier s
match_if false s = none

-- The byte as it is, or the replacement of the match that it begins; `go` is the scan of the bytes
-- behind it, that many of which belong to the match.
abbrev pub emit : ℕ → (ℕ → List ℕ) → Option Match → List ℕ
emit c go none = c ∷ go 0
emit c go (some m) = blanked m (go (match_length m - 1))

-- `ReplaceAllFunc`: `start` says that the text stands at the start of a line, and `skip` bytes of
-- it belong to the last match.
unfoldable pub scan : Bool → ℕ → List ℕ → List ℕ
scan start skip [] = []
scan start (suc skip) (c ∷ s) = scan (c == 10) skip s
scan start zero (c ∷ s) = emit c (λ n. scan (c == 10) n s) (match_if start (c ∷ s))

-- `scrubTelegram`
unfoldable pub scrub_telegram : List ℕ → List ℕ
scrub_telegram t = scan true 0 t
