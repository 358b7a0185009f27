-- ===== src/Homewizard/Timestamps.antt =====
-- internal/homewizard/models.go: `parseISOTimestamp` and `parseCompactTimestamp`.
pub mod Laws
use homewizard_exporter.Prelude.{
  ℕ, zero, suc, ◌+◌, ◌-◌, ◌/◌, ◌%◌, String, Bool, not, Option, none, some, List, [], ◌∷◌, ◌++◌,
  str_eq, ltb, ◌==◌, if◌then◌else◌, length,
}
use homewizard_exporter.Prelude.Int.{ℤ, pos, negsuc}
use homewizard_exporter.Text.{codes}
use homewizard_exporter.Time.{Time}
use homewizard_exporter.Homewizard.Errors.{Result, ok, err, Error, message}

-- What the host supplies: the float64 numbers, and `time.ParseInLocation` at the local time zone,
-- over the bytes of a text.
pub record Platform : Type 1 where
  pub F : Type 0
  -- `x <= 0`
  pub le_zero : F → Bool
  -- `int64(x)`
  pub to_int64 : F → ℤ
  pub add : F → F → F
  -- `x / n`
  pub div : F → ℕ → F
  pub of_int : ℤ → F
  -- `strconv.FormatFloat(x, 'f', -1, 64)`
  pub format : F → String
  pub parse_in_location : String → List ℕ → Option Time

-- The decimal digits of a number. An int64 has nineteen at most.
unfoldable pub digits : ℕ → ℕ → List ℕ
digits zero n = []
digits (suc fuel) n =
    if ltb n 10 then (b'0' + n) ∷ [] else digits fuel (n / 10) ++ (b'0' + n % 10) ∷ []

-- `strconv.FormatInt(n, 10)`
unfoldable pub format_int : ℤ → List ℕ
unfolding digits
format_int (pos n) = digits 20 n
format_int (negsuc n) = b'-' ∷ digits 20 (n + 1)

-- `for len(s) < 12 { s = "0" + s }`
unfoldable pub pad : ℕ → List ℕ → List ℕ
pad zero s = s
pad (suc fuel) s = if ltb (length s) 12 then pad fuel (b'0' ∷ s) else s

abbrev pub parsed : Option Time → Result Time
parsed none = err (message "parsing time")
parsed (some t) = ok t

abbrev pub compact_layout : String
compact_layout = "060102150405"

abbrev iso_layout : String
iso_layout = "2006-01-02T15:04:05"

module _ (P : Platform) where
  -- `parseISOTimestamp`
  unfoldable pub parse_iso : String → Result Time
  parse_iso s = if str_eq s "" then ok 0 else parsed (P.parse_in_location iso_layout (codes s))

  -- `parseCompactTimestamp`
  unfoldable pub parse_compact : P.F → Result Time
  parse_compact n =
      if P.le_zero n
      then ok 0
      else let s = pad 12 (format_int (P.to_int64 n)) in
        if length s == 12
        then parsed (P.parse_in_location compact_layout s)
        else err (message "timestamp is not YYMMDDhhmmss")
