-- ===== src/FakeDevice/Vary.antt =====
-- cmd/fakedevice/main.go: `vary` moves the instantaneous readings of a document. The float64 arithmetic
-- of the two kinds of change is a parameter.
use homewizard_exporter.Prelude.{String, Option, none, some, List, [], ◌∷◌, str_eq, if◌then◌else◌}
use homewizard_exporter.Command.Capture.Scrub.{Value, number, Fields, end, field}

-- The keys of power readings.
abbrev pub power_keys : List String
power_keys =
    "power_w" ∷ "power_l1_w" ∷ "power_l2_w" ∷ "power_l3_w" ∷ "active_power_w" ∷ "active_power_l1_w"
    ∷ "active_power_l2_w" ∷ "active_power_l3_w" ∷ []

module _ {F : Type 0} where
  abbrev pub changed : (F → F) → Value F → Value F
  changed f (number x) = number (f x)
  changed f v = v

  -- `if value, ok := doc[key].(float64); ok { doc[key] = … }`
  unfoldable pub change : String → (F → F) → Fields F → Fields F
  change key f end = end
  change key f (field k v fs) =
      let rest = change key f fs in
      if str_eq k key then field k (changed f v) rest else field k v rest

  unfoldable pub change_all : List String → (F → F) → Fields F → Fields F
  change_all [] f fs = fs
  change_all (key ∷ keys) f fs = change_all keys f (change key f fs)

  -- `vary` on a decoded document: `nudge` adds the swing, `flow` keeps water from running backwards.
  unfoldable pub vary : (F → F) → (F → F) → Fields F → Fields F
  vary nudge flow fs = change "active_liter_lpm" flow (change_all power_keys nudge fs)

  -- `vary`, over `json.Unmarshal` into a map and `json.Marshal`
  unfoldable pub vary_body :
      (String → Option (Fields F))
      → (Fields F → Option String)
      → (F → F)
      → (F → F)
      → String
      → String
  vary_body decode encode nudge flow body = elim (decode body) [
    | none ↦ body
    | some fs ↦ elim (encode (vary nudge flow fs)) [ none ↦ body | some out ↦ out ]
  ]
