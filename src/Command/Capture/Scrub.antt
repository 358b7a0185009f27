-- ===== src/Command/Capture/Scrub.antt =====
-- capture.go: `walk` replaces the secrets of a decoded JSON document. `F` is the type of a float64. A
-- text is its bytes; the fields of an object stand in an order that the program does not observe.
use homewizard_exporter.Prelude.{
  ℕ, zero, suc, ◌+◌, ◌-◌, String, Bool, Option, none, some, List, [], ◌∷◌, ◌++◌, str_eq, ltb,
  if◌then◌else◌, length, when, both, and_then,
}
use homewizard_exporter.Text.{codes}
use homewizard_exporter.NameMap.{NameMap, lookup}
use homewizard_exporter.Homewizard.Timestamps.{digits}

-- What `json.Unmarshal` makes of a document in an `any`.
mutual
  pub data Value (F : Type 0) : Type 0 where
    null : Value F
    boolean : Bool → Value F
    number : F → Value F
    text : List ℕ → Value F
    array : Items F → Value F
    object : Fields F → Value F

  pub data Items (F : Type 0) : Type 0 where
    nil : Items F
    cons : Value F → Items F → Items F

  pub data Fields (F : Type 0) : Type 0 where
    end : Fields F
    field : String → Value F → Fields F → Fields F

abbrev pub placeholder_id : List ℕ
placeholder_id = codes "00112233445566778899AABBCCDDEEFF"

abbrev pub placeholder_gas : List ℕ
placeholder_gas = codes "FFEEDDCCBBAA99887766554433221100"

-- `secrets`
abbrev pub secrets : NameMap (List ℕ)
secrets =
    ("serial", codes "aabbccddeeff")
    ∷ ("unique_id", placeholder_id)
    ∷ ("gas_unique_id", placeholder_gas)
    ∷ ("unique_gas_id", placeholder_gas)
    ∷ ("wifi_ssid", codes "My Wi-Fi")
    ∷ []

abbrev pub take : ℕ → List ℕ → List ℕ
take zero s = []
take (suc n) [] = []
take (suc n) (c ∷ s) = c ∷ take n s

-- `id[:len(id)-2]`, `none` where Go panics
abbrev pub cut_two : List ℕ → Option (List ℕ)
cut_two s = if ltb (length s) 2 then none else some (take (length s - 2) s)

-- `fmt.Sprintf("%02d", i)`
unfoldable pub two_digits : ℕ → List ℕ
unfolding digits
two_digits i = let s = digits 20 i in if ltb (length s) 2 then b'0' ∷ s else s

module _ {F : Type 0} where
  -- A value whose key has a replacement. `w` is what `walk` makes of it.
  abbrev pub replaced : Option (List ℕ) → Value F → Option (Value F) → Option (Value F)
  replaced (some r) (text s) w = some (text r)
  replaced r v w = w

  abbrev pub renamed : ℕ → String → Value F → Fields F → Option (Fields F)
  renamed i k (text id) fs = when (λ s. field k (text (s ++ two_digits i)) fs) (cut_two id)
  renamed i k v fs = some (field k v fs)

  -- The unique_id of an object in a list gets the place of the object for a suffix.
  unfoldable pub number_id : ℕ → Fields F → Option (Fields F)
  number_id i end = some end
  number_id i (field k v fs) =
      let rest = when (field k v) (number_id i fs) in
      if str_eq k "unique_id" then renamed i k v fs else rest

  abbrev pub mark : ℕ → Value F → Option (Value F)
  mark i (object fs) = when object (number_id i fs)
  mark i v = some v

  -- `walk`, `none` where it panics
  unfoldable mutual
    unfolding lookup

    pub walk : Value F → Option (Value F)
    walk null = some null
    walk (boolean b) = some (boolean b)
    walk (number x) = some (number x)
    walk (text s) = some (text s)
    walk (array xs) = when array (walk_items 0 xs)
    walk (object fs) = when object (walk_fields fs)

    pub walk_items : ℕ → Items F → Option (Items F)
    walk_items i nil = some nil
    walk_items i (cons v xs) = both cons (and_then (walk v) (mark i)) (walk_items (i + 1) xs)

    pub walk_fields : Fields F → Option (Fields F)
    walk_fields end = some end
    walk_fields (field k v fs) =
        both (field k) (replaced (lookup k secrets) v (walk v)) (walk_fields fs)
