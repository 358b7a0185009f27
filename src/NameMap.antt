-- ===== src/NameMap.antt =====
-- Go's maps with strings for keys, as association lists: the snapshot's devices
-- (internal/snapshot/snapshot.go) and the devices that discovery has found. The order in which a Go map
-- is iterated is not defined; the program sorts before it shows one.
pub mod Laws
pub mod Sorting
use homewizard_exporter.Prelude.{String, Option, none, some, List, [], ◌∷◌, str_eq, if◌then◌else◌}
use homewizard_exporter.Text.{text_ltb}

abbrev pub NameMap {ℓ} : Type ℓ → Type ℓ
NameMap V = List (String × V)

module _ {ℓ} {V : Type ℓ} where
  -- `m[name]`
  unfoldable pub lookup : String → NameMap V → Option V
  lookup name [] = none
  lookup name ((n, d) ∷ ds) = if str_eq n name then some d else lookup name ds

  -- `m[name] = d`
  unfoldable pub insert : String → V → NameMap V → NameMap V
  insert name d [] = (name, d) ∷ []
  insert name d ((n, e) ∷ ds) = if str_eq n name then (name, d) ∷ ds else (n, e) ∷ insert name d ds

  unfoldable pub place : String → V → NameMap V → NameMap V
  unfolding text_ltb
  place n d [] = (n, d) ∷ []
  place n d ((m, e) ∷ ds) = if text_ltb m n then (m, e) ∷ place n d ds else (n, d) ∷ (m, e) ∷ ds

  -- `slices.Sorted(maps.Keys(m))`, each key with its value beside it
  unfoldable pub sort : NameMap V → NameMap V
  unfolding place
  sort [] = []
  sort ((n, d) ∷ ds) = place n d (sort ds)
