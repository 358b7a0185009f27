-- ===== src/Discovery/Laws.antt =====
-- discovery.go: the result of `Browse` against the entries that were delivered.
use homewizard_exporter.Prelude.{
  String, ◌≡◌, Bool, false, ◌||◌, Option, none, some, List, [], ◌∷◌, map, str_eq,
}
use mathlib.Core.List.{Perm}
use mathlib.Core.List.Perm
use homewizard_exporter.NameMap.{NameMap, lookup}
use homewizard_exporter.NameMap.Laws.{HasDistinctKeys}
use homewizard_exporter.Discovery.{Device, Entry, key_of, fill, mark, or_found}

-- What a map says of a key, of the two services.
abbrev pub on_v2 : Option Device → Bool
on_v2 none = false
on_v2 (some d) = d.v2

abbrev pub on_v1 : Option Device → Bool
on_v1 none = false
on_v1 (some d) = d.v1

-- Some entry is filed under a key.
unfoldable pub is_filed : String → List Entry → Bool
is_filed key [] = false
is_filed key (e ∷ es) = str_eq (key_of e) key || is_filed key es

-- What an entry makes of the device that is found under its key.
abbrev renewed : String → Entry → Option Device → Device
renewed service e o = mark service e (fill e (or_found e o))

-- The list is what some map of devices holds, which has every key once.
pub record IsSurvey (second first : List Entry) (ds : List Device) : Type 0 where
  pub found : NameMap Device
  pub listed : Perm ds (map (λ p. p.1) found)
  pub distinct : HasDistinctKeys found
  pub on_second : (key : String) → on_v2 (lookup key found) ≡ is_filed key second
  pub on_first : (key : String) → on_v1 (lookup key found) ≡ is_filed key first
