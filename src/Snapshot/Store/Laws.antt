-- ===== src/Snapshot/Store/Laws.antt =====
-- snapshot.go: `Update` and its readers.
use homewizard_exporter.Prelude.{
  String, ◌≡◌, refl, ◌∙◌, ◌≢◌, inl, inr, true, none, some, List, [], ◌∷◌, arith, str_eq, eq_iff,
  if◌then◌else◌, Bool-cases,
}
use homewizard_exporter.Text.{text_ltb}
use homewizard_exporter.Snapshot.{Device, new_device}
use homewizard_exporter.NameMap.{NameMap, lookup, insert}
use homewizard_exporter.NameMap.Laws.{lookup-insert, HasDistinctKeys, insert-HasDistinctKeys}
use homewizard_exporter.Snapshot.Store.{Store, devices_of, device, or_new, update}

module _ {F : Type 0} where
  device-lookup : (s : Store F) (n : String) → device s n ≡ lookup n (devices_of s)
  unfolding device lookup
  device-lookup none n = refl
  device-lookup (some s) n = refl

  -- After an update a reader finds the changed copy under its name, made from the view before or from
  -- a new device, and every other device as it was.
  pub device-update :
      (s : Store F) (n m : String) (f : Device F → Device F)
      → device (update s n f) m
        ≡ (if str_eq n m then some (f (or_new n (device s n))) else device s m)
  unfolding update
  device-update s n m f = simp (device-lookup, lookup-insert)

  -- Updates of two devices of different names commute for every reader.
  pub update_comm :
      (s : Store F) (n m k : String) (f g : Device F → Device F)
      → n ≢ m
      → device (update (update s n f) m g) k ≡ device (update (update s m g) n f) k
  update_comm s n m k f g h =
      simp device-update (ground (arith, eq_iff n m, eq_iff m n, eq_iff n k, eq_iff m k))

  -- Every device stands under its own name.
  abbrev pub HasOwnNames : NameMap (Device F) → Type 0
  HasOwnNames [] = Unit
  HasOwnNames ((n, d) ∷ ds) = (d.name ≡ n) × HasOwnNames ds

  pub record IsWellFormed (s : Store F) : Type 0 where
    pub distinct : HasDistinctKeys (devices_of s)
    pub own : HasOwnNames (devices_of s)

  insert-HasOwnNames :
      (n : String) (d : Device F) (ds : NameMap (Device F))
      → d.name ≡ n
      → HasOwnNames ds
      → HasOwnNames (insert n d ds)
  unfolding insert
  insert-HasOwnNames n d [] h k = (h, tt)
  insert-HasOwnNames n d ((m, e) ∷ ds) h (k, ks) = elim (Bool-cases (str_eq m n)) [
    | inl same ↦ rw same (h, ks)
    | inr other ↦ rw other (k, insert-HasOwnNames n d ds h ks)
  ]

  name-or_new :
      (n : String) (ds : NameMap (Device F)) → HasOwnNames ds → (or_new n (lookup n ds)).name ≡ n
  unfolding lookup new_device
  name-or_new n [] h = refl
  name-or_new n ((m, e) ∷ ds) (h, hs) = elim (Bool-cases (str_eq m n)) [
    | inl same ↦ rw same (h ∙ (eq_iff m n).0 same)
    | inr other ↦ rw other (name-or_new n ds hs)
  ]

  -- An update whose change keeps the name keeps the store well-formed.
  pub update-IsWellFormed :
      (s : Store F) (n : String) (f : Device F → Device F)
      → ((d : Device F) → (f d).name ≡ d.name)
      → IsWellFormed s
      → IsWellFormed (update s n f)
  unfolding update
  update-IsWellFormed s n f keep w = record {
    distinct = insert-HasDistinctKeys n _ (devices_of s) w.distinct;
    own = insert-HasOwnNames n _ (devices_of s) (keep _ ∙ name-or_new n (devices_of s) w.own) w.own;
  }

  -- The names rise strictly.
  abbrev pub Follows : String → List (Device F) → Type 0
  Follows n [] = Unit
  Follows n (d ∷ ds) = (text_ltb n d.name ≡ true) × Follows n ds

  abbrev pub IsRising : List (Device F) → Type 0
  IsRising [] = Unit
  IsRising (d ∷ ds) = Follows d.name ds × IsRising ds
