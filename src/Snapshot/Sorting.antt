-- ===== src/Snapshot/Sorting.antt =====
-- snapshot.go: `Sorted` of a well-formed snapshot.
use mathlib.Core.List.{Perm}
use mathlib.Core.List.Perm
use homewizard_exporter.Prelude.{String, ◌≡◌, inl, inr, some, [], ◌∷◌, map, Bool-cases}
use homewizard_exporter.Text.{text_ltb}
use homewizard_exporter.NameMap.{NameMap, place, sort}
use homewizard_exporter.NameMap.Sorting.{Below, IsSorted, sort-perm, sort-IsSorted}
use homewizard_exporter.Snapshot.{Device, Snapshot, sorted}
use homewizard_exporter.Snapshot.Store.Laws.{HasOwnNames, IsWellFormed, IsRising, Follows}

module _ {F : Type 0} where
  place-HasOwnNames :
      (n : String) (d : Device F) (ds : NameMap (Device F))
      → d.name ≡ n
      → HasOwnNames ds
      → HasOwnNames (place n d ds)
  unfolding place
  place-HasOwnNames n d [] h k = (h, tt)
  place-HasOwnNames n d ((m, e) ∷ ds) h (k, ks) = elim (Bool-cases (text_ltb m n)) [
    | inl less ↦ rw less (k, place-HasOwnNames n d ds h ks)
    | inr more ↦ rw more (h, (k, ks))
  ]

  sort-HasOwnNames : (ds : NameMap (Device F)) → HasOwnNames ds → HasOwnNames (sort ds)
  unfolding sort
  sort-HasOwnNames [] h = tt
  sort-HasOwnNames ((n, d) ∷ ds) (h, hs) =
      place-HasOwnNames n d (sort ds) h (sort-HasOwnNames ds hs)

  Follows-of_Below :
      (n : String) (ds : NameMap (Device F))
      → Below n ds
      → HasOwnNames ds
      → Follows n (map (λ p. p.1) ds)
  Follows-of_Below n [] h k = tt
  Follows-of_Below n ((m, e) ∷ ds) (h, hs) (k, ks) = (rw k h, Follows-of_Below n ds hs ks)

  IsRising-of_IsSorted :
      (ds : NameMap (Device F)) → IsSorted ds → HasOwnNames ds → IsRising (map (λ p. p.1) ds)
  IsRising-of_IsSorted [] h k = tt
  IsRising-of_IsSorted ((n, d) ∷ ds) (h, hs) (k, ks) =
      (rw k (Follows-of_Below n ds h ks), IsRising-of_IsSorted ds hs ks)

  -- The devices of a well-formed snapshot come out in strictly rising order of their names, each once
  -- and none left out.
  pub sorted-IsRising :
      (s : Snapshot F)
      → IsWellFormed (some s)
      → IsRising (sorted (some s)) × Perm (sorted (some s)) (map (λ p. p.1) s.devices)
  unfolding sorted
  sorted-IsRising s w = (
    IsRising-of_IsSorted (sort s.devices) (sort-IsSorted s.devices w.distinct)
        (sort-HasOwnNames s.devices w.own),
    Perm.map _ (sort-perm s.devices),
  )
