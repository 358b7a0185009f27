-- ===== src/NameMap/Sorting.antt =====
-- Maps: sorting by name.
use mathlib.Core.List.{Perm}
use mathlib.Core.List.Perm
use homewizard_exporter.Prelude.{
  String, ◌≡◌, refl, ◌∙◌, inl, inr, true, none, some, [], ◌∷◌, arith, str_eq, eq_iff, if◌then◌else◌,
  Bool-cases,
}
use homewizard_exporter.Text.{text_ltb}
use homewizard_exporter.Text.Order.{text_ltb_trans, text_ltb_tri}
use homewizard_exporter.NameMap.Laws.{HasDistinctKeys}
use homewizard_exporter.NameMap.{NameMap, lookup, place, sort}

module _ {ℓ} {V : Type ℓ} where
  place-perm : (n : String) (d : V) (ds : NameMap V) → Perm (place n d ds) ((n, d) ∷ ds)
  unfolding place
  place-perm n d [] = Perm.refl _
  place-perm n d ((m, e) ∷ ds) = elim (Bool-cases (text_ltb m n)) [
    | inl less ↦ rw less (Perm.trans (Perm.cons (m, e) (place-perm n d ds)) (Perm.swap _ _ ds))
    | inr more ↦ rw more (Perm.refl _)
  ]

  pub sort-perm : (ds : NameMap V) → Perm (sort ds) ds
  unfolding sort
  sort-perm [] = Perm.refl []
  sort-perm ((n, d) ∷ ds) = Perm.trans (place-perm n d (sort ds)) (Perm.cons (n, d) (sort-perm ds))

  -- Every name stands before those of the later entries.
  abbrev pub Below : String → NameMap V → Type 0
  Below n [] = Unit
  Below n ((m, e) ∷ ds) = (text_ltb n m ≡ true) × Below n ds

  abbrev pub IsSorted : NameMap V → Type 0
  IsSorted [] = Unit
  IsSorted ((n, d) ∷ ds) = Below n ds × IsSorted ds

  Below-trans : (n m : String) (ds : NameMap V) → text_ltb n m ≡ true → Below m ds → Below n ds
  Below-trans n m [] h k = tt
  Below-trans n m ((j, e) ∷ ds) h (k, ks) = (text_ltb_trans n m j h k, Below-trans n m ds h ks)

  place-Below :
      (k n : String) (d : V) (ds : NameMap V)
      → text_ltb k n ≡ true
      → Below k ds
      → Below k (place n d ds)
  unfolding place
  place-Below k n d [] h _ = (h, tt)
  place-Below k n d ((m, e) ∷ ds) h (b, bs) = elim (Bool-cases (text_ltb m n)) [
    | inl less ↦ rw less (b, place-Below k n d ds h bs)
    | inr more ↦ rw more (h, (b, bs))
  ]

  lookup-place :
      (n k : String) (d : V) (ds : NameMap V)
      → lookup n ds ≡ none
      → lookup k (place n d ds) ≡ (if str_eq n k then some d else lookup k ds)
  unfolding lookup place
  lookup-place n k d [] h = refl
  lookup-place n k d ((m, e) ∷ ds) h =
      ground (arith, eq_iff m n, eq_iff m k, eq_iff n k, lookup-place n k d ds)

  -- Sorting changes no lookup, if no key stands twice.
  pub lookup-sort :
      (k : String) (ds : NameMap V) → HasDistinctKeys ds → lookup k (sort ds) ≡ lookup k ds
  unfolding sort lookup
  lookup-sort k [] h = refl
  lookup-sort k ((n, d) ∷ ds) (fresh, h) =
      ground (arith, lookup-place n k d (sort ds) (lookup-sort n ds h ∙ fresh), lookup-sort k ds h)

  place-IsSorted :
      (n : String) (d : V) (ds : NameMap V)
      → lookup n ds ≡ none
      → IsSorted ds
      → IsSorted (place n d ds)
  unfolding place lookup
  place-IsSorted n d [] fresh h = (tt, tt)
  place-IsSorted n d ((m, e) ∷ ds) fresh (b, h) = elim (Bool-cases (text_ltb m n)) [
    | inl less ↦
        rw less (place-Below m n d ds less b, place-IsSorted n d ds (ground (arith, eq_iff m n)) h)
    | inr more ↦
        let less : text_ltb n m ≡ true = ground (arith, text_ltb_tri n m, eq_iff m n) in
        rw more ((less, Below-trans n m ds less b), (b, h))
  ]

  pub sort-IsSorted : (ds : NameMap V) → HasDistinctKeys ds → IsSorted (sort ds)
  unfolding sort
  sort-IsSorted [] h = tt
  sort-IsSorted ((n, d) ∷ ds) (fresh, h) =
      place-IsSorted n d (sort ds) (lookup-sort n ds h ∙ fresh) (sort-IsSorted ds h)
