-- ===== src/NameMap/Laws.antt =====
-- Maps: reads behind writes, and distinct keys.
use homewizard_exporter.Prelude.{
  String, ◌≡◌, refl, inl, inr, none, some, [], ◌∷◌, arith, str_eq, eq_iff, if◌then◌else◌,
  Bool-cases,
}
use homewizard_exporter.NameMap.{NameMap, lookup, insert}

module _ {ℓ} {V : Type ℓ} where
  pub lookup-insert :
      (n m : String) (d : V) (ds : NameMap V)
      → lookup m (insert n d ds) ≡ (if str_eq n m then some d else lookup m ds)
  unfolding lookup insert
  lookup-insert n m d [] = refl
  lookup-insert n m d ((k, e) ∷ ds) =
      ground (arith, eq_iff n m, eq_iff k n, eq_iff k m, lookup-insert n m d ds)

  -- No key stands twice.
  abbrev pub HasDistinctKeys : NameMap V → Type ℓ
  HasDistinctKeys [] = Unit
  HasDistinctKeys ((n, d) ∷ ds) = (lookup n ds ≡ none) × HasDistinctKeys ds

  pub insert-HasDistinctKeys :
      (n : String) (d : V) (ds : NameMap V) → HasDistinctKeys ds → HasDistinctKeys (insert n d ds)
  unfolding insert
  insert-HasDistinctKeys n d [] h = (unfold lookup in refl, tt)
  insert-HasDistinctKeys n d ((k, e) ∷ ds) (fresh, h) = elim (Bool-cases (str_eq k n)) [
    | inl same ↦ rw same (rw ((eq_iff k n).0 same) at fresh, h)
    | inr other ↦ rw other (
      ground (arith, lookup-insert n k d ds, eq_iff n k, eq_iff k n),
      insert-HasDistinctKeys n d ds h,
    )
  ]
