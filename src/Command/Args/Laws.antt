-- ===== src/Command/Args/Laws.antt =====
-- args.go: hosts among flags and their values.
use homewizard_exporter.Prelude.{
  String, ◌≡◌, refl, sym, ap, ◌∙◌, ◌≢◌, inl, inr, Bool, true, false, not, ◌&&◌, Option, List, [],
  ◌∷◌, ◌++◌, append-nil, arith, str_eq, eq_iff, if◌then◌else◌, Bool-cases,
}
use homewizard_exporter.Command.Args.{
  Extracted, extracted, unexpected, is_positional, takes_value, keep, extract, extract_host,
}

ne_test : (s : String) → s ≢ "" → str_eq s "" ≡ false
ne_test s h = ground (arith, eq_iff s "")

module _ (lookup : String → Option Bool) where
  -- The arguments are flags, each followed by its value if it takes one; at the start a value may be due.
  unfoldable pub is_complete : Bool → List String → Bool
  is_complete true [] = false
  is_complete false [] = true
  is_complete true (value ∷ args) = is_complete false args
  is_complete false (arg ∷ args) =
      not (str_eq arg "--") && not (is_positional arg) && is_complete (takes_value lookup arg) args

  abbrev keep_all : List String → Extracted → Extracted
  keep_all [] e = e
  keep_all (arg ∷ args) e = keep arg (keep_all args e)

  keep_all-extracted :
      (args rest : List String) (host : String)
      → keep_all args (extracted host rest) ≡ extracted host (args ++ rest)
  keep_all-extracted [] rest host = refl
  keep_all-extracted (arg ∷ args) rest host = ap (keep arg) (keep_all-extracted args rest host)

  keep_all-unexpected :
      (args : List String) (other : String) → keep_all args (unexpected other) ≡ unexpected other
  keep_all-unexpected [] other = refl
  keep_all-unexpected (arg ∷ args) other = ap (keep arg) (keep_all-unexpected args other)

  -- Flags are passed over.
  extract-append :
      (host : String) (pending : Bool) (flags args : List String)
      → is_complete pending flags ≡ true
      → extract lookup host pending (flags ++ args)
        ≡ keep_all flags (extract lookup host false args)
  unfolding extract is_complete
  extract-append host true [] args h = cc
  extract-append host false [] args h = refl
  extract-append host true (value ∷ flags) args h =
      ap (keep value) (extract-append host false flags args h)
  extract-append host false (arg ∷ flags) args h =
      ground (arith, extract-append host (takes_value lookup arg) flags args)

  positional-ne-dashes : (host : String) → is_positional host ≡ true → str_eq host "--" ≡ false
  positional-ne-dashes host h = elim (Bool-cases (str_eq host "--")) [
    | inr e ↦ e
    | inl e ↦ absurd (dashes (ap is_positional (sym ((eq_iff host "--").0 e)) ∙ h))
  ]
    where
      dashes : is_positional "--" ≡ true → ⊥
      dashes k = cc

  extract-host :
      (before host : String) (args : List String)
      → is_positional host ≡ true
      → extract lookup before false (host ∷ args)
        ≡ (if not (str_eq before "") then unexpected host else extract lookup host false args)
  unfolding extract
  extract-host before host args h = rw (positional-ne-dashes host h, h) refl

  extract-nil : (host : String) → extract lookup host false [] ≡ extracted host []
  unfolding extract
  extract-nil host = refl

  extract_complete :
      (host : String) (flags : List String)
      → is_complete false flags ≡ true
      → extract lookup host false flags ≡ extracted host flags
  extract_complete host flags h =
      ap (extract lookup host false) (sym (append-nil flags))
      ∙ extract-append host false flags [] h
      ∙ ap (keep_all flags) (extract-nil host)
      ∙ keep_all-extracted flags [] host
      ∙ ap (extracted host) (append-nil flags)

  -- A second host is refused.
  extract-second :
      (host other : String) (flags more : List String)
      → is_complete false flags ≡ true
      → is_positional other ≡ true
      → host ≢ ""
      → extract lookup host false (flags ++ other ∷ more) ≡ unexpected other
  extract-second host other flags more h p n =
      extract-append host false flags (other ∷ more) h
      ∙ ap (keep_all flags) (extract-host host other more p ∙ rw (ne_test host n) refl)
      ∙ keep_all-unexpected flags other

  -- A host among complete flags is found wherever it stands, and the flags are left in their order; a
  -- second one is refused by its name, whatever follows it.
  pub extract_host_anywhere :
      (before after more : List String) (host other : String)
      → is_complete false before ≡ true
      → is_complete false after ≡ true
      → is_positional host ≡ true
      → host ≢ ""
      → is_positional other ≡ true
      → (extract_host lookup (before ++ host ∷ after) ≡ extracted host (before ++ after))
        × (extract_host lookup (before ++ host ∷ (after ++ other ∷ more)) ≡ unexpected other)
  unfolding extract_host
  extract_host_anywhere before after more host other b a p n q = (
    extract-append "" false before (host ∷ after) b
        ∙ ap (keep_all before) (extract-host "" host after p ∙ extract_complete host after a)
        ∙ keep_all-extracted before after host,
    extract-append "" false before (host ∷ (after ++ other ∷ more)) b
        ∙ ap (keep_all before) (
            extract-host "" host (after ++ other ∷ more) p
            ∙ extract-second host other after more a q n)
        ∙ keep_all-unexpected before other,
  )
