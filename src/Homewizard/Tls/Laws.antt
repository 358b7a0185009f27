-- ===== src/Homewizard/Tls/Laws.antt =====
-- tls.go: what an accepted chain has shown.
use homewizard_exporter.Prelude.{
  String, ◌≡◌, sym, ap, ◌∙◌, inl, inr, true, List, [], ◌∷◌, str_eq, eq_iff, Bool-cases,
}
use homewizard_exporter.Text.{split}
use homewizard_exporter.Homewizard.Errors.{ok, >>=-eq-ok, ok_injective, ok-ne-err}
use homewizard_exporter.Homewizard.Tls.{
  Identity, cert_types, read_map, identify, parse_common_name, X509, parse_all, check_leaf,
  verify_chain,
}

-- An identity is what a Common Name of three parts says.
pub record IsNamed (cn : String) (id : Identity) : Type 0 where
  pub parts : split cn b'/' ≡ "appliance" ∷ id.cert_type ∷ id.serial ∷ []
  pub family : id.product_type ≡ read_map id.cert_type cert_types

of_appliance :
    (a t s : String) {id : Identity}
    → identify (a ∷ t ∷ s ∷ []) ≡ ok id
    → (a ≡ "appliance")
      × (t ≡ id.cert_type)
      × (s ≡ id.serial)
      × (read_map t cert_types ≡ id.product_type)
of_appliance a t s {id} h = elim (Bool-cases (str_eq a "appliance")) [
  | inl e ↦
      let same = ok_injective (rw e at h) in
      (
        (eq_iff a "appliance").0 e,
        ap (λ (x : Identity). x.cert_type) same,
        ap (λ (x : Identity). x.serial) same,
        ap (λ (x : Identity). x.product_type) same,
      )
  | inr e ↦ absurd (ok-ne-err (sym (rw e at h)))
]

identify_ok :
    (ps : List String) {id : Identity}
    → identify ps ≡ ok id
    → (ps ≡ "appliance" ∷ id.cert_type ∷ id.serial ∷ [])
      × (id.product_type ≡ read_map id.cert_type cert_types)
identify_ok [] h = cc
identify_ok (a ∷ []) h = cc
identify_ok (a ∷ t ∷ []) h = cc
identify_ok (a ∷ t ∷ s ∷ []) h =
    let (e, et, es, ep) = of_appliance a t s h in (cc, sym ep ∙ ap (λ x. read_map x cert_types) et)
identify_ok (a ∷ t ∷ s ∷ u ∷ more) h = cc

parse_common_name-IsNamed :
    (cn : String) {id : Identity} → parse_common_name cn ≡ ok id → IsNamed cn id
unfolding parse_common_name
parse_common_name-IsNamed cn h =
    let (parts, family) = identify_ok (split cn b'/') h in record { parts = parts; family = family }

module _ (X : X509) where
  -- A chain that is checked: its certificates parse, the first one verifies against the others, and the
  -- identity is what its Common Name says.
  pub record IsChecked (raws : List X.Raw) (id : Identity) : Type 0 where
    pub leaf : X.Certificate
    pub others : List X.Certificate
    pub parsed : parse_all X raws ≡ ok (leaf ∷ others)
    pub signed : X.verify leaf others ≡ true
    pub named : IsNamed (X.common_name leaf) id

  check_leaf_ok :
      (raws : List X.Raw) (certs : List X.Certificate) {id : Identity}
      → parse_all X raws ≡ ok certs
      → check_leaf X certs ≡ ok id
      → IsChecked raws id
  check_leaf_ok raws [] p h = cc
  check_leaf_ok raws (leaf ∷ others) p h = elim (Bool-cases (X.verify leaf others)) [
    | inl good ↦ record {
      leaf = leaf;
      others = others;
      parsed = p;
      signed = good;
      named = parse_common_name-IsNamed (X.common_name leaf) (rw good at h);
    }
    | inr bad ↦ absurd (ok-ne-err (sym (rw bad at h)))
  ]

  -- Where `verifyChain` accepts a chain, every certificate of it parses, the first one verifies against
  -- the HomeWizard pool with the others as intermediates, and the identity that is recorded is the one
  -- that its Common Name spells.
  pub verify_chain-IsChecked :
      (raws : List X.Raw) {id : Identity} → verify_chain X raws ≡ ok id → IsChecked raws id
  unfolding verify_chain
  verify_chain-IsChecked [] h = cc
  verify_chain-IsChecked (raw ∷ raws) h =
      let (certs, p, k) = >>=-eq-ok (parse_all X (raw ∷ raws)) (check_leaf X) h in
      check_leaf_ok (raw ∷ raws) certs p k
