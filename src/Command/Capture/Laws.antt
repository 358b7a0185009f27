-- ===== src/Command/Capture/Laws.antt =====
-- capture.go: what scrubbing a JSON document hides.
use homewizard_exporter.Prelude.{
  ℕ, ◌+◌, String, ◌≡◌, refl, sym, ap, ◌∙◌, inl, inr, Bool, true, Option, none, some, List, str_eq,
  eq_iff, Bool-cases, when,
}
use homewizard_exporter.NameMap.{lookup}
use mathlib.Core.Path.{subst}
use homewizard_exporter.Command.Capture.Scrub.{
  Value, null, boolean, number, text, array, object, Items, nil, cons, Fields, end, field, secrets,
  placeholder_id, replaced, renamed, number_id, mark, walk, walk_items, walk_fields,
}

-- Two documents are the same but for the texts of secret keys.
mutual
  pub data Same {F : Type 0} : Value F → Value F → Type 0 where
    same_null : Same null null
    same_boolean : (b : Bool) → Same (boolean b) (boolean b)
    same_number : (x : F) → Same (number x) (number x)
    same_text : (s : List ℕ) → Same (text s) (text s)
    same_array : {xs ys : Items F} → SameItems xs ys → Same (array xs) (array ys)
    same_object : {fs gs : Fields F} → SameFields fs gs → Same (object fs) (object gs)

  pub data SameItems {F : Type 0} : Items F → Items F → Type 0 where
    same_nil : SameItems nil nil
    same_cons :
        {v w : Value F} {xs ys : Items F}
        → Same v w
        → SameItems xs ys
        → SameItems (cons v xs) (cons w ys)

  pub data SameFields {F : Type 0} : Fields F → Fields F → Type 0 where
    same_end : SameFields end end
    same_field :
        {v w : Value F} {fs gs : Fields F} (k : String)
        → Same v w
        → SameFields fs gs
        → SameFields (field k v fs) (field k w gs)
    hidden :
        {fs gs : Fields F} (k : String) (r s t : List ℕ)
        → lookup k secrets ≡ some r
        → SameFields fs gs
        → SameFields (field k (text s) fs) (field k (text t) gs)

-- Both computations have the same result, of which something is known.
abbrev Walked {ℓ} : {A : Type ℓ} → (A → Type 0) → Option A → Option A → Type ℓ
Walked Q a b = (u : _) × (a ≡ some u) × (b ≡ some u) × Q u

id_secret : (k : String) → str_eq k "unique_id" ≡ true → lookup k secrets ≡ some placeholder_id
unfolding lookup
id_secret k h =
    subst (λ n. lookup n secrets ≡ some placeholder_id) (sym ((eq_iff k "unique_id").0 h)) refl

module _ {F : Type 0} where
  -- The objects of a list can be numbered: no unique_id among the fields is too short to be cut.
  abbrev Numberable : Fields F → Type 0
  Numberable fs = (i : ℕ) → (gs : Fields F) × (number_id i fs ≡ some gs)

  abbrev Markable : Value F → Type 0
  Markable u = (i : ℕ) → (u' : Value F) × (mark i u ≡ some u')

  -- A unique_id that is a text is the placeholder.
  abbrev IsClean : String → Value F → Type 0
  IsClean k (text s) = str_eq k "unique_id" ≡ true → s ≡ placeholder_id
  IsClean k v = Unit

  IsClean-renamed :
      (k : String) (u : Value F) (gs : Fields F) (i : ℕ)
      → str_eq k "unique_id" ≡ true
      → IsClean k u
      → (hs : Fields F) × (renamed i k u gs ≡ some hs)
  IsClean-renamed k (text s) gs i mine clean = (_, ap (λ s. renamed i k (text s) gs) (clean mine))
  IsClean-renamed k null gs i mine clean = (_, refl)
  IsClean-renamed k (boolean b) gs i mine clean = (_, refl)
  IsClean-renamed k (number x) gs i mine clean = (_, refl)
  IsClean-renamed k (array xs) gs i mine clean = (_, refl)
  IsClean-renamed k (object fs) gs i mine clean = (_, refl)

  field-Numberable :
      (k : String) (u : Value F) (gs : Fields F)
      → IsClean k u
      → Numberable gs
      → Numberable (field k u gs)
  unfolding number_id
  field-Numberable k u gs clean n i = elim (Bool-cases (str_eq k "unique_id")) [
    | inl mine ↦ simp mine (IsClean-renamed k u gs i mine clean)
    | inr other ↦ let (hs, e) = n i in simp (other, e) (field k u hs, refl)
  ]

  abbrev value_or : Value F → Option (Value F) → Value F
  value_or v none = v
  value_or v (some u) = u

  of_some : {v u : Value F} → some v ≡ some u → v ≡ u
  of_some {v} e = ap (value_or v) e

  when-eq-text :
      {A : Type 0} (f : A → Value F) (o : Option A) (s : List ℕ)
      → ((a : A) → f a ≡ text s → ⊥)
      → when f o ≡ some (text s)
      → ⊥
  when-eq-text f none s h e = cc
  when-eq-text f (some a) s h e = h a (of_some e)

  only_placeholder :
      (v : Value F) (r s : List ℕ) → replaced (some r) v (walk v) ≡ some (text s) → s ≡ r
  unfolding walk
  only_placeholder (text t) r s e = cc
  only_placeholder null r s e = cc
  only_placeholder (boolean b) r s e = cc
  only_placeholder (number x) r s e = cc
  only_placeholder (array xs) r s e = absurd (when-eq-text array (walk_items 0 xs) s (λ a h. cc) e)
  only_placeholder (object fs) r s e = absurd (when-eq-text object (walk_fields fs) s (λ a h. cc) e)

  replaced-IsClean :
      (k : String) (v u : Value F) → replaced (lookup k secrets) v (walk v) ≡ some u → IsClean k u
  replaced-IsClean k v (text s) e = λ mine.
      only_placeholder v placeholder_id s
        (ap (λ r. replaced r v (walk v)) (sym (id_secret k mine)) ∙ e)
  replaced-IsClean k v null e = tt
  replaced-IsClean k v (boolean b) e = tt
  replaced-IsClean k v (number x) e = tt
  replaced-IsClean k v (array xs) e = tt
  replaced-IsClean k v (object fs) e = tt

  replaced-Same :
      (o : Option (List ℕ)) {v w : Value F} (u : Value F)
      → Same v w
      → walk v ≡ some u
      → walk w ≡ some u
      → (u' : Value F) × (replaced o v (walk v) ≡ some u') × (replaced o w (walk w) ≡ some u')
  replaced-Same none u h a b = (u, a, b)
  replaced-Same (some r) u same_null a b = (u, a, b)
  replaced-Same (some r) u (same_boolean x) a b = (u, a, b)
  replaced-Same (some r) u (same_number x) a b = (u, a, b)
  replaced-Same (some r) u (same_text s) a b = (text r, refl, refl)
  replaced-Same (some r) u (same_array h) a b = (u, a, b)
  replaced-Same (some r) u (same_object h) a b = (u, a, b)

  mutual
    unfolding walk number_id

    walk_blind : {v w : Value F} → Same v w → Walked Markable (walk v) (walk w)
    walk_blind same_null = (null, refl, refl, λ i. (null, refl))
    walk_blind (same_boolean b) = (boolean b, refl, refl, λ i. (boolean b, refl))
    walk_blind (same_number x) = (number x, refl, refl, λ i. (number x, refl))
    walk_blind (same_text s) = (text s, refl, refl, λ i. (text s, refl))
    walk_blind (same_array h) =
        let (xs, a, b, _) = items_blind 0 h in
        (array xs, ap (when array) a, ap (when array) b, λ i. (array xs, refl))
    walk_blind (same_object h) =
        let (fs, a, b, n) = fields_blind h in
        (
          object fs,
          ap (when object) a,
          ap (when object) b,
          λ i. let (gs, e) = n i in (object gs, ap (when object) e),
        )

    items_blind :
        {xs ys : Items F} (i : ℕ)
        → SameItems xs ys
        → Walked (λ us. Unit) (walk_items i xs) (walk_items i ys)
    items_blind i same_nil = (nil, refl, refl, tt)
    items_blind i (same_cons h hs) =
        let (u, a, b, m) = walk_blind h in
        let (u', e) = m i in
        let (us, c, d, _) = items_blind (i + 1) hs in
        (cons u' us, rw (a, e, c) refl, rw (b, e, d) refl, tt)

    fields_blind :
        {fs gs : Fields F} → SameFields fs gs → Walked Numberable (walk_fields fs) (walk_fields gs)
    fields_blind same_end = (end, refl, refl, λ i. (end, refl))
    fields_blind (same_field {v} {w} k h hs) =
        let (u, a, b, _) = walk_blind h in
        let (us, c, d, n) = fields_blind hs in
        let (u', a', b') = replaced-Same (lookup k secrets) u h a b in
        (
          field k u' us,
          rw (a', c) refl,
          rw (b', d) refl,
          field-Numberable k u' us (replaced-IsClean k v u' a') n,
        )
    fields_blind (hidden k r s t e hs) =
        let (us, c, d, n) = fields_blind hs in
        (
          field k (text r) us,
          rw (e, c) refl,
          rw (e, d) refl,
          field-Numberable k (text r) us (replaced-IsClean k (text s) (text r) (rw e refl)) n,
        )

  -- Scrubbing never panics, and of two documents that are the same but for the texts under secret keys
  -- it makes the same document: what is published tells nothing of those texts.
  pub walk-hides :
      {v w : Value F} → Same v w → (u : Value F) × (walk v ≡ some u) × (walk w ≡ some u)
  walk-hides h = let (u, a, b, _) = walk_blind h in (u, a, b)
