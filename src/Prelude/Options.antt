-- ===== src/Prelude/Options.antt =====
-- Chains of options.
use mathlib.Core.Path.{◌≡◌, refl}
use mathlib.Core.Option.{Option, none, some}

abbrev pub when {ℓ κ} : {A : Type ℓ} {B : Type κ} → (A → B) → Option A → Option B
when f none = none
when f (some a) = some (f a)

abbrev pub both {ℓ κ τ} :
    {A : Type ℓ} {B : Type κ} {C : Type τ} → (A → B → C) → Option A → Option B → Option C
both f none b = none
both f (some a) b = when (f a) b

abbrev pub and_then {ℓ κ} : {A : Type ℓ} {B : Type κ} → Option A → (A → Option B) → Option B
and_then none f = none
and_then (some a) f = f a

-- What a chain that has a result has passed through.
pub and_then-eq-some {ℓ κ} :
    {A : Type ℓ} {B : Type κ} (o : Option A) (f : A → Option B) {b : B}
    → and_then o f ≡ some b
    → (a : A) × (o ≡ some a) × (f a ≡ some b)
and_then-eq-some none f h = cc
and_then-eq-some (some a) f h = (a, refl, h)

pub when-eq-some {ℓ κ} :
    {A : Type ℓ} {B : Type κ} (f : A → B) (o : Option A) {b : B}
    → when f o ≡ some b
    → (a : A) × (o ≡ some a) × (f a ≡ b)
when-eq-some f none h = cc
when-eq-some f (some a) h = (a, refl, cc)
