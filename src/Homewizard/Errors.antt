-- ===== src/Homewizard/Errors.antt =====
-- Go's errors as data: the sentinels of internal/homewizard (client.go, pair.go), messages, and
-- wrapping by `%w` and `errors.Join`. Messages are kept where the program builds them from its data
-- and are shortened to their fixed words.
use homewizard_exporter.Prelude.{
  String, ◌≡◌, refl, ap, ◌⊎◌, inl, inr, Bool, true, false, ◌||◌, List, ◌∷◌,
}

pub data Sentinel : Type 0 where
  not_found unauthorized api_disabled no_telegram button_not_pressed : Sentinel

pub data Error : Type 0 where
  sentinel : Sentinel → Error
  message : String → Error
  wrap : String → Error → Error
  join_error : Error → Error → Error

abbrev same : Sentinel → Sentinel → Bool
same not_found not_found = true
same unauthorized unauthorized = true
same api_disabled api_disabled = true
same no_telegram no_telegram = true
same button_not_pressed button_not_pressed = true
same _ _ = false

-- `errors.Is`
abbrev pub errors_is : Error → Sentinel → Bool
errors_is (sentinel s) t = same s t
errors_is (message m) t = false
errors_is (wrap m e) t = errors_is e t
errors_is (join_error a b) t = errors_is a t || errors_is b t

-- What a Go function returns as a value and an error, of which one counts.
pub data Result {ℓ} (V : Type ℓ) : Type ℓ where
  err : Error → Result V
  ok : V → Result V

-- The steps behind `if err != nil { return err }`.
infixl 5 ◌>>=◌
abbrev pub ◌>>=◌ {ℓ κ} : {V : Type ℓ} {W : Type κ} → Result V → (V → Result W) → Result W
(err e) >>= next = err e
(ok v) >>= next = next v

-- `if err != nil { return fmt.Errorf(m, err) }`
abbrev pub context {ℓ} : {A : Type ℓ} → String → Result A → Result A
context m (ok a) = ok a
context m (err e) = err (wrap m e)

abbrev result_or {ℓ} : {A : Type ℓ} → A → Result A → A
result_or a (ok b) = b
result_or a (err e) = a

pub ok_injective {ℓ} : {A : Type ℓ} {a b : A} → ok a ≡ ok b → a ≡ b
ok_injective {a} h = ap (result_or a) h

abbrev error_or {ℓ} : {A : Type ℓ} → Error → Result A → Error
error_or e (ok b) = e
error_or e (err x) = x

pub err_injective {ℓ} : {A : Type ℓ} {e x : Error} → ◌≡◌ {A = Result A} (err e) (err x) → e ≡ x
err_injective {A} {e} h = ap {A = Result A} (error_or e) h

pub ok-ne-err {ℓ} : {A : Type ℓ} {a : A} {e : Error} → ok a ≡ err e → ⊥
ok-ne-err h = cc

pub Result-cases {ℓ} :
    {A : Type ℓ} (r : Result A) → ((a : A) × (r ≡ ok a)) ⊎ ((e : Error) × (r ≡ err e))
Result-cases (ok a) = inl (a, refl)
Result-cases (err e) = inr (e, refl)

-- What a chain that succeeds has passed through.
pub >>=-eq-ok {ℓ κ} :
    {V : Type ℓ} {W : Type κ} (first : Result V) (next : V → Result W) {w : W}
    → first >>= next ≡ ok w
    → (v : V) × (first ≡ ok v) × (next v ≡ ok w)
>>=-eq-ok (err e) next h = cc
>>=-eq-ok (ok v) next h = (v, refl, h)

pub context-eq-ok {ℓ} :
    {A : Type ℓ} (m : String) (r : Result A) {a : A} → context m r ≡ ok a → r ≡ ok a
context-eq-ok m (ok b) h = h
context-eq-ok m (err e) h = cc

-- Inversion of the two steps that put one more element before the rest of a list.
pub cons-eq-ok :
    {A B : Type 0} (r : Result A) (f : A → B) (rest : Result (List B)) {xs : List B}
    → (r >>= λ a. rest >>= λ more. ok (f a ∷ more)) ≡ ok xs
    → (a : A) × (ys : List B) × (r ≡ ok a) × (rest ≡ ok ys) × (f a ∷ ys ≡ xs)
cons-eq-ok (ok a) f (ok ys) h = (a, ys, refl, refl, ok_injective h)
cons-eq-ok (ok a) f (err e) h = cc
cons-eq-ok (err e) f rest h = cc

-- Inversion of two steps that do not depend on one another.
pub bind_two-eq-ok :
    {A B C : Type 0} (r : Result A) (s : Result B) (f : A → B → C) {c : C}
    → (r >>= λ a. s >>= λ b. ok (f a b)) ≡ ok c
    → (a : A) × (b : B) × (r ≡ ok a) × (s ≡ ok b) × (f a b ≡ c)
bind_two-eq-ok (err e) s f h = cc
bind_two-eq-ok (ok a) (err e) f h = cc
bind_two-eq-ok (ok a) (ok b) f h = (a, b, refl, refl, ok_injective h)

-- The same of three steps, of which the last reads what the second found.
pub bind_three-eq-ok :
    {A B C D : Type 0} (r : Result A) (s : Result B) (t : B → Result C) (f : A → C → D) {d : D}
    → (r >>= λ a. s >>= λ b. t b >>= λ c. ok (f a c)) ≡ ok d
    → (a : A) × (b : B) × (c : C) × (r ≡ ok a) × (s ≡ ok b) × (t b ≡ ok c) × (f a c ≡ d)
bind_three-eq-ok (err e) s t f h = cc
bind_three-eq-ok (ok a) (err e) t f h = cc
bind_three-eq-ok (ok a) (ok b) t f h =
    let (c, found, same) = >>=-eq-ok (t b) (λ c. ok (f a c)) h in
    (a, b, c, refl, refl, found, ok_injective same)
