-- ===== src/Command/Capture/Telegram/Found.antt =====
-- capture.go: whatever the pattern describes, it matches.
use homewizard_exporter.Prelude.{
  ℕ, ◌≡◌, refl, sym, ap, ◌∙◌, ◌≢◌, ◌↔◌, inl, inr, true, false, some, List, [], ◌∷◌, ◌++◌, All,
}
use mathlib.Core.Path.{subst}
use homewizard_exporter.Text.{cut_prefix}
use homewizard_exporter.Command.Capture.Telegram.{
  is_digit, span_digits, if_any, until_close, object_code, Match, obis_of, identifier, spelt,
}
use homewizard_exporter.Command.Capture.Telegram.Identifiers.{
  IsNumber, IsCode, IsValue, Begins, obis_of-append, identifier-Begins,
}

span-append_of :
    (a : List ℕ) (c : ℕ) (t : List ℕ)
    → All (λ d. is_digit d ≡ true) a
    → is_digit c ≡ false
    → span_digits (a ++ (c ∷ t)) ≡ (a, c ∷ t)
unfolding span_digits
span-append_of [] c t h k = rw k refl
span-append_of (d ∷ a) c t (h, hs) k = rw (h, span-append_of a c t hs k) refl

if_any_of : (a t : List ℕ) → a ≢ [] → if_any (a, t) ≡ some (a, t)
if_any_of [] t h = absurd (h refl)
if_any_of (d ∷ a) t h = refl

number_of :
    (a : List ℕ) (c : ℕ) (t : List ℕ)
    → IsNumber a
    → is_digit c ≡ false
    → if_any (span_digits (a ++ (c ∷ t))) ≡ some (a, c ∷ t)
number_of a c t (ne, h) k = ap if_any (span-append_of a c t h k) ∙ if_any_of a (c ∷ t) ne

until_close_of : (v rest : List ℕ) → IsValue v → until_close (v ++ (41 ∷ rest)) ≡ some (v, rest)
unfolding until_close
until_close_of [] rest h = refl
until_close_of (c ∷ v) rest (h, hs) = rw (h, until_close_of v rest hs) refl

object_code_of : (code t : List ℕ) → IsCode code → object_code (code ++ t) ≡ some (code, t)
unfolding object_code cut_prefix
object_code_of code t (inl e) = subst (λ c. object_code (c ++ t) ≡ some (c, t)) (sym e) refl
object_code_of code t (inr (inl e)) = subst (λ c. object_code (c ++ t) ≡ some (c, t)) (sym e) refl
object_code_of code t (inr (inr e)) = subst (λ c. object_code (c ++ t) ≡ some (c, t)) (sym e) refl

identifier_of :
    (a b code v rest : List ℕ)
    → IsNumber a
    → IsNumber b
    → IsCode code
    → IsValue v
    → identifier (spelt (obis_of a b code) v rest)
      ≡ some (record { obis = obis_of a b code; value = v; rest = rest })
unfolding identifier cut_prefix
identifier_of a b code v rest na nb ic iv =
    rw
      (
        obis_of-append a b code (40 ∷ (v ++ (41 ∷ rest))),
        number_of a 45 _ na refl,
        number_of b 58 _ nb refl,
        object_code_of code (40 ∷ (v ++ (41 ∷ rest))) ic,
        until_close_of v rest iv,
      )
      refl

-- The pattern matches a text exactly when it begins with a reference and its value.
pub identifier_iff : (s : List ℕ) (m : Match) → (identifier s ≡ some m) ↔ Begins s m
identifier_iff s m = (identifier-Begins s m, back)
  where
    back : Begins s m → identifier s ≡ some m
    back ((a, b, code, na, nb, ic, o), iv, e) =
        ap identifier (e ∙ ap (λ x. spelt x m.value m.rest) o)
        ∙ identifier_of a b code m.value m.rest na nb ic iv
        ∙ ap (λ x. some (record { obis = x; value = m.value; rest = m.rest })) (sym o)
