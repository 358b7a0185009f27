-- ===== src/Text/Order.antt =====
-- The order of strings.
use text.Mathlib.TextEquality.{Char-path}
use homewizard_exporter.Prelude.{
  ℕ, String, ◌≡◌, refl, ◌⊎◌, inl, inr, true, false, List, [], ◌∷◌, arith,
}
use homewizard_exporter.Text.{codes, lex_ltb, text_ltb}

lex_ltb_trans : (s t u : List ℕ) → lex_ltb s t ≡ true → lex_ltb t u ≡ true → lex_ltb s u ≡ true
lex_ltb_trans [] [] u h k = cc
lex_ltb_trans [] (d ∷ t) [] h k = cc
lex_ltb_trans [] (d ∷ t) (e ∷ u) h k = refl
lex_ltb_trans (c ∷ s) [] u h k = cc
lex_ltb_trans (c ∷ s) (d ∷ t) [] h k = cc
lex_ltb_trans (c ∷ s) (d ∷ t) (e ∷ u) h k = ground (arith, lex_ltb_trans s t u)

lex_ltb_irrefl : (s : List ℕ) → lex_ltb s s ≡ false
lex_ltb_irrefl [] = refl
lex_ltb_irrefl (c ∷ s) = ground (arith, lex_ltb_irrefl s)

lex_ltb_tri : (s t : List ℕ) → (lex_ltb s t ≡ true) ⊎ ((s ≡ t) ⊎ (lex_ltb t s ≡ true))
lex_ltb_tri [] [] = inr (inl refl)
lex_ltb_tri [] (d ∷ t) = inl refl
lex_ltb_tri (c ∷ s) [] = inr (inr refl)
lex_ltb_tri (c ∷ s) (d ∷ t) = ground (arith, lex_ltb_tri s t)

codes-injective : (s t : String) → codes s ≡ codes t → s ≡ t
codes-injective String.[] String.[] h = refl
codes-injective String.[] (String.◌∷◌ d t) h = cc
codes-injective (String.◌∷◌ c s) String.[] h = cc
codes-injective (String.◌∷◌ c s) (String.◌∷◌ d t) h =
    cc (Char-path c d (cc), codes-injective s t (cc))

pub text_ltb_trans :
    (s t u : String) → text_ltb s t ≡ true → text_ltb t u ≡ true → text_ltb s u ≡ true
unfolding text_ltb
text_ltb_trans s t u h k = lex_ltb_trans (codes s) (codes t) (codes u) h k

pub text_ltb_irrefl : (s : String) → text_ltb s s ≡ false
unfolding text_ltb
text_ltb_irrefl s = lex_ltb_irrefl (codes s)

pub text_ltb_tri : (s t : String) → (text_ltb s t ≡ true) ⊎ ((s ≡ t) ⊎ (text_ltb t s ≡ true))
unfolding text_ltb
text_ltb_tri s t = elim (lex_ltb_tri (codes s) (codes t)) [
  | inl a ↦ inl a
  | inr b ↦ elim b [ inl e ↦ inr (inl (codes-injective s t e)) | inr c ↦ inr (inr c) ]
]
