-- ===== src/Command/Capture/Telegram/Identifiers.antt =====
-- capture.go: what the pattern of the identifiers matches, in words.
use homewizard_exporter.Prelude.{
  ℕ, ◌≡◌, refl, sym, ap, ◌∙◌, ◌≢◌, ◌⊎◌, inl, inr, true, false, Option, none, some, List, [], ◌∷◌,
  ◌++◌, append_assoc, arith, ◌==◌, ==_iff, Bool-cases, All, when, and_then-eq-some, when-eq-some,
}
use mathlib.Core.Path.{subst}
use homewizard_exporter.Command.Capture.Telegram.{
  or_else, code_is, code_10, code_11, code_130, object_code, obis_of, identifier,
}
use mathlib.Core.Path.{subst}
use homewizard_exporter.Command.Capture.Telegram.{
  or_else, code_is, code_10, code_11, code_130, object_code, obis_of, identifier,
}
use homewizard_exporter.Text.{cut_prefix}
use homewizard_exporter.Command.Capture.Telegram.{
  is_digit, span_digits, if_any, until_close, or_else, code_is, code_10, code_11, code_130,
  object_code, Match, obis_of, identifier, spelt,
}

-- At least one digit, and nothing else.
abbrev pub IsNumber : List ℕ → Type 0
IsNumber a = (a ≢ []) × All (λ c. is_digit c ≡ true) a

-- The objects that name a meter or hold a message.
abbrev pub IsCode : List ℕ → Type 0
IsCode code = (code ≡ code_10) ⊎ ((code ≡ code_11) ⊎ (code ≡ code_130))

-- An OBIS reference of such an object: two numbers, the group 96, and the object.
abbrev pub IsObis : List ℕ → Type 0
IsObis obis =
    (a : List ℕ) × (b : List ℕ) × (code : List ℕ) × IsNumber a
    × IsNumber b
    × IsCode code
    × (obis ≡ obis_of a b code)

-- No closing parenthesis.
abbrev pub IsValue : List ℕ → Type 0
IsValue v = All (λ c. (c == 41) ≡ false) v

-- A text begins with a reference and its value in parentheses.
abbrev pub Begins : List ℕ → Match → Type 0
Begins s m = IsObis m.obis × IsValue m.value × (s ≡ spelt m.obis m.value m.rest)

span-append : (s : List ℕ) → s ≡ (span_digits s).0 ++ (span_digits s).1
unfolding span_digits
span-append [] = refl
span-append (c ∷ s) = elim (Bool-cases (is_digit c)) [
  | inl e ↦ rw e (ap (λ t. c ∷ t) (span-append s))
  | inr e ↦ rw e refl
]

span-digits : (s : List ℕ) → All (λ c. is_digit c ≡ true) (span_digits s).0
unfolding span_digits
span-digits [] = tt
span-digits (c ∷ s) = elim (Bool-cases (is_digit c)) [
  | inl e ↦ rw e (e, span-digits s)
  | inr e ↦ rw e tt
]

if_any-eq-some : (p q : List ℕ × List ℕ) → if_any p ≡ some q → (p ≡ q) × (p.0 ≢ [])
if_any-eq-some ([], t) q h = cc
if_any-eq-some (d ∷ ds, t) q h = (ground (arith, h), λ e. cc)

some_digits-eq-some :
    (s : List ℕ) {a t : List ℕ} → if_any (span_digits s) ≡ some (a, t) → IsNumber a × (s ≡ a ++ t)
some_digits-eq-some s {a} {t} h =
    let (e, ne) = if_any-eq-some (span_digits s) (a, t) h in
    (
      (
        λ z. ne (ap (λ p. p.0) e ∙ z),
        subst (All (λ c. is_digit c ≡ true)) (ap (λ p. p.0) e) (span-digits s),
      ),
      span-append s ∙ ap (λ p. p.0 ++ p.1) e,
    )

cut_prefix-eq-some : (p s : List ℕ) {t : List ℕ} → cut_prefix p s ≡ some t → s ≡ p ++ t
unfolding cut_prefix
cut_prefix-eq-some [] s h = ground (arith, h)
cut_prefix-eq-some (p ∷ ps) [] h = cc
cut_prefix-eq-some (p ∷ ps) (c ∷ s) {t} h = elim (Bool-cases (c == p)) [
  | inl e ↦
      let k = cut_prefix-eq-some ps s (rw (e, cut_prefix) at h) in
      ap (λ x. x ∷ s) ((==_iff c p).0 e) ∙ ap (λ x. p ∷ x) k
  | inr e ↦ cc (rw (e, cut_prefix) at h)
]

-- The text begins with a value and its parenthesis.
abbrev IsSplit : List ℕ → Option (List ℕ × List ℕ) → Type 0
IsSplit s none = Unit
IsSplit s (some (v, rest)) = IsValue v × (s ≡ v ++ 41 ∷ rest)

cons-IsSplit :
    (c : ℕ) (s : List ℕ) (o : Option (List ℕ × List ℕ))
    → (c == 41) ≡ false
    → IsSplit s o
    → IsSplit (c ∷ s) (when (λ p. (c ∷ p.0, p.1)) o)
cons-IsSplit c s none h k = tt
cons-IsSplit c s (some (v, rest)) h (k, e) = ((h, k), ap (λ t. c ∷ t) e)

until_close-IsSplit : (s : List ℕ) → IsSplit s (until_close s)
unfolding until_close
until_close-IsSplit [] = tt
until_close-IsSplit (c ∷ s) = elim (Bool-cases (c == 41)) [
  | inl e ↦ rw e (tt, ap (λ x. x ∷ s) ((==_iff c 41).0 e))
  | inr e ↦ rw e (cons-IsSplit c s (until_close s) e (until_close-IsSplit s))
]

until_close-eq-some :
    (s v rest : List ℕ) → until_close s ≡ some (v, rest) → IsValue v × (s ≡ v ++ 41 ∷ rest)
until_close-eq-some s v rest h = subst (IsSplit s) h (until_close-IsSplit s)

code_is-eq-some : (code s c t : List ℕ) → code_is code s ≡ some (c, t) → (c ≡ code) × (s ≡ c ++ t)
code_is-eq-some code s c t h =
    let (r, k, e) = when-eq-some (λ rest. (code, rest)) (cut_prefix code s) h in
    (
      sym (ap (λ p. p.0) e),
      cut_prefix-eq-some code s k ∙ ap (λ (p : List ℕ × List ℕ). p.0 ++ p.1) e,
    )

or_else-eq-some {ℓ} :
    {A : Type ℓ} (o p : Option A) {a : A} → or_else o p ≡ some a → (o ≡ some a) ⊎ (p ≡ some a)
or_else-eq-some none p h = inr h
or_else-eq-some (some b) p h = inl h

object_code-eq-some : (s c t : List ℕ) → object_code s ≡ some (c, t) → IsCode c × (s ≡ c ++ t)
unfolding object_code
object_code-eq-some s c t h =
    elim (or_else-eq-some (code_is code_10 s) (or_else (code_is code_11 s) (code_is code_130 s))
      h) [
        | inl k ↦ let (e, f) = code_is-eq-some code_10 s c t k in (inl e, f)
        | inr k ↦ elim (or_else-eq-some (code_is code_11 s) (code_is code_130 s) k) [
          | inl m ↦ let (e, f) = code_is-eq-some code_11 s c t m in (inr (inl e), f)
          | inr m ↦ let (e, f) = code_is-eq-some code_130 s c t m in (inr (inr e), f)
        ]
      ]

pub obis_of-append :
    (a b code y : List ℕ)
    → obis_of a b code ++ y ≡ a ++ (45 ∷ (b ++ (58 ∷ b'9' ∷ b'6' ∷ b'.' ∷ (code ++ y))))
obis_of-append a b code y =
    append_assoc a (45 ∷ (b ++ (58 ∷ b'9' ∷ b'6' ∷ b'.' ∷ code))) y
    ∙ ap (λ t. a ++ (45 ∷ t)) (append_assoc b (58 ∷ b'9' ∷ b'6' ∷ b'.' ∷ code) y)

assemble :
    (a b code v rest : List ℕ) {s s1 s2 s3 s4 s5 s6 : List ℕ}
    → s ≡ a ++ s1
    → s1 ≡ 45 ∷ s2
    → s2 ≡ b ++ s3
    → s3 ≡ 58 ∷ b'9' ∷ b'6' ∷ b'.' ∷ s4
    → s4 ≡ code ++ s5
    → s5 ≡ 40 ∷ s6
    → s6 ≡ v ++ 41 ∷ rest
    → s ≡ spelt (obis_of a b code) v rest
assemble a b code v rest e1 e2 e3 e4 e5 e6 e7 =
    rw (e1, e2, e3, e4, e5, e6, e7) (sym (obis_of-append a b code (40 ∷ (v ++ (41 ∷ rest)))))

abbrev match_or : Match → Option Match → Match
match_or m none = m
match_or m (some n) = n

-- A match is one: the text begins with the reference and the value that it reports.
pub identifier-Begins : (s : List ℕ) (m : Match) → identifier s ≡ some m → Begins s m
unfolding identifier
identifier-Begins s m h =
    let ((a, s1), h1, k1) = and_then-eq-some (if_any (span_digits s)) _ h in
    let (s2, h2, k2) = and_then-eq-some (cut_prefix (45 ∷ []) s1) _ k1 in
    let ((b, s3), h3, k3) = and_then-eq-some (if_any (span_digits s2)) _ k2 in
    let (s4, h4, k4) = and_then-eq-some (cut_prefix (58 ∷ b'9' ∷ b'6' ∷ b'.' ∷ []) s3) _ k3 in
    let ((code, s5), h5, k5) = and_then-eq-some (object_code s4) _ k4 in
    let (s6, h6, k6) = and_then-eq-some (cut_prefix (40 ∷ []) s5) _ k5 in
    let ((v, rest), h7, k7) = and_then-eq-some (until_close s6) _ k6 in
    let (na, e1) = some_digits-eq-some s h1 in
    let (nb, e3) = some_digits-eq-some s2 h3 in
    let (ic, e5) = object_code-eq-some s4 code s5 h5 in
    let (iv, e7) = until_close-eq-some s6 v rest h7 in
    let found : Match = record { obis = obis_of a b code; value = v; rest = rest } in
    let e2 = cut_prefix-eq-some (45 ∷ []) s1 h2 in
    let e4 = cut_prefix-eq-some (58 ∷ b'9' ∷ b'6' ∷ b'.' ∷ []) s3 h4 in
    let e6 = cut_prefix-eq-some (40 ∷ []) s5 h6 in
    subst (Begins s) (ap (match_or found) k7)
      ((a, b, code, na, nb, ic, refl), iv, assemble a b code v rest e1 e2 e3 e4 e5 e6 e7)
