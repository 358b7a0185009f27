-- ===== src/Homewizard/Capabilities/Versions.antt =====
-- capabilities.go: `atLeastAPI` at the texts of versions.
use homewizard_exporter.Prelude.{
  ℕ, zero, suc, ◌+◌, ◌-◌, ◌*◌, ◌/◌, ◌%◌, ◌≤◌, ◌<◌, ◌≡◌, refl, ap, ◌∙◌, ◌≢◌, ◌↔◌, ◌⊎◌, inl, inr,
  true, some, List, [], ◌∷◌, ◌++◌, arith, ltb, ltb→lt, Bool-cases, append-eq-nil, All, All-append,
}
use homewizard_exporter.Prelude.Int.{pos, max_int64}
use homewizard_exporter.Homewizard.Capabilities.{
  atoi_digits, atoi, split_codes, trim_v, compare_major, at_least_api,
}
use homewizard_exporter.Homewizard.Timestamps.{digits}
use homewizard_exporter.Homewizard.Timestamps.Laws.{value_from, value-digits}

abbrev IsDigit : ℕ → Type 0
IsDigit c = (b'0' ≤ c) × (c ≤ b'9')

atoi_digits-value : (s : List ℕ) (n : ℕ) → All IsDigit s → atoi_digits n s ≡ some (value_from n s)
unfolding atoi_digits
atoi_digits-value [] n h = refl
atoi_digits-value (c ∷ s) n (h, hs) = ground (arith, atoi_digits-value s (n * 10 + (c - b'0')) hs)

digits-IsDigit : (fuel n : ℕ) → All IsDigit (digits fuel n)
unfolding digits
digits-IsDigit zero n = tt
digits-IsDigit (suc fuel) n = elim (Bool-cases (ltb n 10)) [
  | inl small ↦ rw small ((omega arith, omega (arith, ltb→lt n 10 small)), tt)
  | inr large ↦ rw large (
      All-append _ (digits fuel (n / 10)) ((b'0' + n % 10) ∷ []) (digits-IsDigit fuel (n / 10))
        ((omega arith, omega arith), tt))
]

digits-ne-nil : (fuel n : ℕ) → digits (suc fuel) n ≢ []
unfolding digits
digits-ne-nil fuel n h = elim (Bool-cases (ltb n 10)) [
  | inl small ↦ cc
  | inr large ↦ cc ((append-eq-nil (digits fuel (n / 10)) ((b'0' + n % 10) ∷ []) (rw large at h)).1)
]

atoi-value :
    (s : List ℕ)
    → s ≢ []
    → All IsDigit s
    → value_from 0 s ≤ max_int64
    → atoi s ≡ some (pos (value_from 0 s))
unfolding atoi
atoi-value [] h k m = absurd (h refl)
atoi-value (c ∷ s) h k m = ground (arith, atoi_digits-value (c ∷ s) 0 k)

atoi-digits : (n : ℕ) → n ≤ max_int64 → atoi (digits 20 n) ≡ some (pos n)
atoi-digits n h =
    let same = value-digits 20 n (omega arith) in
    atoi-value (digits 20 n) (digits-ne-nil 19 n) (digits-IsDigit 20 n) (omega (arith, same))
    ∙ ap (λ k. some (pos k)) same

split_codes-lacks : (sep : ℕ) (s : List ℕ) → All (λ c. c ≢ sep) s → split_codes sep s ≡ s ∷ []
unfolding split_codes
split_codes-lacks sep [] h = refl
split_codes-lacks sep (c ∷ s) (h, hs) = ground (arith, split_codes-lacks sep s hs)

split_codes-append :
    (sep : ℕ) (s t : List ℕ)
    → All (λ c. c ≢ sep) s
    → split_codes sep (s ++ sep ∷ t) ≡ s ∷ split_codes sep t
unfolding split_codes
split_codes-append sep [] t h = ground arith
split_codes-append sep (c ∷ s) t (h, hs) = ground (arith, split_codes-append sep s t hs)

IsDigit-apart : (s : List ℕ) → All IsDigit s → All (λ c. c ≢ b'.') s
IsDigit-apart [] h = tt
IsDigit-apart (c ∷ s) (h, hs) = (omega arith, IsDigit-apart s hs)

-- The text of a version.
abbrev pub version_text : ℕ → ℕ → List ℕ
version_text major minor = digits 20 major ++ b'.' ∷ digits 20 minor

trim_v-digits : (s t : List ℕ) → All IsDigit s → s ≢ [] → trim_v (s ++ t) ≡ s ++ t
unfolding trim_v
trim_v-digits [] t h k = absurd (k refl)
trim_v-digits (c ∷ s) t (h, hs) k = ground arith

split-version :
    (major minor : ℕ)
    → split_codes b'.' (version_text major minor) ≡ digits 20 major ∷ digits 20 minor ∷ []
split-version major minor =
    split_codes-append b'.' (digits 20 major) (digits 20 minor)
      (IsDigit-apart (digits 20 major) (digits-IsDigit 20 major))
    ∙ ap (λ parts. digits 20 major ∷ parts)
        (split_codes-lacks b'.' (digits 20 minor)
          (IsDigit-apart (digits 20 minor) (digits-IsDigit 20 minor)))

-- The comparison with the numbers in place of their texts.
at_least_api_numbers :
    (major minor a b : ℕ)
    → major ≤ max_int64
    → minor ≤ max_int64
    → at_least_api (version_text major minor) a b
      ≡ compare_major (some (pos major)) (digits 20 minor ∷ []) a b
unfolding at_least_api
at_least_api_numbers major minor a b h k = rw (
  trim_v-digits (digits 20 major) (b'.' ∷ digits 20 minor) (digits-IsDigit 20 major)
      (digits-ne-nil 19 major),
  split-version major minor,
  atoi-digits major h,
)

-- A version of two numbers is at least another when its major number is larger, or equal with a minor
-- number that is at least as large; a leading v makes no difference.
pub at_least_api_iff :
    (major minor a b : ℕ)
    → major ≤ max_int64
    → minor ≤ max_int64
    → ((at_least_api (version_text major minor) a b ≡ true)
        ↔ ((a < major) ⊎ ((a ≡ major) × (b ≤ minor))))
      × (at_least_api (b'v' ∷ version_text major minor) a b
          ≡ at_least_api (version_text major minor) a b)
unfolding at_least_api trim_v
at_least_api_iff major minor a b h k = (
  rw (at_least_api_numbers major minor a b h k) (ground (arith, atoi-digits minor k)),
  rw
      (trim_v-digits (digits 20 major) (b'.' ∷ digits 20 minor) (digits-IsDigit 20 major)
        (digits-ne-nil 19 major))
      refl,
)
