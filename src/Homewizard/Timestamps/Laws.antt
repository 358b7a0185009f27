-- ===== src/Homewizard/Timestamps/Laws.antt =====
-- models.go: the padding of a compact timestamp.
use homewizard_exporter.Prelude.{
  ℕ, zero, suc, ◌+◌, ◌-◌, ◌*◌, ◌/◌, ◌%◌, ◌^◌, ◌≤◌, ◌<◌, max, ◌≡◌, refl, ◌∙◌, ◌⊎◌, inl, inr, false,
  List, [], ◌∷◌, ◌++◌, arith, ltb, ◌==◌, if◌then◌else◌, ltb→lt, lt→ltb, ==_iff, Bool-cases, length,
  length-append, All, All-append,
}
use native.Mathlib.Nat.{pow-suc}
use homewizard_exporter.Prelude.Int.{pos}
use homewizard_exporter.Homewizard.Errors.{err, message}
use homewizard_exporter.Homewizard.Timestamps.{
  Platform, digits, format_int, pad, parsed, compact_layout, parse_compact,
}

-- The number that decimal digits spell.
abbrev pub value_from : ℕ → List ℕ → ℕ
value_from n [] = n
value_from n (c ∷ s) = value_from (n * 10 + (c - b'0')) s

value_from-append :
    (n c : ℕ) (s : List ℕ) → value_from n (s ++ c ∷ []) ≡ value_from n s * 10 + (c - b'0')
value_from-append n c [] = refl
value_from-append n c (d ∷ s) = value_from-append (n * 10 + (d - b'0')) c s

ten_pow : (k : ℕ) → 10 ^ suc k ≡ 10 ^ k * 10
ten_pow k = pow-suc 10 k

pow_pos : (k : ℕ) → 0 < 10 ^ k
pow_pos zero = omega arith
pow_pos (suc k) = omega (arith, ten_pow k, pow_pos k)

pub value-digits : (fuel n : ℕ) → n < 10 ^ fuel → value_from 0 (digits fuel n) ≡ n
unfolding digits
value-digits zero n h = omega arith
value-digits (suc fuel) n h = elim (Bool-cases (ltb n 10)) [
  | inl small ↦ rw small (omega arith)
  | inr large ↦
      rw (large, value_from-append)
        (omega (arith, value-digits fuel (n / 10) (omega (arith, ten_pow fuel))))
]

length-digits_le : (fuel n k : ℕ) → n < 10 ^ suc k → length (digits fuel n) ≤ suc k
unfolding digits
length-digits_le zero n k h = omega arith
length-digits_le (suc fuel) n zero h = rw (lt→ltb n 10 h) (omega arith)
length-digits_le (suc fuel) n (suc k) h = elim (Bool-cases (ltb n 10)) [
  | inl small ↦ rw small (omega arith)
  | inr large ↦
      rw (large, length-append)
        (omega (arith, length-digits_le fuel (n / 10) k (omega (arith, ten_pow (suc k)))))
]

length-digits_gt : (fuel n k : ℕ) → k < fuel → 10 ^ k ≤ n → k < length (digits fuel n)
unfolding digits
length-digits_gt zero n k f h = omega arith
length-digits_gt (suc fuel) n zero f h = elim (Bool-cases (ltb n 10)) [
  | inl small ↦ rw small (omega arith)
  | inr large ↦ rw (large, length-append) (omega arith)
]
length-digits_gt (suc fuel) n (suc k) f h = elim (Bool-cases (ltb n 10)) [
  | inl small ↦ absurd (omega (arith, ten_pow k, pow_pos k, ltb→lt n 10 small))
  | inr large ↦
      rw (large, length-append)
        (omega (arith, length-digits_gt fuel (n / 10) k (omega arith) (omega (arith, ten_pow k))))
]

length-pad :
    (fuel : ℕ) (s : List ℕ) → 12 ≤ length s + fuel → length (pad fuel s) ≡ max 12 (length s)
unfolding pad
length-pad zero s h = omega arith
length-pad (suc fuel) s h = elim (Bool-cases (ltb (length s) 12)) [
  | inl short ↦
      rw short (omega (arith, length-pad fuel (b'0' ∷ s) (omega arith), ltb→lt (length s) 12 short))
  | inr long ↦ rw long (ground arith)
]

value-pad : (fuel : ℕ) (s : List ℕ) → value_from 0 (pad fuel s) ≡ value_from 0 s
unfolding pad
value-pad zero s = refl
value-pad (suc fuel) s = elim (Bool-cases (ltb (length s) 12)) [
  | inl short ↦ rw short (value-pad fuel (b'0' ∷ s))
  | inr long ↦ rw long
]

-- The characters '0' to '9'.
abbrev pub IsDigit : ℕ → Type 0
IsDigit c = (b'0' ≤ c) × (c ≤ b'9')

digits-IsDigit : (fuel n : ℕ) → All IsDigit (digits fuel n)
unfolding digits
digits-IsDigit zero n = tt
digits-IsDigit (suc fuel) n = elim (Bool-cases (ltb n 10)) [
  | inl small ↦ let less = ltb→lt n 10 small in rw small ((omega arith, omega (arith, less)), tt)
  | inr large ↦ rw large (
      All-append IsDigit (digits fuel (n / 10)) ((b'0' + n % 10) ∷ [])
        (digits-IsDigit fuel (n / 10)) ((omega arith, omega arith), tt))
]

pad-IsDigit : (fuel : ℕ) (s : List ℕ) → All IsDigit s → All IsDigit (pad fuel s)
unfolding pad
pad-IsDigit zero s h = h
pad-IsDigit (suc fuel) s h = elim (Bool-cases (ltb (length s) 12)) [
  | inl short ↦ rw short (pad-IsDigit fuel (b'0' ∷ s) ((omega arith, omega arith), h))
  | inr long ↦ rw long h
]

abbrev pub compact_limit : ℕ
compact_limit = 10 ^ 12

length-padded : (n : ℕ) → n < compact_limit → length (pad 12 (digits 20 n)) ≡ 12
length-padded n h =
    omega (arith, length-pad 12 (digits 20 n) (omega arith), length-digits_le 20 n 11 (omega arith))

too_long :
    {A : Type 0} (a b : A) (n : ℕ)
    → compact_limit ≤ n
    → (if length (pad 12 (digits 20 n)) == 12 then a else b) ≡ b
too_long a b n h = ground (
  arith,
  length-pad 12 (digits 20 n) (omega arith),
  length-digits_gt 20 n 12 (omega arith) (omega arith),
)

le_of_ltb : (n m : ℕ) → ltb n m ≡ false → m ≤ n
le_of_ltb n m h = ground arith

module _ (P : Platform) (x : P.F) (n : ℕ) where
  -- A positive number below 10^12 is parsed from twelve decimal digits whose value it is; a larger one
  -- is refused without parsing.
  pub parse_compact_lem :
      P.le_zero x ≡ false
      → P.to_int64 x ≡ pos n
      → ((n < compact_limit)
          × (s : List ℕ) × (length s ≡ 12)
          × All IsDigit s
          × (value_from 0 s ≡ n)
          × (parse_compact P x ≡ parsed (P.parse_in_location compact_layout s)))
        ⊎ ((compact_limit ≤ n)
            × (parse_compact P x ≡ err (message "timestamp is not YYMMDDhhmmss")))
  unfolding parse_compact format_int
  parse_compact_lem positive whole = elim (Bool-cases (ltb n compact_limit)) [
    | inl less ↦
        let h = ltb→lt n compact_limit less in
        let len = length-padded n h in
        inl (
          h,
          pad 12 (digits 20 n),
          len,
          pad-IsDigit 12 (digits 20 n) (digits-IsDigit 20 n),
          value-pad 12 (digits 20 n) ∙ value-digits 20 n (omega arith),
          rw (positive, whole) (rw ((==_iff (length (pad 12 (digits 20 n))) 12).1 len) refl),
        )
    | inr more ↦
        let h = le_of_ltb n compact_limit more in inr (h, rw (positive, whole) (too_long _ _ n h))
  ]
