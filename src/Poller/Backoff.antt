-- ===== src/Poller/Backoff.antt =====
-- poller.go: the waits between polls.
use native.Mathlib.Nat.{pow-suc}
use homewizard_exporter.Prelude.{
  ℕ, zero, suc, ◌+◌, ◌-◌, ◌*◌, ◌^◌, ◌≤◌, ◌<◌, min, ◌≡◌, ap, ◌∙◌, ◌≢◌, inl, inr, false, Option, none,
  List, [], ◌∷◌, arith, leb, leb→le, Bool-cases, Option-cases, length,
}
use homewizard_exporter.Prelude.Int.{ℤ, pos, pos_part, ◌≤ℤ◌, max_int64}
use homewizard_exporter.Time.{Duration, double_pos}
use homewizard_exporter.Config
use homewizard_exporter.Config.{Poll}
use homewizard_exporter.Poller.{Settings, new}
use homewizard_exporter.Poller.Rounds.{Round, Loop, grow, attempt, round, last_round, loop}
use homewizard_exporter.Homewizard.Errors.{Result, Error}
use homewizard_exporter.Homewizard.Timestamps.{Platform}
use homewizard_exporter.Homewizard.Client.{Client, Net, Codec}

-- The bounds are positive and in order, and doubling below the larger one fits an int64.
pub record IsBounded (p : Settings) : Type 0 where
  pub low : ℕ
  pub high : ℕ
  pub is_low : p.backoff_min ≡ pos low
  pub is_high : p.backoff_max ≡ pos high
  pub positive : 0 < low
  pub ordered : low ≤ high
  pub fits : high + high ≤ max_int64

grow_pos :
    (p : Settings) (h : IsBounded p) (n : ℕ)
    → n ≤ h.high
    → grow p (pos n) ≡ pos (min (n + n) h.high)
unfolding grow
grow_pos p h n k = rw (double_pos n (omega (arith, h.fits)), h.is_high) (ground arith)

-- `New` makes of any two bounds below 2^62 nanoseconds, some 146 years, two that are positive, in
-- order, and far enough from the largest int64 for a doubling to fit.
pub new-IsBounded :
    (devices : List Config.Device) (cfg : Poll) (low high : ℤ)
    → low ≤ℤ pos (2 ^ 62 - 1)
    → high ≤ℤ pos (2 ^ 62 - 1)
    → IsBounded (new devices cfg low high)
unfolding new
new-IsBounded devices cfg low high h k = record {
  low = pos_part (new devices cfg low high).backoff_min;
  high = pos_part (new devices cfg low high).backoff_max;
  is_low = ground arith;
  is_high = ground arith;
  positive = ground arith;
  ordered = ground arith;
  fits = ground arith;
}

two_pow : (k : ℕ) → 2 ^ suc k ≡ 2 ^ k * 2
two_pow k = pow-suc 2 k

two_pow_pos : (k : ℕ) → 1 ≤ 2 ^ k
two_pow_pos zero = omega arith
two_pow_pos (suc k) = omega (arith, two_pow k, two_pow_pos k)

scaled : (m k : ℕ) → m ≤ m * 2 ^ k
scaled m k = grind (arith, two_pow_pos k)

min_left : (a b : ℕ) → a ≤ b → min a b ≡ a
min_left a b h = omega arith

min_right : (a b : ℕ) → b ≤ a → min a b ≡ b
min_right a b h = omega arith

lt_of_leb : (a b : ℕ) → leb a b ≡ false → b ≤ a
lt_of_leb a b h = ground arith

capped : (n k high : ℕ) → min (min (n + n) high * 2 ^ k) high ≡ min (n * 2 ^ suc k) high
capped n k high = elim (Bool-cases (leb (n + n) high)) [
  | inl small ↦ omega (
    arith,
    leb→le (n + n) high small,
    two_pow k,
    ap (λ (t : ℕ). n * t) (two_pow k),
    ap (λ (t : ℕ). t * 2 ^ k) (min_left (n + n) high (leb→le (n + n) high small)),
  )
  | inr large ↦ omega (
    arith,
    scaled high k,
    scaled (n + n) k,
    ap (λ (t : ℕ). n * t) (two_pow k),
    ap (λ (t : ℕ). t * 2 ^ k) (min_right (n + n) high (lt_of_leb (n + n) high large)),
    lt_of_leb (n + n) high large,
  )
]

module _ (P : Platform) (J : Codec P.F) (connect : Net → Config.Device → Result Client)
    (p : Settings) (d : Config.Device) where
  -- The error of a round in a state of the loop.
  abbrev pub error_in : Round → Loop P.F → Option Error
  error_in r l = (attempt P J connect p d r l.store l.client).error

  -- Every round runs to its end and fails.
  abbrev pub AllFail : List Round → Loop P.F → Type 0
  AllFail [] l = Unit
  AllFail (r ∷ rs) l =
      (r.cancelled ≡ false) × (error_in r l ≢ none) × AllFail rs (round P J connect p d r l).0

  round_failed :
      (r : Round) (l : Loop P.F)
      → error_in r l ≢ none
      → (round P J connect p d r l).0.backoff ≡ grow p l.backoff
  unfolding round
  round_failed r l h = ground arith

  round_ok :
      (r : Round) (l : Loop P.F)
      → error_in r l ≡ none
      → (round P J connect p d r l).0.backoff ≡ p.backoff_min
  unfolding round
  round_ok r l h = rw h

  loop_backoff :
      (h : IsBounded p) (rs : List Round) (l : Loop P.F) (n : ℕ)
      → n ≤ h.high
      → l.backoff ≡ pos n
      → AllFail rs l
      → (loop P J connect p d rs l).backoff ≡ pos (min (n * 2 ^ length rs) h.high)
  unfolding loop
  loop_backoff h [] l n k e f = e ∙ ap pos (omega (arith, k))
  loop_backoff h (r ∷ rs) l n k e (going, failed, f) =
      let grown = round_failed r l failed ∙ ap (grow p) e ∙ grow_pos p h n k in
      simp going (
        loop_backoff h rs (round P J connect p d r l).0 (min (n + n) h.high) (omega arith) grown f
        ∙ ap pos (capped n (length rs) h.high))

  -- Where the smallest wait is positive and at most the largest, twice the largest fits an int64, and the
  -- loop begins with the smallest, the wait after `k` rounds that all run to their end and fail is the
  -- smallest one doubled `k` times, or the largest one where that is less.
  pub backoff_doubles :
      (h : IsBounded p) (rs : List Round) (l : Loop P.F)
      → l.backoff ≡ p.backoff_min
      → AllFail rs l
      → (loop P J connect p d rs l).backoff ≡ pos (min (h.low * 2 ^ length rs) h.high)
  backoff_doubles h rs l e f = loop_backoff h rs l h.low h.ordered (e ∙ h.is_low) f

  abbrev InBounds : IsBounded p → Duration → Type 0
  InBounds h b = (n : ℕ) × (b ≡ pos n) × (h.low ≤ n) × (n ≤ h.high)

  round-InBounds :
      (h : IsBounded p) (r : Round) (l : Loop P.F)
      → InBounds h l.backoff
      → InBounds h (round P J connect p d r l).0.backoff
  round-InBounds h r l (n, e, low, high) = elim (Option-cases (error_in r l)) [
    | inl fine ↦ (h.low, round_ok r l fine ∙ h.is_low, omega arith, h.ordered)
    | inr (x, bad) ↦ (
      min (n + n) h.high,
      round_failed r l (λ fine. cc) ∙ ap (grow p) e ∙ grow_pos p h n high,
      omega (arith, h.ordered),
      omega arith,
    )
  ]

  -- Where the smallest wait is positive and at most the largest, and twice the largest fits an int64, a
  -- wait that lies between the two still does after any rounds.
  pub loop-InBounds :
      (h : IsBounded p) (rs : List Round) (l : Loop P.F)
      → InBounds h l.backoff
      → InBounds h (loop P J connect p d rs l).backoff
  unfolding loop last_round
  loop-InBounds h [] l b = b
  loop-InBounds h (r ∷ rs) l b = elim (Bool-cases r.cancelled) [
    | inl stop ↦ simp stop b
    | inr going ↦
        simp going (loop-InBounds h rs (round P J connect p d r l).0 (round-InBounds h r l b))
  ]
