-- ===== src/Time.antt =====
-- What the program uses of Go's package time. A `time.Time` is the number of nanoseconds since the
-- zero `Time` (times before it do not occur), a `time.Duration` is an int64 of nanoseconds.
use homewizard_exporter.Prelude.{ℕ, suc, ◌-◌, ◌%◌, ◌+◌, ◌≤◌, min, ◌≡◌, Bool, arith, ltb, ◌==◌}
use homewizard_exporter.Prelude.Int.{ℤ, pos, negsuc, sub_ℕ, max_int64, wrap64}

abbrev pub Time : Type 0
Time = ℕ

abbrev pub Duration : Type 0
Duration = ℤ

-- `t.IsZero()`
abbrev pub is_zero : Time → Bool
is_zero t = t == 0

-- `t.After(u)`
abbrev pub after : Time → Time → Bool
after t u = ltb u t

abbrev pub saturate : ℤ → Duration
saturate (pos n) = pos (min n max_int64)
saturate (negsuc n) = negsuc (min n max_int64)

-- `t.Sub(u)`, which stops at the largest and the smallest duration
abbrev pub sub : Time → Time → Duration
sub t u = saturate (sub_ℕ t u)

abbrev pub millisecond : ℕ
millisecond = 1_000_000

abbrev pub second : ℕ
second = 1_000_000_000

-- `d * 2`, as an int64
unfoldable pub double : Duration → Duration
unfolding wrap64
double (pos n) = wrap64 (pos (n + n))
double (negsuc n) = wrap64 (negsuc (n + n + 1))

pub double_pos : (n : ℕ) → n + n ≤ max_int64 → double (pos n) ≡ pos (n + n)
unfolding double
double_pos n h = ground arith

-- `d.Truncate(time.Second)`, which rounds toward zero
unfoldable pub truncate : Duration → Duration
truncate (pos n) = pos (n - n % second)
truncate (negsuc n) = sub_ℕ 0 (suc n - suc n % second)
