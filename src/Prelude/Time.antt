-- ===== src/Prelude/Time.antt =====
-- Go's time.Time and time.Duration. An instant is the count of nanoseconds from the zero Time (year
-- 1), so the zero Time is 0; a change of zone (`UTC()`) is the identity. The library stops a
-- difference of instants at the ends of int64. A negative difference is read as 0 here: the
-- program compares differences only with bounds that are not negative, by `<=`, `>` and `>=` a
-- positive bound, where the two agree.
use Prim.Native.Nat.{ℕ, ◌-◌, min}
use mathlib.Core.Bool.{Bool}
use dev_board.Prelude.Tests.{ltb, ◌==◌}

abbrev pub Instant : Type 0
Instant = ℕ

abbrev pub Duration : Type 0
Duration = ℕ

abbrev pub second : Duration
second = 1_000_000_000

abbrev pub minute : Duration
minute = 60_000_000_000

abbrev pub hour : Duration
hour = 3_600_000_000_000

abbrev pub max_duration : Duration
max_duration = 9223372036854775807

-- now.Sub(t)
abbrev pub since : Instant → Instant → Duration
since now t = min (now - t) max_duration

-- a.Before(b)
abbrev pub before : Instant → Instant → Bool
before a b = ltb a b

abbrev pub is_zero : Instant → Bool
is_zero t = t == 0
