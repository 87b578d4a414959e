-- ===== src/Base/Clock.antt =====
-- Go's `time.Time` and `time.Duration`. An instant is the number of nanoseconds since Go's zero
-- time, so `IsZero` is a test for 0; instants before it are not represented. A duration is a
-- signed number of nanoseconds, and `Sub` saturates at the ends of int64.
use Prim.Native.Nat.{ℕ, ◌+◌, ◌-◌, ◌*◌, ◌^◌, ◌≤◌, ◌<◌, min}
use mathlib.Core.Path.{◌≡◌}
use mathlib.Core.Bool.{Bool, true, false}
use native.Mathlib.Omega.{arith}
use deciscope_api.Base.Tests.{ltb, ◌==◌, if◌then◌else◌}
use deciscope_api.Base.Int.{ℤ, pos, negsuc, pos_part, neg_part, ltb_ℤ}

abbrev pub Time : Type 0
Time = ℕ

abbrev pub Duration : Type 0
Duration = ℤ

-- The zero value `time.Time{}`.
abbrev pub zero_time : Time
zero_time = 0

abbrev pub is_zero : Time → Bool
is_zero t = t == 0

abbrev pub before : Time → Time → Bool
before t u = ltb t u

abbrev pub after : Time → Time → Bool
after t u = ltb u t

abbrev pub max_duration : ℕ
max_duration = 2 ^ 63 - 1

abbrev pub second : ℕ
second = 1_000_000_000

abbrev pub minute : ℕ
minute = 60 * second

-- `t.Sub(u)`
abbrev pub sub : Time → Time → Duration
sub t u = if ltb t u then negsuc (min (u - t - 1) max_duration) else pos (min (t - u) max_duration)

-- `t.Add(d)`
abbrev pub add : Time → Duration → Time
add t d = t + pos_part d - neg_part d

-- A duration of at most int64's range is compared exactly.
pub sub-below : (t u d : ℕ) → d ≤ max_duration → ltb_ℤ (sub t u) (pos d) ≡ true → t < u + d
sub-below t u d h e = ground arith

pub sub-not_below : (t u d : ℕ) → ltb_ℤ (sub t u) (pos d) ≡ false → u + d ≤ t
sub-not_below t u d e = ground arith
