-- ===== src/Types/Time.antt =====
-- crates/server/base/src/time.rs, `Time`.
use databend_meta.Common.{ℕ, ◌+◌, ◌≡◌, ◌<◌, arith}
use databend_meta.Common.Int.{u64_mod}
use databend_meta.Types.Interval
use databend_meta.Types.Interval.{Duration, Interval}

pub record Time : Type 0 where
  pub time : Interval

unfoldable pub from_millis : ℕ → Time
unfolding Interval.from_millis
from_millis ms = record { time = Interval.from_millis ms }

unfoldable pub from_secs : ℕ → Time
unfolding Interval.from_secs
from_secs s = record { time = Interval.from_secs s }

unfoldable pub to_duration : Time → Duration
unfolding Interval.to_duration
to_duration t = Interval.to_duration t.time

abbrev pub millis : Time → ℕ
millis t = t.time.millis

unfoldable pub seconds : Time → ℕ
unfolding Interval.seconds
seconds t = Interval.seconds t.time

-- `Time + Interval`
unfoldable pub add : Time → Interval → Time
unfolding Interval.add
add t i = record { time = Interval.add t.time i }

-- `Time - Interval`
unfoldable pub sub : Time → Interval → Time
unfolding Interval.sub
sub t i = record { time = Interval.sub t.time i }

-- `Time - Time`
unfoldable pub since : Time → Time → Interval
unfolding Interval.sub
since t u = Interval.sub t.time u.time

-- Where the sum does not saturate, the interval from `t` to `t + i` is `i`.
pub since-add :
    (t : Time) (i : Interval)
    → millis t + i.millis < u64_mod
    → (since (add t i) t).millis ≡ i.millis
unfolding since add
since-add t i h = omega arith
