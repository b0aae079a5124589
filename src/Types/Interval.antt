-- ===== src/Types/Interval.antt =====
-- crates/server/base/src/time.rs, `Interval`, and the `Duration` of the standard library.
use databend_meta.Common.{ℕ, ◌*◌, ◌/◌, ◌%◌, ◌≡◌, ◌<◌, arith}
use databend_meta.Common.Int.{u64_mod, saturating_add, saturating_sub}

-- `std::time::Duration`
pub record Duration : Type 0 where
  pub nanos : ℕ

abbrev pub duration_from_millis : ℕ → Duration
duration_from_millis ms = record { nanos = ms * 1_000_000 }

abbrev pub duration_from_secs : ℕ → Duration
duration_from_secs s = record { nanos = s * 1_000_000_000 }

abbrev pub as_millis : Duration → ℕ
as_millis d = d.nanos / 1_000_000

pub record Interval : Type 0 where
  pub millis : ℕ

-- The cast `as u64` keeps the low 64 bits.
unfoldable pub from_duration : Duration → Interval
from_duration d = record { millis = as_millis d % u64_mod }

unfoldable pub to_duration : Interval → Duration
to_duration i = duration_from_millis i.millis

unfoldable pub from_millis : ℕ → Interval
unfolding from_duration
from_millis ms = from_duration (duration_from_millis ms)

unfoldable pub from_secs : ℕ → Interval
unfolding from_duration
from_secs s = from_duration (duration_from_secs s)

unfoldable pub seconds : Interval → ℕ
seconds i = i.millis / 1000

unfoldable pub add : Interval → Interval → Interval
unfolding saturating_add
add a b = record { millis = saturating_add a.millis b.millis }

unfoldable pub sub : Interval → Interval → Interval
unfolding saturating_sub
sub a b = record { millis = saturating_sub a.millis b.millis }

-- A `u64` of milliseconds survives the way through `Duration`.
pub millis-from_millis : (ms : ℕ) → ms < u64_mod → (from_millis ms).millis ≡ ms
unfolding from_millis
millis-from_millis ms h = omega arith

-- An interval that is a `u64` of milliseconds is kept on the way through `Duration`.
pub from_duration-to_duration :
    (i : Interval) → i.millis < u64_mod → (from_duration (to_duration i)).millis ≡ i.millis
unfolding from_duration to_duration
from_duration-to_duration i h = omega arith
