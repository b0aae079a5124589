-- ===== src/Types/MetaSpec.antt =====
-- crates/server/base/src/meta_spec.rs and flexible_timestamp.rs.
use databend_meta.Common.{ℕ, Option, none, some, ltb, if◌then◌else◌}
use databend_meta.Types.Interval
use databend_meta.Types.Interval.{Duration, Interval, duration_from_millis, duration_from_secs}

-- Above the threshold a time stamp counts milliseconds, else seconds.
unfoldable pub flexible_timestamp_to_duration : ℕ → Duration
flexible_timestamp_to_duration timestamp =
    if ltb 100_000_000_000 timestamp
    then duration_from_millis timestamp
    else duration_from_secs timestamp

pub record MetaSpec : Type 0 where
  pub expire_at : Option ℕ
  pub ttl : Option Interval

-- `#[derive(Default)]`
abbrev pub default : MetaSpec
default = record { expire_at = none; ttl = none }

unfoldable pub new : Option ℕ → Option Interval → MetaSpec
new expires_at_sec_or_ms ttl = record { expire_at = expires_at_sec_or_ms; ttl = ttl }

unfoldable pub new_expire : ℕ → MetaSpec
new_expire expires_at_sec_or_ms = record { expire_at = some expires_at_sec_or_ms; ttl = none }

unfoldable pub new_ttl : Duration → MetaSpec
unfolding Interval.from_duration
new_ttl ttl = record { expire_at = none; ttl = some (Interval.from_duration ttl) }
