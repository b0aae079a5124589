-- ===== src/Types/CmdContext.antt =====
-- crates/server/types/src/cmd/cmd_context.rs, without the record of I/O times, which only the log
-- output reads.
use databend_meta.Common.{ℕ, ◌+◌, ◌≡◌, refl, Option, none, some, min}
use databend_meta.Common.Int.{u64_max}
use databend_meta.Types.Interval.{Interval}
use databend_meta.Types.Time
use databend_meta.Types.Time.{Time, millis}
use databend_meta.Types.MetaSpec.{MetaSpec}
use databend_meta.Types.SeqV.{KvMeta}
use databend_meta.Types.SysData.{LogId}

pub record CmdContext : Type 0 where
  pub time : Time
  pub log_id : LogId

unfoldable pub from_millis_and_log_id : ℕ → LogId → CmdContext
unfolding Time.from_millis
from_millis_and_log_id ms log_id = record { time = Time.from_millis ms; log_id = log_id }

unfoldable pub new : Time → CmdContext
new time = record { time = time; log_id = record { term = 0; node_id = 0; index = 0 } }

unfoldable pub from_millis : ℕ → CmdContext
unfolding new Time.from_millis
from_millis ms = new (Time.from_millis ms)

abbrev pub expire_of : Time → Option ℕ → Option Interval → Option ℕ
expire_of now expire_at (some ttl) = some (millis (Time.add now ttl))
expire_of now expire_at none = expire_at

-- A `ttl` overrides `expire_at`.
unfoldable pub resolve_meta_spec : CmdContext → MetaSpec → KvMeta
unfolding Time.add
resolve_meta_spec ctx spec = record {
  expire_at = expire_of ctx.time spec.expire_at spec.ttl;
  proposed_at_ms = some (millis ctx.time);
}

-- What is resolved from a `ttl` is the proposing time and the `ttl`, at most `u64::MAX`, whatever
-- `expire_at` says; without a `ttl`, `expire_at` is kept; the proposing time is recorded.
pub resolve_meta_spec_fields :
    (ctx : CmdContext) (spec : MetaSpec) (ttl : Interval)
    → ((resolve_meta_spec ctx (record spec { ttl = some ttl })).expire_at
        ≡ some (min (millis ctx.time + ttl.millis) u64_max))
      × ((resolve_meta_spec ctx (record spec { ttl = none })).expire_at ≡ spec.expire_at)
      × ((resolve_meta_spec ctx spec).proposed_at_ms ≡ some (millis ctx.time))
unfolding resolve_meta_spec
resolve_meta_spec_fields ctx spec ttl = (refl, refl, refl)
