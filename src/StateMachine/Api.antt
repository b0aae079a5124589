-- ===== src/StateMachine/Api.antt =====
-- The trait `StateMachineApi` over the maps of the crate map-api, with the functions of the crates
-- seq-marked, map-api, state-machine-api and serde_json that the state machine calls. None of their
-- code is in the repository: they are fields here, and `Laws` says what is relied on.
use databend_meta.Common.{ℕ, Bool, Option, Text, Bytes, Result, Action, IoStream}
use databend_meta.Types.Interval.{Duration}
use databend_meta.Types.SeqV.{KvMeta, SeqV}
use databend_meta.Types.Upsert.{MatchSeq}
use databend_meta.Types.SysData.{SysData}

-- `MetaValue`
abbrev pub MetaValue : Type 0
MetaValue = Option KvMeta × Bytes

-- `ExpireKey::new(time_ms, seq)`
pub record ExpireKey : Type 0 where
  pub time_ms : ℕ
  pub seq : ℕ

-- The change of one key, as it is sent to subscribers.
pub record Event : Type 0 where
  pub key : Text
  pub prev : Option (SeqV Bytes)
  pub result : Option (SeqV Bytes)

pub record StateMachineApi : Type 1 where
  -- `SeqMarked<MetaValue>` and `SeqMarked<String>`
  pub Marked : Type 0
  pub MarkedText : Type 0
  pub to_seqv : Marked → Option (SeqV Bytes)
  pub seq : Marked → ℕ
  pub internal_seq : Marked → ℕ
  pub is_tombstone : Marked → Bool
  pub into_data : Marked → Option MetaValue
  pub marked_eq : Marked → Marked → Bool
  pub expires_at_ms_opt : Marked → Option ℕ
  pub into_text : MarkedText → Option Text
  pub expires_at_ms : KvMeta → ℕ
  pub match_seq : MatchSeq → ℕ → Bool
  pub is_expired : ExpireKey → ℕ → Bool
  pub expire_key_ge : ExpireKey → ExpireKey → Bool
  -- `serde_json::from_slice::<u64>` and `serde_json::to_vec`
  pub read_u64 : Bytes → Option ℕ
  pub write_u64 : ℕ → Bytes
  -- the state machine, with a view of its maps that collects the writes until `commit`
  pub State : Type 0
  pub get : Text → State → Result Marked
  pub fetch_and_set : Text → Option MetaValue → Action State (Marked × Marked)
  pub range : Text → Option Text → State → Result (IoStream (Text × Marked))
  pub expire_set : ExpireKey → Option Text → State → State
  pub expire_range : ExpireKey → ExpireKey → State → Result (IoStream (ExpireKey × MarkedText))
  pub sys_data : State → SysData
  pub put_sys_data : SysData → State → State
  pub cleanup_start : State → Duration
  pub set_cleanup_start : Duration → State → State
  pub on_change_applied : Event → State → State
