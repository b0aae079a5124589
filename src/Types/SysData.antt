-- ===== src/Types/SysData.antt =====
-- crates/server/types/src/sys_data.rs
use databend_meta.Common.{ℕ, ◌+◌, ◌%◌, Option, none, some, List, [], Bool, Text, unwrap_or}
use databend_meta.Common.Int.{u64_mod}
use databend_meta.Common.Maps.{contains}
use databend_meta.Types.Node.{Node}

-- `LogId` of the crate openraft, by the three numbers that name it.
pub record LogId : Type 0 where
  pub term : ℕ
  pub node_id : ℕ
  pub index : ℕ

-- `Membership` of the crate openraft: the voters of a joint config, and all nodes.
pub record Membership : Type 0 where
  pub configs : List (List ℕ)
  pub nodes : List ℕ

-- `StoredMembership::new(log_id, membership)`
pub record StoredMembership : Type 0 where
  pub log_id : Option LogId
  pub membership : Membership

pub record SysData : Type 0 where
  pub last_applied : Option LogId
  pub last_membership : StoredMembership
  pub nodes : List (ℕ × Node)
  pub sequence : ℕ
  pub data_seq : Option ℕ
  pub key_counts : List (Text × ℕ)
  pub sm_features : List Text

unfoldable pub curr_seq : SysData → ℕ
curr_seq s = s.sequence

unfoldable pub update_seq : SysData → ℕ → SysData
update_seq s seq = record s { sequence = seq }

-- `+= 1` on a `u64` wraps in a release build.
unfoldable pub next_seq : SysData → ℕ × SysData
next_seq s = let v = (s.sequence + 1) % u64_mod in (v, record s { sequence = v })

unfoldable pub incr_data_seq : SysData → ℕ × SysData
incr_data_seq s =
    let v = (unwrap_or s.data_seq 0 + 1) % u64_mod in (v, record s { data_seq = some v })

unfoldable pub feature_enabled : SysData → Text → Bool
feature_enabled s feature = contains s.sm_features feature

-- `Default`
abbrev pub default : SysData
default = record {
  last_applied = none;
  last_membership = record { log_id = none; membership = record { configs = []; nodes = [] } };
  nodes = [];
  sequence = 0;
  data_seq = none;
  key_counts = [];
  sm_features = [];
}
