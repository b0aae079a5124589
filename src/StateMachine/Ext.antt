-- ===== src/StateMachine/Ext.antt =====
-- crates/server/raft-store/src/state_machine_api_ext.rs, and the helpers of utils.rs and
-- leveled_store/map_api.rs that it calls. Logging and cooperative yielding leave no trace here.
pub mod Upsert
pub mod Steps
pub mod Frame
pub mod Listing
pub mod Alike
use databend_meta.Common.{
  ℕ, ◌%◌, Bool, true, false, Option, none, some, List, [], ◌∷◌, Text, Bytes, Result, ok, err,
  IoError, Action, IoStream, with_read, and_then, option_map, unwrap_or, if◌then◌else◌, ltb, ◌>>=◌,
}
use databend_meta.Common.Int.{u64_mod}
use databend_meta.Types.Interval.{Duration, as_millis}
use databend_meta.Types.Time.{millis}
use databend_meta.Types.MetaSpec
use databend_meta.Types.SeqV.{KvMeta, SeqV}
use databend_meta.Types.Upsert.{UpsertKv, Operation, update, delete, as_is}
use databend_meta.Types.CmdContext.{CmdContext, resolve_meta_spec}
use databend_meta.Keys.Prefix.{prefix_right_bound}
use databend_meta.StateMachine.Api.{StateMachineApi, MetaValue, ExpireKey}

-- A panic ends the call: the `unwrap()` of the data of an entry that is no tombstone.
abbrev pub panic : IoError
panic = record { message = [] }

abbrev pub keep_some : {B : Type 0} → Option B → IoStream B → IoStream B
keep_some none rest = rest
keep_some (some b) rest = ok b ∷ rest

-- `try_filter_map`
unfoldable pub filter_stream : {A B : Type 0} → (A → Option B) → IoStream A → IoStream B
filter_stream f [] = []
filter_stream f (err e ∷ strm) = err e ∷ filter_stream f strm
filter_stream f (ok a ∷ strm) = keep_some (f a) (filter_stream f strm)

module _ (api : StateMachineApi) where
  open api use {
    State, Marked, MarkedText, to_seqv, seq, internal_seq, is_tombstone, into_data, marked_eq,
    expires_at_ms_opt, into_text, expires_at_ms, match_seq, is_expired, expire_key_ge, get,
    fetch_and_set, range, expire_set, expire_range, cleanup_start,
  }

  abbrev set_meta : Text → KvMeta → Option MetaValue → Action State (Marked × Marked)
  set_meta key meta (some (old, v)) s = fetch_and_set key (some (some meta, v)) s
  set_meta key meta none s = (err panic, s)

  abbrev update_found : Text → KvMeta → Marked → Action State (Marked × Marked)
  update_found key meta got s =
      if is_tombstone got then (ok (got, got), s) else set_meta key meta (into_data got) s

  -- `MapApiHelper::update_meta`
  unfoldable pub update_meta : Text → KvMeta → Action State (Marked × Marked)
  update_meta key meta s = with_read (get key s) (update_found key meta) s

  -- the write that the operation asks for
  unfoldable pub write_operation : Text → KvMeta → Operation Bytes → Action State (Marked × Marked)
  unfolding update_meta
  write_operation key meta (update v) s = fetch_and_set key (some (some meta, v)) s
  write_operation key meta delete s = fetch_and_set key none s
  write_operation key meta as_is s = update_meta key meta s

  -- A record that has expired already is deleted at once, after it was written.
  unfoldable pub delete_if_expired :
      Text → KvMeta → ℕ → Marked × Marked → Action State (Marked × Marked)
  delete_if_expired key meta now (prev, result) s =
      if ltb (expires_at_ms meta) now
      then and_then (fetch_and_set key none s) (λ (p, r) s'. (ok (prev, r), s'))
      else (ok (prev, result), s)

  abbrev upsert_found : UpsertKv → CmdContext → KvMeta → Marked → Action State (Marked × Marked)
  upsert_found u ctx meta prev s =
      if match_seq u.seq (seq prev)
      then and_then (write_operation u.key meta u.value s)
          (delete_if_expired u.key meta (millis ctx.time))
      else (ok (prev, prev), s)

  unfoldable pub upsert_kv_primary_index : UpsertKv → CmdContext → Action State (Marked × Marked)
  upsert_kv_primary_index u ctx s =
      let meta = resolve_meta_spec ctx (unwrap_or u.value_meta MetaSpec.default) in
      with_read (get u.key s) (upsert_found u ctx meta) s

  -- `seq_marked_to_seqv`
  unfoldable pub seq_marked_to_seqv : Text × Marked → Option (Text × SeqV Bytes)
  seq_marked_to_seqv (k, m) = option_map (λ v. (k, v)) (to_seqv m)

  unfoldable pub list_kv : Text → State → Result (IoStream (Text × SeqV Bytes))
  unfolding filter_stream seq_marked_to_seqv
  list_kv prefix s = range prefix (prefix_right_bound prefix) s >>= λ strm.
      ok (filter_stream seq_marked_to_seqv strm)

  abbrev pub remove_index : Option ℕ → Marked → State → State
  remove_index none removed s = s
  remove_index (some exp_ms) removed s =
      expire_set (record { time_ms = exp_ms; seq = internal_seq removed }) none s

  abbrev pub add_index : Text → Option ℕ → Marked → State → State
  add_index key none added s = s
  add_index key (some exp_ms) added s =
      expire_set (record { time_ms = exp_ms; seq = internal_seq added }) (some key) s

  unfoldable pub update_expire_index : Text → Marked → Marked → State → State
  update_expire_index key removed added s =
      if marked_eq removed added
      then s
      else add_index key (expires_at_ms_opt added) added
          (remove_index (expires_at_ms_opt removed) removed s)

  unfoldable pub live_index : ExpireKey × MarkedText → Option (ExpireKey × Text)
  live_index (k, m) = option_map (λ key. (k, key)) (into_text m)

  -- `as_millis() as u64`
  unfoldable pub list_expire_index : ℕ → State → Result (IoStream (ExpireKey × Text))
  unfolding filter_stream live_index
  list_expire_index curr_time_ms s =
      let start : ExpireKey = record { time_ms = as_millis (cleanup_start s) % u64_mod; seq = 0 } in
      let end : ExpireKey = record { time_ms = curr_time_ms; seq = 0 } in
      if expire_key_ge start end
      then ok []
      else expire_range start end s >>= λ strm. ok (filter_stream live_index strm)

  unfoldable pub get_maybe_expired_kv : Text → State → Result (Option (SeqV Bytes))
  get_maybe_expired_kv key s = get key s >>= λ got. ok (to_seqv got)
