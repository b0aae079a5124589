-- ===== src/StateMachine/Laws.antt =====
-- What the state machine relies on of the crates behind `StateMachineApi`.
use databend_meta.Common.{
  ℕ, ◌+◌, ◌<◌, ◌≡◌, ◌≢◌, true, Option, none, some, List, [], ◌∷◌, ◌++◌, Text, Bytes, ok, IoStream,
  no_error, Has, option_map, is_none, leb, ltb, ◌==◌,
}
use databend_meta.Common.Int.{u64_mod, u64_max}
use databend_meta.Types.Interval.{Duration}
use databend_meta.Types.SeqV.{SeqV, seq_of}
use databend_meta.Types.Upsert.{any, exact, ge}
use databend_meta.Types.SysData.{SysData}
use databend_meta.Keys.Order.{is_text}
use databend_meta.Keys.Range.{in_range}
use databend_meta.StateMachine.Api.{StateMachineApi, MetaValue, ExpireKey, Event}

-- Values that carry a sequence number, and the tests on them.
pub record ValueLaws (api : StateMachineApi) : Type 0 where
  pub seq_lem : (m : api.Marked) → api.seq m ≡ seq_of (api.to_seqv m)
  pub is_tombstone_lem : (m : api.Marked) → api.is_tombstone m ≡ is_none (api.to_seqv m)
  pub into_data_lem :
      (m : api.Marked) → api.into_data m ≡ option_map (λ v. (v.meta, v.value)) (api.to_seqv m)
  pub match_any : (n : ℕ) → api.match_seq any n ≡ true
  pub match_exact : (n q : ℕ) → api.match_seq (exact n) q ≡ (n == q)
  pub match_ge : (n q : ℕ) → api.match_seq (ge n) q ≡ leb n q
  pub is_expired_lem : (k : ExpireKey) (now : ℕ) → api.is_expired k now ≡ ltb k.time_ms now
  pub never_expires :
      (proposed : Option ℕ)
      → api.expires_at_ms (record { expire_at = none; proposed_at_ms = proposed }) ≡ u64_max
  pub read-write_u64 : (n : ℕ) → n < u64_mod → api.read_u64 (api.write_u64 n) ≡ some n
  pub read_u64_lt : (b : Bytes) (n : ℕ) → api.read_u64 b ≡ some n → n < u64_mod

-- The map of user keys. A write that succeeds returns the entry before and the entry after it; a new
-- value takes the next sequence number, a deletion takes none.
pub record MapLaws (api : StateMachineApi) : Type 0 where
  pub last_seq : api.State → ℕ
  pub get_prev :
      (k : Text) (v : Option MetaValue) (s s' : api.State) (prev res : api.Marked)
      → api.fetch_and_set k v s ≡ (ok (prev, res), s')
      → api.get k s ≡ ok prev
  pub get_self :
      (k : Text) (v : Option MetaValue) (s s' : api.State) (prev res : api.Marked)
      → api.fetch_and_set k v s ≡ (ok (prev, res), s')
      → api.get k s' ≡ ok res
  pub get_other :
      (k : Text) (v : Option MetaValue) (s s' : api.State) (prev res : api.Marked) (j : Text)
      → api.fetch_and_set k v s ≡ (ok (prev, res), s')
      → j ≢ k
      → api.get j s' ≡ api.get j s
  pub value_set :
      (k : Text) (v : MetaValue) (s s' : api.State) (prev res : api.Marked)
      → api.fetch_and_set k (some v) s ≡ (ok (prev, res), s')
      → api.to_seqv res ≡ some (record { seq = last_seq s + 1; meta = v.0; value = v.1 })
  pub value_deleted :
      (k : Text) (s s' : api.State) (prev res : api.Marked)
      → api.fetch_and_set k none s ≡ (ok (prev, res), s')
      → api.to_seqv res ≡ none
  pub last_seq_set :
      (k : Text) (v : MetaValue) (s s' : api.State) (prev res : api.Marked)
      → api.fetch_and_set k (some v) s ≡ (ok (prev, res), s')
      → last_seq s' ≡ last_seq s + 1
  pub last_seq_deleted :
      (k : Text) (s s' : api.State) (prev res : api.Marked)
      → api.fetch_and_set k none s ≡ (ok (prev, res), s')
      → last_seq s' ≡ last_seq s
  -- the expiration index is another map
  pub get-expire_set :
      (e : ExpireKey) (v : Option Text) (s : api.State) (k : Text)
      → api.get k (api.expire_set e v s) ≡ api.get k s
  pub last_seq-expire_set :
      (e : ExpireKey) (v : Option Text) (s : api.State)
      → last_seq (api.expire_set e v s) ≡ last_seq s
  pub last_seq-put_sys_data :
      (d : SysData) (s : api.State) → last_seq (api.put_sys_data d s) ≡ last_seq s
  pub last_seq-set_cleanup_start :
      (d : Duration) (s : api.State) → last_seq (api.set_cleanup_start d s) ≡ last_seq s
  pub last_seq-on_change :
      (e : Event) (s : api.State) → last_seq (api.on_change_applied e s) ≡ last_seq s

-- The rest of the state: system data and the subscribers.
pub record SystemLaws (api : StateMachineApi) : Type 0 where
  pub sys_data-put : (d : SysData) (s : api.State) → api.sys_data (api.put_sys_data d s) ≡ d
  pub published : api.State → List Event
  pub published-on_change :
      (e : Event) (s : api.State) → published (api.on_change_applied e s) ≡ published s ++ e ∷ []
  pub published-put_sys_data :
      (d : SysData) (s : api.State) → published (api.put_sys_data d s) ≡ published s
  pub published-fetch_and_set :
      (k : Text) (v : Option MetaValue) (s : api.State)
      → published (api.fetch_and_set k v s).1 ≡ published s
  pub published-expire_set :
      (e : ExpireKey) (v : Option Text) (s : api.State)
      → published (api.expire_set e v s) ≡ published s
  pub published-set_cleanup_start :
      (d : Duration) (s : api.State) → published (api.set_cleanup_start d s) ≡ published s
  pub get-set_cleanup_start :
      (d : Duration) (s : api.State) (k : Text)
      → api.get k (api.set_cleanup_start d s) ≡ api.get k s
  pub get-put_sys_data :
      (d : SysData) (s : api.State) (k : Text) → api.get k (api.put_sys_data d s) ≡ api.get k s
  pub sys_data-fetch_and_set :
      (k : Text) (v : Option MetaValue) (s : api.State)
      → api.sys_data (api.fetch_and_set k v s).1 ≡ api.sys_data s
  pub sys_data-expire_set :
      (e : ExpireKey) (v : Option Text) (s : api.State)
      → api.sys_data (api.expire_set e v s) ≡ api.sys_data s
  pub sys_data-set_cleanup_start :
      (d : Duration) (s : api.State) → api.sys_data (api.set_cleanup_start d s) ≡ api.sys_data s
  pub sys_data-on_change :
      (e : Event) (s : api.State) → api.sys_data (api.on_change_applied e s) ≡ api.sys_data s
  pub get-on_change :
      (e : Event) (s : api.State) (k : Text) → api.get k (api.on_change_applied e s) ≡ api.get k s

-- A scan of user keys, of which every one is a text. What it yields are entries of the range, and
-- where it yields no error it yields every entry of the range that holds a value.
pub record RangeLaws (api : StateMachineApi) : Type 0 where
  pub range_sound :
      (left : Text) (right : Option Text) (s : api.State) (strm : IoStream (Text × api.Marked))
      (k : Text) (m : api.Marked)
      → api.range left right s ≡ ok strm
      → Has (ok (k, m)) strm
      → (is_text k ≡ true) × (in_range left right k ≡ true) × (api.get k s ≡ ok m)
  pub range_complete :
      (left : Text) (right : Option Text) (s : api.State) (strm : IoStream (Text × api.Marked))
      (k : Text) (m : api.Marked) (v : SeqV Bytes)
      → api.range left right s ≡ ok strm
      → no_error strm ≡ true
      → is_text k ≡ true
      → in_range left right k ≡ true
      → api.get k s ≡ ok m
      → api.to_seqv m ≡ some v
      → Has (ok (k, m)) strm
