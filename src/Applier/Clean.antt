-- ===== src/Applier/Clean.antt =====
-- `clean_expired_kvs`: before an entry is applied, the keys that expired before its time are deleted.
use databend_meta.Common.{
  ℕ, List, [], ◌∷◌, Text, Result, ok, err, Action, IoStream, ◌==◌, if◌then◌else◌,
}
use databend_meta.Types.Interval.{duration_from_millis}
use databend_meta.Types.Upsert.{delete_kv}
use databend_meta.StateMachine.Api.{StateMachineApi, ExpireKey}
use databend_meta.StateMachine.Ext.{list_expire_index}
use databend_meta.Applier.Defs.{Applier, reads, upsert_kv, ◌>>=◌, pure}

module _ (api : StateMachineApi) where
  open api use {is_expired, set_cleanup_start}

  abbrev pub add_expired :
      ExpireKey × Text → Result (List (ExpireKey × Text)) → Result (List (ExpireKey × Text))
  add_expired k (ok ks) = ok (k ∷ ks)
  add_expired k (err e) = err e

  -- the `while let` with its `break` at the first key that has not expired
  unfoldable pub collect_expired :
      ℕ → IoStream (ExpireKey × Text) → Result (List (ExpireKey × Text))
  collect_expired now [] = ok []
  collect_expired now (err e ∷ strm) = err e
  collect_expired now (ok (expire_key, key) ∷ strm) =
      let rest = collect_expired now strm in
      if is_expired expire_key now then add_expired (expire_key, key) rest else ok []

  -- the loop over the collected keys
  unfoldable pub delete_expired : List (ExpireKey × Text) → Action (Applier api) Unit
  unfolding upsert_kv delete_kv
  delete_expired [] = pure tt
  delete_expired ((expire_key, key) ∷ ks) = do _ ← upsert_kv api (delete_kv key); delete_expired ks

  abbrev pub save_cleanup_start : ℕ → Applier api → Applier api
  save_cleanup_start now a = record a { sm = set_cleanup_start (duration_from_millis now) a.sm }

  abbrev pub clean_listed : ℕ → IoStream (ExpireKey × Text) → Action (Applier api) Unit
  clean_listed now strm a =
      (do to_clean ← reads api (λ _. collect_expired now strm); delete_expired to_clean)
        (save_cleanup_start now a)

  unfoldable pub clean_expired_kvs : ℕ → Action (Applier api) Unit
  unfolding list_expire_index collect_expired delete_expired
  clean_expired_kvs now =
      if now == 0
      then pure tt
      else do strm ← reads api (λ a. list_expire_index api now a.sm); clean_listed now strm
