-- ===== src/Examples/Entries.antt =====
-- Log entries that are applied.
use databend_meta.Common.{
  ℕ, ◌≡◌, refl, Option, none, some, List, [], ◌∷◌, ◌++◌, Bytes, IoStream, ok, All, text_eq,
}
use databend_meta.Types.Change
use databend_meta.Types.SeqV.{SeqV}
use databend_meta.Types.Upsert.{UpsertKv, update, exact}
use databend_meta.Types.CmdContext.{resolve_meta_spec}
use databend_meta.StateMachine.Api.{Event}
use databend_meta.StateMachine.Ext.{write_operation, delete_if_expired}
use databend_meta.StateMachine.Memory.{memory}
use databend_meta.StateMachine.Memory.Lawful.{memory_system}
use databend_meta.Applier.Response
use databend_meta.Applier.Response.{AppliedState}
use databend_meta.Applier.Command
use databend_meta.Applier.Command.{
  Entry, Cmd, apply, apply_add_node, apply_remove_node, apply_set_feature,
}
use databend_meta.Applier.Published.{Differs, published-apply}
use databend_meta.Applier.Batch.{View, ViewLaws, Outcome, apply_entries, apply_entries-Outcome}
use databend_meta.Examples.{key_b, log_id, applier, enums}

abbrev put_b : UpsertKv
put_b = record { key = key_b; seq = exact 0; value = update (9 ∷ []); value_meta = none }

abbrev entry_5 : Entry
entry_5 = record {
  log_id = log_id 5;
  payload = Command.normal (record { time_ms = none; cmd = Command.upsert put_b });
}

abbrev written_b : Option (SeqV Bytes)
written_b = some (record {
  seq = 3;
  meta = some (record { expire_at = none; proposed_at_ms = some 0 });
  value = 9 ∷ [];
})

answer : AppliedState
unfolding Change.new
answer = Response.kv (Change.new none written_b)

published-apply_example :
    let after = (apply memory enums entry_5 applier).1 in
    (es : List Event) × All Differs es
    × (memory_system.published after.sm ≡ memory_system.published applier.sm ++ es)
    × (after.changes ≡ [])
unfolding apply applier answer write_operation delete_if_expired resolve_meta_spec text_eq
published-apply_example =
    published-apply memory enums memory_system entry_5 applier
      (apply memory enums entry_5 applier).1 answer refl refl

-- The view of a batch over the state in memory: what it wrote to the maps is lost where it is dropped.
memory_view : View memory
unfolding memory
memory_view = record {
  commit = λ s. (ok tt, s);
  drop_view = λ base s. record base {
    sys_data = s.sys_data;
    cleanup_start = s.cleanup_start;
    published = s.published;
  };
}

memory_view_lawful : ViewLaws memory memory_system memory_view
unfolding memory memory_view memory_system
memory_view_lawful = record {
  get-drop = λ base s k. refl;
  sys_data-drop = λ base s. refl;
  cleanup_start-drop = λ base s. refl;
  published-drop = λ base s. refl;
}

abbrev batch : IoStream (Entry × Option ℕ)
batch = ok (entry_5, some 8) ∷ ok (record { log_id = log_id 6; payload = Command.blank }, none) ∷ []

apply_entries-Outcome_example :
    Outcome memory enums memory_view memory_system memory_view_lawful batch applier.sm
      (apply_entries memory enums memory_view batch applier.sm)
apply_entries-Outcome_example =
    apply_entries-Outcome memory enums memory_view memory_system memory_view_lawful batch applier.sm
