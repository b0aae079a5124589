-- ===== src/KvTransaction/Build/Branches.antt =====
-- `impl Branch` of crates/server/types/src/kv_transaction/mod.rs
use databend_meta.Common.{List, [], ◌++◌}
use databend_meta.KvTransaction.Defs.{Predicate, Operation, Branch}
use databend_meta.KvTransaction.Build.Predicates.{always_true, all_of, any_of}

unfoldable pub if_ : Predicate → Branch
if_ predicate = record { predicate = predicate; operations = [] }

unfoldable pub if_all : List Predicate → Branch
unfolding if_ all_of
if_all predicates = if_ (all_of predicates)

unfoldable pub if_any : List Predicate → Branch
unfolding if_ any_of
if_any predicates = if_ (any_of predicates)

unfoldable pub else_ : Branch
unfolding always_true
else_ = record { predicate = always_true; operations = [] }

unfoldable pub then_ : Branch → List Operation → Branch
then_ b operations = record b { operations = b.operations ++ operations }
