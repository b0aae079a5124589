-- ===== src/Applier/Answers.antt =====
-- The guards of puts and deletions keep the rest of the upsert.
use databend_meta.Common.{ℕ, ◌≡◌, refl, Bool, true, Option, none, some, leb, ◌==◌}
use databend_meta.Types.Upsert.{UpsertKv, with_seq}
use databend_meta.Applier.Execute.{guarded}

-- Whether a guard lets an operation write; without one a put always writes, and a deletion needs a value.
unfoldable pub may_put : Option ℕ → ℕ → Bool
may_put none q = true
may_put (some n) q = n == q

unfoldable pub may_delete : Option ℕ → ℕ → Bool
may_delete none q = leb 1 q
may_delete (some n) q = n == q

pub guarded_key : (u : UpsertKv) (o : Option ℕ) → (guarded u o).key ≡ u.key
unfolding with_seq
guarded_key u none = refl
guarded_key u (some n) = refl

pub guarded_value : (u : UpsertKv) (o : Option ℕ) → (guarded u o).value ≡ u.value
unfolding with_seq
guarded_value u none = refl
guarded_value u (some n) = refl

pub guarded_meta : (u : UpsertKv) (o : Option ℕ) → (guarded u o).value_meta ≡ u.value_meta
unfolding with_seq
guarded_meta u none = refl
guarded_meta u (some n) = refl
