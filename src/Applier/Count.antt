-- ===== src/Applier/Count.antt =====
-- A condition on the number of keys with a prefix.
use databend_meta.Common.{
  ℕ, zero, suc, ◌+◌, ◌<◌, ◌%◌, compare, min, ◌≡◌, ◌∙◌, refl, ap, arith, true, [], ◌∷◌, Text, Bytes,
  ok, err, IoStream, no_error, length, take, length-take, Option,
}
use databend_meta.Common.Int.{u64_mod}
use databend_meta.Types.SeqV.{SeqV}
use databend_meta.KvTransaction.Defs
use databend_meta.KvTransaction.Defs.{CompareOperator}
use databend_meta.StateMachine.Api.{StateMachineApi}
use databend_meta.StateMachine.Ext.{list_kv, get_maybe_expired_kv}
use databend_meta.Applier.Defs.{Applier}
use databend_meta.Applier.Evaluate.{eval_condition, eval_compare, count_items}

module _ {A : Type 0} where
  pub count_items-length :
      (acc : ℕ) (strm : IoStream A)
      → no_error strm ≡ true
      → count_items acc strm ≡ ok (acc + length strm)
  unfolding count_items
  count_items-length acc [] h = ground arith
  count_items-length acc (err e ∷ strm) h = cc
  count_items-length acc (ok x ∷ strm) h = ground (arith, count_items-length (acc + 1) strm h)

  pub no_error-take :
      (n : ℕ) (strm : IoStream A) → no_error strm ≡ true → no_error (take n strm) ≡ true
  no_error-take zero strm h = refl
  no_error-take (suc n) [] h = refl
  no_error-take (suc n) (err e ∷ strm) h = cc
  no_error-take (suc n) (ok x ∷ strm) h = no_error-take n strm h

-- Counting to one more than the number decides the comparison.
compare-min : (n l : ℕ) → compare (min (n + 1) l) n ≡ compare l n
compare-min n l = ground arith

-- Where the key of a condition can be read and its listing yields no error, and the number `n` is less than 2^64 - 1:
-- a condition on the number of keys compares the number of all listed keys with `n`, though it counts no
-- further than `n + 1`.
pub eval_condition-keys_with_prefix :
    (api : StateMachineApi) (key : Text) (op : CompareOperator) (n : ℕ) (a : Applier api)
    (found : Option (SeqV Bytes)) (strm : IoStream (Text × SeqV Bytes))
    → n + 1 < u64_mod
    → get_maybe_expired_kv api key a.sm ≡ ok found
    → list_kv api key a.sm ≡ ok strm
    → no_error strm ≡ true
    → eval_condition api (record { key = key; target = Defs.keys_with_prefix n; op = op }) a
      ≡ ok (eval_compare (compare (length strm) n) op)
unfolding eval_condition
eval_condition-keys_with_prefix api key op n a found strm h read listed clean =
    let small : (n + 1) % u64_mod ≡ n + 1 = omega (arith, h) in
    let counted : count_items 0 (take (n + 1) strm) ≡ ok (min (n + 1) (length strm)) =
      count_items-length 0 (take (n + 1) strm) (no_error-take (n + 1) strm clean)
      ∙ ap (λ l. ok l) (ground (arith, length-take (n + 1) strm)) in
    rw (read, listed, small, counted, compare-min n (length strm))
