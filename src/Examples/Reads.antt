-- ===== src/Examples/Reads.antt =====
-- What conditions read in memory: no read fails.
use databend_meta.Common.{
  ℕ, ◌+◌, ◌%◌, compare, ◌≡◌, ◌∙◌, refl, ap, Bool, true, Option, none, List, [], length, take, Text,
  Bytes, Result, ok, err, IoStream, no_error,
}
use native.Mathlib.Nat.{zero-add}
use databend_meta.Common.Int.{u64_mod}
use databend_meta.Types.SeqV.{SeqV, seq_of}
use databend_meta.KvTransaction.Defs
use databend_meta.KvTransaction.Defs.{
  Condition, Operand, CompareOperator, Operation, Branch, Transaction,
}
use databend_meta.Keys.Prefix.{prefix_right_bound}
use databend_meta.StateMachine.Ext.{list_kv, get_maybe_expired_kv, seq_marked_to_seqv}
use databend_meta.StateMachine.Ext.Listing.{no_error-filter_stream}
use databend_meta.StateMachine.Memory.{memory, scan}
use databend_meta.StateMachine.Memory.Lawful.{no_error-scan}
use databend_meta.Applier.Evaluate.{eval_condition, eval_compare, eval_value, count_items}
use databend_meta.Applier.Count.{count_items-length, no_error-take}
use databend_meta.Applier.Defs.{Applier}

abbrev or_empty : {A : Type 0} → Result (List A) → List A
or_empty (ok xs) = xs
or_empty (err e) = []

abbrev or_none : {A : Type 0} → Result (Option A) → Option A
or_none (ok x) = x
or_none (err e) = none

-- what an applier's state machine holds at a key, and lists
pub held : (a : Applier memory) → Text → Option (SeqV Bytes)
held a key = or_none (get_maybe_expired_kv memory key a.sm)

pub listing : (a : Applier memory) → Text → IoStream (Text × SeqV Bytes)
listing a prefix = or_empty (list_kv memory prefix a.sm)

pub truth_of : (a : Applier memory) → Text → CompareOperator → Operand → Bool
truth_of a key op (Defs.seq n) = eval_compare (compare (seq_of (held a key)) n) op
truth_of a key op (Defs.value v) = eval_value memory (held a key) op v
truth_of a key op (Defs.keys_with_prefix n) =
    eval_compare (compare (length (take ((n + 1) % u64_mod) (listing a key))) n) op

pub truth : (a : Applier memory) → Condition → Bool
truth a c = truth_of a c.key c.op c.target

pub held_lem :
    (a : Applier memory) → (key : Text) → get_maybe_expired_kv memory key a.sm ≡ ok (held a key)
unfolding held get_maybe_expired_kv memory
held_lem a key = refl

pub listing_lem :
    (a : Applier memory) → (prefix : Text) → list_kv memory prefix a.sm ≡ ok (listing a prefix)
unfolding listing list_kv memory
listing_lem a prefix = refl

pub no_error-listing : (a : Applier memory) → (prefix : Text) → no_error (listing a prefix) ≡ true
unfolding listing list_kv memory
no_error-listing a prefix =
    let right = prefix_right_bound prefix in
    let all = a.sm.entries in
    no_error-filter_stream (seq_marked_to_seqv memory) (scan all prefix right all)
    ∙ no_error-scan all all prefix right

counted :
    (a : Applier memory) (prefix : Text) (n : ℕ)
    → count_items 0 (take n (listing a prefix)) ≡ ok (length (take n (listing a prefix)))
counted a prefix n =
    count_items-length 0 (take n (listing a prefix))
      (no_error-take n (listing a prefix) (no_error-listing a prefix))
    ∙ ap (λ l. ok l) (zero-add (length (take n (listing a prefix))))

target_lem :
    (a : Applier memory) (key : Text) (op : CompareOperator) (t : Operand)
    → eval_condition memory (record { key = key; op = op; target = t }) a ≡ ok (truth_of a key op t)
unfolding eval_condition truth_of
target_lem a key op (Defs.seq n) = rw (held_lem a key)
target_lem a key op (Defs.value v) = rw (held_lem a key)
target_lem a key op (Defs.keys_with_prefix n) =
    rw (held_lem a key, listing_lem a key, counted a key)

pub truth_lem : (a : Applier memory) → (c : Condition) → eval_condition memory c a ≡ ok (truth a c)
unfolding truth
truth_lem a c = target_lem a c.key c.op c.target
