-- ===== src/Types/Change.antt =====
-- crates/server/base/src/change.rs: what an operation did to a value.
use databend_meta.Common.{ℕ, Bool, not, ◌⊎◌, inl, inr, Option, none, some, ◌==◌, option_map}
use databend_meta.Types.SeqV.{SeqV, seq_of, normalize_option, without_proposed_at_option}

pub record Change (A Ident : Type 0) : Type 0 where
  pub ident : Option Ident
  pub prev : Option (SeqV A)
  pub result : Option (SeqV A)

module _ {A E : Type 0} where
  abbrev added : {R : Type 0} → (SeqV A → E) → R → Option (SeqV A) → E ⊎ R
  added make_err r none = inr r
  added make_err r (some p) = inl (make_err p)

  abbrev removed : (Option (SeqV A) → E) → Option (SeqV A) → Option (SeqV A) → E ⊎ SeqV A
  removed make_err none (some p) = inr p
  removed make_err none none = inl (make_err none)
  removed make_err (some r) prev = inl (make_err prev)

module _ {A Ident : Type 0} where
  unfoldable pub new : Option (SeqV A) → Option (SeqV A) → Change A Ident
  new prev result = record { ident = none; prev = prev; result = result }

  unfoldable pub with_id : Change A Ident → Ident → Change A Ident
  with_id c id = record c { ident = some id }

  unfoldable pub unpack : Change A Ident → Option (SeqV A) × Option (SeqV A)
  unpack c = (c.prev, c.result)

  unfoldable pub map_change : {B : Type 0} → Change A Ident → (SeqV A → B) → Option B × Option B
  map_change c f = (option_map f c.prev, option_map f c.result)

  unfoldable pub unpack_seq : Change A Ident → Option ℕ × Option ℕ
  unfolding map_change
  unpack_seq c = map_change c (λ x. x.seq)

  unfoldable pub unpack_data : Change A Ident → Option A × Option A
  unfolding map_change
  unpack_data c = map_change c (λ x. x.value)

  unfoldable pub is_changed : Change A Ident → Bool
  is_changed c = not (seq_of c.prev == seq_of c.result)

  -- `Err` is the left side, `Ok` the right one.
  unfoldable pub added_or_else : {E : Type 0} → Change A Ident → (SeqV A → E) → E ⊎ Option (SeqV A)
  added_or_else c make_err = added make_err c.result c.prev

  unfoldable pub added_seq_or_else : {E : Type 0} → Change A Ident → (SeqV A → E) → E ⊎ ℕ
  added_seq_or_else c make_err = added make_err (seq_of c.result) c.prev

  unfoldable pub removed_or_else :
      {E : Type 0} → Change A Ident → (Option (SeqV A) → E) → E ⊎ SeqV A
  removed_or_else c make_err = removed make_err c.result c.prev

  -- `NormalizeMeta for Change`
  unfoldable pub without_proposed_at : Change A Ident → Change A Ident
  unfolding without_proposed_at_option
  without_proposed_at c = record {
    ident = c.ident;
    prev = without_proposed_at_option c.prev;
    result = without_proposed_at_option c.result;
  }

  unfoldable pub normalize : Change A Ident → Change A Ident
  unfolding normalize_option
  normalize c = record {
    ident = c.ident;
    prev = normalize_option c.prev;
    result = normalize_option c.result;
  }
