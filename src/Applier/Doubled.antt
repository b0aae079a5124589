-- ===== src/Applier/Doubled.antt =====
-- The changes that a deletion by prefix records.
use databend_meta.Common.{
  ℕ, ◌+◌, ◌%◌, ◌<◌, ◌≡◌, ◌∙◌, refl, sym, subst, ap, arith, Bool, true, false, Option, List, [], ◌∷◌,
  ◌++◌, Text, Bytes, Result, ok, err, IoStream, length, option_eq, Bool-cases, and_then-ok, inl,
  inr,
}
use databend_meta.Common.Int.{u32_mod}
use databend_meta.Types.SeqV.{SeqV, seqv_eq}
use databend_meta.Types.Upsert.{UpsertKv, delete_kv}
use databend_meta.StateMachine.Api.{StateMachineApi, Event}
use databend_meta.StateMachine.Ext.{update_expire_index}
use databend_meta.Applier.Defs.{Applier, upsert_kv, push_change}
use databend_meta.Applier.Execute.{delete_listed}
use databend_meta.Applier.Upsert.{upsert_kv-Steps, recorded}

-- Each change twice in a row.
pub doubled : List Event → List Event
doubled [] = []
doubled (e ∷ es) = e ∷ e ∷ doubled es

append_assoc : (xs ys zs : List Event) → (xs ++ ys) ++ zs ≡ xs ++ (ys ++ zs)
append_assoc [] ys zs = refl
append_assoc (x ∷ xs) ys zs = ap (λ l. x ∷ l) (append_assoc xs ys zs)

append_nil : (xs : List Event) → xs ≡ xs ++ []
append_nil [] = refl
append_nil (x ∷ xs) = ap (λ l. x ∷ l) (append_nil xs)

doubled-append : (es fs : List Event) → doubled (es ++ fs) ≡ doubled es ++ doubled fs
unfolding doubled
doubled-append [] fs = refl
doubled-append (e ∷ es) fs = ap (λ l. e ∷ e ∷ l) (doubled-append es fs)

module _ (api : StateMachineApi) where
  -- What one push adds: a change of the key, but where nothing changed.
  abbrev pub change_of : Text → Option (SeqV Bytes) → Option (SeqV Bytes) → Bool → List Event
  change_of key prev result true = []
  change_of key prev result false = record { key = key; prev = prev; result = result } ∷ []

  changes-push_change :
      (key : Text) (prev result : Option (SeqV Bytes)) (a : Applier api)
      → (push_change api key prev result a).changes
        ≡ a.changes ++ change_of key prev result (option_eq seqv_eq prev result)
  unfolding push_change
  changes-push_change key prev result a = elim (Bool-cases (option_eq seqv_eq prev result)) [
    | inl e ↦ rw e (append_nil a.changes)
    | inr e ↦ rw e
  ]

  -- The changes that an upsert recorded of a key, from what it returned.
  abbrev pub changed : Text → Option (SeqV Bytes) → Option (SeqV Bytes) → List Event
  changed key prev result = change_of key prev result (option_eq seqv_eq prev result)

  -- The listed keys are deleted one after the other, each in the state that the one before left, and `es` are the changes,
  -- of a key from the value before to the value after, in that order; the applier goes on with each of them twice.
  pub data Deleted
      : IoStream (Text × SeqV Bytes) → Applier api → List Event → Applier api → Type 0 where
    none_left : {a : Applier api} → Deleted [] a [] a
    deleted :
        {strm : IoStream (Text × SeqV Bytes)} {a a' : Applier api} {es : List Event} (key : Text)
        (sv : SeqV Bytes) (prev result : Option (SeqV Bytes)) (a1 : Applier api)
        → upsert_kv api (delete_kv key) a ≡ (ok (prev, result), a1)
        → Deleted strm
            (record a1 {
              changes = a.changes ++ (changed key prev result ++ changed key prev result);
            })
            es
            a'
        → Deleted (ok (key, sv) ∷ strm) a (changed key prev result ++ es) a'

  twice :
      (key : Text) (prev result : Option (SeqV Bytes)) (b : Bool)
      → change_of key prev result b ++ change_of key prev result b
        ≡ doubled (change_of key prev result b)
  unfolding doubled
  twice key prev result true = refl
  twice key prev result false = refl

  changes-upsert_kv :
      (u : UpsertKv) (a a' : Applier api) (prev result : Option (SeqV Bytes))
      → upsert_kv api u a ≡ (ok (prev, result), a')
      → a'.changes ≡ a.changes ++ change_of u.key prev result (option_eq seqv_eq prev result)
  changes-upsert_kv u a a' prev result h =
      let (p, r, s, write, value, same) = upsert_kv-Steps api u a a' (prev, result) h in
      let before : ◌≡◌ {A = List Event} a'.changes (recorded api u a p r s).changes =
        ap (λ (b : Applier api). b.changes) (sym same) in
      let pushed =
        changes-push_change u.key (api.to_seqv p) (api.to_seqv r)
          (record a { sm = update_expire_index api u.key p r s }) in
      before
      ∙ pushed
      ∙ ap
          (λ (y : Option (SeqV Bytes) × Option (SeqV Bytes)).
            a.changes ++ change_of u.key y.0 y.1 (option_eq seqv_eq y.0 y.1))
          value

  applier-push_change :
      (key : Text) (prev result : Option (SeqV Bytes)) (a : Applier api)
      → push_change api key prev result a
        ≡ record a { changes = a.changes ++ changed key prev result }
  unfolding push_change
  applier-push_change key prev result a = elim (Bool-cases (option_eq seqv_eq prev result)) [
    | inl e ↦ rw e (ap (λ c. record a { changes = c }) (append_nil a.changes))
    | inr e ↦ rw e
  ]

  changes-listed :
      (key : Text) (a a1 : Applier api) (prev result : Option (SeqV Bytes))
      → upsert_kv api (delete_kv key) a ≡ (ok (prev, result), a1)
      → push_change api key prev result a1
        ≡ record a1 { changes = a.changes ++ (changed key prev result ++ changed key prev result) }
  unfolding delete_kv
  changes-listed key a a1 prev result h =
      let es = changed key prev result in
      applier-push_change key prev result a1
      ∙ ap (λ l. record a1 { changes = l ++ es })
          (changes-upsert_kv (delete_kv key) a a1 prev result h)
      ∙ ap (λ c. record a1 { changes = c }) (append_assoc a.changes es es)

  delete_listed-Deleted :
      (strm : IoStream (Text × SeqV Bytes)) (count n : ℕ) (a a' : Applier api)
      → count < u32_mod
      → delete_listed api strm count a ≡ (ok n, a')
      → (es : List Event) × Deleted strm a es a' × (n ≡ (count + length strm) % u32_mod)
  unfolding delete_listed
  delete_listed-Deleted [] count n a a' small h =
      let counted : ◌≡◌ {A = Result ℕ} (ok count) (ok n) =
        ap (λ (p : Result ℕ × Applier api). p.0) h in
      let ends : ◌≡◌ {A = Applier api} a a' = ap (λ (p : Result ℕ × Applier api). p.1) h in
      let same : count ≡ n = cc in
      (
        [],
        subst (λ (b : Applier api). Deleted [] a [] b) ends none_left,
        omega (arith, same, small),
      )
  delete_listed-Deleted (err e ∷ strm) count n a a' small h = cc
  delete_listed-Deleted (ok (key, sv) ∷ strm) count n a a' small h =
      let ((prev, result), a1, write, rest) =
        and_then-ok (upsert_kv api (delete_kv key) a)
          (λ (prev, res) s.
            delete_listed api strm ((count + 1) % u32_mod) (push_change api key prev res s))
          h in
      let (es, run, counted) =
        delete_listed-Deleted strm ((count + 1) % u32_mod) n (push_change api key prev result a1) a'
          (omega arith) rest in
      (
        changed key prev result ++ es,
        deleted key sv prev result a1 write (
            subst (λ (b : Applier api). Deleted strm b es a')
              (changes-listed key a a1 prev result write) run),
        omega (arith, counted),
      )

  changes-Deleted :
      {strm : IoStream (Text × SeqV Bytes)} {a a' : Applier api} {es : List Event}
      → Deleted strm a es a'
      → a'.changes ≡ a.changes ++ doubled es
  unfolding doubled
  changes-Deleted {a = a} none_left = append_nil a.changes
  changes-Deleted {a = a} (deleted {es = es} key sv prev result a1 write run) =
      let cs = changed key prev result in
      changes-Deleted run
      ∙ append_assoc a.changes (cs ++ cs) (doubled es)
      ∙ ap (λ l. a.changes ++ (l ++ doubled es))
          (twice key prev result (option_eq seqv_eq prev result))
      ∙ ap (λ l. a.changes ++ l) (sym (doubled-append cs es))

  -- A deletion of the listed keys that succeeds deleted each of them in turn. Of each it has the change from the value
  -- before to the value after, where these differ: it records exactly these changes, in the order of the keys, each twice
  -- in a row. It counts all keys, changed or not, in a `u32`.
  pub delete_listed-doubled :
      (strm : IoStream (Text × SeqV Bytes)) (count n : ℕ) (a a' : Applier api)
      → count < u32_mod
      → delete_listed api strm count a ≡ (ok n, a')
      → (es : List Event) × Deleted strm a es a'
        × (a'.changes ≡ a.changes ++ doubled es)
        × (n ≡ (count + length strm) % u32_mod)
  delete_listed-doubled strm count n a a' small h =
      let (es, run, counted) = delete_listed-Deleted strm count n a a' small h in
      (es, run, changes-Deleted run, counted)
