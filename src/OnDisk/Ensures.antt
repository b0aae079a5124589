-- ===== src/OnDisk/Ensures.antt =====
-- What a run of OnDisk/Disk passes through and ends in, one rule for each way to build a run.
use databend_meta.Common.{All-append, ◌≡◌, refl, sym, subst, Option, none, some, List, ◌∷◌, All}
use databend_meta.OnDisk.Disk.{Run, pure, after}

-- Every state passed is in `P`, and the run ends with a value and a state that are in `Q`.
pub record Ensures {S A : Type 0} (P : S → Type 0) (Q : A → S → Type 0)
    (r : List S × Option (A × S)) : Type 0 where
  pub passes : All P r.0
  pub value : A
  pub last : S
  pub ends : r.1 ≡ some (value, last)
  pub holds : Q value last

-- The run ends with that value and that state.
abbrev pub Ends : {S A : Type 0} → A → S → A → S → Type 0
Ends a s v t = (v ≡ a) × (t ≡ s)

module _ {S : Type 0} {P : S → Type 0} where
  pub Ensures-pure :
      {A : Type 0} {Q : A → S → Type 0} (a : A) (s : S) → Q a s → Ensures P Q (pure a s)
  Ensures-pure a s q = record { passes = tt; value = a; last = s; ends = refl; holds = q }

  pub Ensures-passed :
      {A : Type 0} {Q : A → S → Type 0} (s : S) (r : List S × Option (A × S))
      → P s
      → Ensures P Q r
      → Ensures P Q (s ∷ r.0, r.1)
  Ensures-passed s r p h = record {
    passes = (p, h.passes);
    value = h.value;
    last = h.last;
    ends = h.ends;
    holds = h.holds;
  }

  pub Ensures-after :
      {A B : Type 0} {Q : A → S → Type 0} {R : B → S → Type 0} (ps : List S) (r : Option (A × S))
      (k : A → Run S B)
      → Ensures P Q (ps, r)
      → ((a : A) (s : S) → Q a s → Ensures P R (k a s))
      → Ensures P R (after ps r k)
  Ensures-after ps none k h rest = absurd (let e = h.ends in cc)
  Ensures-after {Q} ps (some (a, s)) k h rest =
      let e = h.ends in
      let value_eq : h.value ≡ a = cc in
      let last_eq : h.last ≡ s = cc in
      let then = rest a s (subst (Q a) last_eq (subst (λ v. Q v h.last) value_eq h.holds)) in
      record {
        passes = All-append P ps (k a s).0 h.passes then.passes;
        value = then.value;
        last = then.last;
        ends = then.ends;
        holds = then.holds;
      }

  pub Ensures-then :
      {A B : Type 0} {R : B → S → Type 0} {a : A} {s : S} (ps : List S) (r : Option (A × S))
      (k : A → Run S B)
      → Ensures P (Ends a s) (ps, r)
      → Ensures P R (k a s)
      → Ensures P R (after ps r k)
  Ensures-then {R} {a} ps r k h rest = Ensures-after ps r k h (λ v t q.
      subst (λ x. Ensures P R (k x t)) (sym q.0) (subst (λ y. Ensures P R (k a y)) (sym q.1) rest))
