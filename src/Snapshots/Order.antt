-- ===== src/Snapshots/Order.antt =====
-- The derived `Ord` of `MetaSnapshotId`, over that of openraft's `LogId`, and the one of `String`.
use Prim.Native.Nat.{compare, Ordering}
use databend_meta.Common.{ℕ, ◌≡◌, refl, ap, Option, none, some, [], ◌∷◌, Text, arith, ◌⊎◌, inl, inr}
use databend_meta.Common.Sort.{then_cmp, IsOrder}
use databend_meta.Types.SysData.{LogId}
use databend_meta.Snapshots.Id.{MetaSnapshotId}

-- The derived `Ord` of an `Option`
abbrev pub option_cmp : {A : Type 0} → (A → A → Ordering) → Option A → Option A → Ordering
option_cmp cmp none none = Ordering.eq
option_cmp cmp none (some b) = Ordering.lt
option_cmp cmp (some a) none = Ordering.gt
option_cmp cmp (some a) (some b) = cmp a b

unfoldable pub id_cmp : (LogId → LogId → Ordering) → MetaSnapshotId → MetaSnapshotId → Ordering
id_cmp log_cmp a b =
    then_cmp (option_cmp log_cmp a.last_applied b.last_applied)
      (then_cmp (compare a.uniq b.uniq) (option_cmp compare a.key_num b.key_num))

-- By code points, which is the order of the bytes.
unfoldable pub text_cmp : Text → Text → Ordering
text_cmp [] [] = Ordering.eq
text_cmp [] (y ∷ ys) = Ordering.lt
text_cmp (x ∷ xs) [] = Ordering.gt
text_cmp (x ∷ xs) (y ∷ ys) = then_cmp (compare x y) (text_cmp xs ys)

pub compare-IsOrder : IsOrder compare
compare-IsOrder = record {
  self = λ a. ground arith;
  eq = λ a b h. ground arith;
  swap = λ a b h. ground arith;
  trans = λ a b c h k. ground arith;
}

module _ {A : Type 0} (cmp : A → A → Ordering) (laws : IsOrder cmp) where
  option_self : (a : Option A) → option_cmp cmp a a ≡ Ordering.eq
  option_self none = refl
  option_self (some a) = laws.self a

  option_eq : (a b : Option A) → option_cmp cmp a b ≡ Ordering.eq → a ≡ b
  option_eq none none h = refl
  option_eq none (some b) h = cc
  option_eq (some a) none h = cc
  option_eq (some a) (some b) h = ap (λ x. some x) (laws.eq a b h)

  option_swap :
      (a b : Option A) → option_cmp cmp a b ≡ Ordering.gt → option_cmp cmp b a ≡ Ordering.lt
  option_swap none none h = cc
  option_swap none (some b) h = cc
  option_swap (some a) none h = refl
  option_swap (some a) (some b) h = laws.swap a b h

  option_trans :
      (a b c : Option A)
      → option_cmp cmp a b ≡ Ordering.lt
      → option_cmp cmp b c ≡ Ordering.lt
      → option_cmp cmp a c ≡ Ordering.lt
  option_trans none none c h k = cc
  option_trans none (some b) none h k = cc
  option_trans none (some b) (some c) h k = refl
  option_trans (some a) none c h k = cc
  option_trans (some a) (some b) none h k = cc
  option_trans (some a) (some b) (some c) h k = laws.trans a b c h k

  pub option_cmp-IsOrder : IsOrder (option_cmp cmp)
  option_cmp-IsOrder = record {
    self = option_self;
    eq = option_eq;
    swap = option_swap;
    trans = option_trans;
  }

-- `then_cmp` of two equal comparisons; the rest of the laws of a lexicographic order
then_eq : (o p : Ordering) → then_cmp o p ≡ Ordering.eq → (o ≡ Ordering.eq) × (p ≡ Ordering.eq)
then_eq Ordering.lt p h = cc
then_eq Ordering.gt p h = cc
then_eq Ordering.eq p h = (refl, h)

then_lt :
    (o p : Ordering)
    → then_cmp o p ≡ Ordering.lt
    → (o ≡ Ordering.lt) ⊎ ((o ≡ Ordering.eq) × (p ≡ Ordering.lt))
then_lt Ordering.lt p h = inl refl
then_lt Ordering.gt p h = cc
then_lt Ordering.eq p h = inr (refl, h)

then_gt :
    (o p : Ordering)
    → then_cmp o p ≡ Ordering.gt
    → (o ≡ Ordering.gt) ⊎ ((o ≡ Ordering.eq) × (p ≡ Ordering.gt))
then_gt Ordering.lt p h = cc
then_gt Ordering.gt p h = inl refl
then_gt Ordering.eq p h = inr (refl, h)

module _ {A : Type 0} (cmp : A → A → Ordering) (laws : IsOrder cmp) where
  -- The first parts of two values are compared, and where they are equal, the rest is.
  then_swap :
      (a b : A) (p q : Ordering)
      → (p ≡ Ordering.gt → q ≡ Ordering.lt)
      → then_cmp (cmp a b) p ≡ Ordering.gt
      → then_cmp (cmp b a) q ≡ Ordering.lt
  then_swap a b p q back h = elim (then_gt (cmp a b) p h) [
    | inl more ↦ rw (laws.swap a b more)
    | inr (same, more) ↦
        let e : cmp b a ≡ Ordering.eq = rw (laws.eq a b same) (laws.self b) in rw e (back more)
  ]

  then_trans :
      (a b c : A) (p q r : Ordering)
      → (p ≡ Ordering.lt → q ≡ Ordering.lt → r ≡ Ordering.lt)
      → then_cmp (cmp a b) p ≡ Ordering.lt
      → then_cmp (cmp b c) q ≡ Ordering.lt
      → then_cmp (cmp a c) r ≡ Ordering.lt
  then_trans a b c p q r on h k = elim (then_lt (cmp a b) p h) [
    | inl less ↦ elim (then_lt (cmp b c) q k) [
      | inl less' ↦ rw (laws.trans a b c less less')
      | inr (same, less') ↦ let e : cmp a c ≡ Ordering.lt = rw (← (laws.eq b c same)) less in rw e
    ]
    | inr (same, less) ↦ rw (laws.eq a b same) (elim (then_lt (cmp b c) q k) [
      | inl less' ↦ rw less'
      | inr (same', less') ↦ rw (same', on less less')
    ])
  ]

module _ (log_cmp : LogId → LogId → Ordering) (laws : IsOrder log_cmp) where
  logs : IsOrder (option_cmp log_cmp)
  logs = option_cmp-IsOrder log_cmp laws

  keys : IsOrder (option_cmp {A = ℕ} compare)
  keys = option_cmp-IsOrder compare compare-IsOrder

  id_self : (a : MetaSnapshotId) → id_cmp log_cmp a a ≡ Ordering.eq
  unfolding id_cmp
  id_self a = rw (logs.self a.last_applied, compare-IsOrder.self a.uniq) (keys.self a.key_num)

  id_eq : (a b : MetaSnapshotId) → id_cmp log_cmp a b ≡ Ordering.eq → a ≡ b
  unfolding id_cmp
  id_eq a b h =
      let (e, rest) = then_eq (option_cmp log_cmp a.last_applied b.last_applied) _ h in
      let (e', rest') = then_eq (compare a.uniq b.uniq) _ rest in
      let last = logs.eq a.last_applied b.last_applied e in
      let uniq = compare-IsOrder.eq a.uniq b.uniq e' in
      let key = keys.eq a.key_num b.key_num rest' in
      λ i. record { last_applied = last i; uniq = uniq i; key_num = key i }

  id_swap :
      (a b : MetaSnapshotId) → id_cmp log_cmp a b ≡ Ordering.gt → id_cmp log_cmp b a ≡ Ordering.lt
  unfolding id_cmp
  id_swap a b =
      then_swap (option_cmp log_cmp) logs a.last_applied b.last_applied _ _
        (then_swap compare compare-IsOrder a.uniq b.uniq _ _ (keys.swap a.key_num b.key_num))

  id_trans :
      (a b c : MetaSnapshotId)
      → id_cmp log_cmp a b ≡ Ordering.lt
      → id_cmp log_cmp b c ≡ Ordering.lt
      → id_cmp log_cmp a c ≡ Ordering.lt
  unfolding id_cmp
  id_trans a b c =
      then_trans (option_cmp log_cmp) logs a.last_applied b.last_applied c.last_applied _ _ _ (
        then_trans compare compare-IsOrder a.uniq b.uniq c.uniq _ _ _
          (keys.trans a.key_num b.key_num c.key_num))

  pub id_cmp-IsOrder : IsOrder (id_cmp log_cmp)
  id_cmp-IsOrder = record { self = id_self; eq = id_eq; swap = id_swap; trans = id_trans }

text_self : (a : Text) → text_cmp a a ≡ Ordering.eq
unfolding text_cmp
text_self [] = refl
text_self (x ∷ xs) = rw (compare-IsOrder.self x) (text_self xs)

text_cmp_eq : (a b : Text) → text_cmp a b ≡ Ordering.eq → a ≡ b
unfolding text_cmp
text_cmp_eq [] [] h = refl
text_cmp_eq [] (y ∷ ys) h = cc
text_cmp_eq (x ∷ xs) [] h = cc
text_cmp_eq (x ∷ xs) (y ∷ ys) h =
    let (e, rest) = then_eq (compare x y) _ h in
    let first = compare-IsOrder.eq x y e in let same = text_cmp_eq xs ys rest in cc

text_swap : (a b : Text) → text_cmp a b ≡ Ordering.gt → text_cmp b a ≡ Ordering.lt
unfolding text_cmp
text_swap [] [] h = cc
text_swap [] (y ∷ ys) h = cc
text_swap (x ∷ xs) [] h = refl
text_swap (x ∷ xs) (y ∷ ys) h = then_swap compare compare-IsOrder x y _ _ (text_swap xs ys) h

text_trans :
    (a b c : Text)
    → text_cmp a b ≡ Ordering.lt
    → text_cmp b c ≡ Ordering.lt
    → text_cmp a c ≡ Ordering.lt
unfolding text_cmp
text_trans [] [] c h k = cc
text_trans [] (y ∷ ys) [] h k = cc
text_trans [] (y ∷ ys) (z ∷ zs) h k = refl
text_trans (x ∷ xs) [] c h k = cc
text_trans (x ∷ xs) (y ∷ ys) [] h k = cc
text_trans (x ∷ xs) (y ∷ ys) (z ∷ zs) h k =
    then_trans compare compare-IsOrder x y z _ _ _ (text_trans xs ys zs) h k

pub text_cmp-IsOrder : IsOrder text_cmp
text_cmp-IsOrder = record {
  self = text_self;
  eq = text_cmp_eq;
  swap = text_swap;
  trans = text_trans;
}
