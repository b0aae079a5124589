-- ===== src/Common/Sorted.antt =====
-- What `sort` of Sort returns, and what ascending lists are like.
use Prim.Native.Nat.{ℕ, zero, suc, Ordering}
use mathlib.Core.Path.{◌≡◌, refl, sym, subst, ◌∙◌}
use mathlib.Core.Logic.{◌≢◌, ◌⊎◌, inl, inr}
use mathlib.Core.Option.{some}
use mathlib.Core.List.{List, [], ◌∷◌}
use databend_meta.Common.Lists.{All, Has, take}
use databend_meta.Common.Sort.{
  IsOrder, Distinct, drop, last, All-Has, Has-All, Has-drop, last-Has, Has-last, insert, sort,
  Ascending,
}

order_cases : (o : Ordering) → (o ≡ Ordering.lt) ⊎ ((o ≡ Ordering.eq) ⊎ (o ≡ Ordering.gt))
order_cases Ordering.lt = inl refl
order_cases Ordering.eq = inr (inl refl)
order_cases Ordering.gt = inr (inr refl)

module _ {A : Type 0} (cmp : A → A → Ordering) where
  -- Where an element is put, a property of the list that holds in both places holds.
  insert_cases :
      (Q : List A → Type 0) (x y : A) (ys : List A)
      → Q (x ∷ y ∷ ys)
      → Q (y ∷ insert cmp x ys)
      → Q (insert cmp x (y ∷ ys))
  unfolding insert
  insert_cases Q x y ys here there =
      elim (cmp x y) as (λ o. Q (elim o [ Ordering.lt ↦ x ∷ y ∷ ys | _ ↦ y ∷ insert cmp x ys ])) [
        | Ordering.lt ↦ here
        | _ ↦ there
      ]

  insert_here : (x y : A) (ys : List A) → cmp x y ≡ Ordering.lt → insert cmp x (y ∷ ys) ≡ x ∷ y ∷ ys
  unfolding insert
  insert_here x y ys e = rw (e, insert)

  insert_later :
      (x y : A) (ys : List A) → cmp x y ≡ Ordering.gt → insert cmp x (y ∷ ys) ≡ y ∷ insert cmp x ys
  unfolding insert
  insert_later x y ys e = rw (e, insert)

  All-insert : (P : A → Type 0) (x : A) (xs : List A) → P x → All P xs → All P (insert cmp x xs)
  All-insert P x [] p ps = unfold insert in (p, tt)
  All-insert P x (y ∷ ys) p ps =
      insert_cases (All P) x y ys (p, ps) (ps.0, All-insert P x ys p ps.1)

  All-sort : (P : A → Type 0) (xs : List A) → All P xs → All P (sort cmp xs)
  unfolding sort
  All-sort P [] h = tt
  All-sort P (x ∷ xs) h = All-insert P x (sort cmp xs) h.0 (All-sort P xs h.1)

  Has-insert : (x : A) (xs : List A) → Has x (insert cmp x xs)
  Has-insert x [] = unfold insert in inl refl
  Has-insert x (y ∷ ys) = insert_cases (Has x) x y ys (inl refl) (inr (Has-insert x ys))

  Has-insert_other : (x y : A) (xs : List A) → Has y xs → Has y (insert cmp x xs)
  Has-insert_other x y [] h = absurd h
  Has-insert_other x y (z ∷ zs) (inl e) = insert_cases (Has y) x z zs (inr (inl e)) (inl e)
  Has-insert_other x y (z ∷ zs) (inr h) =
      insert_cases (Has y) x z zs (inr (inr h)) (inr (Has-insert_other x y zs h))

  pub Has-sort : (xs : List A) (x : A) → Has x (sort cmp xs) → Has x xs
  Has-sort xs x h =
      All-Has (λ y. Has y xs) (sort cmp xs) x (All-sort (λ y. Has y xs) xs (Has-All _ xs λ y m. m))
        h

  pub sort-Has : (xs : List A) (x : A) → Has x xs → Has x (sort cmp xs)
  unfolding sort
  sort-Has [] x h = absurd h
  sort-Has (y ∷ ys) x (inl e) =
      subst (λ z. Has x (insert cmp z (sort cmp ys))) e (Has-insert x (sort cmp ys))
  sort-Has (y ∷ ys) x (inr h) = Has-insert_other y x (sort cmp ys) (sort-Has ys x h)

  module _ (laws : IsOrder cmp) where
    Above-trans :
        (x y : A) (ys : List A)
        → cmp x y ≡ Ordering.lt
        → All (λ z. cmp y z ≡ Ordering.lt) ys
        → All (λ z. cmp x z ≡ Ordering.lt) ys
    Above-trans x y [] h a = tt
    Above-trans x y (z ∷ zs) h a = (laws.trans x y z h a.0, Above-trans x y zs h a.1)

    other_way : (x y : A) → x ≢ y → cmp x y ≢ Ordering.lt → cmp y x ≡ Ordering.lt
    other_way x y ne not_less = elim (order_cases (cmp x y)) [
      | inl less ↦ absurd (not_less less)
      | inr (inl same) ↦ absurd (ne (laws.eq x y same))
      | inr (inr more) ↦ laws.swap x y more
    ]

    insert-Ascending :
        (x : A) (xs : List A)
        → All (λ y. x ≢ y) xs
        → Ascending cmp xs
        → Ascending cmp (insert cmp x xs)
    insert-Ascending x [] ne a = unfold insert in (tt, tt)
    insert-Ascending x (y ∷ ys) ne a = elim (order_cases (cmp x y)) [
      | inl less ↦
          subst (Ascending cmp) (sym (insert_here x y ys less))
            ((less, Above-trans x y ys less a.0), a)
      | inr (inl same) ↦ absurd (ne.0 (laws.eq x y same))
      | inr (inr more) ↦ subst (Ascending cmp) (sym (insert_later x y ys more)) (
        All-insert (λ z. cmp y z ≡ Ordering.lt) x ys (laws.swap x y more) a.0,
        insert-Ascending x ys ne.1 a.1,
      )
    ]

    pub sort-Ascending : (xs : List A) → Distinct xs → Ascending cmp (sort cmp xs)
    unfolding sort
    sort-Ascending [] d = tt
    sort-Ascending (x ∷ xs) d =
        insert-Ascending x (sort cmp xs) (All-sort (λ y. x ≢ y) xs d.0) (sort-Ascending xs d.1)

    lt-ne : (x y : A) → cmp x y ≡ Ordering.lt → x ≢ y
    lt-ne x y less e = let same : cmp x y ≡ Ordering.eq = rw e (laws.self y) in cc

    first_eq :
        (x y : A) (xs ys : List A)
        → Ascending cmp (x ∷ xs)
        → Ascending cmp (y ∷ ys)
        → (x ≡ y) ⊎ Has x ys
        → (y ≡ x) ⊎ Has y xs
        → x ≡ y
    first_eq x y xs ys a b (inl e) k = e
    first_eq x y xs ys a b (inr h) (inl e) = sym e
    first_eq x y xs ys a b (inr h) (inr k) =
        let below = All-Has (λ z. cmp y z ≡ Ordering.lt) ys x b.0 h in
        let above = All-Has (λ z. cmp x z ≡ Ordering.lt) xs y a.0 k in
        absurd (lt-ne x x (laws.trans x y x above below) refl)

    -- What stands behind the first element of one list stands behind that of the other.
    behind :
        (x y z : A) (xs ys : List A)
        → Ascending cmp (x ∷ xs)
        → x ≡ y
        → Has z xs
        → (z ≡ y) ⊎ Has z ys
        → Has z ys
    behind x y z xs ys a e h (inl k) =
        absurd (lt-ne x z (All-Has (λ w. cmp x w ≡ Ordering.lt) xs z a.0 h) (e ∙ sym k))
    behind x y z xs ys a e h (inr k) = k

    -- Ascending lists with the same elements are one.
    pub Ascending-unique :
        (xs ys : List A)
        → Ascending cmp xs
        → Ascending cmp ys
        → ((x : A) → Has x xs → Has x ys)
        → ((x : A) → Has x ys → Has x xs)
        → xs ≡ ys
    Ascending-unique [] [] a b f g = refl
    Ascending-unique [] (y ∷ ys) a b f g = absurd (g y (inl refl))
    Ascending-unique (x ∷ xs) [] a b f g = absurd (f x (inl refl))
    Ascending-unique (x ∷ xs) (y ∷ ys) a b f g =
        let e = first_eq x y xs ys a b (f x (inl refl)) (g y (inl refl)) in
        let rest =
          Ascending-unique xs ys a.1 b.1 (λ z h. behind x y z xs ys a e h (f z (inr h)))
            (λ z h. behind y x z ys xs b (sym e) h (g z (inr h))) in
        cc

    pub take-lt-drop :
        (n : ℕ) (xs : List A) (x y : A)
        → Ascending cmp xs
        → Has x (take n xs)
        → Has y (drop n xs)
        → cmp x y ≡ Ordering.lt
    take-lt-drop zero xs x y a h k = absurd h
    take-lt-drop (suc n) [] x y a h k = absurd h
    take-lt-drop (suc n) (z ∷ zs) x y a (inl e) k =
        rw e (All-Has (λ w. cmp z w ≡ Ordering.lt) zs y a.0 (Has-drop n zs y k))
    take-lt-drop (suc n) (z ∷ zs) x y a (inr h) k = take-lt-drop n zs x y a.1 h k

    pub drop-Ascending : (n : ℕ) (xs : List A) → Ascending cmp xs → Ascending cmp (drop n xs)
    drop-Ascending zero xs a = a
    drop-Ascending (suc n) [] a = a
    drop-Ascending (suc n) (x ∷ xs) a = drop-Ascending n xs a.1

    pub last-max :
        (xs : List A) (m x : A)
        → Ascending cmp xs
        → last xs ≡ some m
        → Has x xs
        → (x ≡ m) ⊎ (cmp x m ≡ Ordering.lt)
    last-max [] m x a l h = absurd h
    last-max (y ∷ []) m x a l (inl e) = inl (cc)
    last-max (y ∷ []) m x a l (inr h) = absurd h
    last-max (y ∷ z ∷ zs) m x a l (inr h) = last-max (z ∷ zs) m x a.1 l h
    last-max (y ∷ z ∷ zs) m x a l (inl e) =
        inr (rw e (All-Has (λ w. cmp y w ≡ Ordering.lt) (z ∷ zs) m a.0 (last-Has (z ∷ zs) m l)))

    -- A list of some of the elements of another, the last one among them, has the same last one.
    pub last_of_part :
        (xs ys : List A) (m : A)
        → Ascending cmp xs
        → Ascending cmp ys
        → ((x : A) → Has x ys → Has x xs)
        → last xs ≡ some m
        → Has m ys
        → last ys ≡ some m
    last_of_part xs ys m a b part l h =
        let (k, e) = Has-last ys m h in
        elim (last-max ys k m b e h) [
          | inl same ↦ cc
          | inr less ↦ elim (last-max xs m k a l (part k (last-Has ys k e))) [
            | inl same ↦ cc
            | inr less' ↦ absurd (lt-ne m m (laws.trans m k m less less') refl)
          ]
        ]
