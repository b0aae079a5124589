-- ===== src/LeveledStore/Order.antt =====
-- Levels in the order of their indexes.
use databend_meta.Common.{◌≡◌, ◌∙◌, refl, sym, subst, ap, arith, true, false, [], ◌∷◌, ◌++◌, All}
use databend_meta.LeveledStore.Mvcc.{Space, Mvcc}
use databend_meta.LeveledStore.Level.{LevelIndex, index_ltb, index_eq, Immutable}
use databend_meta.LeveledStore.Levels.{ImmutableLevels, put, remove, new_form_iter}

pub index_eq_refl : (x : LevelIndex) → index_eq x x ≡ true
index_eq_refl x = ground arith

pub index_ne : (x y : LevelIndex) → index_ltb x y ≡ true → index_eq y x ≡ false
index_ne x y h = ground arith

pub index_not_below : (x y : LevelIndex) → index_ltb x y ≡ true → index_ltb y x ≡ false
index_not_below x y h = ground arith

module _ (tables : Space → Mvcc) where
  abbrev pub IsBelow : LevelIndex → Immutable tables → Type 0
  IsBelow x i = index_ltb i.index x ≡ true

  -- Each level has a greater index than those behind it.
  abbrev pub IsDescending : ImmutableLevels tables → Type 0
  IsDescending [] = Unit {0}
  IsDescending (j ∷ js) = All (IsBelow j.index) js × IsDescending js

  pub All-behind :
      (P : Immutable tables → Type 0) (xs ys : ImmutableLevels tables) → All P (xs ++ ys) → All P ys
  All-behind P [] ys h = h
  All-behind P (x ∷ xs) ys (first, rest) = All-behind P xs ys rest

  pub put-newest :
      (i : Immutable tables) (ls : ImmutableLevels tables)
      → All (IsBelow i.index) ls
      → put tables i ls ≡ i ∷ ls
  unfolding put
  put-newest i [] h = refl
  put-newest i (j ∷ js) (first, rest) = rw first

  pub new_form_iter_same :
      (ls : ImmutableLevels tables) → IsDescending ls → new_form_iter tables ls ≡ ls
  unfolding new_form_iter
  new_form_iter_same [] h = refl
  new_form_iter_same (j ∷ js) (below, rest) =
      rw (new_form_iter_same js rest) (put-newest j js below)

  -- `c` takes the place of two adjacent levels.
  put-remove :
      (pre post : ImmutableLevels tables) (n o c : Immutable tables)
      → c.index ≡ n.index
      → IsDescending (pre ++ n ∷ o ∷ post)
      → put tables c (remove tables n.index (remove tables o.index (pre ++ n ∷ o ∷ post)))
        ≡ pre ++ c ∷ post
  unfolding put remove
  put-remove [] post n o c e ((below, all_below), h) =
      rw (index_ne o.index n.index below, index_eq_refl o.index, index_eq_refl n.index)
        (put-newest c post (rw e all_below))
  put-remove (p ∷ pre) post n o c e (below, h) =
      let (n_below, (o_below, _)) = All-behind (IsBelow p.index) pre (n ∷ o ∷ post) below in
      let c_below : index_ltb c.index p.index ≡ true =
        subst (λ x. index_ltb x p.index ≡ true) (sym e) n_below in
      rw
        (
          index_ne o.index p.index o_below,
          index_ne n.index p.index n_below,
          index_not_below c.index p.index c_below,
          index_ne c.index p.index c_below,
        )
        (ap (λ ls. p ∷ ls) (put-remove pre post n o c e h))

  All-replaced :
      (x : LevelIndex) (pre post : ImmutableLevels tables) (n o c : Immutable tables)
      → c.index ≡ n.index
      → All (IsBelow x) (pre ++ n ∷ o ∷ post)
      → All (IsBelow x) (pre ++ c ∷ post)
  All-replaced x [] post n o c e (n_below, (o_below, rest)) = (rw e n_below, rest)
  All-replaced x (p ∷ pre) post n o c e (first, rest) =
      (first, All-replaced x pre post n o c e rest)

  pub IsDescending-replaced :
      (pre post : ImmutableLevels tables) (n o c : Immutable tables)
      → c.index ≡ n.index
      → IsDescending (pre ++ n ∷ o ∷ post)
      → IsDescending (pre ++ c ∷ post)
  IsDescending-replaced [] post n o c e ((o_below, below), h) = (rw e below, h.1)
  IsDescending-replaced (p ∷ pre) post n o c e (below, h) =
      (All-replaced p.index pre post n o c e below, IsDescending-replaced pre post n o c e h)

  -- Two adjacent levels are taken out and one goes in at the index of the newer: it stands in their place.
  pub new_form_iter-put-remove :
      (pre post : ImmutableLevels tables) (n o c : Immutable tables)
      → c.index ≡ n.index
      → IsDescending (pre ++ n ∷ o ∷ post)
      → new_form_iter tables
          (put tables c (remove tables n.index (remove tables o.index (pre ++ n ∷ o ∷ post))))
        ≡ pre ++ c ∷ post
  new_form_iter-put-remove pre post n o c e h =
      ap (new_form_iter tables) (put-remove pre post n o c e h)
      ∙ new_form_iter_same (pre ++ c ∷ post) (IsDescending-replaced pre post n o c e h)
