-- ===== src/LeveledStore/Valid.antt =====
-- The levels of a map: how the indexes and the versions in them are ordered, and that every operation keeps it.
use databend_meta.Common.{
  ℕ, suc, ◌≡◌, ◌∙◌, ◌≤◌, ◌<◌, refl, sym, subst, ap, arith, true, false, Bool-cases, inl, inr, ◌⊎◌,
  some, [], ◌∷◌, ◌++◌, All, map, if◌then◌else◌,
}
use databend_meta.Types.SysData.{curr_seq}
use databend_meta.LeveledStore.Mvcc.{Space, user, expire, Mvcc, MvccLaws}
use databend_meta.LeveledStore.Level.{
  LevelIndex, index_ltb, Level, Immutable, size, level_get, new_level, new_immutable, compact,
  compact_immutable,
}
use databend_meta.LeveledStore.Levels.{
  ImmutableLevels, compact_min_adjacent, insert, put, newest_level_index,
}
use databend_meta.LeveledStore.Compact.{fits}
use databend_meta.LeveledStore.Order.{IsBelow, IsDescending, IsDescending-replaced}
use databend_meta.LeveledStore.Merged.{compact_min_adjacent_lem}
use databend_meta.LeveledStore.Reads.{IsNewer, IsAbove, InOrder, level_get-compact}

-- An index below those that come.
abbrev pub IsOld : ℕ → ℕ → LevelIndex → Type 0
IsOld seq uniq x = (x.internal_seq ≤ seq) × (x.uniq < uniq)

below_next :
    (x : LevelIndex) (seq uniq : ℕ)
    → IsOld seq uniq x
    → index_ltb x (record { internal_seq = seq; uniq = uniq }) ≡ true
below_next x seq uniq h = ground arith

module _ (tables : Space → Mvcc) (laws : (n : Space) → MvccLaws (tables n)) (s : ℕ) where
  pub record IsValid (writable : Level tables) (levels : ImmutableLevels tables) (uniq : ℕ)
      : Type 0 where
    pub descending : IsDescending tables levels
    pub old : All (λ (i : Immutable tables). IsOld (curr_seq writable.sys_data) uniq i.index) levels
    pub versions : InOrder tables laws s levels
    pub newest : IsAbove tables laws s writable levels

  All-IsBelow :
      (ls : ImmutableLevels tables) (seq uniq : ℕ)
      → All (λ (i : Immutable tables). IsOld seq uniq i.index) ls
      → All (IsBelow tables (record { internal_seq = seq; uniq = uniq })) ls
  All-IsBelow [] seq uniq h = tt
  All-IsBelow (j ∷ js) seq uniq (first, rest) =
      (below_next j.index seq uniq first, All-IsBelow js seq uniq rest)

  All-IsOld-le :
      (ls : ImmutableLevels tables) (seq seq' uniq uniq' : ℕ)
      → seq ≤ seq'
      → uniq ≤ uniq'
      → All (λ (i : Immutable tables). IsOld seq uniq i.index) ls
      → All (λ (i : Immutable tables). IsOld seq' uniq' i.index) ls
  All-IsOld-le [] seq seq' uniq uniq' p q h = tt
  All-IsOld-le (j ∷ js) seq seq' uniq uniq' p q (first, rest) =
      (omega (arith, p, q, first), All-IsOld-le js seq seq' uniq uniq' p q rest)

  empty_get :
      (l : Level tables) (n : Space) (k : (tables n).Key)
      → level_get tables n (new_level tables l) k s ≡ (tables n).not_found
  unfolding new_level
  empty_get l user k = (laws user).get-empty k s
  empty_get l expire k = (laws expire).get-empty k s

  pub empty_missing :
      (l : Level tables) (n : Space) (k : (tables n).Key)
      → (tables n).is_not_found (level_get tables n (new_level tables l) k s) ≡ true
  empty_missing l n k = ap (tables n).is_not_found (empty_get l n k) ∙ (laws n).not_found_lem

  -- An empty level is newer than any.
  empty_above :
      (l : Level tables) (ls : ImmutableLevels tables)
      → IsAbove tables laws s (new_level tables l) ls
  empty_above l [] = tt
  empty_above l (j ∷ js) = ((λ n k found other. cc (empty_missing l n k)), empty_above l js)

  pub inserted :
      (i : Immutable tables) (ls : ImmutableLevels tables)
      → All (IsBelow tables i.index) ls
      → insert tables i ls ≡ some (i ∷ ls)
  unfolding insert newest_level_index put
  inserted i [] h = ground arith
  inserted i (j ∷ js) (first, rest) = rw first

  -- The writable level becomes the newest immutable one, and no assertion fails.
  pub insert-IsValid :
      (l : Level tables) (ls : ImmutableLevels tables) (uniq : ℕ)
      → IsValid l ls uniq
      → (insert tables (new_immutable tables uniq l) ls ≡ some (new_immutable tables uniq l ∷ ls))
        × IsValid (new_level tables l) (new_immutable tables uniq l ∷ ls) (suc uniq)
  unfolding new_immutable new_level
  insert-IsValid l ls uniq v =
      let below = All-IsBelow ls (curr_seq l.sys_data) uniq v.old in
      (
        inserted (new_immutable tables uniq l) ls below,
        record {
          descending = (below, v.descending);
          old = (
            omega arith,
            All-IsOld-le ls (curr_seq l.sys_data) (curr_seq (new_level tables l).sys_data) uniq
                (suc uniq) (omega arith) (omega arith) v.old,
          );
          versions = (v.newest, v.versions);
          newest = empty_above l (new_immutable tables uniq l ∷ ls);
        },
      )

  merged_is :
      (a b : Level tables) (min_seq : ℕ) (n : Space) (k : (tables n).Key)
      → min_seq ≤ s
      → IsNewer tables laws s a b
      → (level_get tables n (compact tables a b min_seq) k s ≡ level_get tables n b k s)
        ⊎ (level_get tables n (compact tables a b min_seq) k s ≡ level_get tables n a k s)
  merged_is a b min_seq n k h order =
      let read = level_get-compact tables laws s a b min_seq n k h order in
      elim (Bool-cases ((tables n).is_not_found (level_get tables n a k s))) [
        | inl missing ↦ inl (
            read
            ∙ ap (λ t. if t then level_get tables n b k s else level_get tables n a k s) missing)
        | inr found ↦ inr (
            read ∙ ap (λ t. if t then level_get tables n b k s else level_get tables n a k s) found)
      ]

  -- A merge of two levels is as new as the newer, and newer than what both are newer than.
  IsNewer-merged :
      (p a b : Level tables) (min_seq : ℕ)
      → min_seq ≤ s
      → IsNewer tables laws s a b
      → IsNewer tables laws s p a
      → IsNewer tables laws s p b
      → IsNewer tables laws s p (compact tables a b min_seq)
  IsNewer-merged p a b min_seq h order pa pb n k found other =
      let m = tables n in
      elim (merged_is a b min_seq n k h order) [
        | inl e ↦
            subst (λ v. m.internal_seq v ≤ m.internal_seq (level_get tables n p k s)) (sym e)
              (pb n k found (subst (λ v. m.is_not_found v ≡ false) e other))
        | inr e ↦
            subst (λ v. m.internal_seq v ≤ m.internal_seq (level_get tables n p k s)) (sym e)
              (pa n k found (subst (λ v. m.is_not_found v ≡ false) e other))
      ]

  merged-IsNewer :
      (a b o : Level tables) (min_seq : ℕ)
      → min_seq ≤ s
      → IsNewer tables laws s a b
      → IsNewer tables laws s a o
      → IsNewer tables laws s b o
      → IsNewer tables laws s (compact tables a b min_seq) o
  merged-IsNewer a b o min_seq h order ao bo n k found other =
      let m = tables n in
      elim (merged_is a b min_seq n k h order) [
        | inl e ↦
            subst (λ v. m.internal_seq (level_get tables n o k s) ≤ m.internal_seq v) (sym e)
              (bo n k (subst (λ v. m.is_not_found v ≡ false) e found) other)
        | inr e ↦
            subst (λ v. m.internal_seq (level_get tables n o k s) ≤ m.internal_seq v) (sym e)
              (ao n k (subst (λ v. m.is_not_found v ≡ false) e found) other)
      ]

  above_replaced :
      (p : Level tables) (pre post : ImmutableLevels tables) (a b c : Immutable tables)
      (min_seq : ℕ)
      → c.level ≡ compact tables a.level b.level min_seq
      → min_seq ≤ s
      → IsNewer tables laws s a.level b.level
      → IsAbove tables laws s p (pre ++ a ∷ b ∷ post)
      → IsAbove tables laws s p (pre ++ c ∷ post)
  above_replaced p [] post a b c min_seq e h order (pa, (pb, rest)) = (
    subst (IsNewer tables laws s p) (sym e)
        (IsNewer-merged p a.level b.level min_seq h order pa pb),
    rest,
  )
  above_replaced p (q ∷ pre) post a b c min_seq e h order (pq, rest) =
      (pq, above_replaced p pre post a b c min_seq e h order rest)

  merged_above :
      (a b c : Level tables) (ls : ImmutableLevels tables) (min_seq : ℕ)
      → c ≡ compact tables a b min_seq
      → min_seq ≤ s
      → IsNewer tables laws s a b
      → IsAbove tables laws s a ls
      → IsAbove tables laws s b ls
      → IsAbove tables laws s c ls
  merged_above a b c [] min_seq e h order as' bs = tt
  merged_above a b c (j ∷ js) min_seq e h order (aj, as') (bj, bs) = (
    subst (λ l. IsNewer tables laws s l j.level) (sym e)
        (merged-IsNewer a b j.level min_seq h order aj bj),
    merged_above a b c js min_seq e h order as' bs,
  )

  adjacent_order :
      (pre post : ImmutableLevels tables) (a b : Immutable tables)
      → InOrder tables laws s (pre ++ a ∷ b ∷ post)
      → IsNewer tables laws s a.level b.level
  adjacent_order [] post a b ((ab, _), _) = ab
  adjacent_order (p ∷ pre) post a b (_, rest) = adjacent_order pre post a b rest

  InOrder-replaced :
      (pre post : ImmutableLevels tables) (a b c : Immutable tables) (min_seq : ℕ)
      → c.level ≡ compact tables a.level b.level min_seq
      → min_seq ≤ s
      → InOrder tables laws s (pre ++ a ∷ b ∷ post)
      → InOrder tables laws s (pre ++ c ∷ post)
  InOrder-replaced [] post a b c min_seq e h ((ab, a_above), (b_above, rest)) =
      (merged_above a.level b.level c.level post min_seq e h ab a_above b_above, rest)
  InOrder-replaced (p ∷ pre) post a b c min_seq e h (p_above, rest) = (
    above_replaced p.level pre post a b c min_seq e h (adjacent_order pre post a b rest) p_above,
    InOrder-replaced pre post a b c min_seq e h rest,
  )

  All-IsOld-replaced :
      (seq uniq : ℕ) (pre post : ImmutableLevels tables) (a b c : Immutable tables)
      → c.index ≡ a.index
      → All (λ (i : Immutable tables). IsOld seq uniq i.index) (pre ++ a ∷ b ∷ post)
      → All (λ (i : Immutable tables). IsOld seq uniq i.index) (pre ++ c ∷ post)
  All-IsOld-replaced seq uniq [] post a b c e (first, (_, rest)) =
      (subst (IsOld seq uniq) (sym e) first, rest)
  All-IsOld-replaced seq uniq (p ∷ pre) post a b c e (first, rest) =
      (first, All-IsOld-replaced seq uniq pre post a b c e rest)

  -- A merge of the smallest pair keeps the order of the indexes and, for a snapshot that is not older than the oldest
  -- one kept, that of the versions.
  pub compact_min_adjacent-IsValid :
      (l : Level tables) (ls : ImmutableLevels tables) (uniq min_seq : ℕ)
      → IsValid l ls uniq
      → fits (map (size tables) ls) ≡ true
      → min_seq ≤ s
      → IsValid l (compact_min_adjacent tables ls min_seq) uniq
  unfolding compact_min_adjacent
  compact_min_adjacent-IsValid l [] uniq min_seq v small h = v
  compact_min_adjacent-IsValid l (j ∷ []) uniq min_seq v small h = v
  compact_min_adjacent-IsValid l (i ∷ j ∷ rest) uniq min_seq v small h =
      let (pre, post, a, b, e, same, merged) =
        compact_min_adjacent_lem tables i j rest min_seq v.descending small in
      let c = compact_immutable tables a b min_seq in
      let level : c.level ≡ compact tables a.level b.level min_seq =
        unfold compact_immutable in refl in
      let versions = subst (InOrder tables laws s) e v.versions in
      subst (λ ls. IsValid l ls uniq) (sym merged)
        (record {
          descending =
              IsDescending-replaced tables pre post a b c same
                (subst (IsDescending tables) e v.descending);
          old = All-IsOld-replaced (curr_seq l.sys_data) uniq pre post a b c same (
              subst
                (λ ls. All (λ (i : Immutable tables). IsOld (curr_seq l.sys_data) uniq i.index) ls)
                e v.old);
          versions = InOrder-replaced pre post a b c min_seq level h versions;
          newest =
              above_replaced l pre post a b c min_seq level h (adjacent_order pre post a b versions)
                (subst (IsAbove tables laws s l) e v.newest);
        })
