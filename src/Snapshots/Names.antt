-- ===== src/Snapshots/Names.antt =====
-- What names of files give as ids.
use mathlib.Core.List.{append_assoc}
use databend_meta.Common.{
  ℕ, ◌<◌, ◌≡◌, refl, ap, true, Option, none, some, [], ◌∷◌, ◌++◌, Text, arith, text_eq,
  text_eq_refl, text_eq_sound, Bool-cases, length, length-append, inl, inr,
}
use databend_meta.Common.Decimal.{digits_end}
use databend_meta.Snapshots.Id.{
  dash, dot_snap, snapshot_fn, temp_snapshot_id, extract_snapshot_id_from_fn,
}

dot_snap_at : (xs : Text) → text_eq (xs ++ dot_snap) dot_snap ≡ true → xs ≡ []
dot_snap_at [] h = refl
dot_snap_at (x ∷ xs) h = absurd (
    omega (
      arith,
      ap length (text_eq_sound (x ∷ xs ++ dot_snap) dot_snap h),
      length-append {0} xs dot_snap,
    ))

-- The name of a snapshot's file gives its id back.
pub extract_snapshot_id_from_fn-snapshot_fn :
    (s : Text) → extract_snapshot_id_from_fn (snapshot_fn s) ≡ some s
unfolding extract_snapshot_id_from_fn snapshot_fn
extract_snapshot_id_from_fn-snapshot_fn [] = rw (text_eq_refl dot_snap)
extract_snapshot_id_from_fn-snapshot_fn (c ∷ cs) =
    elim (Bool-cases (text_eq (c ∷ cs ++ dot_snap) dot_snap)) [
      | inl e ↦ let wrong = dot_snap_at (c ∷ cs) e in cc
      | inr e ↦ rw (e, extract_snapshot_id_from_fn-snapshot_fn cs)
    ]

last_elem : Text → Option ℕ
last_elem [] = none
last_elem (c ∷ []) = some c
last_elem (c ∷ d ∷ cs) = last_elem (d ∷ cs)

last_elem-append : (xs : Text) (c : ℕ) → last_elem (xs ++ c ∷ []) ≡ some c
unfolding last_elem
last_elem-append [] c = refl
last_elem-append (x ∷ []) c = refl
last_elem-append (x ∷ y ∷ xs) c = last_elem-append (y ∷ xs) c

end_of_dot_snap : (s : Text) (c : ℕ) → text_eq s dot_snap ≡ true → last_elem s ≡ some c → c ≡ b'p'
unfolding last_elem
end_of_dot_snap s c e h = let at_end = ap last_elem (text_eq_sound s dot_snap e) in ground arith

other_end :
    (s : Text) (c : ℕ) → last_elem s ≡ some c → c < 58 → extract_snapshot_id_from_fn s ≡ none
unfolding extract_snapshot_id_from_fn
other_end [] c h d = refl
other_end (x ∷ []) c h d = ground (arith, end_of_dot_snap (x ∷ []) c)
other_end (x ∷ y ∷ cs) c h d =
    let shorter = other_end (y ∷ cs) c (unfold last_elem in h) d in
    ground (arith, end_of_dot_snap (x ∷ y ∷ cs) c)

-- The name of a temporary file is not that of a snapshot's file.
pub extract_snapshot_id_from_fn-temp_snapshot_id :
    (ts : ℕ) → extract_snapshot_id_from_fn (temp_snapshot_id ts) ≡ none
unfolding temp_snapshot_id
extract_snapshot_id_from_fn-temp_snapshot_id ts =
    let (xs, c, e, small) = digits_end 38 ts in
    other_end _ c
      (rw (e, ← (append_assoc ((b'0' ∷ dot_snap) ++ dash ∷ []) xs (c ∷ [])))
        (last_elem-append (((b'0' ∷ dot_snap) ++ dash ∷ []) ++ xs) c))
      small
