-- ===== src/Snapshots/Removed.antt =====
-- Which files a sequence of removals takes away, whether it ends or fails.
use databend_meta.Common.{
  ◌≡◌, ◌≢◌, ◌⊎◌, ◌∙◌, sym, false, List, [], ◌∷◌, Text, Has, ok, err, IoError, inl, inr,
  Option-cases, Bool-cases, text_eq, text_eq_iff,
}
use databend_meta.Common.Maps.{remove_text}
use databend_meta.Common.Sort.{Distinct, All-Has, Has-All}
use databend_meta.Snapshots.Loader.{Dir, FileSystem, remove_file, remove_all}

text_ne : (a b : Text) → text_eq a b ≡ false → a ≢ b
text_ne a b e same = let equal = (text_eq_iff a b).1 same in cc

text_ne-false : (a b : Text) → a ≢ b → text_eq a b ≡ false
text_ne-false a b ne = elim (Bool-cases (text_eq a b)) [
  | inl e ↦ absurd (ne ((text_eq_iff a b).0 e))
  | inr e ↦ e
]

pub Has-remove_text : (d : Dir) (k n : Text) → Has n (remove_text d k) → Has n d × (n ≢ k)
unfolding remove_text
Has-remove_text [] k n h = absurd h
Has-remove_text (j ∷ js) k n h = elim (Bool-cases (text_eq j k)) [
  | inl e ↦ let (m, ne) = Has-remove_text js k n (rw e at h) in (inr m, ne)
  | inr e ↦
      let h' : Has n (j ∷ remove_text js k) = rw e at h in
      elim h' [
        | inl same ↦ (inl same, λ wrong. text_ne j k e (sym same ∙ wrong))
        | inr later ↦ let (m, ne) = Has-remove_text js k n later in (inr m, ne)
      ]
]

remove_text-Has : (d : Dir) (k n : Text) → Has n d → n ≢ k → Has n (remove_text d k)
unfolding remove_text
remove_text-Has [] k n h ne = absurd h
remove_text-Has (j ∷ js) k n (inl same) ne =
    rw (text_ne-false j k λ wrong. ne (same ∙ wrong)) (inl same)
remove_text-Has (j ∷ js) k n (inr h) ne = elim (Bool-cases (text_eq j k)) [
  | inl e ↦ rw e (remove_text-Has js k n h ne)
  | inr e ↦ rw e (inr (remove_text-Has js k n h ne))
]

pub remove_text-Distinct : (d : Dir) (k : Text) → Distinct d → Distinct (remove_text d k)
unfolding remove_text
remove_text-Distinct [] k o = tt
remove_text-Distinct (j ∷ js) k o = elim (Bool-cases (text_eq j k)) [
  | inl e ↦ rw e (remove_text-Distinct js k o.1)
  | inr e ↦ rw e (
    Has-All _ (remove_text js k) λ n m. All-Has (λ y. j ≢ y) js n o.0 (Has-remove_text js k n m).0,
    remove_text-Distinct js k o.1,
  )
]

module _ {SD : Type 0} (fs : FileSystem SD) where
  pub removed :
      (k : Text) (d : Dir)
      → (remove_file fs k d ≡ (ok tt, remove_text d k))
        ⊎ ((e : IoError) × (remove_file fs k d ≡ (err e, d)))
  unfolding remove_file
  removed k d = elim (Option-cases (fs.remove_fault k d)) [
    | inl e ↦ inl (rw (e, remove_file))
    | inr (fault, e) ↦ inr (fault, rw (e, remove_file))
  ]

  -- Whether a removal succeeds or not: what it takes away, and what stays.
  pub remove_all-part :
      (ns : List Text) (d : Dir) (n : Text) → Has n (remove_all fs ns d).1 → Has n d
  unfolding remove_all
  remove_all-part [] d n h = h
  remove_all-part (k ∷ ks) d n h = elim (removed k d) [
    | inl e ↦ (Has-remove_text d k n (remove_all-part ks (remove_text d k) n (rw e at h))).0
    | inr (fault, e) ↦ rw e at h
  ]

  pub remove_all-stays :
      (ns : List Text) (d : Dir) (n : Text)
      → Has n d
      → (Has n ns → ⊥)
      → Has n (remove_all fs ns d).1
  unfolding remove_all
  remove_all-stays [] d n h out = h
  remove_all-stays (k ∷ ks) d n h out = elim (removed k d) [
    | inl e ↦ rw e (
        remove_all-stays ks (remove_text d k) n (remove_text-Has d k n h λ same. out (inl same))
          λ m. out (inr m))
    | inr (fault, e) ↦ rw e h
  ]

  pub remove_all-Distinct :
      (ns : List Text) (d : Dir) → Distinct d → Distinct (remove_all fs ns d).1
  unfolding remove_all
  remove_all-Distinct [] d o = o
  remove_all-Distinct (k ∷ ks) d o = elim (removed k d) [
    | inl e ↦ rw e (remove_all-Distinct ks (remove_text d k) (remove_text-Distinct d k o))
    | inr (fault, e) ↦ rw e o
  ]

  pub remove_all-gone :
      (ns : List Text) (d : Dir) (n : Text)
      → (remove_all fs ns d).0 ≡ ok tt
      → Has n ns
      → Has n (remove_all fs ns d).1
      → ⊥
  unfolding remove_all
  remove_all-gone [] d n done m h = m
  remove_all-gone (k ∷ ks) d n done m h = elim (removed k d) [
    | inl e ↦
        let left : Has n (remove_all fs ks (remove_text d k)).1 = rw e at h in
        let done' : (remove_all fs ks (remove_text d k)).0 ≡ ok tt = rw e at done in
        elim m [
          | inl same ↦ (Has-remove_text d k n (remove_all-part ks (remove_text d k) n left)).1 same
          | inr later ↦ remove_all-gone ks (remove_text d k) n done' later left
        ]
    | inr (fault, e) ↦ let wrong : err fault ≡ ok tt = rw e at done in cc
  ]
