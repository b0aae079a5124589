-- ===== src/Examples/Tables.antt =====
-- Tables in memory: a list of versions, of which none is ever dropped.
use databend_meta.Common.{
  ℕ, ◌≡◌, ◌∙◌, ◌<◌, refl, ap, arith, true, ◌&&◌, Option, none, some, List, [], ◌∷◌, ◌++◌, length,
  if◌then◌else◌, ltb, leb, ◌==◌, is_none,
}
use databend_meta.LeveledStore.Mvcc.{Space, Mvcc, MvccLaws}
use databend_meta.LeveledStore.LeveledMap.{Db}

pub record Version : Type 0 where
  pub key : ℕ
  pub seq : ℕ
  pub content : Option ℕ

abbrev pub seq_of : Option Version → ℕ
seq_of none = 0
seq_of (some v) = v.seq

abbrev pub content_of : Option Version → Option ℕ
content_of none = none
content_of (some v) = v.content

abbrev newer : Option Version → Option Version → Option Version
newer a b =
    if is_none a then b else if is_none b then a else if ltb (seq_of a) (seq_of b) then b else a

abbrev seen : Version → ℕ → ℕ → Option Version
seen v k s = if v.key == k && leb v.seq s then some v else none

unfoldable pub see : List Version → ℕ → ℕ → Option Version
see [] k s = none
see (v ∷ vs) k s = newer (seen v k s) (see vs k s)

abbrev pub versions : Mvcc
versions = record {
  Key = ℕ;
  Marked = Option Version;
  not_found = none;
  is_not_found = λ v. is_none v;
  internal_seq = λ v. seq_of v;
  Value = ℕ;
  value = λ v. content_of v;
  Table = List Version;
  empty = [];
  len = λ t. length t;
  get = λ t k s. see t k s;
  compact = λ a b min_seq. a ++ b;
  Changes = Version;
  first_seq = λ v. v.seq;
  apply_changes = λ t v. v ∷ t;
}

newer_assoc : (a b c : Option Version) → newer a (newer b c) ≡ newer (newer a b) c
newer_assoc none b c = refl
newer_assoc (some a) none c = refl
newer_assoc (some a) (some b) none = ground arith
newer_assoc (some a) (some b) (some c) = ground arith

see-append : (a b : List Version) (k s : ℕ) → see (a ++ b) k s ≡ newer (see a k s) (see b k s)
unfolding see
see-append [] b k s = refl
see-append (v ∷ a) b k s =
    ap (newer (seen v k s)) (see-append a b k s) ∙ newer_assoc (seen v k s) (see a k s) (see b k s)

missing : (v : Option Version) → is_none v ≡ true → content_of v ≡ none
missing none h = refl
missing (some v) h = cc

unseen : (t : List Version) (c : Version) (s k : ℕ) → s < c.seq → see (c ∷ t) k s ≡ see t k s
unfolding see
unseen t c s k h = ground arith

pub versions_lawful : MvccLaws versions
unfolding see
versions_lawful = record {
  not_found_lem = refl;
  value-not_found = missing;
  get-empty = λ k s. refl;
  get-compact = λ a b min_seq s k h. see-append a b k s;
  get-apply_changes = λ t c s k h. unseen t c s k h;
}

abbrev pub spaces : Space → Mvcc
spaces n = versions

pub spaces_lawful : (n : Space) → MvccLaws (spaces n)
spaces_lawful n = versions_lawful

-- A file holds a table for each space.
abbrev pub files : Db spaces
files = record { File = Space → List Version; last_seq = λ f. 0; get = λ n f k s. see (f n) k s }
