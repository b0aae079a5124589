-- ===== src/StateMachine/Ext/Listing.antt =====
-- What `list_kv` lists.
use databend_meta.Common.{
  ◌≡◌, ◌≢◌, ◌∙◌, refl, sym, ap, subst, true, Option, none, some, [], ◌∷◌, Text, Bytes, Result, ok,
  err, IoStream, no_error, Has, ◌>>=◌, inl, inr, ◌⊎◌, arith,
}
use databend_meta.Types.SeqV.{SeqV}
use databend_meta.Keys.Order.{is_text, starts_with}
use databend_meta.Keys.Prefix.{prefix_right_bound}
use databend_meta.Keys.Range.{in_range, last_not_max, before_surrogates, in_range-starts_with}
use databend_meta.StateMachine.Api.{StateMachineApi}
use databend_meta.StateMachine.Laws.{RangeLaws}
use databend_meta.StateMachine.Ext.{
  keep_some, filter_stream, seq_marked_to_seqv, list_kv, get_maybe_expired_kv,
}

module _ {A B : Type 0} (f : A → Option B) where
  Has-keep_some :
      (o : Option B) (rest : IoStream B) (b : B)
      → Has (ok b) (keep_some o rest)
      → (o ≡ some b) ⊎ Has (ok b) rest
  Has-keep_some none rest b h = inr h
  Has-keep_some (some x) rest b (inl h) = inl (cc)
  Has-keep_some (some x) rest b (inr h) = inr h

  keep_some-Has :
      (o : Option B) (rest : IoStream B) (b : B) → Has (ok b) rest → Has (ok b) (keep_some o rest)
  keep_some-Has none rest b h = h
  keep_some-Has (some x) rest b h = inr h

  Has-filter_stream :
      (strm : IoStream A) (b : B)
      → Has (ok b) (filter_stream f strm)
      → (a : A) × Has (ok a) strm × (f a ≡ some b)
  unfolding filter_stream
  Has-filter_stream [] b h = absurd h
  Has-filter_stream (err e ∷ strm) b (inl h) = cc
  Has-filter_stream (err e ∷ strm) b (inr h) =
      let (a, m, e') = Has-filter_stream strm b h in (a, inr m, e')
  Has-filter_stream (ok a ∷ strm) b h = elim (Has-keep_some (f a) (filter_stream f strm) b h) [
    | inl e ↦ (a, inl refl, e)
    | inr m ↦ let (a', m', e') = Has-filter_stream strm b m in (a', inr m', e')
  ]

  filter_stream-Has :
      (strm : IoStream A) (a : A) (b : B)
      → Has (ok a) strm
      → f a ≡ some b
      → Has (ok b) (filter_stream f strm)
  unfolding filter_stream
  filter_stream-Has [] a b h e = absurd h
  filter_stream-Has (err x ∷ strm) a b (inl h) e = cc
  filter_stream-Has (err x ∷ strm) a b (inr h) e = inr (filter_stream-Has strm a b h e)
  filter_stream-Has (ok x ∷ strm) a b (inl h) e = let same : f x ≡ some b = cc in rw same (inl refl)
  filter_stream-Has (ok x ∷ strm) a b (inr h) e =
      keep_some-Has (f x) (filter_stream f strm) b (filter_stream-Has strm a b h e)

  no_error-keep_some :
      (o : Option B) (rest : IoStream B) → no_error (keep_some o rest) ≡ no_error rest
  no_error-keep_some none rest = refl
  no_error-keep_some (some b) rest = refl

  pub no_error-filter_stream : (strm : IoStream A) → no_error (filter_stream f strm) ≡ no_error strm
  unfolding filter_stream
  no_error-filter_stream [] = refl
  no_error-filter_stream (err e ∷ strm) = refl
  no_error-filter_stream (ok a ∷ strm) =
      no_error-keep_some (f a) (filter_stream f strm) ∙ no_error-filter_stream strm

module _ (api : StateMachineApi) (laws : RangeLaws api) where
  open api use {State, Marked, to_seqv, get, range}

  list_kv-ok :
      (prefix : Text) (s : State) (strm : IoStream (Text × SeqV Bytes))
      → list_kv api prefix s ≡ ok strm
      → (all : IoStream (Text × Marked)) × (range prefix (prefix_right_bound prefix) s ≡ ok all)
        × (strm ≡ filter_stream (seq_marked_to_seqv api) all)
  unfolding list_kv
  list_kv-ok prefix s strm h = go (range prefix (prefix_right_bound prefix) s) refl h
    where
      go :
          (r : Result (IoStream (Text × Marked)))
          → range prefix (prefix_right_bound prefix) s ≡ r
          → (r >>= λ all. ok (filter_stream (seq_marked_to_seqv api) all)) ≡ ok strm
          → (all : IoStream (Text × Marked)) × (range prefix (prefix_right_bound prefix) s ≡ ok all)
            × (strm ≡ filter_stream (seq_marked_to_seqv api) all)
      go (ok all) e h' = (all, e, cc)
      go (err x) e h' = cc

  seq_marked_to_seqv-some :
      (k j : Text) (m : Marked) (v : SeqV Bytes)
      → seq_marked_to_seqv api (j, m) ≡ some (k, v)
      → (j ≡ k) × (to_seqv m ≡ some v)
  unfolding seq_marked_to_seqv
  seq_marked_to_seqv-some k j m v h = ground arith

  -- For a prefix that is a text and has a right bound or needs none: what `list_kv` lists starts with
  -- the prefix and is what `get_maybe_expired_kv` reads at its key.
  pub list_kv_sound :
      (prefix : Text) (s : State) (strm : IoStream (Text × SeqV Bytes)) (k : Text) (v : SeqV Bytes)
      → is_text prefix ≡ true
      → last_not_max prefix ≢ some before_surrogates
      → list_kv api prefix s ≡ ok strm
      → Has (ok (k, v)) strm
      → (starts_with prefix k ≡ true) × (get_maybe_expired_kv api k s ≡ ok (some v))
  unfolding get_maybe_expired_kv
  list_kv_sound prefix s strm k v hp n h m =
      let (all, listed, e) = list_kv-ok prefix s strm h in
      let ((j, x), there, e') =
        Has-filter_stream (seq_marked_to_seqv api) all (k, v)
          (subst (λ t. Has (ok (k, v)) t) e m) in
      let (same, value) = seq_marked_to_seqv-some k j x v e' in
      let (valid, inside, read) =
        laws.range_sound prefix (prefix_right_bound prefix) s all j x listed there in
      (
        subst (λ t. starts_with prefix t ≡ true) same
            (sym (in_range-starts_with prefix j hp valid n) ∙ inside),
        subst (λ t. (get t s >>= λ got. ok (to_seqv got)) ≡ ok (some v)) same (rw (read, value)),
      )

  get_maybe_expired_kv-some :
      (k : Text) (s : State) (v : SeqV Bytes)
      → get_maybe_expired_kv api k s ≡ ok (some v)
      → (m : Marked) × (get k s ≡ ok m) × (to_seqv m ≡ some v)
  unfolding get_maybe_expired_kv
  get_maybe_expired_kv-some k s v h = go (get k s) refl h
    where
      go :
          (r : Result Marked)
          → get k s ≡ r
          → (r >>= λ got. ok (to_seqv got)) ≡ ok (some v)
          → (m : Marked) × (get k s ≡ ok m) × (to_seqv m ≡ some v)
      go (ok m) e h' = (m, e, cc)
      go (err x) e h' = cc

  -- For a prefix that is a text and has a right bound or needs none, where the listing yields no
  -- error: every text that starts with the prefix and reads a value is listed with that value.
  pub list_kv_complete :
      (prefix : Text) (s : State) (strm : IoStream (Text × SeqV Bytes)) (k : Text) (v : SeqV Bytes)
      → is_text prefix ≡ true
      → last_not_max prefix ≢ some before_surrogates
      → list_kv api prefix s ≡ ok strm
      → no_error strm ≡ true
      → is_text k ≡ true
      → starts_with prefix k ≡ true
      → get_maybe_expired_kv api k s ≡ ok (some v)
      → Has (ok (k, v)) strm
  list_kv_complete prefix s strm k v hp n h clean hk starts read =
      let (all, listed, e) = list_kv-ok prefix s strm h in
      let (m, got, value) = get_maybe_expired_kv-some k s v read in
      let clean' : no_error all ≡ true =
        sym (no_error-filter_stream (seq_marked_to_seqv api) all) ∙ sym (ap no_error e) ∙ clean in
      let inside : in_range prefix (prefix_right_bound prefix) k ≡ true =
        in_range-starts_with prefix k hp hk n ∙ starts in
      rw e (
        filter_stream-Has (seq_marked_to_seqv api) all (k, m) (k, v)
          (laws.range_complete prefix (prefix_right_bound prefix) s all k m v listed clean' hk
            inside got value)
          (unfold seq_marked_to_seqv in rw value))
