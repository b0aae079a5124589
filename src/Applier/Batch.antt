-- ===== src/Applier/Batch.antt =====
-- `apply_entries` of crates/server/raft-store/src/sm_v003/sm_v003.rs: a stream of entries is applied, then
-- committed, and then the waiting responders are answered. The view that collects the writes of keys, its
-- commit and what is left where it is dropped are parameters.
use databend_meta.Common.{
  ℕ, ◌≡◌, refl, sym, subst, ap, ◌∙◌, ◌⊎◌, inl, inr, Option, none, some, List, [], ◌∷◌, ◌++◌, Text,
  Result, ok, err, IoError, Action, IoStream, and_then, and_then-ok, and_then-err,
}
use databend_meta.KvTransaction.Proto.{ProtoEnums}
use databend_meta.StateMachine.Api.{StateMachineApi}
use databend_meta.StateMachine.Laws.{SystemLaws}
use databend_meta.Applier.Response.{AppliedState}
use databend_meta.Applier.Defs
use databend_meta.Applier.Defs.{Applier}
use databend_meta.Applier.Command.{Entry, apply}

-- The view of a batch. `commit` ends with the state that it leaves, also where it fails; `drop_view base s` is the live
-- state where a view over `base` that reached `s` is dropped and not committed.
pub record View (api : StateMachineApi) : Type 0 where
  pub commit : Action api.State (Unit {0})
  pub drop_view : api.State → api.State → api.State

-- The writes of keys and of the expiration index stay in the view; the system data, the time at which cleaning starts and
-- the events of subscribers are not part of it.
pub record ViewLaws (api : StateMachineApi) (laws : SystemLaws api) (view : View api) : Type 0 where
  pub get-drop :
      (base s : api.State) (k : Text) → api.get k (view.drop_view base s) ≡ api.get k base
  pub sys_data-drop : (base s : api.State) → api.sys_data (view.drop_view base s) ≡ api.sys_data s
  pub cleanup_start-drop :
      (base s : api.State) → api.cleanup_start (view.drop_view base s) ≡ api.cleanup_start s
  pub published-drop :
      (base s : api.State) → laws.published (view.drop_view base s) ≡ laws.published s

module _ (api : StateMachineApi) (enums : ProtoEnums) (view : View api) where
  -- `EntryResponder`: an entry, and the responder that waits for it, by its number
  abbrev pub EntryResponder : Type 0
  EntryResponder = Entry × Option ℕ

  abbrev pub add_pending :
      Option ℕ → AppliedState → List (ℕ × AppliedState) → List (ℕ × AppliedState)
  add_pending none applied pending = pending
  add_pending (some r) applied pending = pending ++ (r, applied) ∷ []

  -- the `while let` over the entries
  unfoldable pub apply_stream :
      IoStream EntryResponder
      → List (ℕ × AppliedState)
      → Action (Applier api) (List (ℕ × AppliedState))
  unfolding apply
  apply_stream [] pending a = (ok pending, a)
  apply_stream (err e ∷ entries) pending a = (err e, a)
  apply_stream (ok (entry, responder) ∷ entries) pending a =
      and_then (apply api enums entry a)
        λ applied. apply_stream entries (add_pending responder applied pending)

  -- What the call leaves: its result, the live state, and the responses that were sent.
  pub record Applied : Type 0 where
    pub result : Result (Unit {0})
    pub live : api.State
    pub sent : List (ℕ × AppliedState)

  abbrev pub failed : IoError → api.State → Applied
  failed e s = record { result = err e; live = s; sent = [] }

  abbrev send : List (ℕ × AppliedState) → Result (Unit {0}) × api.State → Applied
  send pending (ok u, s) = record { result = ok tt; live = s; sent = pending }
  send pending (err e, s) = failed e s

  abbrev finish : api.State → Result (List (ℕ × AppliedState)) × Applier api → Applied
  finish base (ok pending, a) = send pending (view.commit a.sm)
  finish base (err e, a) = failed e (view.drop_view base a.sm)

  unfoldable pub apply_entries : IoStream EntryResponder → api.State → Applied
  unfolding apply_stream Defs.new
  apply_entries entries s = finish s (apply_stream entries [] (Defs.new api s))

  -- A run of `apply` over all entries from one applier to another, with what it answers to the responders.
  pub data Run
      : Applier api → IoStream EntryResponder → List (ℕ × AppliedState) → Applier api → Type 0 where
    finished : {a : Applier api} → Run a [] [] a
    silent :
        {a b c : Applier api} {entry : Entry} {entries : IoStream EntryResponder}
        {rs : List (ℕ × AppliedState)} (applied : AppliedState)
        → apply api enums entry a ≡ (ok applied, b)
        → Run b entries rs c
        → Run a (ok (entry, none) ∷ entries) rs c
    answered :
        {a b c : Applier api} {entry : Entry} {r : ℕ} {entries : IoStream EntryResponder}
        {rs : List (ℕ × AppliedState)} (applied : AppliedState)
        → apply api enums entry a ≡ (ok applied, b)
        → Run b entries rs c
        → Run a (ok (entry, some r) ∷ entries) ((r, applied) ∷ rs) c

  -- A run of `apply` over the first entries, which stops at an error: one that the stream yields, or that of an entry.
  pub data Stopped : Applier api → IoStream EntryResponder → IoError → Applier api → Type 0 where
    stream_failed :
        {a : Applier api} {entries : IoStream EntryResponder} (e : IoError)
        → Stopped a (err e ∷ entries) e a
    entry_failed :
        {a b : Applier api} {entry : Entry} {r : Option ℕ} {entries : IoStream EntryResponder}
        (e : IoError)
        → apply api enums entry a ≡ (err e, b)
        → Stopped a (ok (entry, r) ∷ entries) e b
    applied_before :
        {a b c : Applier api} {entry : Entry} {r : Option ℕ} {entries : IoStream EntryResponder}
        {e : IoError} (applied : AppliedState)
        → apply api enums entry a ≡ (ok applied, b)
        → Stopped b entries e c
        → Stopped a (ok (entry, r) ∷ entries) e c

  append_assoc : (xs ys zs : List (ℕ × AppliedState)) → (xs ++ ys) ++ zs ≡ xs ++ (ys ++ zs)
  append_assoc [] ys zs = refl
  append_assoc (x ∷ xs) ys zs = ap (λ l. x ∷ l) (append_assoc xs ys zs)

  append_nil : (xs : List (ℕ × AppliedState)) → xs ≡ xs ++ []
  append_nil [] = refl
  append_nil (x ∷ xs) = ap (λ l. x ∷ l) (append_nil xs)

  apply_stream-Run :
      (entries : IoStream EntryResponder) (pending sent : List (ℕ × AppliedState))
      (a a' : Applier api)
      → apply_stream entries pending a ≡ (ok sent, a')
      → (rs : List (ℕ × AppliedState)) × Run a entries rs a' × (sent ≡ pending ++ rs)
  unfolding apply_stream
  apply_stream-Run [] pending sent a a' h =
      let ends : ◌≡◌ {A = Applier api} a a' =
        ap (λ (p : Result (List (ℕ × AppliedState)) × Applier api). p.1) h in
      let value : ◌≡◌ {A = Result (List (ℕ × AppliedState))} (ok pending) (ok sent) =
        ap (λ (p : Result (List (ℕ × AppliedState)) × Applier api). p.0) h in
      let same : sent ≡ pending = cc in
      ([], subst (λ (b : Applier api). Run a [] [] b) ends finished, same ∙ append_nil pending)
  apply_stream-Run (err e ∷ entries) pending sent a a' h = cc
  apply_stream-Run (ok (entry, none) ∷ entries) pending sent a a' h =
      let (applied, b, step, rest) =
        and_then-ok (apply api enums entry a) (λ x. apply_stream entries pending) h in
      let (rs, run, same) = apply_stream-Run entries pending sent b a' rest in
      (rs, silent applied step run, same)
  apply_stream-Run (ok (entry, some r) ∷ entries) pending sent a a' h =
      let (applied, b, step, rest) =
        and_then-ok (apply api enums entry a) (λ x. apply_stream entries (pending ++ (r, x) ∷ []))
          h in
      let (rs, run, same) =
        apply_stream-Run entries (pending ++ (r, applied) ∷ []) sent b a' rest in
      (
        (r, applied) ∷ rs,
        answered applied step run,
        same ∙ append_assoc pending ((r, applied) ∷ []) rs,
      )

  apply_stream-Stopped :
      (entries : IoStream EntryResponder) (pending : List (ℕ × AppliedState)) (e : IoError)
      (a a' : Applier api)
      → apply_stream entries pending a ≡ (err e, a')
      → Stopped a entries e a'
  unfolding apply_stream
  apply_stream-Stopped [] pending e a a' h = cc
  apply_stream-Stopped (err x ∷ entries) pending e a a' h =
      let ends : ◌≡◌ {A = Applier api} a a' =
        ap (λ (p : Result (List (ℕ × AppliedState)) × Applier api). p.1) h in
      let value : ◌≡◌ {A = Result (List (ℕ × AppliedState))} (err x) (err e) =
        ap (λ (p : Result (List (ℕ × AppliedState)) × Applier api). p.0) h in
      let same : x ≡ e = cc in
      subst (λ (b : Applier api). Stopped a (err x ∷ entries) e b) ends
        (subst (λ y. Stopped a (err x ∷ entries) y a) same (stream_failed x))
  apply_stream-Stopped (ok (entry, r) ∷ entries) pending e a a' h =
      elim (and_then-err (apply api enums entry a)
        (λ x. apply_stream entries (add_pending r x pending)) h) [
          | inl step ↦ entry_failed e step
          | inr (applied, b, step, rest) ↦
              applied_before applied step
                (apply_stream-Stopped entries (add_pending r applied pending) e b a' rest)
        ]

  module _ (laws : SystemLaws api) (kept : ViewLaws api laws view) where
    -- Of a view that is dropped at `s`, what was not part of it stays, and no key is written.
    pub record Left (base s live : api.State) : Type 0 where
      pub maps : (k : Text) → api.get k live ≡ api.get k base
      pub sys_data : api.sys_data live ≡ api.sys_data s
      pub cleanup_start : api.cleanup_start live ≡ api.cleanup_start s
      pub events : laws.published live ≡ laws.published s

    pub Outcome : IoStream EntryResponder → api.State → Applied → Type 0
    Outcome entries s x =
        ((e : IoError) × (a : Applier api) × Stopped (Defs.new api s) entries e a
          × Left s a.sm x.live
          × (x.result ≡ err e)
          × (x.sent ≡ []))
        ⊎ (((e : IoError) × (a : Applier api) × (rs : List (ℕ × AppliedState)) × Run
                (Defs.new api s) entries rs a
              × (view.commit a.sm ≡ (err e, x.live))
              × (x.result ≡ err e)
              × (x.sent ≡ []))
            ⊎ ((a : Applier api) × Run (Defs.new api s) entries x.sent a
                × (view.commit a.sm ≡ (ok tt, x.live))
                × (x.result ≡ ok tt)))

    committed-Outcome :
        (entries : IoStream EntryResponder) (s : api.State) (sent : List (ℕ × AppliedState))
        (a : Applier api) (c : Result (Unit {0}) × api.State)
        → Run (Defs.new api s) entries sent a
        → view.commit a.sm ≡ c
        → Outcome entries s (send sent c)
    unfolding Outcome
    committed-Outcome entries s sent a (ok u, s') run e = inr (inr (a, run, e, refl))
    committed-Outcome entries s sent a (err x, s') run e =
        inr (inl (x, a, sent, run, e, refl, refl))

    finish-Outcome :
        (entries : IoStream EntryResponder) (s : api.State)
        (m : Result (List (ℕ × AppliedState)) × Applier api)
        → apply_stream entries [] (Defs.new api s) ≡ m
        → Outcome entries s (finish s m)
    finish-Outcome entries s (ok sent, a) h =
        let (rs, run, same) = apply_stream-Run entries [] sent (Defs.new api s) a h in
        committed-Outcome entries s sent a (view.commit a.sm)
          (subst (λ l. Run (Defs.new api s) entries l a) (sym same) run) refl
    finish-Outcome entries s (err e, a) h =
        unfold Outcome in
        inl (
          e,
          a,
          apply_stream-Stopped entries [] e (Defs.new api s) a h,
          record {
            maps = λ k. kept.get-drop s a.sm k;
            sys_data = kept.sys_data-drop s a.sm;
            cleanup_start = kept.cleanup_start-drop s a.sm;
            events = kept.published-drop s a.sm;
          },
          refl,
          refl,
        )

    -- A batch of entries ends in one of three ways. Entries from the first on were applied in order, from a new applier,
    -- until the stream or an entry failed: then that error is returned, nobody is answered and no key has changed, but the
    -- system data, the time at which cleaning starts and the events sent are those that the applier had reached, as the
    -- view does not hold them back. Or every entry was applied and the commit failed: then its error is returned, the
    -- state is the one that the commit left, and nobody is answered. Or every entry was applied and the state that was
    -- reached is committed: then exactly the responders that came with the entries are answered, in the order of the
    -- entries, each with what its entry was applied to.
    pub apply_entries-Outcome :
        (entries : IoStream EntryResponder) (s : api.State)
        → Outcome entries s (apply_entries entries s)
    unfolding apply_entries
    apply_entries-Outcome entries s =
        let m = apply_stream entries [] (Defs.new api s) in finish-Outcome entries s m refl
