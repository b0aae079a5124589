-- ===== src/Common/Outcome.antt =====
-- `Result<T, io::Error>`, and actions that keep the state they reached when they fail.
use mathlib.Core.Path.{◌≡◌, refl, ap}
use mathlib.Core.Bool.{Bool, true, false}
use mathlib.Core.Logic.{◌⊎◌, inl, inr}
use mathlib.Core.List.{List, [], ◌∷◌}
use databend_meta.Common.Tests.{Text}

-- `io::Error`, by its message.
pub record IoError : Type 0 where
  pub message : Text

pub data Result {ℓ} (A : Type ℓ) : Type ℓ where
  ok : A → Result A
  err : IoError → Result A

-- An `async fn(&mut self) -> Result<A, io::Error>`: what it wrote before an error stays written.
abbrev pub Action {ℓ} : Type ℓ → Type ℓ → Type ℓ
Action S A = S → Result A × S

-- A fallible stream: `try_next` ends at the first error.
abbrev pub IoStream {ℓ} : Type ℓ → Type ℓ
IoStream A = List (Result A)

abbrev pub no_error {ℓ} : {A : Type ℓ} → IoStream A → Bool
no_error [] = true
no_error (ok a ∷ strm) = no_error strm
no_error (err e ∷ strm) = false

-- `?` on a value that was read.
infixl 5 ◌>>=◌
abbrev pub ◌>>=◌ {ℓ κ} : {A : Type ℓ} {B : Type κ} → Result A → (A → Result B) → Result B
ok a >>= f = f a
err e >>= f = err e

-- `?` on a value that was read, in an action.
abbrev pub with_read {ℓ} : {S A B : Type ℓ} → Result A → (A → Action S B) → Action S B
with_read (ok a) f s = f a s
with_read (err e) f s = (err e, s)

-- `?` on an action, then the rest.
abbrev pub and_then {ℓ} : {S A B : Type ℓ} → Result A × S → (A → Action S B) → Result B × S
and_then (ok a, s) f = f a s
and_then (err e, s) f = (err e, s)

-- An action that succeeds has succeeded in each of its steps.
pub and_then-ok {ℓ} :
    {S A B : Type ℓ} (m : Result A × S) (f : A → Action S B) {b : B} {s' : S}
    → and_then m f ≡ (ok b, s')
    → (a : A) × (s : S) × (m ≡ (ok a, s)) × (f a s ≡ (ok b, s'))
and_then-ok (ok a, s) f h = (a, s, refl, h)
and_then-ok (err e, s) f h = cc

-- An action that fails has failed in its first step or after it.
pub and_then-err {ℓ} :
    {S A B : Type ℓ} (m : Result A × S) (f : A → Action S B) {e : IoError} {s' : S}
    → and_then m f ≡ (err e, s')
    → (m ≡ (err e, s')) ⊎ ((a : A) × (s : S) × (m ≡ (ok a, s)) × (f a s ≡ (err e, s')))
and_then-err (ok a, s) f h = inr (a, s, refl, h)
and_then-err {S = S} {B = B} (err x, s) f {e = e} {s' = s'} h =
    let value : ◌≡◌ {A = Result B} (err x) (err e) = ap (λ (p : Result B × S). p.0) h in
    let ends : s ≡ s' = ap (λ (p : Result B × S). p.1) h in let same : x ≡ e = cc in inl cc

pub with_read-ok {ℓ} :
    {S A B : Type ℓ} (r : Result A) (f : A → Action S B) (s : S) {b : B} {s' : S}
    → with_read r f s ≡ (ok b, s')
    → (a : A) × (r ≡ ok a) × (f a s ≡ (ok b, s'))
with_read-ok (ok a) f s h = (a, refl, h)
with_read-ok (err e) f s h = cc
