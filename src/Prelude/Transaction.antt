-- ===== src/Prelude/Transaction.antt =====
-- The body of a database transaction: it reads and writes the store, and may throw, after which
-- the store is rolled back, so that a failed body has no store afterwards.
use mathlib.Core.Path.{◌≡◌, refl}
use bom_trato_api.Prelude.Result.{Result, ok, err}

abbrev pub Tx : Type 0 → Type 0 → Type 0 → Type 0
Tx E S A = S → Result E (A × S)

infixl 5 ◌>>=◌ ◌>>◌
abbrev pub ◌>>=◌ : {E S A B : Type 0} → Tx E S A → (A → Tx E S B) → Tx E S B
◌>>=◌ m f s = elim (m s) [ ok (a, s') ↦ f a s' | err e ↦ err e ]

abbrev pub ◌>>◌ : {E S B : Type 0} → Tx E S (Unit {0}) → Tx E S B → Tx E S B
m >> k = m >>= λ _. k

module _ {E S : Type 0} where
  abbrev pub pure : {A : Type 0} → A → Tx E S A
  pure a s = ok (a, s)

  -- A computation that does not touch the store.
  abbrev pub lift : {A : Type 0} → Result E A → Tx E S A
  lift (ok a) s = ok (a, s)
  lift (err e) s = err e

  abbrev pub gets : {A : Type 0} → (S → A) → Tx E S A
  gets f s = ok (f s, s)

  -- A write.
  abbrev pub write : (S → Result E S) → Tx E S (Unit {0})
  write f s = elim (f s) [ ok s' ↦ ok (tt, s') | err e ↦ err e ]

-- What a body that succeeds has done: its first step, and the rest from there.
module _ {E S A B : Type 0} where
  pub bind-parts :
      (m : Tx E S A) (f : A → Tx E S B) (s : S) {x : B × S}
      → (m >>= f) s ≡ ok x
      → (y : A × S) × (m s ≡ ok y) × (f y.0 y.1 ≡ ok x)
  bind-parts m f s {x} h = go (m s) h
    where
      go :
          (r : Result E (A × S))
          → (elim r [ ok (a, s') ↦ f a s' | err e ↦ err e ]) ≡ ok x
          → (y : A × S) × (r ≡ ok y) × (f y.0 y.1 ≡ ok x)
      go (ok y) h = (y, refl, h)
      go (err e) h = cc

  pub lift-parts :
      (m : Result E A) (f : A → Tx E S B) (s : S) {x : B × S}
      → (lift m >>= f) s ≡ ok x
      → (a : A) × (m ≡ ok a) × (f a s ≡ ok x)
  lift-parts (ok a) f s h = (a, refl, h)
  lift-parts (err e) f s h = cc

pub write-parts :
    {E S B : Type 0} (m : S → Result E S) (f : Unit {0} → Tx E S B) (s : S) {x : B × S}
    → (write m >>= f) s ≡ ok x
    → (s' : S) × (m s ≡ ok s') × (f tt s' ≡ ok x)
write-parts {E} {S} {B} m f s {x} h = go (m s) h
  where
    step : Result E S → Result E (B × S)
    step r =
        elim (elim r as (λ x. Result E (Unit {0} × S)) [ ok s' ↦ ok (tt, s') | err e ↦ err e ]) [
          | ok (a, s') ↦ f a s'
          | err e ↦ err e
        ]

    go : (r : Result E S) → step r ≡ ok x → (s' : S) × (r ≡ ok s') × (f tt s' ≡ ok x)
    go (ok s') h = (s', refl, h)
    go (err e) h = cc
