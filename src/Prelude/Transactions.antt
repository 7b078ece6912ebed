-- ===== src/Prelude/Transactions.antt =====
-- A database transaction as the engines see it: a step reads the store as it is after the writes
-- so far, appends writes, and returns a result or throws. What an error leaves is kept, so that a
-- theorem can say what had been written before the transaction is rolled back.
use mathlib.Core.Path.{◌≡◌, refl, ap}
use mathlib.Core.Option.{Option, none, some}
use mathlib.Core.List.{List, ◌∷◌}
use alpha_shadow.Prelude.Errors.{Error, Result, ok, err, err-not-ok}

-- The writes of the transaction so far, the last one first.
abbrev pub Tx : Type 0 → Type 0 → Type 0
Tx W A = List W → Result A × List W

-- A read whose absence is an error.
abbrev pub some_or : {A : Type 0} → Error → Option A → Result A
some_or e none = err e
some_or e (some a) = ok a

pub some_or-eq-ok :
    {A : Type 0} (e : Error) (o : Option A) {a : A} → some_or e o ≡ ok a → o ≡ some a
some_or-eq-ok e none h = cc
some_or-eq-ok e (some b) h = cc

module _ {W : Type 0} where
  abbrev pub and_then : {A B : Type 0} → (A → Tx W B) → Result A × List W → Result B × List W
  and_then f (ok a, w) = f a w
  and_then f (err e, w) = (err e, w)

  infixl 5 ◌>>=◌ ◌>>◌
  abbrev pub ◌>>=◌ : {A B : Type 0} → Tx W A → (A → Tx W B) → Tx W B
  m >>= f = λ w. and_then f (m w)

  abbrev pub ◌>>◌ : {B : Type 0} → Tx W (Unit {0}) → Tx W B → Tx W B
  m >> k = m >>= λ _. k

  abbrev pub lift : {A : Type 0} → Result A → Tx W A
  lift r = λ w. (r, w)

  abbrev pub read : {A : Type 0} → (List W → A) → Tx W A
  read f = λ w. (ok (f w), w)

  -- A step that reads the store and may throw.
  abbrev pub attempt : {A : Type 0} → (List W → Result A) → Tx W A
  attempt f = λ w. (f w, w)

  abbrev pub write : W → Tx W (Unit {0})
  write x = λ w. (ok tt, x ∷ w)

  -- A transaction of its own: an error rolls its writes back.
  abbrev pub run : {A : Type 0} → Tx W A → Tx W A
  run m w = kept (m w)
    where
      kept : {A : Type 0} → Result A × List W → Result A × List W
      kept (ok a, v) = (ok a, v)
      kept (err e, v) = (err e, w)

  -- What holds of an error and of the next step holds of a lifted result and the next step.
  pub lift-then :
      {A B : Type 0} (P : Result B × List W → Type 0) (r : Result A) (f : A → Tx W B) (w : List W)
      → ((e : Error) → r ≡ err e → P (err e, w))
      → ((a : A) → r ≡ ok a → P (f a w))
      → P (and_then f (r, w))
  lift-then P (ok a) f w h k = k a refl
  lift-then P (err e) f w h k = h e refl

  -- A success comes from a first step that succeeds and a next step that succeeds from it.
  pub step-ok :
      {A B : Type 0} (p : Result A × List W) (f : A → Tx W B) {b : B} {w' : List W}
      → and_then f p ≡ (ok b, w')
      → (a : A) × (w : List W) × (p ≡ (ok a, w)) × (f a w ≡ (ok b, w'))
  step-ok (ok a, w) f h = (a, w, refl, h)
  step-ok (err e, w) f h = absurd (err-not-ok (ap (λ p. p.0) h))

  -- A lifted result before a success is a success, and the next step succeeds from its value.
  pub lift-then-ok :
      {A B : Type 0} (r : Result A) (f : A → Tx W B) {b : B} {w w' : List W}
      → and_then f (r, w) ≡ (ok b, w')
      → (a : A) × (r ≡ ok a) × (f a w ≡ (ok b, w'))
  lift-then-ok (ok a) f h = (a, refl, h)
  lift-then-ok (err e) f {w} h =
      let (a, v, same, k) = step-ok (err e, w) f h in absurd (err-not-ok (ap (λ p. p.0) same))

  -- A transaction of its own that succeeds is the success of its steps.
  pub run-ok :
      {A : Type 0} (p : Result A × List W) (w : List W) {a : A} {w' : List W}
      → run (λ v. p) w ≡ (ok a, w')
      → p ≡ (ok a, w')
  run-ok (ok b, v) w h = h
  run-ok (err e, v) w h = absurd (err-not-ok (ap (λ q. q.0) h))
