-- ===== src/Prelude/Result.antt =====
-- What a Go call does: it returns a value, returns an error, or panics.
use mathlib.Core.Path.{◌≡◌, refl}
use mathlib.Core.Logic.{◌⊎◌, inl, inr}
use mathlib.Core.Bool.{Bool, true, false}
use mathlib.Core.Option.{Option, none, some}

pub data Result {ℓ} (V : Type ℓ) : Type ℓ where
  panic err : Result V
  ok : V → Result V

infixl 5 ◌>>=◌ ◌>>◌
-- A call, and what follows it if it returned a value.
abbrev pub ◌>>=◌ {ℓ₁ ℓ₂} :
    {V : Type ℓ₁} {W : Type ℓ₂} (call : Result V) (next : V → Result W) → Result W
panic >>= next = panic
err >>= next = err
ok value >>= next = next value

abbrev pub ◌>>◌ {ℓ₂} : {W : Type ℓ₂} (check : Result (Unit {0})) (next : Result W) → Result W
check >> next = check >>= (λ _. next)

-- An index out of range.
abbrev pub or_panic {ℓ} : {V : Type ℓ} → Option V → Result V
or_panic none = panic
or_panic (some value) = ok value

-- `if !exists { return err }`
abbrev pub or_err {ℓ} : {V : Type ℓ} → Option V → Result V
or_err none = err
or_err (some value) = ok value

-- `if !test { return err }`
abbrev pub require : Bool → Result (Unit {0})
require false = err
require true = ok tt

pub ok_eq {ℓ} : {V : Type ℓ} {v w : V} → ok v ≡ ok w → v ≡ w
ok_eq h = cc

pub Result-cases {ℓ} :
    {V : Type ℓ} (call : Result V) → ((call ≡ panic) ⊎ (call ≡ err)) ⊎ ((v : V) × (call ≡ ok v))
Result-cases panic = inl (inl refl)
Result-cases err = inl (inr refl)
Result-cases (ok v) = inr (v, refl)
