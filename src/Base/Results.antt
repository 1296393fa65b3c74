-- ===== src/Base/Results.antt =====
-- Code that may raise: a value, or the message of the exception.
use Prim.Native.String.{String}
use mathlib.Core.Path.{◌≡◌, refl}
use mathlib.Core.Logic.{◌⊎◌, inl, inr}
use mathlib.Core.Bool.{Bool, true, false}
use mathlib.Core.Option.{Option, none, some}

pub data Result {ℓ} (A : Type ℓ) : Type ℓ where
  ok : A → Result A
  err : String → Result A

infixl 5 ◌>>=◌ ◌>>◌
abbrev pub ◌>>◌ {ℓ} : {C : Type ℓ} → Result (Unit {0}) → Result C → Result C
ok done >> rest = rest
err message >> rest = err message

abbrev pub ◌>>=◌ {ℓ κ} : {C : Type ℓ} {D : Type κ} → Result C → (C → Result D) → Result D
r >>= next = elim r [ ok c ↦ next c | err message ↦ err message ]

-- `if not test: raise Error(message)`
abbrev pub require : Bool → String → Result (Unit {0})
require true e = ok tt
require false e = err e

abbrev pub or_raise {ℓ} : {A : Type ℓ} → Option A → String → Result A
or_raise none e = err e
or_raise (some a) e = ok a

-- `except Error as error: raise Error(message) from error`
abbrev pub or_message {ℓ} : {A : Type ℓ} → Result A → String → Result A
or_message (ok a) message = ok a
or_message (err e) message = err message

pub Result-cases {ℓ} :
    {A : Type ℓ} (r : Result A) → ((a : A) × (r ≡ ok a)) ⊎ ((e : String) × (r ≡ err e))
Result-cases (ok a) = inl (a, refl)
Result-cases (err e) = inr (e, refl)

-- What a step that succeeded has computed.
pub >>=-eq-ok {ℓ κ} :
    {C : Type ℓ} {D : Type κ} (r : Result C) (next : C → Result D) {d : D}
    → (r >>= next) ≡ ok d
    → (c : C) × (r ≡ ok c) × (next c ≡ ok d)
>>=-eq-ok (ok c) next h = (c, refl, h)
>>=-eq-ok (err message) next h = cc

pub require-eq-ok {ℓ} :
    {B : Type ℓ} (t : Bool) (e : String) (m : Result B) {b : B}
    → (require t e >> m) ≡ ok b
    → (t ≡ true) × (m ≡ ok b)
require-eq-ok true e m h = (refl, h)
require-eq-ok false e m h = cc
