-- ===== src/Prelude/Results.antt =====
-- Code that throws: a value or an error, with the binds of a `do` block.
use mathlib.Core.Path.{◌≡◌, refl}
use mathlib.Core.Logic.{◌⊎◌, inl, inr}
use mathlib.Core.Bool.{Bool, true, false}
use native.Mathlib.Omega.{arith}
use wall_e_campus_assistant.Prelude.Tests.{if◌then◌else◌}

pub data Result {ℓ κ} (E : Type κ) (A : Type ℓ) : Type (ℓ ⊔ κ) where
  ok : A → Result E A
  err : E → Result E A

infixl 5 ◌>>=◌ ◌>>◌
abbrev pub ◌>>=◌ :
    {Error Value Next : Type 0}
    → Result Error Value
    → (Value → Result Error Next)
    → Result Error Next
err failure >>= next = err failure
ok value >>= next = next value

-- `if (test) throw e`
abbrev pub throw_if : {E : Type 0} → Bool → E → Result E (Unit {0})
throw_if test e = if test then err e else ok tt

abbrev pub ◌>>◌ :
    {Error Next : Type 0} → Result Error (Unit {0}) → Result Error Next → Result Error Next
err failure >> next = err failure
ok done >> next = next

pub Result-cases :
    {E A : Type 0} (m : Result E A) → ((a : A) × (m ≡ ok a)) ⊎ ((e : E) × (m ≡ err e))
Result-cases (ok a) = inl (a, refl)
Result-cases (err e) = inr (e, refl)

-- A property of both branches of a conditional.
pub if_elim {ℓ κ} :
    {A : Type ℓ} (P : A → Type κ) (b : Bool) (x y : A) → P x → P y → P (if b then x else y)
if_elim P true x y p q = p
if_elim P false x y p q = q

-- What a chain that succeeds has gone through.
pub >>=-ok :
    {E A B : Type 0} (m : Result E A) (next : A → Result E B) {b : B}
    → (m >>= next) ≡ ok b
    → (a : A) × (m ≡ ok a) × (next a ≡ ok b)
>>=-ok (ok a) next h = (a, refl, h)
>>=-ok (err e) next h = absurd (ground arith)

pub >>-ok :
    {E B : Type 0} (m : Result E (Unit {0})) (next : Result E B) {b : B}
    → (m >> next) ≡ ok b
    → (m ≡ ok tt) × (next ≡ ok b)
>>-ok (ok tt) next h = (refl, h)
>>-ok (err e) next h = absurd (ground arith)

pub throw_if-ok : {E : Type 0} (test : Bool) (e : E) → throw_if test e ≡ ok tt → test ≡ false
throw_if-ok test e h = ground arith
