-- ===== src/Prelude/Results.antt =====
-- A call that returns or throws.
use mathlib.Core.Path.{◌≡◌, refl, subst}
use mathlib.Core.Logic.{◌⊎◌, inl, inr}
use mathlib.Core.Bool.{Bool, true, false}

pub data Result (E A : Type 0) : Type 0 where
  err : E → Result E A
  ok : A → Result E A

-- `if (b) throw reason`
abbrev pub throw_if : {E : Type 0} → Bool → E → Result E (Unit {0})
throw_if false reason = ok tt
throw_if true reason = err reason

-- The statements behind a call run on what it returned, and not at all where it threw.
infixl 5 ◌>>=◌ ◌>>◌
abbrev pub ◌>>=◌ :
    {Failure Value Next : Type 0}
    → Result Failure Value
    → (Value → Result Failure Next)
    → Result Failure Next
err reason >>= rest = err reason
ok value >>= rest = rest value

abbrev pub ◌>>◌ :
    {Failure Next : Type 0} → Result Failure (Unit {0}) → Result Failure Next → Result Failure Next
call >> rest = call >>= λ done. rest

-- Inversion of a successful bind.
pub >>=-eq-ok :
    {Failure Value Next : Type 0} (call : Result Failure Value) (rest : Value → Result Failure Next)
    {last : Next}
    → (call >>= rest) ≡ ok last
    → (value : Value) × (call ≡ ok value) × (rest value ≡ ok last)
>>=-eq-ok (err reason) rest done = cc
>>=-eq-ok (ok value) rest done = (value, refl, done)

-- What a call returns, if it returns, has the property.
abbrev pub Ensures : {E A : Type 0} → (A → Type 0) → Result E A → Type 0
Ensures P (ok a) = P a
Ensures P (err e) = Unit

pub Ensures->>= :
    {E A B : Type 0} (P : B → Type 0) (m : Result E A) (f : A → Result E B)
    → ((a : A) → m ≡ ok a → Ensures P (f a))
    → Ensures P (m >>= f)
Ensures->>= P (ok a) f h = h a refl
Ensures->>= P (err e) f h = tt

pub ok-injective : {E A : Type 0} {a b : A} → ◌≡◌ {A = Result E A} (ok a) (ok b) → a ≡ b
ok-injective e = cc

pub err-ne-ok : {E A : Type 0} {x : E} {a : A} → ¬ (◌≡◌ {A = Result E A} (err x) (ok a))
err-ne-ok e = cc

pub Ensures_ok :
    {E A : Type 0} (P : A → Type 0) (m : Result E A) {a : A} → Ensures P m → m ≡ ok a → P a
Ensures_ok P (ok b) h e = subst P (ok-injective e) h
Ensures_ok P (err x) h e = absurd (err-ne-ok e)

pub throw_if-ok : {E : Type 0} (b : Bool) (e : E) {u : Unit {0}} → throw_if b e ≡ ok u → b ≡ false
throw_if-ok true e h = cc
throw_if-ok false e h = refl

pub Ensures-of :
    {E A : Type 0} {P : A → Type 0} (m : Result E A) → ((a : A) → m ≡ ok a → P a) → Ensures P m
Ensures-of (ok a) h = h a refl
Ensures-of (err e) h = tt

-- To split on a computed result and keep the equation.
pub Result-cases :
    {E A : Type 0} (m : Result E A) → ((e : E) × (m ≡ err e)) ⊎ ((a : A) × (m ≡ ok a))
Result-cases (ok a) = inr (a, refl)
Result-cases (err e) = inl (e, refl)
