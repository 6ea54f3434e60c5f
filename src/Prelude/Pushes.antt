-- ===== src/Prelude/Pushes.antt =====
-- Codes pushed on a list by conditions, and what it means that none was.
use mathlib.Core.Path.{◌≡◌, refl}
use mathlib.Core.Logic.{◌↔◌}
use mathlib.Core.List.{List, [], ◌∷◌, ◌++◌}
use mathlib.Core.Bool.{Bool, true, false, not, ◌||◌}
use native.Mathlib.Omega.{arith}
use ship_yard.Prelude.Tests.{if◌then◌else◌}
use ship_yard.Prelude.Lists.{All}

-- `items.length === 0`
abbrev pub is_empty : {A : Type 0} → List A → Bool
is_empty [] = true
is_empty (_ ∷ _) = false

-- `if (b) codes.push(code)`
abbrev pub push_if : {C : Type 0} → Bool → C → List C
push_if b code = if b then code ∷ [] else []

-- The same for each condition, in order.
abbrev pub pushed : {C : Type 0} → List (Bool × C) → List C
pushed [] = []
pushed ((b, code) ∷ cs) = push_if b code ++ pushed cs

pub pushed-nil :
    {C : Type 0} (cs : List (Bool × C)) (rest : List C)
    → (pushed cs ++ rest ≡ []) ↔ (All (λ c. c.0 ≡ false) cs × (rest ≡ []))
pushed-nil [] rest = ((λ h. (tt, h)), (λ h. h.1))
pushed-nil ((true, code) ∷ cs) rest = ((λ h. cc), (λ h. cc (h.0.0)))
pushed-nil ((false, code) ∷ cs) rest = (
  (λ h. let (bs, r) = (pushed-nil cs rest).0 h in ((refl, bs), r)),
  (λ h. (pushed-nil cs rest).1 (h.0.1, h.1)),
)

pub passed : (b : Bool) → (not b ≡ false) ↔ (b ≡ true)
passed true = ((λ h. refl), (λ h. refl))
passed false = ((λ h. cc), (λ h. cc))

pub passed_two : (a b : Bool) → (not a || not b ≡ false) ↔ ((a ≡ true) × (b ≡ true))
passed_two a b = ground arith

pub passed_three :
    (a b c : Bool) → (not a || not b || not c ≡ false) ↔ ((a ≡ true) × (b ≡ true) × (c ≡ true))
passed_three a b c = ground arith

pub is_empty_sound : {C : Type 0} (codes : List C) → is_empty codes ≡ true → codes ≡ []
is_empty_sound [] h = refl
is_empty_sound (_ ∷ _) h = cc
