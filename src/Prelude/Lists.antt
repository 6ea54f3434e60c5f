-- ===== src/Prelude/Lists.antt =====
-- Lists measured by native numbers, and predicates on lists by recursion.
use Prim.Native.Nat.{◌≤◌, ℕ, suc, ◌+◌}
use mathlib.Core.Path.{◌≡◌, ap, ◌∙◌, refl}
use mathlib.Core.Logic.{◌≢◌, ◌⊎◌, ◌↔◌, inl, inr}
use mathlib.Core.List.{List, [], ◌∷◌, ◌++◌}
use mathlib.Core.Bool.{Bool, true, false, ◌||◌}
use ship_yard.Prelude.Tests.{Bool-cases}
use native.Mathlib.Omega.{arith}

module _ {ℓ} {A : Type ℓ} where
  abbrev pub length : List A → ℕ
  length [] = 0
  length (x ∷ xs) = suc (length xs)

  pub length-append : (xs ys : List A) → length (xs ++ ys) ≡ length xs + length ys
  length-append [] ys = omega arith
  length-append (x ∷ xs) ys = omega (arith, length-append xs ys)

module _ {ℓ κ} {A : Type ℓ} where
  -- Every item has the property.
  abbrev pub All : (A → Type κ) → List A → Type κ
  All P [] = Unit
  All P (x ∷ xs) = P x × All P xs

-- Some item has the property.
abbrev pub Any : {A : Type 0} → (A → Type 0) → List A → Type 0
Any P [] = ⊥
Any P (x ∷ xs) = P x ⊎ Any P xs

-- The item is one of the list.
abbrev pub OneOf : {A : Type 0} → A → List A → Type 0
OneOf a = Any (λ x. a ≡ x)

-- No item occurs twice.
abbrev pub Distinct {ℓ} : {A : Type ℓ} → List A → Type ℓ
Distinct [] = Unit
Distinct (x ∷ xs) = All (λ y. x ≢ y) xs × Distinct xs

module _ {ℓ} {A : Type ℓ} where
  pub All-concat {κ} :
      (P : A → Type κ) (xs : List A) {y : A} → All P xs → P y → All P (xs ++ y ∷ [])
  All-concat P [] h p = (p, tt)
  All-concat P (x ∷ xs) h p = (h.0, All-concat P xs h.1 p)

  pub Distinct-concat :
      (xs : List A) (y : A) → Distinct xs → All (λ x. x ≢ y) xs → Distinct (xs ++ y ∷ [])
  Distinct-concat [] y h k = (tt, tt)
  Distinct-concat (x ∷ xs) y h k =
      (All-concat (λ z. x ≢ z) xs h.0 k.0, Distinct-concat xs y h.1 k.1)

pub OneOf-concat : {A : Type 0} (xs : List A) (y : A) → OneOf y (xs ++ y ∷ [])
OneOf-concat [] y = inl refl
OneOf-concat (x ∷ xs) y = inr (OneOf-concat xs y)

pub All-of_OneOf :
    {A : Type 0} {P : A → Type 0} (xs : List A) → ((a : A) → OneOf a xs → P a) → All P xs
All-of_OneOf [] h = tt
All-of_OneOf (x ∷ xs) h = (h x (inl refl), All-of_OneOf xs (λ a m. h a (inr m)))

-- `[...new Set(items)]`: each item once, where it first stood. `eq` is `===`.
module _ {A : Type 0} (eq : A → A → Bool) where
  unfoldable pub has : List A → A → Bool
  has [] a = false
  has (x ∷ xs) a = eq x a || has xs a

  -- The items of the list that were not seen before.
  unfoldable pub unseen : List A → List A → List A
  unfolding has
  unseen seen [] = []
  unseen seen (x ∷ xs) = elim (has seen x) [
    | true ↦ unseen seen xs
    | false ↦ x ∷ unseen (x ∷ seen) xs
  ]

  unfoldable pub unique : List A → List A
  unfolding unseen
  unique xs = unseen [] xs

  unseen_old :
      (seen : List A) (x : A) (xs : List A)
      → has seen x ≡ true
      → unseen seen (x ∷ xs) ≡ unseen seen xs
  unfolding unseen
  unseen_old seen x xs h = rw (h, unseen)

  unseen_new :
      (seen : List A) (x : A) (xs : List A)
      → has seen x ≡ false
      → unseen seen (x ∷ xs) ≡ x ∷ unseen (x ∷ seen) xs
  unfolding unseen
  unseen_new seen x xs h = rw (h, unseen)

  unseen-le : (seen xs : List A) → length (unseen seen xs) ≤ length xs
  unfolding unseen
  unseen-le seen [] = omega arith
  unseen-le seen (x ∷ xs) = elim (Bool-cases (has seen x)) [
    | inl old ↦ rw (unseen_old seen x xs old) (omega (arith, unseen-le seen xs))
    | inr new ↦ rw (unseen_new seen x xs new) (omega (arith, unseen-le (x ∷ seen) xs))
  ]

  unseen_all : (seen xs : List A) → length (unseen seen xs) ≡ length xs → unseen seen xs ≡ xs
  unfolding unseen
  unseen_all seen [] h = refl
  unseen_all seen (x ∷ xs) h = elim (Bool-cases (has seen x)) [
    | inl old ↦
        let short = unseen-le seen xs in
        let same = rw (unseen_old seen x xs old) at h in absurd (omega (arith, short, same))
    | inr new ↦
        let same = rw (unseen_new seen x xs new) at h in
        unseen_new seen x xs new ∙ ap (λ l. x ∷ l) (unseen_all (x ∷ seen) xs (omega (arith, same)))
  ]

  -- `new Set(items).size === items.length`: the set is the list.
  pub unique_all : (xs : List A) → length (unique xs) ≡ length xs → unique xs ≡ xs
  unfolding unique
  unique_all xs h = unseen_all [] xs h

module _ {A : Type 0} (eq : A → A → Bool) (eq_iff : (a b : A) → (eq a b ≡ true) ↔ (a ≡ b)) where
  pub has_iff : (xs : List A) (a : A) → (has eq xs a ≡ true) ↔ OneOf a xs
  unfolding has
  has_iff [] a = ((λ h. cc), (λ h. elim h [ ]))
  has_iff (x ∷ xs) a = ground (arith, eq_iff x a, has_iff xs a)

  oneof-unseen :
      (seen xs : List A) (a : A)
      → OneOf a (unseen eq seen xs) ↔ (OneOf a xs × (has eq seen a ≡ false))
  unfolding unseen
  oneof-unseen seen [] a = ((λ h. elim h [ ]), (λ h. elim (h.0) [ ]))
  oneof-unseen seen (x ∷ xs) a = elim (Bool-cases (has eq seen x)) [
    | inl old ↦ rw (unseen_old eq seen x xs old) (ground (arith, oneof-unseen seen xs a))
    | inr new ↦
        rw (unseen_new eq seen x xs new) (ground (arith, eq_iff x a, oneof-unseen (x ∷ seen) xs a))
  ]

  unseen-Distinct : (seen xs : List A) → Distinct (unseen eq seen xs)
  unfolding unseen
  unseen-Distinct seen [] = tt
  unseen-Distinct seen (x ∷ xs) = elim (Bool-cases (has eq seen x)) [
    | inl old ↦ rw (unseen_old eq seen x xs old) (unseen-Distinct seen xs)
    | inr new ↦ rw (unseen_new eq seen x xs new) (
      All-of_OneOf (unseen eq (x ∷ seen) xs)
          (λ a member same. ground (arith, eq_iff x a, (oneof-unseen (x ∷ seen) xs a).0 member)),
      unseen-Distinct (x ∷ seen) xs,
    )
  ]

  -- The set has the items of the list, each once.
  pub unique-Distinct : (xs : List A) → Distinct (unique eq xs)
  unfolding unique
  unique-Distinct xs = unseen-Distinct [] xs

  pub oneof-unique : (xs : List A) (a : A) → OneOf a (unique eq xs) ↔ OneOf a xs
  unfolding unique
  oneof-unique xs a = ground (arith, oneof-unseen [] xs a)

pub OneOf-append_iff :
    {A : Type 0} (xs ys : List A) (a : A) → OneOf a (xs ++ ys) ↔ (OneOf a xs ⊎ OneOf a ys)
OneOf-append_iff [] ys a = (inr, λ h. elim h [ inl e ↦ elim e [ ] | inr m ↦ m ])
OneOf-append_iff (x ∷ xs) ys a = ground (arith, OneOf-append_iff xs ys a)
