-- ===== src/Base/Members.antt =====
-- Python's `in` on lists: what is said of every element, and the elements of lists that are built.
use mathlib.Core.Path.{◌≡◌, sym, subst}
use mathlib.Core.Logic.{inl, inr}
use mathlib.Core.Bool.{true}
use mathlib.Core.List.{List, [], ◌∷◌, ◌++◌, map}
use native.Mathlib.Omega.{arith}
use battle_belief.Base.Equality.{Eq, ◌==◌, ==→eq, ==_refl, Bool-cases, contains}
use battle_belief.Base.Lists.{All}

module _ {ℓ} {A : Type ℓ} ⦃e : Eq A⦄ where
  pub contains-append_left :
      (xs ys : List A) (a : A) → contains xs a ≡ true → contains (xs ++ ys) a ≡ true
  contains-append_left [] ys a h = cc
  contains-append_left (x ∷ xs) ys a h = ground (arith, contains-append_left xs ys a)

  pub contains-append_right :
      (xs ys : List A) (a : A) → contains ys a ≡ true → contains (xs ++ ys) a ≡ true
  contains-append_right [] ys a h = h
  contains-append_right (x ∷ xs) ys a h = ground (arith, contains-append_right xs ys a)

  pub All-contains : (P : A → Type 0) (xs : List A) (a : A) → contains xs a ≡ true → All P xs → P a
  All-contains P [] a h all = cc
  All-contains P (x ∷ xs) a h all = elim (Bool-cases (a == x)) [
    | inl same ↦ subst P (sym (==→eq a x same)) all.0
    | inr other ↦ All-contains P xs a (ground arith) all.1
  ]

  pub contains_last : (xs : List A) (a : A) → contains (xs ++ a ∷ []) a ≡ true
  contains_last xs a = contains-append_right xs (a ∷ []) a (ground (arith, ==_refl a))

module _ {ℓ κ} {A : Type ℓ} {B : Type κ} ⦃e : Eq A⦄ ⦃d : Eq B⦄ where
  pub contains-map :
      (f : A → B) (xs : List A) (a : A) → contains xs a ≡ true → contains (map f xs) (f a) ≡ true
  contains-map f [] a h = cc
  contains-map f (x ∷ xs) a h = elim (Bool-cases (a == x)) [
    | inl same ↦
        subst (λ b. contains (f x ∷ map f xs) (f b) ≡ true) (sym (==→eq a x same))
          (ground (arith, ==_refl (f x)))
    | inr other ↦ ground (arith, contains-map f xs a)
  ]
