-- ===== src/Pools/Sorting.antt =====
-- Lists sorted by `<=`: a list and its reorderings are sorted to one list.
use mathlib.Core.Logic.{∥∥₁_elim}
use mathlib.Core.Bool.{Bool-set}
use mathlib.Core.List.{Perm, Permᴰ}
use mathlib.Core.List.Perm
use battle_belief.Base.{
  Bool, true, false, List, [], ◌∷◌, insert_sorted, sorted, Eq, list_eq, ==→eq, eq→==, Bool-cases,
  inl, inr, ◌≡◌, refl, sym, ap, ap₂, subst, ◌∙◌, if_intro,
}

module _ {A : Type 0} (le : A → A → Bool) where
  insert_sorted-Perm : (x : A) (l : List A) → Perm (insert_sorted le x l) (x ∷ l)
  unfolding insert_sorted
  insert_sorted-Perm x [] = Perm.rfl
  insert_sorted-Perm x (y ∷ l) =
      if_intro (λ zs. Perm zs (x ∷ y ∷ l)) (le x y) Perm.rfl
        (Perm.trans (Perm.cons y (insert_sorted-Perm x l)) (Perm.swap x y l))

  -- A sorted list has the elements of the list.
  pub sorted-Perm : (l : List A) → Perm (sorted le l) l
  unfolding sorted
  sorted-Perm [] = Perm.rfl
  sorted-Perm (x ∷ l) =
      Perm.trans (insert_sorted-Perm x (sorted le l)) (Perm.cons x (sorted-Perm l))

module _ {A : Type 0} ⦃e : Eq A⦄ (le : A → A → Bool)
    (total : (x y : A) → le x y ≡ false → le y x ≡ true)
    (antisym : (x y : A) → le x y ≡ true → le y x ≡ true → x ≡ y)
    (trans : (x y z : A) → le x y ≡ true → le y z ≡ true → le x z ≡ true) where
  insert_sorted_comm :
      (x y : A) (l : List A)
      → le x y ≡ true
      → le y x ≡ false
      → insert_sorted le x (insert_sorted le y l) ≡ insert_sorted le y (insert_sorted le x l)
  unfolding insert_sorted
  insert_sorted_comm x y [] h k = rw (h, k) refl
  insert_sorted_comm x y (z ∷ l) h k = elim (Bool-cases (le y z)) [
    | inl yz ↦ rw (yz, trans x y z h yz, h, k, yz) refl
    | inr zy ↦ elim (Bool-cases (le x z)) [
      | inl xz ↦ rw (zy, xz, k, zy) refl
      | inr zx ↦ rw (zy, zx, zy) (ap (λ zs. z ∷ zs) (insert_sorted_comm x y l h k))
    ]
  ]

  insert_sorted_swap :
      (x y : A) (l : List A)
      → insert_sorted le x (insert_sorted le y l) ≡ insert_sorted le y (insert_sorted le x l)
  insert_sorted_swap x y l = elim (Bool-cases (le x y)) [
    | inl h ↦ elim (Bool-cases (le y x)) [
      | inl k ↦
          subst
            (λ z.
              insert_sorted le x (insert_sorted le z l) ≡ insert_sorted le z (insert_sorted le x l))
            (antisym x y h k) refl
      | inr k ↦ insert_sorted_comm x y l h k
    ]
    | inr h ↦ sym (insert_sorted_comm y x l (total x y h) h)
  ]

  sorted-Permᴰ : {xs ys : List A} → Permᴰ xs ys → sorted le xs ≡ sorted le ys
  unfolding sorted
  sorted-Permᴰ Permᴰ.nil = refl
  sorted-Permᴰ (Permᴰ.cons h p) = ap₂ (insert_sorted le) h (sorted-Permᴰ p)
  sorted-Permᴰ (Permᴰ.swap {a = a} {b = b} {l = l} h k) =
      insert_sorted_swap a b (sorted le l) ∙ cc (h, k)
  sorted-Permᴰ (Permᴰ.trans p q) = sorted-Permᴰ p ∙ sorted-Permᴰ q

  -- Lists with the same elements are sorted to the same list.
  pub Perm-sorted : {xs ys : List A} → Perm xs ys → sorted le xs ≡ sorted le ys
  Perm-sorted {xs} {ys} p =
      ==→eq (sorted le xs) (sorted le ys)
        (∥∥₁_elim p (Bool-set _ _) (λ d. eq→== (sorted le xs) (sorted le ys) (sorted-Permᴰ d)))
