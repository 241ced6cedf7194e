-- ===== src/Prelude/Sorting.antt =====
-- Python's `sorted` and `list.sort`: a stable sort has one result, which an insertion sort gives.
use mathlib.Core.Bool.{Bool, true, false}
use mathlib.Core.List.{List, [], ◌∷◌, foldr, Perm}
use mathlib.Core.List.Perm
use mathlib.Core.Logic.{inl, inr}
use mathlib.Core.Path.{◌≡◌, refl, sym, ◌∙◌, ap}
use native.Mathlib.Omega.{arith}
use adversarial_cognition.Prelude.Tests.{if◌then◌else◌, Bool-cases}

module _ {ℓ} {A : Type ℓ} (le : A → A → Bool) where
  unfoldable pub insert : A → List A → List A
  insert x [] = x ∷ []
  insert x (y ∷ ys) = if le x y then x ∷ y ∷ ys else y ∷ insert x ys

  unfoldable pub sort : List A → List A
  unfolding insert
  sort [] = []
  sort (x ∷ xs) = insert x (sort xs)

  -- Each element is at most the next one.
  abbrev pub Ordered : List A → Type 0
  Ordered [] = Unit
  Ordered (x ∷ []) = Unit
  Ordered (x ∷ y ∷ ys) = (le x y ≡ true) × Ordered (y ∷ ys)

  insert-perm : (x : A) (xs : List A) → Perm (insert x xs) (x ∷ xs)
  unfolding insert
  insert-perm x [] = Perm.refl (x ∷ [])
  insert-perm x (y ∷ ys) = elim (Bool-cases (le x y)) [
    | inl first ↦ rw first (Perm.refl (x ∷ y ∷ ys))
    | inr later ↦ rw later (Perm.trans (Perm.cons y (insert-perm x ys)) (Perm.swap x y ys))
  ]

  pub sort-perm : (xs : List A) → Perm (sort xs) xs
  unfolding sort
  sort-perm [] = Perm.refl []
  sort-perm (x ∷ xs) = Perm.trans (insert-perm x (sort xs)) (Perm.cons x (sort-perm xs))

  module _ (total : (x y : A) → le x y ≡ false → le y x ≡ true) where
    insert-Ordered : (x : A) (xs : List A) → Ordered xs → Ordered (insert x xs)
    unfolding insert
    insert-Ordered x [] o = tt
    insert-Ordered x (y ∷ []) o = ground (arith, total x y)
    insert-Ordered x (y ∷ z ∷ zs) o =
        ground (arith, total x y, total x z, insert-Ordered x (z ∷ zs) o.1)

    pub sort-Ordered : (xs : List A) → Ordered (sort xs)
    unfolding sort
    sort-Ordered [] = tt
    sort-Ordered (x ∷ xs) = insert-Ordered x (sort xs) (sort-Ordered xs)

    module _ (antisymm : (x y : A) → le x y ≡ true → le y x ≡ true → x ≡ y)
        (transitive : (x y z : A) → le x y ≡ true → le y z ≡ true → le x z ≡ true) where
      insert_comm : (x y : A) (zs : List A) → insert x (insert y zs) ≡ insert y (insert x zs)
      unfolding insert
      insert_comm x y [] = ground (arith, total x y, total y x, antisymm x y)
      insert_comm x y (z ∷ zs) = ground (
        arith,
        insert_comm x y zs,
        total x y,
        total y x,
        antisymm x y,
        total x z,
        total y z,
        transitive x y z,
        transitive y x z,
      )

      sort_lem : (xs : List A) → sort xs ≡ foldr insert [] xs
      unfolding sort
      sort_lem [] = refl
      sort_lem (x ∷ xs) = ap (insert x) (sort_lem xs)

      -- Under a total order with antisymmetry, lists with the same elements are sorted alike.
      pub sort_congr : IsSet (List A) → {xs ys : List A} → Perm xs ys → sort xs ≡ sort ys
      sort_congr set {xs} {ys} p =
          sort_lem xs ∙ Perm.foldr-eq set insert insert_comm p [] ∙ sym (sort_lem ys)
