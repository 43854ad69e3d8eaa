-- ===== src/Common/Sorting.antt =====
-- The insertion sort of Common/Lists orders its list and permutes it.
use mathlib.Core.Path.{◌≡◌}
use mathlib.Core.Logic.{inl, inr}
use mathlib.Core.Bool.{Bool, true, false}
use mathlib.Core.List.{List, [], ◌∷◌, Perm, perm_middle}
use mathlib.Core.List.Perm
use trafego_flow.Common.Tests.{Bool-cases}
use trafego_flow.Common.Lists.{All, insert_sorted, sort_with}

module _ {A : Type 0} (le : A → A → Bool) where
  -- Each element is in order with all that follow it.
  abbrev pub IsSorted : List A → Type 0
  IsSorted [] = Unit
  IsSorted (x ∷ xs) = All (λ y. le x y ≡ true) xs × IsSorted xs

  perm-insert_sorted : (x : A) (ys : List A) → Perm (insert_sorted le x ys) (x ∷ ys)
  perm-insert_sorted x [] = Perm.rfl
  perm-insert_sorted x (y ∷ ys) = elim (Bool-cases (le x y)) [
    | inl e ↦ rw e Perm.rfl
    | inr e ↦ rw e (Perm.trans (Perm.cons y (perm-insert_sorted x ys)) (perm_middle (y ∷ []) ys))
  ]

  pub perm-sort_with : (xs : List A) → Perm (sort_with le xs) xs
  perm-sort_with [] = Perm.rfl
  perm-sort_with (x ∷ xs) =
      Perm.trans (perm-insert_sorted x (sort_with le xs)) (Perm.cons x (perm-sort_with xs))

  module _ (total : (x y : A) → le x y ≡ false → le y x ≡ true)
      (trans : (x y z : A) → le x y ≡ true → le y z ≡ true → le x z ≡ true) where
    All-le :
        (x y : A) (ys : List A)
        → le x y ≡ true
        → All (λ z. le y z ≡ true) ys
        → All (λ z. le x z ≡ true) ys
    All-le x y [] h k = tt
    All-le x y (z ∷ ys) h k = (trans x y z h k.0, All-le x y ys h k.1)

    All-insert_sorted :
        (y x : A) (ys : List A)
        → le y x ≡ true
        → All (λ z. le y z ≡ true) ys
        → All (λ z. le y z ≡ true) (insert_sorted le x ys)
    All-insert_sorted y x [] h k = (h, tt)
    All-insert_sorted y x (z ∷ ys) h k = elim (Bool-cases (le x z)) [
      | inl e ↦ rw e (h, (k.0, k.1))
      | inr e ↦ rw e (k.0, All-insert_sorted y x ys h k.1)
    ]

    insert_sorted-IsSorted : (x : A) (ys : List A) → IsSorted ys → IsSorted (insert_sorted le x ys)
    insert_sorted-IsSorted x [] h = (tt, tt)
    insert_sorted-IsSorted x (y ∷ ys) h = elim (Bool-cases (le x y)) [
      | inl e ↦ rw e ((e, All-le x y ys e h.0), (h.0, h.1))
      | inr e ↦ rw e (All-insert_sorted y x ys (total x y e) h.0, insert_sorted-IsSorted x ys h.1)
    ]

    pub sort_with-IsSorted : (xs : List A) → IsSorted (sort_with le xs)
    sort_with-IsSorted [] = tt
    sort_with-IsSorted (x ∷ xs) = insert_sorted-IsSorted x (sort_with le xs) (sort_with-IsSorted xs)
