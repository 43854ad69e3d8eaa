-- ===== src/Alerts/Order.antt =====
-- modules/adset-alerts/adset-alerts.service.ts: the order of the ad sets told of.
use mathlib.Core.List.{Perm}
use trafego_flow.Common.{◌≡◌, refl, true, false, Option, none, some, List, [], ◌∷◌, All}
use trafego_flow.Common.Sorting.{IsSorted, perm-sort_with, sort_with-IsSorted}
use trafego_flow.Alerts.{Roas, AdsetRow, roas_leb, in_order, sort_adsets}

module _ (numbers : Roas) where
  -- A lower return comes before a higher one, and any return before a missing one.
  abbrev pub ComesBefore : (earlier later : Option numbers.Float) → Type 0
  ComesBefore (some x) (some y) = numbers.leb x y ≡ true
  ComesBefore (some x) none = Unit
  ComesBefore none (some y) = ⊥
  ComesBefore none none = Unit

  -- Each row comes before all that follow it.
  abbrev pub InReturnOrder : List (AdsetRow numbers.Float) → Type 0
  InReturnOrder [] = Unit
  InReturnOrder (x ∷ rows) = All (λ y. ComesBefore x.roas y.roas) rows × InReturnOrder rows

  roas_leb-ComesBefore :
      (x y : Option numbers.Float) → roas_leb numbers x y ≡ true → ComesBefore x y
  roas_leb-ComesBefore none none h = tt
  roas_leb-ComesBefore none (some y) h = cc h
  roas_leb-ComesBefore (some x) none h = tt
  roas_leb-ComesBefore (some x) (some y) h = h

module _ (numbers : Roas)
    (leb_total : (x y : numbers.Float) → numbers.leb x y ≡ false → numbers.leb y x ≡ true)
    (leb_trans : (x y z : numbers.Float)
      → numbers.leb x y ≡ true
      → numbers.leb y z ≡ true
      → numbers.leb x z ≡ true) where
  roas_leb_total :
      (x y : Option numbers.Float) → roas_leb numbers x y ≡ false → roas_leb numbers y x ≡ true
  roas_leb_total none none h = refl
  roas_leb_total none (some y) h = refl
  roas_leb_total (some x) none h = cc
  roas_leb_total (some x) (some y) h = leb_total x y h

  roas_leb_trans :
      (x y z : Option numbers.Float)
      → roas_leb numbers x y ≡ true
      → roas_leb numbers y z ≡ true
      → roas_leb numbers x z ≡ true
  roas_leb_trans none none none h k = refl
  roas_leb_trans none none (some z) h k = k
  roas_leb_trans none (some y) z h k = cc
  roas_leb_trans (some x) y none h k = refl
  roas_leb_trans (some x) none (some z) h k = cc
  roas_leb_trans (some x) (some y) (some z) h k = leb_trans x y z h k

  comes_before :
      (x y : AdsetRow numbers.Float)
      → in_order numbers x y ≡ true
      → ComesBefore numbers x.roas y.roas
  comes_before x y h = roas_leb-ComesBefore numbers x.roas y.roas h

  All-ComesBefore :
      (x : AdsetRow numbers.Float) (ys : List (AdsetRow numbers.Float))
      → All (λ y. in_order numbers x y ≡ true) ys
      → All (λ y. ComesBefore numbers x.roas y.roas) ys
  All-ComesBefore x [] h = tt
  All-ComesBefore x (y ∷ ys) h = (comes_before x y h.0, All-ComesBefore x ys h.1)

  in_return_order :
      (rows : List (AdsetRow numbers.Float))
      → IsSorted (in_order numbers) rows
      → InReturnOrder numbers rows
  in_return_order [] h = tt
  in_return_order (x ∷ rows) h = (All-ComesBefore x rows h.0, in_return_order rows h.1)

  -- Where returns are compared by a total order, the ad sets of a client are told of with lower
  -- returns before higher ones and those without a return last, and they are a permutation of the
  -- given ones.
  pub sort_adsets-InReturnOrder :
      (rows : List (AdsetRow numbers.Float))
      → InReturnOrder numbers (sort_adsets numbers rows) × Perm (sort_adsets numbers rows) rows
  sort_adsets-InReturnOrder rows = (
    in_return_order (sort_adsets numbers rows) (
        sort_with-IsSorted (in_order numbers) (λ a b. roas_leb_total a.roas b.roas)
          (λ a b c. roas_leb_trans a.roas b.roas c.roas) rows),
    perm-sort_with (in_order numbers) rows,
  )
