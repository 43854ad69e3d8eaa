-- ===== src/Billing/Dates/Schedule.antt =====
-- modules/clients/billing/installment-dates.helper.ts: when the installments of a contract fall due.
use trafego_flow.Common.{
  ℕ, Bool, sym, suc, ◌+◌, ◌*◌, ◌≤◌, ◌<◌, ◌≡◌, ◌⊎◌, inl, inr, refl, ◌∙◌, ap, true, false, arith,
  if◌then◌else◌, some, length, get_elem?,
}
use trafego_flow.Billing.Dates.{
  Date, date_leb, date_for_month, generate_installment_dates, first_month, next_month, min_of,
}
use trafego_flow.Billing.Dates.Calendar.{
  month_number, later, earlier, length-dates_from, FallsOn, dates_from-FallsOn,
  date_for_month-FallsOn', date_leb_refl, FallsOn-eq, renumber, renumber', split,
}

-- The number of the month of the first installment.
abbrev pub first_number : Date → ℕ → ℕ
first_number start day = 12 * (first_month start day).0 + (first_month start day).1

next_month_lem :
    (y m : ℕ) → m < 12 → 12 * (next_month y m).0 + (next_month y m).1 ≡ suc (12 * y + m)
next_month_lem y m h = ground arith

rolled :
    (b : Bool) (y m : ℕ) {p : ℕ × ℕ}
    → m < 12
    → p ≡ (if b then next_month y m else (y, m))
    → ((b ≡ true) × (12 * p.0 + p.1 ≡ suc (12 * y + m)))
      ⊎ ((b ≡ false) × (12 * p.0 + p.1 ≡ 12 * y + m))
rolled true y m h e = inl (refl, (λ i. 12 * (e i).0 + (e i).1) ∙ next_month_lem y m h)
rolled false y m h e = inr (refl, λ i. 12 * (e i).0 + (e i).1)

first_number_lem :
    (start : Date) (day : ℕ)
    → start.month < 12
    → ((date_leb (date_for_month start.year start.month day) start ≡ true)
        × (first_number start day ≡ suc (month_number start)))
      ⊎ ((date_leb (date_for_month start.year start.month day) start ≡ false)
          × (first_number start day ≡ month_number start))
unfolding first_month
first_number_lem start day v =
    rolled (date_leb (date_for_month start.year start.month day) start) start.year start.month v
      refl

first_month_from : (start : Date) (day : ℕ) → start.year ≤ (first_month start day).0
unfolding first_month
first_month_from start day =
    from (date_leb (date_for_month start.year start.month day) start) start.year start.month
  where
    from : (b : Bool) (y m : ℕ) → y ≤ (if b then next_month y m else (y, m)).0
    from true y m = ground arith
    from false y m = omega arith

abbrev pub clamped : ℕ → ℕ
clamped due_day = min_of due_day 30

clamped_pos : (due_day : ℕ) → 1 ≤ due_day → 1 ≤ clamped due_day
clamped_pos due_day h = ground arith

-- For a due day from 1 and years from 100 to 275000, a contract has as many installments as
-- months, and the one with index k falls, at the beginning of the day, k months after the first,
-- on the due day, at most 30, or on the last day of a shorter month.
pub generate_installment_dates-FallsOn :
    (start : Date) (due_day duration_months k : ℕ)
    → 100 ≤ start.year
    → start.year + duration_months ≤ 275000
    → 1 ≤ due_day
    → k < duration_months
    → (length (generate_installment_dates start due_day duration_months) ≡ duration_months)
      × (d : Date) × (get_elem? (generate_installment_dates start due_day duration_months) k
          ≡ some d)
      × FallsOn (clamped due_day) (first_number start (clamped due_day) + k) d
unfolding generate_installment_dates
generate_installment_dates-FallsOn start due_day duration_months k c bound h small =
    let first = first_month start (clamped due_day) in
    let (d, at, falls) =
      dates_from-FallsOn first.0 first.1 (clamped due_day) duration_months k
        (omega (arith, first_month_from start (clamped due_day), c)) (clamped_pos due_day h)
        small in
    (length-dates_from first.0 first.1 (clamped due_day) 0 duration_months, d, at, falls)

-- For a due day from 1 and years from 100 to 275000, an installment with a larger index falls due
-- strictly later.
pub generate_installment_dates_increase :
    (start : Date) (due_day duration_months j k : ℕ)
    → 100 ≤ start.year
    → start.year + duration_months ≤ 275000
    → 1 ≤ due_day
    → j < k
    → k < duration_months
    → (d : Date) × (e : Date) × (get_elem?
          (generate_installment_dates start due_day duration_months)
          j
        ≡ some d)
      × (get_elem? (generate_installment_dates start due_day duration_months) k ≡ some e)
      × (date_leb e d ≡ false)
generate_installment_dates_increase start due_day duration_months j k c bound h less small =
    let (n, d, at_j, falls) =
      generate_installment_dates-FallsOn start due_day duration_months j c bound h (omega arith) in
    let (n', e, at_k, falls') =
      generate_installment_dates-FallsOn start due_day duration_months k c bound h small in
    (
      d,
      e,
      at_j,
      at_k,
      later d e falls.month_valid falls'.month_valid
          (omega (arith, falls.in_month, falls'.in_month)),
    )

after_start :
    (start : Date) (day : ℕ) (d : Date)
    → start.month < 12
    → FallsOn day (month_number start) (date_for_month start.year start.month day)
    → FallsOn day (first_number start day + 0) d
    → date_leb d start ≡ false
after_start start day d v here falls = elim (first_number_lem start day v) [
  | inl (early, next) ↦ later start d v falls.month_valid (omega (arith, next, falls.in_month))
  | inr (late, same) ↦
      let is_it =
        FallsOn-eq day (month_number start) d (date_for_month start.year start.month day)
          (renumber falls (omega (arith, same))) here in
      ap (λ x. date_leb x start) is_it ∙ late
]

-- A month before that of the first installment has its due day by the start.
before_first :
    (start : Date) (day : ℕ) (c : Date)
    → start.month < 12
    → FallsOn day (month_number start) (date_for_month start.year start.month day)
    → FallsOn day (month_number c) c
    → month_number c < first_number start day
    → date_leb c start ≡ true
before_first start day c v here due less = elim (first_number_lem start day v) [
  | inl (early, next) ↦ elim (split (month_number c) (month_number start)) [
    | inl lt ↦ earlier c start due.month_valid v lt
    | inr ge ↦
        let is_it =
          FallsOn-eq day (month_number start) c (date_for_month start.year start.month day)
            (renumber due (omega (arith, next, ge, less))) here in
        ap (λ x. date_leb x start) is_it ∙ early
  ]
  | inr (late, same) ↦ earlier c start due.month_valid v (omega (arith, same, less))
]

from_first :
    (day n : ℕ) (d c : Date)
    → FallsOn day n d
    → FallsOn day (month_number c) c
    → n ≤ month_number c
    → date_leb d c ≡ true
from_first day n d c falls due le = elim (split n (month_number c)) [
  | inl lt ↦ earlier d c falls.month_valid due.month_valid (omega (arith, falls.in_month, lt))
  | inr ge ↦
      let is_it = FallsOn-eq day n d c falls (renumber due (omega (arith, le, ge))) in
      ap (λ x. date_leb d x) (sym is_it) ∙ date_leb_refl d
]

-- For a start date with a valid month, a due day and a duration from 1, and years from 100 to
-- 275000: the first installment falls strictly after the start, and the due day of any month is by
-- the start or not before the first installment.
pub generate_installment_dates_first :
    (start : Date) (due_day duration_months year month : ℕ)
    → 100 ≤ start.year
    → start.year + duration_months ≤ 275000
    → start.month < 12
    → 1 ≤ due_day
    → 1 ≤ duration_months
    → 100 ≤ year
    → year ≤ 275000
    → month < 12
    → (d : Date) × (get_elem? (generate_installment_dates start due_day duration_months) 0 ≡ some d)
      × (date_leb d start ≡ false)
      × ((date_leb (date_for_month year month (clamped due_day)) start ≡ true)
          ⊎ (date_leb d (date_for_month year month (clamped due_day)) ≡ true))
generate_installment_dates_first start due_day duration_months year month cs bound v h n cy top vm =
    let (l, d, at, falls) =
      generate_installment_dates-FallsOn start due_day duration_months 0 cs bound h n in
    let day = clamped due_day in
    let c = date_for_month year month day in
    let due : FallsOn day (month_number c) c =
      renumber' (date_for_month-FallsOn' year month day cy (clamped_pos due_day h) vm) in
    let here = date_for_month-FallsOn' start.year start.month day cs (clamped_pos due_day h) v in
    (
      d,
      at,
      after_start start day d v here falls,
      elim (split (month_number c) (first_number start day)) [
        | inl lt ↦ inl (before_first start day c v here due lt)
        | inr ge ↦ inr (from_first day _ d c falls due (omega (arith, ge)))
      ],
    )
