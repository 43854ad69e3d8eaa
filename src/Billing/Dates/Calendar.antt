-- ===== src/Billing/Dates/Calendar.antt =====
-- modules/clients/billing/installment-dates.helper.ts: which days the installments fall on.
use mathlib.Core.Path.{subst}
use trafego_flow.Common.{
  ℕ, sym, zero, suc, ◌+◌, ◌*◌, ◌/◌, ◌%◌, ◌≤◌, ◌<◌, ◌≡◌, ◌⊎◌, refl, ◌∙◌, ap, true, false, arith,
  some, length, get_elem?,
}
use trafego_flow.Billing.Dates.{
  Date, full_year, days_in_month, new_date, date_leb, date_for_month, dates_from, min_of,
}

-- The number of a month, counted from the year 0.
abbrev pub month_number : Date → ℕ
month_number d = 12 * d.year + d.month

-- The beginning of a day of a month.
abbrev pub start_of_day : (year month day : ℕ) → Date
start_of_day year month day = record { year = year; month = month; day = day; ms = 0 }

days_in_month_pos : (year month : ℕ) → 1 ≤ days_in_month year month
days_in_month_pos year month = ground arith

full_year_lem : (year : ℕ) → 100 ≤ year → full_year year ≡ year
full_year_lem year h = ground arith

new_date_lem :
    (year month day : ℕ)
    → 100 ≤ year
    → 1 ≤ day
    → new_date year month day ≡ start_of_day year month day
new_date_lem year month zero c h = absurd (omega arith)
new_date_lem year month (suc day) c h = rw (full_year_lem year c)

pub date_for_month_lem :
    (year month day : ℕ)
    → 100 ≤ year
    → 1 ≤ day
    → date_for_month year month day
      ≡ start_of_day year month (min_of day (days_in_month year month))
date_for_month_lem year month day c h =
    new_date_lem year month (min_of day (days_in_month year month)) c
      (ground (arith, days_in_month_pos year month))

-- A date in a later month is later.
pub later :
    (a b : Date)
    → a.month < 12
    → b.month < 12
    → month_number a < month_number b
    → date_leb b a ≡ false
later a b ha hb h = ground arith

pub earlier :
    (a b : Date)
    → a.month < 12
    → b.month < 12
    → month_number a < month_number b
    → date_leb a b ≡ true
earlier a b ha hb h = ground arith

pub length-dates_from : (y m d i n : ℕ) → length (dates_from y m d i n) ≡ n
unfolding dates_from
length-dates_from y m d i zero = refl
length-dates_from y m d i (suc n) = ap suc (length-dates_from y m d (suc i) n)

pub get_elem?-dates_from :
    (y m d i n k : ℕ)
    → k < n
    → get_elem? (dates_from y m d i n) k
      ≡ some (date_for_month (y + (m + (i + k)) / 12) ((m + (i + k)) % 12) d)
unfolding dates_from
get_elem?-dates_from y m d i zero k h = absurd (omega arith)
get_elem?-dates_from y m d i (suc n) zero h =
    ap (λ j. some (date_for_month (y + (m + j) / 12) ((m + j) % 12) d)) (omega arith)
get_elem?-dates_from y m d i (suc n) (suc k) h =
    get_elem?-dates_from y m d (suc i) n k (omega arith)
    ∙ ap (λ j. some (date_for_month (y + (m + j) / 12) ((m + j) % 12) d)) (omega arith)

-- The months of the installments follow one another, and each falls on the due day, or on the last day of a shorter month.
pub record FallsOn (due_day number : ℕ) (d : Date) : Type 0 where
  pub in_month : month_number d ≡ number
  pub month_valid : d.month < 12
  pub on_day : d.day ≡ min_of due_day (days_in_month d.year d.month)
  pub at_start_of_day : d.ms ≡ 0

month_of : (y m : ℕ) → (12 * (y + m / 12) + m % 12 ≡ 12 * y + m) × (m % 12 < 12)
month_of y m = omega arith

date_for_month-FallsOn :
    (y m k d : ℕ)
    → 100 ≤ y
    → 1 ≤ d
    → FallsOn d (12 * y + m + k) (date_for_month (y + (m + k) / 12) ((m + k) % 12) d)
date_for_month-FallsOn y m k d c h =
    rw (date_for_month_lem (y + (m + k) / 12) ((m + k) % 12) d (omega arith) h) record {
      in_month = omega (arith, month_of y (m + k));
      month_valid = (month_of y (m + k)).1;
      on_day = refl;
      at_start_of_day = refl;
    }

pub dates_from-FallsOn :
    (y m d n k : ℕ)
    → 100 ≤ y
    → 1 ≤ d
    → k < n
    → (e : Date) × (get_elem? (dates_from y m d 0 n) k ≡ some e) × FallsOn d (12 * y + m + k) e
dates_from-FallsOn y m d n k c h small = (
  date_for_month (y + (m + k) / 12) ((m + k) % 12) d,
  get_elem?-dates_from y m d 0 n k small
      ∙ ap (λ j. some (date_for_month (y + (m + j) / 12) ((m + j) % 12) d)) (omega arith),
  date_for_month-FallsOn y m k d c h,
)

pub date_for_month-FallsOn' :
    (y m d : ℕ) → 100 ≤ y → 1 ≤ d → m < 12 → FallsOn d (12 * y + m) (date_for_month y m d)
date_for_month-FallsOn' y m d c h v =
    rw (date_for_month_lem y m d c h)
      record { in_month = refl; month_valid = v; on_day = refl; at_start_of_day = refl }

pub renumber : {day n n' : ℕ} {d : Date} → FallsOn day n d → n ≡ n' → FallsOn day n' d
renumber {day} {d = d} f e = subst (λ n. FallsOn day n d) e f

pub renumber' : {day n : ℕ} {d : Date} → FallsOn day n d → FallsOn day (month_number d) d
renumber' f = renumber f (sym f.in_month)

pub split : (a b : ℕ) → (a < b) ⊎ (b ≤ a)
split a b = ground arith

date_eq : {d e : Date} → d.year ≡ e.year → d.month ≡ e.month → d.day ≡ e.day → d.ms ≡ e.ms → d ≡ e
date_eq y m a t i = record { year = y i; month = m i; day = a i; ms = t i }

pub date_leb_refl : (d : Date) → date_leb d d ≡ true
date_leb_refl d = ground arith

-- two dates that fall on the same day of the same month
pub FallsOn-eq : (day n : ℕ) (d e : Date) → FallsOn day n d → FallsOn day n e → d ≡ e
FallsOn-eq day n d e f g =
    let years : d.year ≡ e.year =
      omega (arith, f.in_month, f.month_valid, g.in_month, g.month_valid) in
    let months : d.month ≡ e.month =
      omega (arith, f.in_month, f.month_valid, g.in_month, g.month_valid) in
    let days : d.day ≡ e.day =
      f.on_day ∙ (λ i. min_of day (days_in_month (years i) (months i))) ∙ sym g.on_day in
    date_eq years months days (f.at_start_of_day ∙ sym g.at_start_of_day)
