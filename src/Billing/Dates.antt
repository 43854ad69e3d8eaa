-- ===== src/Billing/Dates.antt =====
-- modules/clients/billing/installment-dates.helper.ts: the due dates of a contract.
pub mod Calendar
pub mod Schedule
use trafego_flow.Common.{
  ℕ, zero, suc, ◌+◌, ◌-◌, ◌/◌, ◌%◌, ◌*◌, Bool, true, false, not, ◌&&◌, ◌||◌, ltb, leb, ◌==◌, List,
  [], ◌∷◌, if◌then◌else◌,
}

-- A `Date` by what `getFullYear`, `getMonth` (from 0) and `getDate` say in the server's time zone,
-- where each day of the calendar is one span of time, and the milliseconds since that day began: at
-- midnight, or at the end of a gap of the clock that holds the midnight. A `Date` that is invalid,
-- as one beyond the year 275760 is, is not modelled.
pub record Date : Type 0 where
  pub year : ℕ
  pub month : ℕ
  pub day : ℕ
  pub ms : ℕ

abbrev pub is_leap : ℕ → Bool
is_leap year = (year % 4 == 0) && (not (year % 100 == 0) || (year % 400 == 0))

-- the year that `new Date(year, …)` means: one before 100 is of the 20th century
abbrev pub full_year : ℕ → ℕ
full_year year = if ltb year 100 then 1900 + year else year

-- `new Date(year, month + 1, 0).getDate()`
abbrev pub days_in_month : (year month : ℕ) → ℕ
days_in_month year month =
    if month == 1
    then (if is_leap (full_year year) then 29 else 28)
    else if (month == 3) || (month == 5) || (month == 8) || (month == 10)
    then 30
    else 31

-- `new Date(year, month, day)` for a day up to the month's last; day 0 is the last day of the month
-- before
abbrev pub new_date : (year month day : ℕ) → Date
new_date year month (suc day) = record {
  year = full_year year;
  month = month;
  day = suc day;
  ms = 0;
}
new_date year zero zero = record { year = full_year year - 1; month = 11; day = 31; ms = 0 }
new_date year (suc month) zero = record {
  year = full_year year;
  month = month;
  day = days_in_month year month;
  ms = 0;
}

-- `a <= b`
abbrev pub date_leb : Date → Date → Bool
date_leb a b =
    ltb a.year b.year
    || ((a.year == b.year)
        && (ltb a.month b.month
            || ((a.month == b.month) && (ltb a.day b.day || ((a.day == b.day) && leb a.ms b.ms)))))

-- `Math.min`
abbrev pub min_of : ℕ → ℕ → ℕ
min_of a b = if leb a b then a else b

-- `dateForMonth`
abbrev pub date_for_month : (year month target_day : ℕ) → Date
date_for_month year month target_day =
    new_date year month (min_of target_day (days_in_month year month))

-- the loop of `generateInstallmentDates`, from `i` on, with `n` rounds left
pub dates_from : (year month due_day i n : ℕ) → List Date
dates_from year month due_day i zero = []
dates_from year month due_day i (suc n) =
    date_for_month (year + (month + i) / 12) ((month + i) % 12) due_day
    ∷ dates_from year month due_day (suc i) n

abbrev pub next_month : (year month : ℕ) → ℕ × ℕ
next_month year month = if ltb 11 (month + 1) then (year + 1, 0) else (year, month + 1)

-- the month of the first installment, and its year
pub first_month : (start : Date) (due_day : ℕ) → ℕ × ℕ
first_month start due_day =
    if date_leb (date_for_month start.year start.month due_day) start
    then next_month start.year start.month
    else (start.year, start.month)

-- `generateInstallmentDates`
unfoldable pub generate_installment_dates : (start : Date) (due_day duration_months : ℕ) → List Date
unfolding dates_from first_month
generate_installment_dates start due_day duration_months =
    let clamped = min_of due_day 30 in
    let first = first_month start clamped in dates_from first.0 first.1 clamped 0 duration_months
