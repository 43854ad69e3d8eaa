-- ===== src/Dispatches/Week.antt =====
-- modules/report-dispatches/report-dispatches.service.ts: which week a run reports on.
use trafego_flow.Common.{ℕ, ◌+◌, ◌*◌, ◌/◌, ◌%◌, ◌≡◌, ◌≤◌, ◌<◌, arith}
use trafego_flow.Dispatches.Texts.{get_last_monday, day_ms}

-- `getUTCDay` of a time; the first of January 1970 was a Thursday.
abbrev pub utc_day_of : ℕ → ℕ
utc_day_of time = (time / day_ms + 4) % 7

-- From two weeks after the beginning of 1970, the Monday that a run reports from is a midnight, on
-- a Monday, at least seven and less than fourteen days ago.
pub get_last_monday_bounds :
    (now : ℕ)
    → 14 * day_ms ≤ now
    → (get_last_monday now (utc_day_of now) % day_ms ≡ 0)
      × (utc_day_of (get_last_monday now (utc_day_of now)) ≡ 1)
      × (get_last_monday now (utc_day_of now) + 7 * day_ms ≤ now)
      × (now < get_last_monday now (utc_day_of now) + 14 * day_ms)
unfolding get_last_monday
get_last_monday_bounds now late = ground arith
